-- ===== src/Pci/Tests.antt =====
-- pci.c on a bus with one device: its theorems applied.
use os.Base.{ℕ, ◌≡◌, refl, out_of_fuel, ◌==◌, if◌then◌else◌}
use os.Pci.{has_id, has_class, pci_find_device_by_id, pci_find_device_by_class, config_address}
use os.Pci.Found.{SearchResult, pci_find_device_by_id_lem, pci_find_device_by_class-endless}

-- The device 2 of bus 0 is the one that the audio driver looks for; nothing else answers.
abbrev one_device : ℕ → ℕ
unfolding config_address
one_device a = if a == config_address 0 2 0 0 then 0x2415_8086 else 0xffff_ffff

pci_find_device_by_id_lem_example :
    SearchResult (has_id one_device 0x8086 0x2415) (pci_find_device_by_id one_device 0x8086 0x2415)
pci_find_device_by_id_lem_example = pci_find_device_by_id_lem one_device 0x8086 0x2415

-- No device at all.
pci_find_device_by_class-endless_example :
    pci_find_device_by_class (λ a. 0xffff_ffff) 4 3 1000 ≡ out_of_fuel
unfolding has_class
pci_find_device_by_class-endless_example =
    pci_find_device_by_class-endless (λ a. 0xffff_ffff) 4 3 1000 (λ b d f ltb ltd ltf. refl)
