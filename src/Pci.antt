-- ===== src/Pci.antt =====
-- pci.c: the search for a device on the PCI buses.
--
-- `config` is what the data port reads when the address port holds an address: the devices'
-- configuration space, which reading leaves as it is.
pub mod Found
mod Tests
use os.Base.{
  ℕ, zero, suc, ◌+◌, ◌-◌, ◌*◌, ◌/◌, ◌%◌, Bool, ◌&&◌, Option, none, some, Outcome, ok, panic,
  out_of_fuel, ltb, ◌==◌, if◌then◌else◌,
}

abbrev pub max_buses : ℕ
max_buses = 256

abbrev pub max_devices_per_bus : ℕ
max_devices_per_bus = 32

abbrev pub max_functions : ℕ
max_functions = 8

-- The address of a register, for a device below 32 and a function below 8: the fields that the
-- source joins with `|` are apart.
unfoldable pub config_address : ℕ → ℕ → ℕ → ℕ → ℕ
config_address bus device function offset =
    0x8000_0000 + bus * 0x1_0000 + device * 0x800 + function * 0x100 + (offset - offset % 4)

-- The bus, device and function numbers of a struct pci_func.
abbrev pub Location : Type 0
Location = ℕ × ℕ × ℕ

-- A loop `for( i = ...; ...; i++ )` that a return in its body ends, with the rounds that are left.
pub first : (ℕ → Option Location) → ℕ → ℕ → Option Location
first body i zero = none
first body i (suc n) =
    let rest = first body (i + 1) n in elim (body i) [ none ↦ rest | some l ↦ some l ]

module _ (config : ℕ → ℕ) where
  pub pci_read_config : ℕ → ℕ → ℕ → ℕ → ℕ
  unfolding config_address
  pci_read_config bus device function offset = config (config_address bus device function offset)

  -- `(v & 0xFFFF) == vendor_id && ((v >> 16) & 0xFFFF) == device_id`
  pub has_id : ℕ → ℕ → Location → Bool
  unfolding pci_read_config
  has_id vendor device (b, d, f) =
      let v = pci_read_config b d f 0 in
      (v % 0x1_0000 == vendor) && (v / 0x1_0000 % 0x1_0000 == device)

  -- `found_base == base_class && found_sub == sub_class`
  pub has_class : ℕ → ℕ → Location → Bool
  unfolding pci_read_config
  has_class base sub (b, d, f) =
      let found = pci_read_config b d f 8 / 0x100 in
      (found / 0x1_0000 % 0x100 == base) && (found / 0x100 % 0x100 == sub)

-- The loop over the functions of a device, and over the devices of a bus.
pub on_device : (Location → Bool) → ℕ → ℕ → Option Location
unfolding first
on_device matches b d =
    first (λ f. if matches (b, d, f) then some (b, d, f) else none) 0 max_functions

pub on_bus : (Location → Bool) → ℕ → Option Location
unfolding first on_device
on_bus matches b = first (on_device matches b) 0 max_devices_per_bus

-- The location found, for which pci_func_enable is called and 0 returned; `none` is the return of -1.
pub pci_find_device_by_id : (ℕ → ℕ) → ℕ → ℕ → Option Location
unfolding first on_bus has_id
pci_find_device_by_id config vendor device =
    first (on_bus (has_id config vendor device)) 0 max_buses

-- The loop over the buses, on fuel. Its counter `b` is a uint8_t: after 255 comes 0. `none` is the
-- return of -1.
pub any_bus : (Location → Bool) → ℕ → ℕ → Outcome (Option Location)
unfolding on_bus
any_bus matches b zero = out_of_fuel
any_bus matches b (suc fuel) =
    let rest = any_bus matches ((b + 1) % 0x100) fuel in
    if ltb b max_buses
    then (elim (on_bus matches b) [ none ↦ rest | some l ↦ ok (some l) ])
    else ok none

pub pci_find_device_by_class : (ℕ → ℕ) → ℕ → ℕ → ℕ → Outcome (Option Location)
unfolding any_bus has_class
pci_find_device_by_class config base sub = any_bus (has_class config base sub) 0
