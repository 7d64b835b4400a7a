-- ===== src/Dmx/Tests.antt =====
-- dmx.c on concrete data: its theorem applied.
use os.Base.{ℕ, ◌%◌, ◌≡◌, List, ◌∷◌, ◌++◌}
use os.Dmx.{dmx_slots, start_code, bits_size, all_bits, dmx_write}
use os.Dmx.Frames.{on_line, frames, dmx_write_lem}

abbrev ramp : ℕ → ℕ
ramp i = i % 8

abbrev unset : ℕ → ℕ
unset i = 0

dmx_write_lem_example :
    (bytes : List ℕ) × (dmx_write ramp unset ≡ 0 ∷ 0 ∷ bytes)
    × (on_line bytes ≡ start_code ++ frames ramp 0 dmx_slots)
    × (all_bits ramp unset bits_size ≡ 1)
dmx_write_lem_example = dmx_write_lem ramp unset
