-- ===== src/Pic/Remap.antt =====
-- `pic_remap` of pic.c against the initialisation sequence that the 8259 documents: a command with
-- bit 4 starts it, three data bytes set the vector, the cascade and the mode, later ones the mask.
use shad_os.Base.{ℕ, ◌%◌, ◌≡◌, refl, ◌==◌, if◌then◌else◌, [], ◌∷◌}
use shad_os.Io.{Log, Device, out8, out16, out32, in8, in16, in32}
use shad_os.Pic.{pic1, pic1_data, pic2, pic2_data, pic_remap}

pub data Stage : Type 0 where
  vector_next cascade_next mode_next ready : Stage

pub record Chip : Type 0 where
  pub stage : Stage
  pub vector : ℕ
  pub cascade : ℕ
  pub mode : ℕ
  pub mask : ℕ

unfoldable pub take_data : ℕ → Chip → Chip
take_data v c = elim c.stage [
  | vector_next ↦ record c { stage = cascade_next; vector = v }
  | cascade_next ↦ record c { stage = mode_next; cascade = v }
  | mode_next ↦ record c { stage = ready; mode = v }
  | ready ↦ record c { mask = v }
]

-- The command with its low bit set asks for the mode byte, as the kernel's does.
unfoldable pub take_command : ℕ → Chip → Chip
take_command v c = if v == 0x11 then record c { stage = vector_next } else c

-- The two chips after a write to a port.
unfoldable pub take_write : ℕ → ℕ → Chip × Chip → Chip × Chip
unfolding take_data take_command
take_write port v (a, b) =
    if port == pic1
    then (take_command v a, b)
    else if port == pic1_data
    then (take_data v a, b)
    else if port == pic2
    then (a, take_command v b)
    else if port == pic2_data
    then (a, take_data v b)
    else (a, b)

-- The chips, `c` before all accesses, after those of a log.
unfoldable pub replay : Chip × Chip → Log → Chip × Chip
unfolding take_write
replay c [] = c
replay c (out8 port v ∷ l) = take_write port v (replay c l)
replay c (out16 port v ∷ l) = replay c l
replay c (out32 port v ∷ l) = replay c l
replay c (in8 port ∷ l) = replay c l
replay c (in16 port ∷ l) = replay c l
replay c (in32 port ∷ l) = replay c l

-- A chip out of initialisation, in the mode of the 8086.
abbrev pub chip : ℕ → ℕ → ℕ → Chip
chip v k m = record { stage = ready; vector = v; cascade = k; mode = 1; mask = m }

-- What the writes of `pic_remap` make of the two chips, whatever they were.
pub pic_remap-replay :
    (dev : Device) (l : Log) (c : Chip × Chip)
    → replay c (pic_remap dev l).1
      ≡ (chip 32 4 (dev l pic1_data % 256), chip 40 2 (dev (in8 pic1_data ∷ l) pic2_data % 256))
unfolding replay pic_remap
pic_remap-replay dev l c = refl
