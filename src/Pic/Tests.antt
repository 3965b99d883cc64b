-- ===== src/Pic/Tests.antt =====
-- The theorems about pic.c at concrete inputs.
use shad_os.Base.{◌+◌, ◌≡◌, ◌&&◌, ◌||◌, ltb, none, some, [], ◌∷◌, arith, ◌==◌, if◌then◌else◌}
use shad_os.Io.{Device, ◌>>=◌}
use shad_os.Pic.{pic1_data, pic_remap}
use shad_os.Pic.Remap.{Chip, mode_next, replay}
use shad_os.Pic.Deliver.{
  ReadsMasks, irq_vector, unmask_all, is_open, start_masks, pic_remap-irq_vector,
}

-- Two chips in the middle of their initialisation, with all lines closed.
abbrev stuck : Chip
stuck = record { stage = mode_next; vector = 8; cascade = 0; mode = 0; mask = 0xff }

-- Their ports read as their masks.
abbrev controllers : Device
controllers l port =
    if port == pic1_data then (replay (stuck, stuck) l).0.mask else (replay (stuck, stuck) l).1.mask

controllers-ReadsMasks : ReadsMasks controllers (stuck, stuck)
controllers-ReadsMasks l = (λ out byte. omega arith, λ out byte. omega arith)

-- The lines that `mouse_init` opens.
pic_remap-irq_vector_example :
    irq_vector
      (replay
        (stuck, stuck)
        ((pic_remap controllers >>= λ _. unmask_all controllers (12 ∷ 2 ∷ [])) []).1)
      12
    ≡ (if is_open (start_masks controllers []) (12 ∷ 2 ∷ []) 12
          && (ltb 12 8 || is_open (start_masks controllers []) (12 ∷ 2 ∷ []) 2)
        then some (32 + 12)
        else none)
pic_remap-irq_vector_example =
    pic_remap-irq_vector controllers (stuck, stuck) (12 ∷ 2 ∷ []) [] 12 controllers-ReadsMasks
      (omega arith, (omega arith, tt)) (omega arith)
