-- ===== src/Pic/Mask.antt =====
-- `pic_unmask_irq` of pic.c, bit by bit.
use shad_os.Base.{
  ℕ, ◌%◌, ◌^◌, ◌<◌, ◌≡◌, refl, Bool, true, ltb, bit_and, arith, ◌==◌, ==_iff, if◌then◌else◌, ◌∷◌,
}
use shad_os.Base.Bits.{bit_not}
use shad_os.Base.Table.{all_below, all_below_sound, bit}
use shad_os.Io.{Log, Device, in8, out8}
use shad_os.Pic.{irq_port, irq_line, pic_unmask_irq}

-- Clearing a bit of a byte: the bit is 0, the others are as they were.
abbrev clears : ℕ → ℕ → ℕ → Bool
clears mask line j =
    bit j (bit_and mask (bit_not (2 ^ line))) == (if j == line then 0 else bit j mask)

clears_table :
    all_below 8 (λ line. all_below 8 (λ j. all_below 256 (λ mask. clears mask line j))) ≡ true
unfolding all_below
clears_table = refl

clear_bit :
    (mask line j : ℕ)
    → mask < 256
    → line < 8
    → j < 8
    → bit j (bit_and mask (bit_not (2 ^ line))) ≡ (if j == line then 0 else bit j mask)
clear_bit mask line j m l b = (==_iff _ _).0 (
    all_below_sound 256 (λ m. clears m line j) mask
      (all_below_sound 8 (λ k. all_below 256 (λ m. clears m line k)) j
        (all_below_sound 8 (λ n. all_below 8 (λ k. all_below 256 (λ m. clears m n k))) line
          clears_table l)
        b)
      m)

stays_table :
    all_below 8 (λ line. all_below 256 (λ mask. ltb (bit_and mask (bit_not (2 ^ line))) 256)) ≡ true
unfolding all_below
stays_table = refl

clear_bit_small : (mask line : ℕ) → mask < 256 → line < 8 → bit_and mask (bit_not (2 ^ line)) < 256
clear_bit_small mask line m l =
    let small : ltb (bit_and mask (bit_not (2 ^ line))) 256 ≡ true =
      all_below_sound 256 (λ n. ltb (bit_and n (bit_not (2 ^ line))) 256) mask
        (all_below_sound 8 (λ k. all_below 256 (λ n. ltb (bit_and n (bit_not (2 ^ k))) 256)) line
          stays_table l)
        m in
    ground arith

-- For an IRQ below 16, `pic_unmask_irq` reads the mask of its controller and writes one byte back
-- there: the bit of the IRQ's line is 0 and every other bit is as it was read.
pub pic_unmask_irq-bits :
    (dev : Device) (irq : ℕ) (l : Log)
    → irq < 16
    → (v : ℕ) × ((pic_unmask_irq dev irq l).1 ≡ out8 (irq_port irq) v ∷ in8 (irq_port irq) ∷ l)
      × (v < 256)
      × ((j : ℕ)
          → j < 8
          → bit j v ≡ (if j == irq_line irq then 0 else bit j (dev l (irq_port irq) % 256)))
unfolding pic_unmask_irq
pic_unmask_irq-bits dev irq l h = (
  bit_and (dev l (irq_port irq) % 256) (bit_not (2 ^ irq_line irq)),
  refl,
  clear_bit_small (dev l (irq_port irq) % 256) (irq_line irq) (omega arith) (ground arith),
  λ j b. clear_bit (dev l (irq_port irq) % 256) (irq_line irq) j (omega arith) (ground arith) b,
)
