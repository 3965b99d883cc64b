-- ===== src/Pic/Deliver.antt =====
-- Where the interrupts of the devices arrive, once pic.c has set the controllers up.
use shad_os.Base.{
  ℕ, ◌+◌, ◌-◌, ◌*◌, ◌/◌, ◌%◌, ◌<◌, ◌≡◌, refl, ◌∙◌, ap, sym, subst, inl, inr, Bool, true, false,
  ◌&&◌, ◌||◌, Option, none, some, List, [], ◌∷◌, ltb, ◌==◌, if◌then◌else◌, Bool-cases, arith,
}
use shad_os.Base.Table.{bit}
use shad_os.Io.{Io, Log, Device, ◌>>=◌, pure, in8}
use shad_os.Pic.{pic1_data, pic2_data, pic_remap, pic_unmask_irq}
use shad_os.Pic.Remap.{
  Chip, Stage, vector_next, cascade_next, mode_next, ready, chip, replay, take_write, take_data,
  pic_remap-replay,
}
use shad_os.Pic.Mask.{pic_unmask_irq-bits}

-- The data port of a controller that is out of initialisation reads as its mask, where that is a
-- byte, as every value written to it is.
abbrev pub ReadsMasks : Device → Chip × Chip → Type 0
ReadsMasks dev c =
    (l : Log)
    → ((replay c l).0.stage ≡ ready
        → (replay c l).0.mask < 256
        → dev l pic1_data % 256 ≡ (replay c l).0.mask)
      × ((replay c l).1.stage ≡ ready
          → (replay c l).1.mask < 256
          → dev l pic2_data % 256 ≡ (replay c l).1.mask)

abbrev is_ready : Stage → Bool
is_ready vector_next = false
is_ready cascade_next = false
is_ready mode_next = false
is_ready ready = true

-- The vector on which a chip passes a line on, if it does: bit 0 of the mode byte is the mode of the
-- 8086, in which the low three bits of the vector are the line.
unfoldable pub line_vector : Chip → ℕ → Option ℕ
line_vector c j =
    if is_ready c.stage && (c.mode % 2 == 1) && (bit j c.mask == 0)
    then some (c.vector / 8 * 8 + j)
    else none

-- The slave's lines come through the line of the master that both have for the cascade.
unfoldable pub irq_vector : Chip × Chip → ℕ → Option ℕ
unfolding line_vector
irq_vector (a, b) k =
    if ltb k 8
    then line_vector a k
    else if (bit b.cascade a.cascade == 1) && (bit b.cascade a.mask == 0)
    then line_vector b (k - 8)
    else none

-- The bit of a line in the two masks.
abbrev pub mask_bit : ℕ × ℕ → ℕ → ℕ
mask_bit (m, n) k = if ltb k 8 then bit k m else bit (k - 8) n

unfoldable pub unmask_all : Device → List ℕ → Io (Unit {0})
unmask_all dev [] = pure tt
unmask_all dev (k ∷ ks) = pic_unmask_irq dev k >>= λ _. unmask_all dev ks

abbrev pub AllIrqs : List ℕ → Type 0
AllIrqs [] = Unit {0}
AllIrqs (k ∷ ks) = (k < 16) × AllIrqs ks

-- Whether a line is open once some have been opened.
abbrev pub is_open : ℕ × ℕ → List ℕ → ℕ → Bool
is_open masks [] k = mask_bit masks k == 0
is_open masks (j ∷ js) k = (k == j) || is_open masks js k

abbrev chips : ℕ × ℕ → Chip × Chip
chips (m, n) = (chip 32 4 m, chip 40 2 n)

abbrev AreBytes : ℕ × ℕ → Type 0
AreBytes (m, n) = (m < 256) × (n < 256)

pic_unmask_irq-chips :
    (dev : Device) (c : Chip × Chip) (irq : ℕ) (l : Log) (masks : ℕ × ℕ)
    → ReadsMasks dev c
    → irq < 16
    → replay c l ≡ chips masks
    → AreBytes masks
    → (after : ℕ × ℕ) × (replay c (pic_unmask_irq dev irq l).1 ≡ chips after)
      × AreBytes after
      × ((k : ℕ) → k < 16 → mask_bit after k ≡ (if k == irq then 0 else mask_bit masks k))
unfolding replay take_write take_data
pic_unmask_irq-chips dev c irq l (m, n) reads small at (byte, byte') =
    let (v, log, small_v, bits) = pic_unmask_irq-bits dev irq l small in
    elim (Bool-cases (ltb irq 8)) [
      | inl master ↦
          let read : dev l pic1_data % 256 ≡ m =
            (reads l).0 (ap (λ (x : Chip × Chip). x.0.stage) at)
              (subst (λ (x : Chip × Chip). x.0.mask < 256) (sym at) byte)
            ∙ ap (λ (x : Chip × Chip). x.0.mask) at in
          (
            (v, n),
            rw (log, master, at) refl,
            (small_v, byte'),
            λ k inside. elim (Bool-cases (ltb k 8)) [
              | inl low ↦ rw low (rw (master, read) at bits k (ground arith))
              | inr high ↦ let miss : (k == irq) ≡ false = ground arith in rw (high, miss) refl
            ],
          )
      | inr slave ↦
          let read : dev l pic2_data % 256 ≡ n =
            (reads l).1 (ap (λ (x : Chip × Chip). x.1.stage) at)
              (subst (λ (x : Chip × Chip). x.1.mask < 256) (sym at) byte')
            ∙ ap (λ (x : Chip × Chip). x.1.mask) at in
          (
            (m, v),
            rw (log, slave, at) refl,
            (byte, small_v),
            λ k inside. elim (Bool-cases (ltb k 8)) [
              | inl low ↦ let miss : (k == irq) ≡ false = ground arith in rw (low, miss) refl
              | inr high ↦
                  let same : (k - 8 == irq - 8) ≡ (k == irq) = ground arith in
                  rw high ((rw (slave, read) at bits) (k - 8) (ground arith) ∙ rw same refl)
            ],
          )
    ]

is_open-step :
    (masks mid : ℕ × ℕ) (j : ℕ) (js : List ℕ) (k : ℕ)
    → mask_bit mid k ≡ (if k == j then 0 else mask_bit masks k)
    → is_open mid js k ≡ ((k == j) || is_open masks js k)
is_open-step masks mid j [] k e = rw e (ground arith)
is_open-step masks mid j (i ∷ js) k e = ground (arith, is_open-step masks mid j js k e)

unmask_all-chips :
    (dev : Device) (c : Chip × Chip) (ks : List ℕ) (l : Log) (masks : ℕ × ℕ)
    → ReadsMasks dev c
    → AllIrqs ks
    → replay c l ≡ chips masks
    → AreBytes masks
    → (after : ℕ × ℕ) × (replay c (unmask_all dev ks l).1 ≡ chips after)
      × ((k : ℕ) → k < 16 → (mask_bit after k == 0) ≡ is_open masks ks k)
unfolding unmask_all
unmask_all-chips dev c [] l masks reads small at bytes = (masks, at, λ k inside. refl)
unmask_all-chips dev c (j ∷ js) l masks reads small at bytes =
    let (mid, first, still, opened) = pic_unmask_irq-chips dev c j l masks reads small.0 at bytes in
    let (after, rest, open_) =
      unmask_all-chips dev c js (pic_unmask_irq dev j l).1 mid reads small.1 first still in
    (after, rest, λ k inside. open_ k inside ∙ is_open-step masks mid j js k (opened k inside))

-- The masks that `pic_remap` reads.
abbrev pub start_masks : Device → Log → ℕ × ℕ
start_masks dev l = (dev l pic1_data % 256, dev (in8 pic1_data ∷ l) pic2_data % 256)

-- With ports that read as the masks: after `pic_remap` and then `pic_unmask_irq` of any lines below
-- 16, whatever the controllers were before, the interrupt of the line `k` arrives on the vector
-- 32 + k if the line was opened or its bit was clear at the start, and for a line of the slave only
-- if the same holds for line 2, its cascade; any other line's does not arrive.
pub pic_remap-irq_vector :
    (dev : Device) (c : Chip × Chip) (ks : List ℕ) (l : Log) (k : ℕ)
    → ReadsMasks dev c
    → AllIrqs ks
    → k < 16
    → irq_vector (replay c ((pic_remap dev >>= λ _. unmask_all dev ks) l).1) k ≡ (
        if is_open (start_masks dev l) ks k && (ltb k 8 || is_open (start_masks dev l) ks 2)
        then some (32 + k)
        else none)
unfolding irq_vector
pic_remap-irq_vector dev c ks l k reads small inside =
    let masks : ℕ × ℕ = start_masks dev l in
    let (after, at, opened) =
      unmask_all-chips dev c ks (pic_remap dev l).1 masks reads small (pic_remap-replay dev l c)
        (omega arith, omega arith) in
    let cascade : (bit 2 after.0 == 0) ≡ is_open masks ks 2 = opened 2 (omega arith) in
    elim (Bool-cases (ltb k 8)) [
      | inl low ↦
          let bits : bit k after.0 ≡ mask_bit after k = rw low refl in
          rw (at, low, bits, opened k inside) (ground arith)
      | inr high ↦
          let bits : bit (k - 8) after.1 ≡ mask_bit after k = rw high refl in
          let vector : 40 + (k - 8) ≡ 32 + k = ground arith in
          rw (at, high, bits, opened k inside, cascade, vector) (ground arith)
    ]
