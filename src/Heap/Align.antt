-- ===== src/Heap/Align.antt =====
-- `align_up` of heap.c at the alignments that the kernel uses, its wrap-around included.
use shad_os.Base.{ℕ, ◌+◌, ◌-◌, ◌*◌, ◌/◌, ◌%◌, ◌≤◌, ◌<◌, ◌≡◌, ap, bit_and, arith, word}
use shad_os.Base.Bits.{bit_not, ones, pow2, bit_and-ones, bit_and-high, page_floor}
use shad_os.Heap.{align_up, alignment}

split_at : (p x : ℕ) → 0 < p → x ≡ x / p * p + x % p
split_at p x h = grind arith

-- `x & ~7`.
eight_floor : (x : ℕ) → x < word → bit_and x (bit_not 7) ≡ x / 8 * 8
eight_floor x h = omega (
  arith,
  bit_and-high 3 (x % 8) (x / 8) 0x1fff_ffff (omega arith),
  bit_and-ones 29 (x / 8) 0 (omega arith),
  ap (λ y. bit_and y (bit_not 7)) (split_at 8 x (omega arith)),
  ap (λ y. bit_and y (ones 29)) {x = 0 * pow2 29 + x / 8} {y = x / 8} (omega arith),
)

-- Up to 7 bytes below the end of the address space, the next multiple of 8.
pub align_up_eight : (n : ℕ) → n ≤ word - 8 → align_up n alignment ≡ (n + 7) / 8 * 8
unfolding align_up
align_up_eight n h = omega (
  arith,
  eight_floor ((n + 8 - 1) % word) (omega arith),
  ap (λ y. bit_and y (bit_not 7)) {x = (n + 8 - 1) % word} {y = n + 7} (omega arith),
)

-- Above, the sum wraps and nothing is left.
pub align_up_wraps : (n : ℕ) → word - 8 < n → n < word → align_up n alignment ≡ 0
unfolding align_up
align_up_wraps n h below = omega (arith, eight_floor ((n + 8 - 1) % word) (omega arith))

pub align_up_page : (n : ℕ) → n ≤ word - 4096 → align_up n 4096 ≡ (n + 4095) / 4096 * 4096
unfolding align_up
align_up_page n h = omega (
  arith,
  page_floor ((n + 4096 - 1) % word) (omega arith),
  ap (λ y. bit_and y (bit_not 0xfff)) {x = (n + 4096 - 1) % word} {y = n + 4095} (omega arith),
)
