-- ===== src/Base/Bits.antt =====
-- The C operators `&`, `|` and `~` at the masks that the kernel uses. The native `bit_and` and
-- `bit_or` compute at numerals; here are the laws at variables, from the recursion on digits.
use Prim.Native.Nat.{
  ℕ, zero, suc, ◌+◌, ◌-◌, ◌*◌, ◌/◌, ◌%◌, ◌≤◌, ◌<◌, min, max, bit_and, bit_or, digits, bitwise,
  bit_and-bitwise, bit_or-bitwise,
}
use mathlib.Core.Path.{◌≡◌, refl, ap, ap₂, ◌∙◌, sym}
use native.Mathlib.Omega.{arith}

-- `~x` on 32 bits.
abbrev pub bit_not : ℕ → ℕ
bit_not x = 0xffff_ffff - x

-- A digit operation may be given more rounds than its first number has digits.
digits-eq-bitwise :
    (z : ℕ → ℕ) (f : ℕ → ℕ → ℕ) (x y rounds fewer : ℕ)
    → (x ≤ fewer) × (x ≤ rounds)
    → digits z f rounds x y ≡ digits z f fewer x y
digits-eq-bitwise z f (suc x) y (suc r) (suc s) (p, q) =
    ap (λ high. high * 2 + f (suc x % 2) (y % 2))
      (digits-eq-bitwise z f (suc x / 2) (y / 2) r s (omega arith, omega arith))
digits-eq-bitwise z f (suc x) y zero _ (p, q) = absurd (omega arith)
digits-eq-bitwise z f (suc x) y (suc r) zero (p, q) = absurd (omega arith)
digits-eq-bitwise z f zero y (suc r) (suc s) _ = refl
digits-eq-bitwise z f zero y (suc r) zero _ = refl
digits-eq-bitwise z f zero y zero (suc s) _ = refl
digits-eq-bitwise z f zero y zero zero _ = refl

-- What `&` and `|` have in common: the law of the lowest digit, for a native operation `op` that
-- takes `f` of two digits, and gives `z` of what is left of the second number.
digit_step :
    (op : ℕ → ℕ → ℕ) (z : ℕ → ℕ) (f : ℕ → ℕ → ℕ)
    → ((x y : ℕ) → op x y ≡ bitwise z f x y)
    → ((y : ℕ) → z y ≡ z (y / 2) * 2 + f 0 (y % 2))
    → (x y : ℕ) → op x y ≡ op (x / 2) (y / 2) * 2 + f (x % 2) (y % 2)
digit_step op z f is low zero y =
    is 0 y ∙ low y ∙ ap (λ high. high * 2 + f 0 (y % 2)) (sym (is 0 (y / 2)))
digit_step op z f is low (suc x) y =
    is (suc x) y
    ∙ ap (λ high. high * 2 + f (suc x % 2) (y % 2))
        (digits-eq-bitwise z f (suc x / 2) (y / 2) x (suc x / 2) (omega arith, omega arith)
          ∙ sym (is (suc x / 2) (y / 2)))

zero-bit_and : (y : ℕ) → bit_and 0 y ≡ 0
zero-bit_and = bit_and-bitwise 0

zero-bit_or : (y : ℕ) → bit_or 0 y ≡ y
zero-bit_or = bit_or-bitwise 0

pub bit_or_step : (x y : ℕ) → bit_or x y ≡ bit_or (x / 2) (y / 2) * 2 + max (x % 2) (y % 2)
bit_or_step = digit_step bit_or (λ y. y) max bit_or-bitwise (λ y. omega arith)

pub bit_and_step : (x y : ℕ) → bit_and x y ≡ bit_and (x / 2) (y / 2) * 2 + min (x % 2) (y % 2)
bit_and_step = digit_step bit_and (λ y. 0) min bit_and-bitwise (λ y. omega arith)

-- `2 ^ k - 1`, by recursion on the number of ones.
abbrev pub ones : ℕ → ℕ
ones zero = 0
ones (suc k) = ones k * 2 + 1

abbrev pub pow2 : ℕ → ℕ
pow2 zero = 1
pow2 (suc k) = pow2 k * 2

bit_and-zero_below : (n a : ℕ) → a ≤ n → bit_and a 0 ≡ 0
bit_and-zero_below n zero h = refl
bit_and-zero_below zero (suc a) h = absurd (omega arith)
bit_and-zero_below (suc n) (suc a) h =
    omega (arith, bit_and_step (suc a) 0, bit_and-zero_below n (suc a / 2) (omega arith))

pub bit_and-zero : (a : ℕ) → bit_and a 0 ≡ 0
bit_and-zero a = bit_and-zero_below a a (omega arith)

bit_or-zero_below : (n a : ℕ) → a ≤ n → bit_or a 0 ≡ a
bit_or-zero_below n zero h = refl
bit_or-zero_below zero (suc a) h = absurd (omega arith)
bit_or-zero_below (suc n) (suc a) h =
    omega (arith, bit_or_step (suc a) 0, bit_or-zero_below n (suc a / 2) (omega arith))

pub bit_or-zero : (a : ℕ) → bit_or a 0 ≡ a
bit_or-zero a = bit_or-zero_below a a (omega arith)

halves : (b p a : ℕ) → (b * (p * 2) + a) / 2 ≡ b * p + a / 2
halves b p a = omega arith

half_even : (b p : ℕ) → b * (p * 2) / 2 ≡ b * p
half_even b p = omega arith

page_split : (x : ℕ) → x ≡ x / 4096 * 4096 + x % 4096
page_split x = omega arith

half_odd : (m : ℕ) → (m * 2 + 1) / 2 ≡ m
half_odd m = omega arith

-- A mask of ones keeps what lies below it: `x & (2^k - 1)`.
pub bit_and-ones : (k a b : ℕ) → a < pow2 k → bit_and (b * pow2 k + a) (ones k) ≡ a
bit_and-ones zero a b h = omega (arith, bit_and-zero (b * pow2 0 + a))
bit_and-ones (suc k) a b h = omega (
  arith,
  bit_and_step (b * pow2 (suc k) + a) (ones (suc k)),
  ap (λ x. bit_and x (ones k)) (halves b (pow2 k) a),
  ap (bit_and ((b * pow2 (suc k) + a) / 2)) (half_odd (ones k)),
  bit_and-ones k (a / 2) b (omega arith),
)

-- A mask whose low digits are zero clears those of the number: `x & ~(2^k - 1)`.
pub bit_and-high :
    (k a b m : ℕ) → a < pow2 k → bit_and (b * pow2 k + a) (m * pow2 k) ≡ bit_and b m * pow2 k
bit_and-high zero a b m h =
    ap₂ bit_and {x = b * pow2 0 + a} {y = b} {u = m * pow2 0} {v = m} (omega arith) (omega arith)
    ∙ omega arith
bit_and-high (suc k) a b m h = omega (
  arith,
  bit_and_step (b * pow2 (suc k) + a) (m * pow2 (suc k)),
  ap₂ bit_and (halves b (pow2 k) a) (half_even m (pow2 k)),
  bit_and-high k (a / 2) b m (omega arith),
)

-- Flags below an aligned number are added to it: `x | flags`.
pub bit_or-high : (k a b : ℕ) → a < pow2 k → bit_or (b * pow2 k) a ≡ b * pow2 k + a
bit_or-high zero a b h =
    ap₂ bit_or {x = b * pow2 0} {y = b} {u = a} {v = 0} (omega arith) (omega arith)
    ∙ omega (arith, bit_or-zero b)
bit_or-high (suc k) a b h = omega (
  arith,
  bit_or_step (b * pow2 (suc k)) a,
  ap (λ x. bit_or x (a / 2)) (half_even b (pow2 k)),
  bit_or-high k (a / 2) b (omega arith),
)

-- A mask of enough ones changes nothing.
pub bit_and-ones_self : (k x : ℕ) → x < pow2 k → bit_and x (ones k) ≡ x
bit_and-ones_self k x h =
    ap (λ y. bit_and y (ones k)) {x = x} {y = 0 * pow2 k + x} (omega arith) ∙ bit_and-ones k x 0 h

-- High and low parts of two numbers join on their own.
pub bit_or-split :
    (k a b l m : ℕ)
    → l < pow2 k
    → m < pow2 k
    → bit_or (a * pow2 k + l) (b * pow2 k + m) ≡ bit_or a b * pow2 k + bit_or l m
bit_or-split zero a b l m hl hm =
    ap₂ bit_or {x = a * pow2 0 + l} {y = a} {u = b * pow2 0 + m} {v = b} (omega arith) (omega arith)
    ∙ omega (arith, ap₂ bit_or {x = l} {y = 0} {u = m} {v = 0} (omega arith) (omega arith))
bit_or-split (suc k) a b l m hl hm = omega (
  arith,
  bit_or_step (a * pow2 (suc k) + l) (b * pow2 (suc k) + m),
  ap₂ bit_or (halves a (pow2 k) l) (halves b (pow2 k) m),
  bit_or-split k a b (l / 2) (m / 2) (omega arith) (omega arith),
  bit_or_step l m,
)

-- `x & ~0xFFF` on 32 bits rounds down to a page.
pub page_floor : (x : ℕ) → x < 0x1_0000_0000 → bit_and x (bit_not 0xfff) ≡ x / 4096 * 4096
page_floor x h = omega (
  arith,
  bit_and-high 12 (x % 4096) (x / 4096) 0xfffff (omega arith),
  bit_and-ones 20 (x / 4096) 0 (omega arith),
  ap (λ y. bit_and y (bit_not 0xfff)) (page_split x),
  ap (λ y. bit_and y (ones 20)) {x = 0 * pow2 20 + x / 4096} {y = x / 4096} (omega arith),
)
