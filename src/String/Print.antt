-- ===== src/String/Print.antt =====
-- The number printers of string.c: what they show reads back as the number.
use shad_os.Base.{
  ℕ, zero, suc, ◌+◌, ◌-◌, ◌*◌, ◌/◌, ◌%◌, ◌<◌, ◌≤◌, ◌≡◌, ◌≢◌, refl, true, some, List, [], ◌∷◌, arith,
  ◌==◌, if◌then◌else◌, length, word, ltb, leb, Bool-cases, inl, inr, ◌∙◌, ap, bit_and,
}
use shad_os.Base.Bits.{bit_and-ones}
use shad_os.String.{put, digits_loop, write_uint, hex_loop, hex_digit, write_hex}

-- The value of a text of digits in base `k`, behind the value `acc`.
unfoldable pub value : (ℕ → ℕ) → ℕ → ℕ → List ℕ → ℕ
value digit k acc [] = acc
value digit k acc (c ∷ s) = value digit k (acc * k + digit c) s

abbrev pub decimal : ℕ → ℕ
decimal c = c - b'0'

abbrev pub IsDigits : List ℕ → Type 0
IsDigits [] = Unit {0}
IsDigits (c ∷ s) = (b'0' ≤ c) × (c ≤ b'9') × IsDigits s

-- With `k` places left, a number below ten to the `k` fits, and its digits come in front.
abbrev pow10 : ℕ → ℕ
pow10 zero = 1
pow10 (suc k) = 10 * pow10 k

last_digit :
    (n : ℕ) (tail : List ℕ)
    → value decimal 10 (n / 10) ((b'0' + n % 10) ∷ tail) ≡ value decimal 10 n tail
unfolding value
last_digit n tail =
    ap (λ x. value decimal 10 x tail) {x = n / 10 * 10 + decimal (b'0' + n % 10)} (omega arith)

low_nibble : (n : ℕ) → bit_and n 0xf ≡ n % 16
low_nibble n =
    ap (λ x. bit_and x 0xf) {x = n} {y = n / 16 * 16 + n % 16} (omega arith)
    ∙ bit_and-ones 4 (n % 16) (n / 16) (omega arith)

digits_loop-value :
    (fuel k n : ℕ) (tail : List ℕ)
    → n < pow10 k
    → k < fuel
    → length tail + k ≤ 10
    → IsDigits tail
    → (s : List ℕ) × (digits_loop fuel n tail ≡ some s)
      × IsDigits s
      × (length s ≤ 10)
      × (value decimal 10 0 s ≡ value decimal 10 n tail)
unfolding digits_loop put
digits_loop-value zero k n tail small enough fits ds = absurd (omega arith)
digits_loop-value (suc fuel) zero n tail small enough fits ds =
    let done : (n == 0) ≡ true = ground arith in
    let is_zero : 0 ≡ n = omega arith in
    rw done (tail, refl, ds, omega arith, ap (λ x. value decimal 10 x tail) is_zero)
digits_loop-value (suc fuel) (suc k) n tail small enough fits ds = elim (Bool-cases (n == 0)) [
  | inl done ↦
      let is_zero : 0 ≡ n = ground arith in
      rw done (tail, refl, ds, omega arith, ap (λ x. value decimal 10 x tail) is_zero)
  | inr more ↦
      let room : ltb (length tail) 10 ≡ true = ground arith in
      let (s, ends, ds', short, same) =
        digits_loop-value fuel k (n / 10) ((b'0' + n % 10) ∷ tail) (omega arith) (omega arith)
          (omega arith) (omega arith, omega arith, ds) in
      rw (more, room) (s, ends, ds', short, same ∙ last_digit n tail)
]

-- For a 32-bit number `terminal_write_uint` ends, writes nothing outside its buffer, and shows
-- between one and ten decimal digits whose value is the number.
pub write_uint-value :
    (n : ℕ)
    → n < word
    → (s : List ℕ) × (write_uint n ≡ some s)
      × IsDigits s
      × (length s ≤ 10)
      × (s ≢ [])
      × (value decimal 10 0 s ≡ n)
unfolding write_uint value
write_uint-value n small = elim (Bool-cases (n == 0)) [
  | inl done ↦
      rw done (b'0' ∷ [], refl, (omega arith, omega arith, tt), omega arith, λ e. cc, ground arith)
  | inr more ↦
      let (s, ends, ds, short, same) =
        digits_loop-value word 10 n [] (omega arith) (omega arith) (omega arith) tt in
      rw more (s, ends, ds, short, λ e. ground (arith, same, ap (value decimal 10 0) e), same)
]

-- The value of a digit from 0 to f.
unfoldable pub hex_value : ℕ → ℕ
hex_value c = if leb c b'9' then c - b'0' else c - b'a' + 10

hex_value-digit : (d : ℕ) → d < 16 → hex_value (hex_digit d) ≡ d
unfolding hex_value
hex_value-digit d h = ground arith

abbrev pow16 : ℕ → ℕ
pow16 zero = 1
pow16 (suc k) = 16 * pow16 k

hex_loop-value :
    (rounds n : ℕ) (tail : List ℕ)
    → n < pow16 rounds
    → (value hex_value 16 0 (hex_loop rounds n tail) ≡ value hex_value 16 n tail)
      × (length (hex_loop rounds n tail) ≡ length tail + rounds)
unfolding hex_loop value
hex_loop-value zero n tail small =
    (ap (λ x. value hex_value 16 x tail) {x = 0} {y = n} (omega arith), omega arith)
hex_loop-value (suc rounds) n tail small =
    let low : bit_and n 0xf ≡ n % 16 = low_nibble n in
    let (same, len) =
      hex_loop-value rounds (n / 16) (hex_digit (bit_and n 0xf) ∷ tail) (omega arith) in
    (
      same
          ∙ ap (λ x. value hex_value 16 x tail)
              {x = n / 16 * 16 + hex_value (hex_digit (bit_and n 0xf))} {y = n}
              (omega (
                arith,
                low,
                ap (λ x. hex_value (hex_digit x)) low,
                hex_value-digit (n % 16) (omega arith),
              )),
      omega (arith, len),
    )

-- For a 32-bit number `terminal_write_hex` shows `0x` and eight characters, whose value as
-- hexadecimal digits is the number.
pub write_hex-value :
    (n : ℕ)
    → n < word
    → (s : List ℕ) × (write_hex n ≡ b'0' ∷ b'x' ∷ s) × (length s ≡ 8) × (value hex_value 16 0 s ≡ n)
unfolding write_hex value
write_hex-value n small =
    let (same, len) = hex_loop-value 8 n [] (omega arith) in (hex_loop 8 n [], refl, len, same)
