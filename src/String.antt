-- ===== src/String.antt =====
-- string.c: the C string functions over a memory of bytes, and the two number printers.
pub mod Compare
pub mod Range
pub mod Print
mod Tests
use shad_os.Base.{
  ℕ, zero, suc, ◌+◌, ◌-◌, ◌*◌, ◌/◌, ◌%◌, ◌≡◌, ◌≢◌, Bool, ◌&&◌, not, Option, none, some, List, [],
  ◌∷◌, bit_and, ltb, ◌==◌, if◌then◌else◌, length, word, true, false,
}
use shad_os.Base.Int.{ℤ, pos, sub_ℕ}

-- The byte at each address.
abbrev pub Bytes : Type 0
Bytes = ℕ → ℕ

-- `while (s[len]) len++`. `none`: out of fuel.
unfoldable pub strlen_loop : ℕ → Bytes → ℕ → ℕ → Option ℕ
strlen_loop zero m s len = none
strlen_loop (suc fuel) m s len =
    let rest = strlen_loop fuel m s (len + 1) in if m (s + len) == 0 then some len else rest

unfoldable pub strlen : Bytes → ℕ → Option ℕ
strlen m s = strlen_loop word m s 0

-- `while (*a && (*a == *b)) { a++; b++; }` and the difference of the last bytes.
unfoldable pub strcmp_loop : ℕ → Bytes → ℕ → ℕ → Option ℤ
strcmp_loop zero m a b = none
strcmp_loop (suc fuel) m a b =
    let rest = strcmp_loop fuel m (a + 1) (b + 1) in
    if not (m a == 0) && m a == m b then rest else some (sub_ℕ (m a) (m b))

unfoldable pub strcmp : Bytes → ℕ → ℕ → Option ℤ
strcmp m a b = strcmp_loop word m a b

-- The counter `n` falls in each round, so it serves as fuel.
unfoldable pub strncmp : Bytes → ℕ → ℕ → ℕ → ℤ
strncmp m a b zero = pos 0
strncmp m a b (suc n) =
    let rest = strncmp m (a + 1) (b + 1) n in
    if not (m a == 0) && m a == m b then rest else sub_ℕ (m a) (m b)

-- `for (i = 0; i < n; i++) d[i] = (unsigned char) val`
unfoldable pub memset : Bytes → ℕ → ℕ → ℕ → Bytes
memset m dst val zero = m
memset m dst val (suc n) = λ a. if a == dst + n then val % 256 else memset m dst val n a

-- The bytes of `buf` from index `i + 1` up to the `\0` at index 10; `buf[i--] = c` puts `c` in
-- front of them. `none`: a write below `buf`, or out of fuel.
unfoldable pub put : ℕ → List ℕ → Option (List ℕ)
put c tail = if ltb (length tail) 10 then some (c ∷ tail) else none

unfoldable pub digits_loop : ℕ → ℕ → List ℕ → Option (List ℕ)
unfolding put
digits_loop zero n tail = none
digits_loop (suc fuel) n tail =
    let rest = digits_loop fuel (n / 10) in
    if n == 0 then some tail else elim (put (b'0' + n % 10) tail) [ none ↦ none | some t ↦ rest t ]

-- What `terminal_write_uint` hands to `terminal_writestring`.
unfoldable pub write_uint : ℕ → Option (List ℕ)
unfolding put
write_uint n = if n == 0 then put b'0' [] else digits_loop word n []

abbrev pub hex_digit : ℕ → ℕ
hex_digit d = if ltb d 10 then b'0' + d else b'a' + (d - 10)

-- `for (i = 9; i >= 2; i--) { buf[i] = hex_digits[n & 0xF]; n >>= 4; }`: `rounds` is `i - 1`.
unfoldable pub hex_loop : ℕ → ℕ → List ℕ → List ℕ
hex_loop zero n tail = tail
hex_loop (suc rounds) n tail = hex_loop rounds (n / 16) (hex_digit (bit_and n 0xf) ∷ tail)

-- What `terminal_write_hex` hands to `terminal_writestring`.
unfoldable pub write_hex : ℕ → List ℕ
write_hex n = b'0' ∷ b'x' ∷ hex_loop 8 n []
