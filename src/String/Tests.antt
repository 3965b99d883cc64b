-- ===== src/String/Tests.antt =====
-- The theorems about string.c at concrete inputs.
use shad_os.Base.{ℕ, ◌≤◌, ◌≡◌, ◌≢◌, refl, some, List, [], arith, length, if◌then◌else◌, ◌==◌}
use shad_os.Base.Text.{codes}
use shad_os.String.{Bytes, write_uint, write_hex, digits_loop, hex_loop}
use shad_os.String.Compare.{IsString}
use shad_os.String.Print.{value, decimal, IsDigits, write_uint-value}

-- "ab" at 16, "ac" at 32, and zeros elsewhere.
abbrev memory : Bytes
memory a =
    if a == 16
    then b'a'
    else if a == 17
    then b'b'
    else if a == 32
    then b'a'
    else if a == 33
    then b'c'
    else 0

abbrev ab : List ℕ
ab = codes "ab"

abbrev ac : List ℕ
ac = codes "ac"

ab-IsString : IsString memory 16 ab
ab-IsString = (refl, (omega arith), (refl, (omega arith), refl))

ac-IsString : IsString memory 32 ac
ac-IsString = (refl, (omega arith), (refl, (omega arith), refl))

shows_number : write_uint 4_294_967_295 ≡ some (codes "4294967295")
unfolding write_uint digits_loop
shows_number = refl

shows_zero : write_uint 0 ≡ some (codes "0")
unfolding write_uint digits_loop
shows_zero = refl

shows_address : write_hex 0xdead_beef ≡ codes "0xdeadbeef"
unfolding write_hex hex_loop
shows_address = refl

write_uint-value_example :
    (s : List ℕ) × (write_uint 1024 ≡ some s)
    × IsDigits s
    × (length s ≤ 10)
    × (s ≢ [])
    × (value decimal 10 0 s ≡ 1024)
write_uint-value_example = write_uint-value 1024 (omega arith)
