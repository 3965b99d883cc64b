-- ===== src/Mouse/Screen.antt =====
-- The status line of mouse.c: what stands at each column.
use shad_os.Base.{
  ℕ, ◌+◌, ◌*◌, ◌/◌, ◌%◌, ◌<◌, ◌≡◌, List, [], ◌∷◌, arith, if◌then◌else◌, ◌==◌, ◌&&◌, Option, none,
  some,
}
use shad_os.Base.Int.{ℤ}
use shad_os.Terminal.{
  Call, Attr, put_at, put_char, set_color, write_string, write_number, backspace, initialize,
  graphics_demo, usermode_run_demo,
}
use shad_os.Mouse.{clamp999, put_num3}

-- The last character that a list of calls puts at a place, if any.
unfoldable pub shown : (row col : ℕ) → List Call → Option ℕ
shown row col [] = none
shown row col (put_at r c ch color ∷ calls) = elim (shown row col calls) [
  | some x ↦ some x
  | none ↦ if r == row && c == col then some ch else none
]
shown row col (backspace ∷ calls) = shown row col calls
shown row col (initialize ∷ calls) = shown row col calls
shown row col (graphics_demo ∷ calls) = shown row col calls
shown row col (usermode_run_demo ∷ calls) = shown row col calls
shown row col (put_char ch ∷ calls) = shown row col calls
shown row col (set_color a ∷ calls) = shown row col calls
shown row col (write_string t ∷ calls) = shown row col calls
shown row col (write_number n ∷ calls) = shown row col calls

-- `put_num3` puts three digits side by side: those of the number that it clamps to 0 and 999.
pub put_num3-shown :
    (row col : ℕ) (n : ℤ) (color : Attr)
    → (hundreds tens units : ℕ) × (shown row col (put_num3 row col n color)
        ≡ some (b'0' + hundreds))
      × (shown row (col + 1) (put_num3 row col n color) ≡ some (b'0' + tens))
      × (shown row (col + 2) (put_num3 row col n color) ≡ some (b'0' + units))
      × (hundreds < 10)
      × (tens < 10)
      × (units < 10)
      × (hundreds * 100 + tens * 10 + units ≡ clamp999 n)
unfolding put_num3 shown clamp999
put_num3-shown row col n color =
    let m : ℕ = clamp999 n in
    (
      m / 100 % 10,
      m / 10 % 10,
      m % 10,
      ground arith,
      ground arith,
      ground arith,
      omega arith,
      omega arith,
      omega arith,
      ground arith,
    )
