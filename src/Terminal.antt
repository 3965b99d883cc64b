-- ===== src/Terminal.antt =====
-- The calls that the kernel makes of its terminal and of the demonstrations, whose code stands
-- elsewhere: a routine that writes to the screen gives the list of its calls, in order.
use shad_os.Base.{ℕ, List}

-- `write_number` is `terminal_write_uint`, of string.c, which makes one call of `write_string`.
-- The colours that the modelled files name, and `vga_entry_color` of two of them.
pub data Color : Type 0 where
  black green red white yellow light_grey : Color

pub data Attr : Type 0 where
  vga_entry_color : (fg bg : Color) → Attr

pub data Call : Type 0 where
  put_at : (row col ch : ℕ) (color : Attr) → Call
  put_char : (ch : ℕ) → Call
  set_color : Attr → Call
  write_string : (text : List ℕ) → Call
  write_number : (n : ℕ) → Call
  backspace : Call
  initialize : Call
  graphics_demo : Call
  usermode_run_demo : Call
