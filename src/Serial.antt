-- ===== src/Serial.antt =====
-- serial.c: polled output on the first serial port.
pub mod Output
mod Tests
use shad_os.Base.{
  ℕ, zero, suc, ◌+◌, ◌/◌, ◌^◌, ◌*◌, ◌%◌, Bool, true, false, Option, none, some, List, [], ◌∷◌,
  bit_and, ltb, ◌-◌, ◌==◌, if◌then◌else◌,
}
use shad_os.Base.Text.{codes}
use shad_os.Io.{Io, Device, ◌>>=◌, ◌>>◌, pure, outb, inb}

abbrev pub com1 : ℕ
com1 = 0x3f8

unfoldable pub serial_init : Io (Unit {0})
serial_init = do
  outb (com1 + 1) 0x00
  outb (com1 + 3) 0x80
  outb (com1 + 0) 0x03
  outb (com1 + 1) 0x00
  outb (com1 + 3) 0x03
  outb (com1 + 2) 0x00
  outb (com1 + 4) 0x0b

-- The tests of `serial_transmit_empty` and `serial_has_data`: an `int` that C reads as a truth
-- value.
unfoldable pub transmit_empty : Device → Io ℕ
transmit_empty dev = inb dev (com1 + 5) >>= λ v. pure (bit_and v 0x20)

unfoldable pub has_data : Device → Io ℕ
has_data dev = inb dev (com1 + 5) >>= λ v. pure (bit_and v 0x01)

abbrev pub read_char : Device → Io ℕ
read_char dev = inb dev com1

-- `while (!serial_transmit_empty()) { }`: whether it has ended within `polls` rounds.
unfoldable pub wait_empty : Device → (polls : ℕ) → Io Bool
unfolding transmit_empty
wait_empty dev zero = pure false
wait_empty dev (suc polls) =
    let again = wait_empty dev polls in
    transmit_empty dev >>= λ v. if v == 0 then again else pure true

-- The number of polls is the model's; the code polls for ever.
unfoldable pub serial_putc : Device → (polls : ℕ) → ℕ → Io Bool
serial_putc dev polls c =
    wait_empty dev polls >>= λ ok. if ok then (outb com1 c >>= λ _. pure true) else pure false

-- The code behind a call that has ended; the model stops where a call has not.
abbrev pub and_then : Io Bool → Io Bool → Io Bool
and_then first second = first >>= λ ok. if ok then second else pure false

-- A string is the list of its bytes up to the `\0`; 13 is `\r` and 10 is `\n`.
unfoldable pub serial_writestring : Device → (polls : ℕ) → List ℕ → Io Bool
serial_writestring dev polls [] = pure true
serial_writestring dev polls (c ∷ s) =
    let rest = serial_writestring dev polls s in
    let rest_from_c = and_then (serial_putc dev polls c) rest in
    if c == 10 then and_then (serial_putc dev polls 13) rest_from_c else rest_from_c

-- The characters of `hex`.
abbrev pub hex_char : ℕ → ℕ
hex_char d = if ltb d 10 then b'0' + d else b'A' + (d - 10)

-- The loop of `serial_write_hex`, with `left` rounds to go: `i` is 4 (left - 1).
unfoldable pub hex_loop_down : Device → (polls n left : ℕ) → Io Bool
hex_loop_down dev polls n zero = pure true
hex_loop_down dev polls n (suc k) =
    let rest = hex_loop_down dev polls n k in
    and_then (serial_putc dev polls (hex_char (bit_and (n / 2 ^ (4 * k)) 0xf))) rest

unfoldable pub serial_write_hex : Device → (polls n : ℕ) → Io Bool
serial_write_hex dev polls n =
    and_then (serial_writestring dev polls (codes "0x")) (hex_loop_down dev polls n 8)
