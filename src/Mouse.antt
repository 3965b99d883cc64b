-- ===== src/Mouse.antt =====
-- mouse.c: the PS/2 mouse. The position is kept as signed numbers, as in the source.
pub mod Packet
pub mod Screen
mod Tests
use shad_os.Base.{
  ℕ, zero, suc, true, ◌+◌, ◌-◌, ◌*◌, ◌/◌, ◌%◌, Bool, Option, none, some, List, [], ◌∷◌, ◌++◌,
  bit_and, bit_or, ltb, ◌==◌, if◌then◌else◌,
}
use shad_os.Base.Bits.{bit_not}
use shad_os.Base.Int.{ℤ, pos, pos_part, ◌+ℤ◌, ◌-ℤ◌, ltb_ℤ, signed8}
use shad_os.Io.{Io, Log, Device, ◌>>=◌, ◌>>◌, pure, outb, inb}
use shad_os.Pic.{pic_unmask_irq}
use shad_os.Terminal.{Call, Attr, put_at, vga_entry_color, black, green, light_grey}

abbrev pub status_row : ℕ
status_row = 24

abbrev pub status_col : ℕ
status_col = 20

-- The static variables; a packet byte is kept as a byte, and read as an `int8_t`.
pub record Mouse : Type 0 where
  pub cycle : ℕ
  pub packet0 : ℕ
  pub packet1 : ℕ
  pub packet2 : ℕ
  pub x : ℤ
  pub y : ℤ
  pub buttons : ℕ
  pub ready : Bool

-- `while (timeout--) { if ((inb(0x64) & 2) == 0) return; }`
unfoldable pub wait_input : Device → ℕ → Io (Unit {0})
wait_input dev zero = pure tt
wait_input dev (suc timeout) =
    let again = wait_input dev timeout in
    inb dev 0x64 >>= λ v. if bit_and v 2 == 0 then pure tt else again

unfoldable pub wait_output : Device → ℕ → Io (Unit {0})
wait_output dev zero = pure tt
wait_output dev (suc timeout) =
    let again = wait_output dev timeout in
    inb dev 0x64 >>= λ v. if bit_and v 1 == 1 then pure tt else again

abbrev pub timeout : ℕ
timeout = 100000

unfoldable pub mouse_write : Device → ℕ → Io (Unit {0})
mouse_write dev v = do wait_input dev timeout; outb 0x64 0xd4; wait_input dev timeout; outb 0x60 v

unfoldable pub mouse_read : Device → Io ℕ
mouse_read dev = do wait_output dev timeout; inb dev 0x60

-- `if (n < 0) n = 0; if (n > 999) n = 999;`, which leaves no negative number.
unfoldable pub clamp999 : ℤ → ℕ
clamp999 n = let m = pos_part n in if ltb 999 m then 999 else m

unfoldable pub put_num3 : (row col : ℕ) → ℤ → Attr → List Call
unfolding clamp999
put_num3 row col n color =
    let m = clamp999 n in
    put_at row col (b'0' + m / 100 % 10) color
    ∷ put_at row (col + 1) (b'0' + m / 10 % 10) color
    ∷ put_at row (col + 2) (b'0' + m % 10) color
    ∷ []

-- "Mouse x=000 y=000 L M R"
abbrev pub label : List ℕ
label =
    b'M' ∷ b'o' ∷ b'u' ∷ b's' ∷ b'e' ∷ 32 ∷ b'x' ∷ b'=' ∷ b'0' ∷ b'0' ∷ b'0' ∷ 32 ∷ b'y' ∷ b'='
    ∷ b'0' ∷ b'0' ∷ b'0' ∷ 32 ∷ b'L' ∷ 32 ∷ b'M' ∷ 32 ∷ b'R' ∷ []

-- `for (i = 0; label[i] != '\0'; i++) terminal_put_at(row, col + i, label[i], base)`
unfoldable pub put_label : (row col : ℕ) → Attr → List ℕ → List Call
put_label row col color [] = []
put_label row col color (c ∷ cs) = put_at row col c color ∷ put_label row (col + 1) color cs

abbrev pub base : Attr
base = vga_entry_color light_grey black

abbrev pub on : Attr
on = vga_entry_color black green

abbrev pub button_color : ℕ → ℕ → Attr
button_color buttons mask = if bit_and buttons mask == 0 then base else on

unfoldable pub draw_status : Mouse → List Call
unfolding put_label put_num3
draw_status s =
    put_label status_row status_col base label
    ++ (put_num3 status_row (status_col + 8) s.x base
        ++ (put_num3 status_row (status_col + 14) s.y base
            ++ (put_at status_row (status_col + 18) b'L' (button_color s.buttons 0x01)
                ∷ put_at status_row (status_col + 20) b'M' (button_color s.buttons 0x04)
                ∷ put_at status_row (status_col + 22) b'R' (button_color s.buttons 0x02)
                ∷ [])))

-- `if (v < 0) v = 0; if (v > 300) v = 300;`
unfoldable pub clamp300 : ℤ → ℤ
clamp300 v =
    let w = if ltb_ℤ v (pos 0) then pos 0 else v in if ltb_ℤ (pos 300) w then pos 300 else w

-- `case 2` of the callback, its drawing aside.
unfoldable pub finish_packet : Mouse → ℕ → Mouse
unfolding clamp300
finish_packet s byte = record s {
  packet2 = byte;
  cycle = 0;
  buttons = bit_and s.packet0 0x07;
  x = clamp300 (s.x +ℤ signed8 s.packet1);
  y = clamp300 (s.y -ℤ signed8 byte);
}

-- What `mouse_callback` does with a byte, and the calls of the terminal that it makes.
unfoldable pub take_byte : Mouse → ℕ → Mouse × List Call
unfolding finish_packet
take_byte s byte =
    if s.cycle == 0
    then (if bit_and byte 0x08 == 0 then (s, []) else (record s { packet0 = byte; cycle = 1 }, []))
    else if s.cycle == 1
    then (record s { packet1 = byte; cycle = 2 }, [])
    else if s.cycle == 2
    then (let t = finish_packet s byte in (t, draw_status t))
    else (s, [])

unfoldable pub mouse_callback : Device → Mouse → Io (Mouse × List Call)
mouse_callback dev s = do byte ← inb dev 0x60; pure (take_byte s byte)

-- `while (guard-- && (inb(0x64) & 1)) inb(0x60);`
unfoldable pub flush_output_buffer : Device → ℕ → Io (Unit {0})
flush_output_buffer dev zero = pure tt
flush_output_buffer dev (suc guard) =
    let again = flush_output_buffer dev guard in
    inb dev 0x64 >>= λ v. if bit_and v 1 == 0 then pure tt else (inb dev 0x60 >>= λ _. again)

-- The status byte with IRQ12 allowed and the mouse clock on.
abbrev pub enable_mouse : ℕ → ℕ
enable_mouse status = bit_and (bit_or status 0x02) (bit_not 0x20)

-- `mouse_init` up to the installation of the handler, and from there on.
unfoldable pub init_hardware : Device → Io (Unit {0})
init_hardware dev = do
  flush_output_buffer dev 16
  outb 0x64 0xa8
  wait_input dev timeout
  outb 0x64 0x20
  status ← mouse_read dev
  wait_input dev timeout
  outb 0x64 0x60
  wait_input dev timeout
  outb 0x60 (enable_mouse status)
  mouse_write dev 0xf6
  mouse_read dev
  mouse_write dev 0xf4
  mouse_read dev
  pure tt

-- `install` is `irq_install_handler` of idt.c at the mouse's handler: a call on the handlers `h`.
unfoldable pub mouse_init :
    {H : Type 0} → (install : ℕ → H → H) → Device → Mouse → H → Io (Mouse × List Call × H)
mouse_init install dev s h = do
  init_hardware dev
  pic_unmask_irq dev 12
  pic_unmask_irq dev 2
  pure (record s { ready = true }, draw_status (record s { ready = true }), install 12 h)

-- The three stores of `mouse_get_state`, and `mouse_is_ready`.
unfoldable pub mouse_get_state : Mouse → ℤ × ℤ × ℕ
mouse_get_state s = (s.x, s.y, s.buttons)

unfoldable pub mouse_is_ready : Mouse → Bool
mouse_is_ready s = s.ready
