-- ===== src/Pic.antt =====
-- pic.c: the two 8259 interrupt controllers.
pub mod Remap
pub mod Mask
pub mod Deliver
mod Tests
use shad_os.Base.{ℕ, ◌-◌, ◌*◌, ◌^◌, bit_and, bit_or, ltb, leb, if◌then◌else◌}
use shad_os.Base.Bits.{bit_not}
use shad_os.Io.{Io, Device, ◌>>=◌, ◌>>◌, pure, outb, inb, io_wait}

abbrev pub pic1 : ℕ
pic1 = 0x20

abbrev pub pic1_data : ℕ
pic1_data = 0x21

abbrev pub pic2 : ℕ
pic2 = 0xa0

abbrev pub pic2_data : ℕ
pic2_data = 0xa1

abbrev pub pic_eoi : ℕ
pic_eoi = 0x20

abbrev pub icw1_init : ℕ
icw1_init = 0x10

abbrev pub icw1_icw4 : ℕ
icw1_icw4 = 0x01

abbrev pub icw4_8086 : ℕ
icw4_8086 = 0x01

unfoldable pub pic_remap : Device → Io (Unit {0})
pic_remap dev = do
  mask1 ← inb dev pic1_data
  mask2 ← inb dev pic2_data
  outb pic1 (bit_or icw1_init icw1_icw4)
  io_wait
  outb pic2 (bit_or icw1_init icw1_icw4)
  io_wait
  outb pic1_data 32
  io_wait
  outb pic2_data 40
  io_wait
  outb pic1_data 4
  io_wait
  outb pic2_data 2
  io_wait
  outb pic1_data icw4_8086
  io_wait
  outb pic2_data icw4_8086
  io_wait
  outb pic1_data mask1
  outb pic2_data mask2

unfoldable pub pic_send_eoi : ℕ → Io (Unit {0})
pic_send_eoi irq = do if leb 8 irq then outb pic2 pic_eoi else pure tt; outb pic1 pic_eoi

-- The port and the line of an IRQ, and the mask with the line's bit cleared, as a `uint8_t`.
abbrev pub irq_port : ℕ → ℕ
irq_port irq = if ltb irq 8 then pic1_data else pic2_data

abbrev pub irq_line : ℕ → ℕ
irq_line irq = if ltb irq 8 then irq else irq - 8

unfoldable pub pic_unmask_irq : Device → ℕ → Io (Unit {0})
pic_unmask_irq dev irq = do
  mask ← inb dev (irq_port irq)
  outb (irq_port irq) (bit_and mask (bit_not (2 ^ irq_line irq)))
