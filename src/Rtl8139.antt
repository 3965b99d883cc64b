-- ===== src/Rtl8139.antt =====
-- rtl8139.c: the network card. The bytes that the card stores in the receive ring are a parameter,
-- as what its ports return is.
pub mod Receive
pub mod Send
pub mod Init
mod Tests
use shad_os.Base.{
  ℕ, zero, suc, ◌+◌, ◌-◌, ◌*◌, ◌%◌, Bool, true, false, not, ◌||◌, Option, none, some, List, [], ◌∷◌,
  bit_and, ltb, leb, ◌==◌, if◌then◌else◌, word,
}
use shad_os.Base.Bits.{bit_not}
use shad_os.Base.Copy.{copy_bytes}
use shad_os.Io.{Io, Log, Device, ◌>>=◌, ◌>>◌, pure, outb, outw, outl, inb, inw}
use shad_os.String.{Bytes, memset}
use shad_os.Heap.{Heap, kmalloc, null}
use shad_os.Pic.{pic_unmask_irq}
use shad_os.Pci.{Place, find_device, enable_bus_mastering, get_bar0, get_interrupt_line}

abbrev pub rtl_vendor_id : ℕ
rtl_vendor_id = 0x10ec

abbrev pub rtl_device_id : ℕ
rtl_device_id = 0x8139

abbrev pub reg_mac0 : ℕ
reg_mac0 = 0x00

abbrev pub reg_tsd0 : ℕ
reg_tsd0 = 0x10

abbrev pub reg_tsad0 : ℕ
reg_tsad0 = 0x20

abbrev pub reg_rbstart : ℕ
reg_rbstart = 0x30

abbrev pub reg_cmd : ℕ
reg_cmd = 0x37

abbrev pub reg_capr : ℕ
reg_capr = 0x38

abbrev pub reg_imr : ℕ
reg_imr = 0x3c

abbrev pub reg_isr : ℕ
reg_isr = 0x3e

abbrev pub reg_rcr : ℕ
reg_rcr = 0x44

abbrev pub reg_config1 : ℕ
reg_config1 = 0x52

abbrev pub rx_buf_size : ℕ
rx_buf_size = 8192 + 16 + 1500

abbrev pub tx_buf_size : ℕ
tx_buf_size = 1600

-- The static variables; `ready` is `rtl_ready`.
pub record Rtl : Type 0 where
  pub io_base : ℕ
  pub mac : List ℕ
  pub rx_buffer : ℕ
  pub tx_buffer : ℕ
  pub rx_offset : ℕ
  pub tx_cur : ℕ
  pub ready : Bool
  pub rx_packets_seen : ℕ

-- `io_base + REG` as the 16 bits of a port number.
abbrev pub port : Rtl → ℕ → ℕ
port s reg = (s.io_base + reg) % 0x1_0000

-- Memory after the accesses so far, which the card writes to.
abbrev pub Dma : Type 0
Dma = Log → Bytes

-- `hdr[1]`: the two bytes behind the status of the packet.
unfoldable pub packet_length : Dma → Rtl → Io ℕ
packet_length dma s l =
    let hdr = s.rx_buffer + s.rx_offset in
    (dma l ((hdr + 2) % word) % 0x100 + 0x100 * (dma l ((hdr + 3) % word) % 0x100), l)

-- The offset of the next packet.
unfoldable pub advance : ℕ → ℕ → ℕ
advance offset length =
    let past = bit_and ((offset + length + 4 + 3) % word) (bit_not 3) in
    if leb 8192 past then past - 8192 else past

unfoldable pub take_packet : Rtl → ℕ → Rtl
take_packet s length = record s {
  rx_offset = advance s.rx_offset length;
  rx_packets_seen = (s.rx_packets_seen + 1) % word;
}

-- The loop of the handler: `left` is 64 less `guard`, which is tested after the read.
unfoldable pub receive_loop : Device → Dma → (left : ℕ) → Rtl → Io Rtl
unfolding packet_length advance take_packet
receive_loop dev dma zero s = inb dev (port s reg_cmd) >>= λ _. pure s
receive_loop dev dma (suc left) s =
    let rest = λ (n : ℕ). receive_loop dev dma left (take_packet s n) in
    inb dev (port s reg_cmd) >>= λ c.
    if bit_and c 1 == 0
    then (packet_length dma s >>= λ n.
        if ltb n 4 || ltb 1600 n
        then pure s
        else (outw (port s reg_capr) ((advance s.rx_offset n + word - 16) % 0x1_0000) >>= λ _.
            rest n))
    else pure s

unfoldable pub rtl_irq_handler : Device → Dma → Rtl → Io Rtl
rtl_irq_handler dev dma s = inw dev (port s reg_isr) >>= λ status.
    outw (port s reg_isr) status >>= λ _.
    if bit_and status 1 == 0 then pure s else receive_loop dev dma 64 s

-- `while ((inb(io_base + REG_CMD) & 0x10) && guard--) { }`
unfoldable pub reset_loop : Device → (cmd guard : ℕ) → Io (Unit {0})
reset_loop dev cmd zero = inb dev cmd >>= λ _. pure tt
reset_loop dev cmd (suc guard) =
    let again = reset_loop dev cmd guard in
    inb dev cmd >>= λ v. if bit_and v 0x10 == 0 then pure tt else again

-- The bytes `mac[i]` to the last of the `left` that are missing.
unfoldable pub read_mac : Device → Rtl → (left i : ℕ) → Io (List ℕ)
read_mac dev s zero i = pure []
read_mac dev s (suc left) i =
    let rest = read_mac dev s left (i + 1) in
    inb dev (port s (reg_mac0 + i)) >>= λ b. rest >>= λ bs. pure (b ∷ bs)

-- `rtl8139_init` from the stores of the two buffers on: `install` is `irq_install_handler` at this
-- driver's handler.
unfoldable pub start_card :
    {H : Type 0} → (install : ℕ → H → H) → Device → Place → Rtl → H → Io (Bool × Rtl × H)
start_card install dev p s h =
    if s.rx_buffer == null || s.tx_buffer == null then pure (false, s, h) else do
      outl (port s reg_rbstart) s.rx_buffer
      outw (port s reg_imr) 0x0005
      outl (port s reg_rcr) 0x0000_008f
      outb (port s reg_cmd) 0x0c
      line ← get_interrupt_line dev p.bus p.slot p.func
      pic_unmask_irq dev line
      pure (true, record s { rx_offset = 0; ready = true }, install line h)

-- `rtl8139_init` up to the allocation of the buffers: the state with its port and address.
unfoldable pub wake_card : Device → Place → Rtl → Io Rtl
wake_card dev p s = do
  enable_bus_mastering dev p.bus p.slot p.func
  bar ← get_bar0 dev p.bus p.slot p.func
  let t = record s { io_base = bit_and bar 0xffff_fffc }
  outb (port t reg_config1) 0x00
  outb (port t reg_cmd) 0x10
  reset_loop dev (port t reg_cmd) 1000000
  bytes ← read_mac dev t 6 0
  pure (record t { mac = bytes })

-- `rtl8139_init` from the test of what `pci_find_device` has found on: what is returned, and the
-- state, the heap and the handlers; `none` if `kmalloc` does not end.
unfoldable pub bring_up :
    {H : Type 0}
    → (install : ℕ → H → H) → Device
    → Rtl
    → Heap
    → H
    → Option Place
    → Io (Option (Bool × Rtl × Heap × H))
bring_up install dev s heap h none = pure (some (false, s, heap, h))
bring_up install dev s heap h (some p) = wake_card dev p s >>= λ t.
    elim (kmalloc rx_buf_size heap) [
      | none ↦ pure none
      | some (rx, heap1) ↦ elim (kmalloc tx_buf_size heap1) [
        | none ↦ pure none
        | some (tx, heap2) ↦
            start_card install dev p (record t { rx_buffer = rx; tx_buffer = tx }) h
            >>= λ (ok, u, h'). pure (some (ok, u, heap2, h'))
      ]
    ]

unfoldable pub rtl8139_init :
    {H : Type 0}
    → (install : ℕ → H → H) → Device
    → Rtl
    → Heap
    → H
    → Io (Option (Bool × Rtl × Heap × H))
unfolding bring_up
rtl8139_init install dev s heap h =
    find_device dev rtl_vendor_id rtl_device_id >>= λ found. bring_up install dev s heap h found

abbrev pub is_ready : Rtl → Bool
is_ready s = s.ready

abbrev pub get_mac : Rtl → List ℕ
get_mac s = s.mac

abbrev pub get_rx_count : Rtl → ℕ
get_rx_count s = s.rx_packets_seen

-- Whether the frame was sent, for 0 and -1, with the memory and the state behind the call.
unfoldable pub rtl8139_send : Bytes → Rtl → (data_at len : ℕ) → Io (Bool × Bytes × Rtl)
rtl8139_send m s data_at len =
    let copied = copy_bytes len s.tx_buffer data_at m in
    let padded_len = if ltb len 60 then 60 else len in
    let padded = if ltb len 60 then memset copied (s.tx_buffer + len) 0 (60 - len) else copied in
    if not s.ready || ltb tx_buf_size len
    then pure (false, m, s)
    else (outl (port s (reg_tsad0 + s.tx_cur * 4)) s.tx_buffer >>= λ _.
        outl (port s (reg_tsd0 + s.tx_cur * 4)) padded_len >>= λ _.
        pure (true, padded, record s { tx_cur = (s.tx_cur + 1) % 4 }))
