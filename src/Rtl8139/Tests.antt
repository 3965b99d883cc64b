-- ===== src/Rtl8139/Tests.antt =====
-- The theorems about rtl8139.c at concrete inputs.
use shad_os.Base.{◌+◌, ◌%◌, refl, inr, true, [], arith, ◌==◌, if◌then◌else◌}
use shad_os.Io.{Device}
use shad_os.String.{Bytes}
use shad_os.Rtl8139.{Rtl, Dma, reg_isr, rtl_irq_handler, rtl8139_send}
use shad_os.Rtl8139.Receive.{Received, IsRing, rtl_irq_handler-Received}
use shad_os.Heap.{Heap}
use shad_os.Rtl8139.Send.{Sent, rtl8139_send-Sent}

-- A card with its buffers at 4 and 5 MiB, near the end of the ring.
abbrev card : Rtl
card = record {
  io_base = 0xc000;
  mac = [];
  rx_buffer = 0x40_0000;
  tx_buffer = 0x50_0000;
  rx_offset = 8188;
  tx_cur = 3;
  ready = true;
  rx_packets_seen = 7;
}

-- A card that always has a packet, and every packet 64 bytes long.
abbrev always : Device
always l p = if p == 0xc000 + reg_isr then 1 else 0

abbrev ring : Dma
ring l a = if a % 4 == 2 then 64 else 0

at_end-IsRing : IsRing card
at_end-IsRing = record { inside = omega arith; aligned = refl }

rtl_irq_handler-Received_example : Received 64 card (rtl_irq_handler always ring card []).0
rtl_irq_handler-Received_example =
    rtl_irq_handler-Received always ring card [] (omega arith) at_end-IsRing

abbrev memory : Bytes
memory a = a % 256

rtl8139_send-Sent_example :
    Sent memory card 0x20_0000 42 [] (rtl8139_send memory card 0x20_0000 42 [])
rtl8139_send-Sent_example =
    rtl8139_send-Sent memory card 0x20_0000 42 [] refl (omega arith) (inr (omega arith))

-- Every place of the bus holds the card.
abbrev full_bus : Device
full_bus l p = 0x8139_10ec
