-- ===== src/Net.antt =====
-- net.c: the ARP request. The frame stands on the stack, at an address that is a parameter.
pub mod Frame
pub mod Request
mod Tests
use shad_os.Base.{
  ℕ, ◌+◌, ◌/◌, ◌%◌, Bool, true, false, not, Option, none, some, List, [], ◌∷◌, take, ◌==◌,
  if◌then◌else◌,
}
use shad_os.Io.{Io, Device, ◌>>=◌, pure}
use shad_os.String.{Bytes, memset}
use shad_os.Heap.{Heap}
use shad_os.Rtl8139.{Rtl, rtl8139_init, rtl8139_send, get_mac}

-- What `rtl8139_init` returns is stored in `net_ready`, the first of the results.
unfoldable pub net_init :
    {H : Type 0}
    → (install : ℕ → H → H) → Device
    → Rtl
    → Heap
    → H
    → Io (Option (Bool × Rtl × Heap × H))
net_init install dev s heap h = rtl8139_init install dev s heap h

abbrev pub net_is_ready : Bool → Bool
net_is_ready net_ready = net_ready

-- Stores of a loop, or one after the other, from `dst` on.
unfoldable pub store_bytes : ℕ → List ℕ → Bytes → Bytes
store_bytes dst [] m = m
store_bytes dst (c ∷ s) m = store_bytes (dst + 1) s (λ a. if a == dst then c else m a)

unfoldable pub write_be16 : (p v : ℕ) → Bytes → Bytes
write_be16 p v m = store_bytes p (v / 256 % 256 ∷ v % 256 ∷ []) m

abbrev pub sender_ip : List ℕ
sender_ip = 10 ∷ 0 ∷ 2 ∷ 15 ∷ []

-- The stores of `net_send_arp_request` to `frame`, in their order.
unfoldable pub arp_frame : (frame : ℕ) → (src_mac target_ip : List ℕ) → Bytes → Bytes
unfolding write_be16
arp_frame frame src_mac target_ip m =
    let arp = frame + 14 in
    let to_all = memset m frame 0xff 6 in
    let from_us = store_bytes (frame + 6) src_mac to_all in
    let ethernet = write_be16 (frame + 12) 0x0806 from_us in
    let hardware = write_be16 (arp + 0) 1 ethernet in
    let protocol = write_be16 (arp + 2) 0x0800 hardware in
    let lengths = store_bytes (arp + 5) (4 ∷ []) (store_bytes (arp + 4) (6 ∷ []) protocol) in
    let opcode = write_be16 (arp + 6) 1 lengths in
    let our_mac = store_bytes (arp + 8) src_mac opcode in
    let our_ip = store_bytes (arp + 14) sender_ip our_mac in
    let no_mac = memset our_ip (arp + 18) 0x00 6 in store_bytes (arp + 24) target_ip no_mac

-- Whether the frame was handed over, for 0 and -1, with the memory and the card behind the call.
unfoldable pub net_send_arp_request :
    (net_ready : Bool) → Bytes → Rtl → (frame : ℕ) → (target_ip : List ℕ) → Io (Bool × Bytes × Rtl)
net_send_arp_request net_ready m s frame target_ip =
    if not net_ready
    then pure (false, m, s)
    else rtl8139_send (arp_frame frame (get_mac s) target_ip m) s frame 42
