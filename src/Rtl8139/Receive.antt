-- ===== src/Rtl8139/Receive.antt =====
-- The receive ring of rtl8139.c: where its offset goes.
use shad_os.Base.{
  ℕ, zero, suc, ◌+◌, ◌*◌, ◌/◌, ◌%◌, ◌≤◌, ◌<◌, ◌≡◌, refl, ap, inl, inr, bit_and, ltb, leb, arith,
  ◌||◌, false, ◌==◌, ◌∷◌, word, Bool-cases,
}
use shad_os.Base.Bits.{bit_not, ones, pow2, bit_and-ones, bit_and-high}
use shad_os.Io.{Log, Device, in8}
use shad_os.Rtl8139.{
  Rtl, Dma, port, reg_cmd, reg_isr, packet_length, advance, take_packet, receive_loop,
  rtl_irq_handler,
}

split_four : (x : ℕ) → x ≡ x / 4 * 4 + x % 4
split_four x = omega arith

-- `x & ~3`.
quad_floor : (x : ℕ) → x < word → bit_and x (bit_not 3) ≡ x / 4 * 4
quad_floor x h = omega (
  arith,
  bit_and-high 2 (x % 4) (x / 4) 0x3fff_ffff (omega arith),
  bit_and-ones 30 (x / 4) 0 (omega arith),
  ap (λ y. bit_and y (bit_not 3)) (split_four x),
  ap (λ y. bit_and y (ones 30)) {x = 0 * pow2 30 + x / 4} {y = x / 4} (omega arith),
)

-- The offset of a packet: a place of the ring, at which its header does not cross the end.
pub record IsRing (s : Rtl) : Type 0 where
  pub inside : s.rx_offset < 8192
  pub aligned : s.rx_offset % 4 ≡ 0

-- `t` is `s` after at most `n` packets more.
pub record Received (n : ℕ) (s t : Rtl) : Type 0 where
  pub ring : IsRing t
  pub least : s.rx_packets_seen ≤ t.rx_packets_seen
  pub most : t.rx_packets_seen ≤ s.rx_packets_seen + n
  pub rest : t ≡ record s { rx_offset = t.rx_offset; rx_packets_seen = t.rx_packets_seen }

advance_bounds :
    (offset n : ℕ)
    → offset < 8192
    → n ≤ 1600
    → (advance offset n < 8192) × (advance offset n % 4 ≡ 0)
unfolding advance
advance_bounds offset n inside small =
    let floor = quad_floor ((offset + n + 4 + 3) % word) (omega arith) in
    elim (Bool-cases (leb 8192 ((offset + n + 4 + 3) % word / 4 * 4))) [
      | inl over ↦ rw (floor, over) (ground arith, ground arith)
      | inr under ↦ rw (floor, under) (ground arith, ground arith)
    ]

none-Received : (n : ℕ) (s : Rtl) → IsRing s → Received n s s
none-Received n s i = record { ring = i; least = omega arith; most = omega arith; rest = refl }

one-Received :
    (n k : ℕ) (s t : Rtl)
    → s.rx_packets_seen + suc n < word
    → Received n (take_packet s k) t
    → Received (suc n) s t
unfolding take_packet
one-Received n k s t room r = record {
  ring = r.ring;
  least = omega (arith, r.least);
  most = omega (arith, r.most);
  rest = r.rest;
}

step-room :
    (left n : ℕ) (s : Rtl)
    → s.rx_packets_seen + suc left < word
    → (take_packet s n).rx_packets_seen + left < word
unfolding take_packet
step-room left n s room = omega arith

step-IsRing :
    (s : Rtl) (n : ℕ) → IsRing s → ltb n 4 || ltb 1600 n ≡ false → IsRing (take_packet s n)
unfolding take_packet
step-IsRing s n i good =
    let bounds = advance_bounds s.rx_offset n i.inside (ground arith) in
    record { inside = bounds.0; aligned = bounds.1 }

receive_loop-Received :
    (dev : Device) (dma : Dma) (left : ℕ) (s : Rtl) (l : Log)
    → s.rx_packets_seen + left < word
    → IsRing s
    → Received left s (receive_loop dev dma left s l).0
unfolding receive_loop
receive_loop-Received dev dma zero s l room i = none-Received 0 s i
receive_loop-Received dev dma (suc left) s l room i =
    elim (Bool-cases (bit_and (dev l (port s reg_cmd) % 0x100) 1 == 0)) [
      | inr empty ↦ rw empty (none-Received (suc left) s i)
      | inl more ↦
          let n : ℕ = (packet_length dma s (in8 (port s reg_cmd) ∷ l)).0 in
          elim (Bool-cases (ltb n 4 || ltb 1600 n)) [
            | inl bad ↦ rw (more, bad) (none-Received (suc left) s i)
            | inr good ↦
                rw (more, good)
                  (one-Received left n s _ room (
                    receive_loop-Received dev dma left (take_packet s n) _ (step-room left n s room)
                      (step-IsRing s n i good)))
          ]
    ]

-- On a ring whose offset is a place of it, with no wrap of the count ahead: whatever the card and
-- its memory hold, the handler ends with such an offset, counts at most 64 packets, and changes
-- nothing but the offset and the count.
pub rtl_irq_handler-Received :
    (dev : Device) (dma : Dma) (s : Rtl) (l : Log)
    → s.rx_packets_seen + 64 < word
    → IsRing s
    → Received 64 s (rtl_irq_handler dev dma s l).0
unfolding rtl_irq_handler
rtl_irq_handler-Received dev dma s l room i =
    elim (Bool-cases (bit_and (dev l (port s reg_isr) % 0x1_0000) 1 == 0)) [
      | inl quiet ↦ rw quiet (none-Received 64 s i)
      | inr packet ↦ rw packet (receive_loop-Received dev dma 64 s _ room i)
    ]
