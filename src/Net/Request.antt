-- ===== src/Net/Request.antt =====
-- `net_send_arp_request` of net.c down to what rtl8139.c hands to the card.
use shad_os.Base.{
  ℕ, ◌+◌, ◌-◌, ◌*◌, ◌≡◌, ◌∙◌, subst, true, List, ◌∷◌, ◌++◌, length, length-append, arith,
}
use shad_os.Base.Copy.{Apart, read_bytes}
use shad_os.Io.{Log, out32}
use shad_os.String.{Bytes}
use shad_os.Rtl8139.{Rtl, port, reg_tsd0, reg_tsad0, tx_buf_size, rtl8139_send}
use shad_os.Rtl8139.Send.{rtl8139_send-Sent}
use shad_os.Net.{arp_frame, net_send_arp_request}
use shad_os.String.Range.{At, read_bytes-At, At-append, At-moved}
use shad_os.Net.Frame.{replicate, constant-At, arp_request, arp_frame-Grown}

-- With the network and the card ready, hardware addresses of 6 bytes and IP addresses of 4, and
-- the frame on the stack apart from the card's buffer: `net_send_arp_request` succeeds, the buffer
-- holds the ARP request for the address asked for, filled up with zeros to 60 bytes, and the card
-- is given the buffer's address and then that length.
pub net_send_arp_request-sent :
    (m : Bytes) (s : Rtl) (frame : ℕ) (target_ip : List ℕ) (l : Log)
    → s.ready ≡ true
    → length s.mac ≡ 6
    → length target_ip ≡ 4
    → Apart s.tx_buffer tx_buf_size frame 42
    → let r = net_send_arp_request true m s frame target_ip l in
      (r.0.0 ≡ true)
      × (read_bytes r.0.1 s.tx_buffer 60 ≡ arp_request s.mac target_ip ++ replicate 18 0)
      × (r.1
          ≡ out32 (port s (reg_tsd0 + s.tx_cur * 4)) 60
            ∷ out32 (port s (reg_tsad0 + s.tx_cur * 4)) s.tx_buffer
            ∷ l)
unfolding net_send_arp_request
net_send_arp_request-sent m s frame target_ip l ready six four apart =
    let built = arp_frame-Grown frame s.mac target_ip m six four in
    let framed : Bytes = arp_frame frame s.mac target_ip m in
    let sent = rtl8139_send-Sent framed s frame 42 l ready (omega arith) apart in
    let g : Bytes = (rtl8139_send framed s frame 42 l).0.1 in
    let filled : List ℕ = arp_request s.mac target_ip ++ replicate 18 0 in
    let held : At g s.tx_buffer filled =
      At-append g s.tx_buffer (s.tx_buffer + 42) (arp_request s.mac target_ip) (replicate 18 0)
        (omega (arith, built.size))
        (At-moved framed g frame s.tx_buffer (arp_request s.mac target_ip)
          (λ i h. sent.frame i (omega (arith, built.size))) built.held)
        (constant-At g (s.tx_buffer + 42) 0 18 (λ x low high.
          subst (λ y. g y ≡ 0) (omega arith)
            (sent.padding (x - s.tx_buffer) (omega arith) (omega arith)))) in
    let sixty : length filled ≡ 60 =
      length-append (arp_request s.mac target_ip) (replicate 18 0) ∙ omega (arith, built.size) in
    (
      sent.taken,
      subst (λ n. read_bytes g s.tx_buffer n ≡ filled) sixty
          (read_bytes-At g s.tx_buffer filled held),
      sent.writes,
    )
