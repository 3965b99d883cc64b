-- ===== src/Net/Tests.antt =====
-- The theorems about net.c at concrete inputs.
use shad_os.Base.{ℕ, ◌+◌, ◌*◌, ◌%◌, ◌≡◌, refl, inr, true, List, [], ◌∷◌, ◌++◌, arith}
use shad_os.Base.Copy.{read_bytes}
use shad_os.Io.{out32}
use shad_os.String.{Bytes}
use shad_os.Rtl8139.{Rtl, port, reg_tsd0, reg_tsad0}
use shad_os.Net.{net_send_arp_request}
use shad_os.Net.Frame.{replicate, arp_request}
use shad_os.Net.Request.{net_send_arp_request-sent}

abbrev card : Rtl
card = record {
  io_base = 0xc000;
  mac = 0x52 ∷ 0x54 ∷ 0 ∷ 0x12 ∷ 0x34 ∷ 0x56 ∷ [];
  rx_buffer = 0x40_0000;
  tx_buffer = 0x50_0000;
  rx_offset = 0;
  tx_cur = 1;
  ready = true;
  rx_packets_seen = 0;
}

abbrev gateway : List ℕ
gateway = 10 ∷ 0 ∷ 2 ∷ 2 ∷ []

abbrev memory : Bytes
memory a = a % 256

net_send_arp_request-sent_example :
    let r = net_send_arp_request true memory card 0x20_0000 gateway [] in
    (r.0.0 ≡ true)
    × (read_bytes r.0.1 card.tx_buffer 60 ≡ arp_request card.mac gateway ++ replicate 18 0)
    × (r.1
        ≡ out32 (port card (reg_tsd0 + card.tx_cur * 4)) 60
          ∷ out32 (port card (reg_tsad0 + card.tx_cur * 4)) card.tx_buffer
          ∷ [])
net_send_arp_request-sent_example =
    net_send_arp_request-sent memory card 0x20_0000 gateway [] refl refl refl (inr (omega arith))
