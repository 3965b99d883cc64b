-- ===== src/Rtl8139/Send.antt =====
-- `rtl8139_send` of rtl8139.c: what is handed to the card.
use shad_os.Base.{
  ℕ, ◌+◌, ◌-◌, ◌*◌, ◌%◌, ◌≤◌, ◌<◌, ◌≡◌, ◌∙◌, refl, ◌⊎◌, inl, inr, Bool, true, false, ◌∷◌, ltb,
  if◌then◌else◌, arith, Bool-cases,
}
use shad_os.Base.Copy.{Apart, copy_bytes, copy_bytes-other, copy_bytes-copied}
use shad_os.Io.{Log, out32}
use shad_os.String.{Bytes}
use shad_os.String.Compare.{memset-range}
use shad_os.Rtl8139.{Rtl, port, reg_tsad0, reg_tsd0, tx_buf_size, rtl8139_send}

-- What a frame of `len` bytes at `data_at` becomes in the buffer, and the two writes that send it.
pub record Sent (m : Bytes) (s : Rtl) (data_at len : ℕ) (l : Log) (r : (Bool × Bytes × Rtl) × Log)
    : Type 0 where
  pub taken : r.0.0 ≡ true
  pub frame : (i : ℕ) → i < len → r.0.1 (s.tx_buffer + i) ≡ m (data_at + i)
  pub padding : (i : ℕ) → len ≤ i → i < 60 → r.0.1 (s.tx_buffer + i) ≡ 0
  pub others : (x : ℕ) → (x < s.tx_buffer) ⊎ (s.tx_buffer + tx_buf_size ≤ x) → r.0.1 x ≡ m x
  pub state : r.0.2 ≡ record s { tx_cur = (s.tx_cur + 1) % 4 }
  pub writes :
      r.1
      ≡ out32 (port s (reg_tsd0 + s.tx_cur * 4)) (if ltb len 60 then 60 else len)
        ∷ out32 (port s (reg_tsad0 + s.tx_cur * 4)) s.tx_buffer
        ∷ l

-- A ready card, and a frame of at most 1600 bytes that lies apart from the buffer: the buffer then
-- holds the frame, followed by zeros up to 60 bytes, and no other memory changes; the descriptor
-- whose turn it is gets the buffer's address and then the length, 60 for a shorter frame, and the
-- turn goes on.
pub rtl8139_send-Sent :
    (m : Bytes) (s : Rtl) (data_at len : ℕ) (l : Log)
    → s.ready ≡ true
    → len ≤ tx_buf_size
    → Apart s.tx_buffer tx_buf_size data_at len
    → Sent m s data_at len l (rtl8139_send m s data_at len l)
unfolding rtl8139_send
rtl8139_send-Sent m s data_at len l ready fits apart =
    let small : ltb tx_buf_size len ≡ false = ground arith in
    let copied : Bytes = copy_bytes len s.tx_buffer data_at m in
    elim (Bool-cases (ltb len 60)) [
      | inl short ↦
          let pad = λ (x : ℕ). memset-range copied (s.tx_buffer + len) 0 (60 - len) x in
          rw (ready, small, short)
            (record {
              taken = refl;
              frame = λ i h.
                  (pad (s.tx_buffer + i)).1 (inl (omega arith))
                  ∙ copy_bytes-copied len s.tx_buffer data_at m i (ground arith) h;
              padding = λ i h k. (pad (s.tx_buffer + i)).0 (ground arith);
              others = λ x h.
                  (pad x).1 (ground arith)
                  ∙ copy_bytes-other len s.tx_buffer data_at m x (ground arith);
              state = refl;
              writes = rw short refl;
            })
      | inr long ↦
          rw (ready, small, long)
            (record {
              taken = refl;
              frame = λ i h. copy_bytes-copied len s.tx_buffer data_at m i (ground arith) h;
              padding = λ i h k. absurd (ground arith);
              others = λ x h. copy_bytes-other len s.tx_buffer data_at m x (ground arith);
              state = refl;
              writes = rw long refl;
            })
    ]
