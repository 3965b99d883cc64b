-- ===== src/Rtl8139/Init.antt =====
-- What `rtl8139_init` of rtl8139.c does, with the two calls of `kmalloc` in it.
use shad_os.Base.{ℕ, ◌≤◌, ◌≡◌, ◌≢◌, ◌⊎◌, Bool, true, false, Option, none, some, List, length}
use shad_os.Heap.{Heap, null}
use shad_os.Heap.Layout.{Block, Live, IsHeap}
use shad_os.Pci.{Place}
use shad_os.Rtl8139.{Rtl, rx_buf_size, tx_buf_size}

-- The card is awake, and nothing but its port and its address has changed in the driver.
pub record Woken (s t : Rtl) : Type 0 where
  pub same : t ≡ record s { io_base = t.io_base; mac = t.mac }
  pub address : length t.mac ≡ 6

module _ {H : Type 0} (install : ℕ → H → H) where
  -- What `rtl8139_init` returns and leaves, where `found` is what the search on the bus has given.
  pub data Initialized (found : Option Place) (s : Rtl) (heap : Heap) (bs : List Block) (h : H)
      : Bool × Rtl × Heap × H → Type 0 where
    missing : found ≡ none → Initialized found s heap bs h (false, s, heap, h)
    exhausted :
        (p : Place) (t : Rtl) (rx tx : ℕ) (g : Heap) (r : List Block)
        → found ≡ some p
        → Woken s t
        → (rx ≡ null) ⊎ (tx ≡ null)
        → IsHeap g r
        → ((q k : ℕ) → Live heap.base bs q k → Live heap.base r q k)
        → Initialized found s heap bs h (false, record t { rx_buffer = rx; tx_buffer = tx }, g, h)
    started :
        (p : Place) (t : Rtl) (rx tx n k line : ℕ) (g : Heap) (r : List Block)
        → found ≡ some p
        → Woken s t
        → IsHeap g r
        → Live heap.base r rx n
        → rx_buf_size ≤ n
        → Live heap.base r tx k
        → tx_buf_size ≤ k
        → rx ≢ tx
        → ((j : ℕ) → Live heap.base bs rx j → ⊥)
        → ((j : ℕ) → Live heap.base bs tx j → ⊥)
        → ((q j : ℕ) → Live heap.base bs q j → Live heap.base r q j)
        → Initialized found s heap bs h (
          true,
          record t { rx_buffer = rx; tx_buffer = tx; rx_offset = 0; ready = true },
          g,
          install line h,
        )
