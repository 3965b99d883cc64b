-- ===== src/Heap/Layout.antt =====
-- The abstract view of the heap of heap.c: the blocks in address order, and what it means that the
-- headers in memory hold them.
use shad_os.Base.{
  ℕ, ◌+◌, ◌*◌, ◌≤◌, ◌<◌, ◌≡◌, ◌∙◌, Bool, false, List, [], ◌∷◌, ◌⊎◌, arith, length, word,
}
use shad_os.Heap.{Header, Mem, Heap, header_size, heap_size, null, write}

pub record Block : Type 0 where
  pub size : ℕ
  pub free : Bool

abbrev pub block : ℕ → Bool → Block
block n f = record { size = n; free = f }

abbrev pub header : Block → ℕ → Header
header b q = record { size = b.size; free = b.free; next = q }

-- The address behind a block that stands at `a`.
abbrev pub after : ℕ → Block → ℕ
after a b = a + header_size + b.size

-- The pointer to the blocks `bs` that stand at `a`.
abbrev pub link : ℕ → List Block → ℕ
link a [] = null
link a (b ∷ bs) = a

-- From `a` on the headers hold the blocks `bs`, which fill the memory up to `e`.
abbrev pub Chain : Mem → (a e : ℕ) → List Block → Type 0
Chain m a e [] = a ≡ e
Chain m a e (b ∷ bs) = (m a ≡ header b (link (after a b) bs)) × Chain m (after a b) e bs

-- The bytes that the blocks take, headers included.
abbrev pub bytes : List Block → ℕ
bytes [] = 0
bytes (b ∷ bs) = header_size + b.size + bytes bs

pub Chain-bytes : (m : Mem) (a e : ℕ) (bs : List Block) → Chain m a e bs → a + bytes bs ≡ e
Chain-bytes m a e [] c = omega arith
Chain-bytes m a e (b ∷ bs) c = omega (arith, Chain-bytes m (after a b) e bs c.1)

pub length-le-bytes : (bs : List Block) → length bs * header_size ≤ bytes bs
length-le-bytes [] = omega arith
length-le-bytes (b ∷ bs) = omega (arith, length-le-bytes bs)

-- A chain depends on the memory from its start on only.
pub Chain-frame :
    (m g : Mem) (a e : ℕ) (bs : List Block)
    → ((x : ℕ) → a ≤ x → g x ≡ m x)
    → Chain m a e bs
    → Chain g a e bs
Chain-frame m g a e [] same c = c
Chain-frame m g a e (b ∷ bs) same c =
    (same a (omega arith) ∙ c.0, Chain-frame m g (after a b) e bs (λ x h. same x (omega arith)) c.1)

pub write_self : (m : Mem) (p : ℕ) (h : Header) → write m p h p ≡ h
unfolding write
write_self m p h = ground arith

pub write_above : (m : Mem) (p x : ℕ) (h : Header) → p < x → write m p h x ≡ m x
unfolding write
write_above m p x h l = ground arith

pub write_below : (m : Mem) (p x : ℕ) (h : Header) → x < p → write m p h x ≡ m x
unfolding write
write_below m p x h l = ground arith

-- `p` is the address that `kmalloc` gave for a block of the chain that is in use, and `n` its size.
abbrev pub Live : ℕ → List Block → (p n : ℕ) → Type 0
Live a [] p n = ⊥
Live a (b ∷ bs) p n =
    ((b.free ≡ false) × (p ≡ a + header_size) × (n ≡ b.size)) ⊎ Live (after a b) bs p n

-- The heap of heap.c holds the blocks `bs`: they fill the zone of `heap_init`, which has an address
-- other than `NULL` and ends below the last address.
pub record IsHeap (h : Heap) (bs : List Block) : Type 0 where
  pub at_base : h.start ≡ h.base
  pub not_null : 0 < h.base
  pub in_word : h.base + h.total < word
  pub whole : h.total ≡ heap_size
  pub chain : Chain h.mem h.base (h.base + h.total) bs
