-- ===== src/Heap/Client.antt =====
-- `kmalloc` and `kfree` on a zone that stays at its base `a`, for code that makes several calls.
use shad_os.Base.{
  ℕ, ◌+◌, ◌-◌, ◌≤◌, ◌<◌, ◌≡◌, ◌≢◌, ◌⊎◌, ◌↔◌, ◌∙◌, inl, inr, subst, sym, some, refl, List, word,
  arith,
}
use shad_os.Heap.{Heap, header_size, heap_size, null, kmalloc, kfree}
use shad_os.Heap.Layout.{Block, Live, IsHeap, Chain-bytes}
use shad_os.Heap.Blocks.{Live-bounds, Live-ne-null}
use shad_os.Heap.Malloc.{Served, refused, served, kmalloc-Served}
use shad_os.Heap.Free.{kfree-Live}

-- A live block stands in the zone, behind the header of its own.
pub Live-zone :
    (h : Heap) (bs : List Block) (p n : ℕ)
    → IsHeap h bs
    → Live h.base bs p n
    → (h.base + header_size ≤ p) × (p + n ≤ h.base + heap_size) × (h.base + heap_size < word)
Live-zone h bs p n i live =
    let total = Chain-bytes h.mem h.base (h.base + h.total) bs i.chain in
    omega (arith, Live-bounds h.base bs p n live, total, i.whole, i.in_word)

-- Giving back `p`, or nothing for `NULL`: what was live but `p` is live still, and nothing more.
pub record Freed (a p : ℕ) (bs : List Block) (g : Heap) (r : List Block) : Type 0 where
  pub heap : IsHeap g r
  pub base : g.base ≡ a
  pub left : (q k : ℕ) → Live a r q k ↔ Live a bs q k × (q ≢ p)

pub kfree-Freed :
    (a p k : ℕ) (h : Heap) (bs : List Block)
    → h.base ≡ a
    → IsHeap h bs
    → Live a bs p k
    → (g : Heap) × (kfree p h ≡ some g) × ((r : List Block) × Freed a p bs g r)
kfree-Freed a p k h bs at i live =
    let (g, ends, base, (r, is, _, left)) =
      kfree-Live p k i (subst (λ x. Live x bs p k) (sym at) live) in
    (g, ends, (r, record { heap = is; base = base ∙ at; left = rw (base, at) at left }))

-- `p` is what a call for `n` bytes has given: a block of its own, or `NULL` and nothing.
pub record Given (a n : ℕ) (bs : List Block) (p : ℕ) (r : List Block) : Type 0 where
  pub kept : (q k : ℕ) → Live a bs q k → Live a r q k
  pub only : (q k : ℕ) → Live a r q k → (q ≡ p) ⊎ Live a bs q k
  pub fresh : (k : ℕ) → Live a bs p k → ⊥
  pub live : p ≢ null → (k : ℕ) × Live a r p k × (n ≤ k) × (a ≤ p) × (p + k ≤ a + heap_size)

Served-Given :
    (n : ℕ) (h : Heap) (bs : List Block) (p : ℕ) (g : Heap)
    → IsHeap h bs
    → Served n h bs (p, g)
    → (r : List Block) × IsHeap g r × (g.base ≡ h.base) × Given h.base n bs p r
Served-Given n h bs p g i (refused _) = (
  bs,
  i,
  refl,
  record {
    kept = λ q k live. live;
    only = λ q k live. inr live;
    fresh = λ k live. Live-ne-null h.base bs p k live refl;
    live = λ some_p. absurd (some_p refl);
  },
)
Served-Given n h bs p g i (served _ _ r some_p base is t low high apart) = (
  r,
  is,
  base,
  record {
    kept = t.kept;
    only = λ q k live. elim (t.only q k live) [ inl both ↦ inl both.0 | inr was ↦ inr was ];
    fresh = t.fresh;
    live = λ _. (t.size, t.live, omega (arith, t.enough), omega arith, high);
  },
)

pub kmalloc-Given :
    (a n : ℕ) (h : Heap) (bs : List Block)
    → n ≢ 0
    → n ≤ word - 8
    → h.base ≡ a
    → IsHeap h bs
    → (p : ℕ) × (g : Heap) × (r : List Block) × (kmalloc n h ≡ some (p, g))
      × IsHeap g r
      × (g.base ≡ a)
      × Given a n bs p r
kmalloc-Given a n h bs pos small at i =
    let ((p, g), ends, found) = kmalloc-Served n pos small i in
    let (r, is, base, outcome) = Served-Given n h bs p g i found in
    (p, g, r, ends, is, base ∙ at, subst (λ x. Given x n bs p r) at outcome)
