-- ===== src/Ramfs/Buffer.antt =====
-- The two calls that ramfs.c makes of heap.c: a buffer for new data, and the old one given back.
use shad_os.Base.{
  ℕ, ◌+◌, ◌-◌, ◌*◌, ◌/◌, ◌≤◌, ◌≡◌, ◌≢◌, ◌⊎◌, ◌∙◌, refl, subst, inl, inr, true, false, not, ◌&&◌,
  some, List, ◌==◌, arith, word, Bool-cases,
}
use shad_os.Heap.{Heap, heap_size, null}
use shad_os.Heap.Layout.{Block, Live, IsHeap}
use shad_os.Heap.Blocks.{has_room, Live-ne-null, Live-not_null}
use shad_os.Heap.Malloc.{Served, refused, served, kmalloc-Served}
use shad_os.Heap.Client.{Freed, kfree-Freed}
use shad_os.Ramfs.{new_buffer, free_buffer}

-- `p` is a new buffer for `n` bytes: a block of its own, or `NULL` for none, apart from the data
-- that were live, which are live still.
pub record Buffered (n : ℕ) (h : Heap) (bs : List Block) (p : ℕ) (g : Heap) (r : List Block)
    : Type 0 where
  pub heap : IsHeap g r
  pub base : g.base ≡ h.base
  pub given : ((p ≡ null) × (n ≡ 0)) ⊎ ((k : ℕ) × Live h.base r p k × (n ≤ k))
  pub kept : (q k : ℕ) → Live h.base bs q k → Live h.base r q k
  pub other : (q k : ℕ) → Live h.base bs q k → q ≢ p
  pub clear : (q k : ℕ) → Live h.base bs q k → (n ≡ 0) ⊎ ((p + n ≤ q) ⊎ (q + k ≤ p))
  pub zone : (n ≡ 0) ⊎ ((h.base ≤ p) × (p + n ≤ h.base + heap_size))

no-Buffered : (h : Heap) (bs : List Block) → IsHeap h bs → Buffered 0 h bs null h bs
no-Buffered h bs i = record {
  heap = i;
  base = refl;
  given = inl (refl, refl);
  kept = λ q k live. live;
  other = λ q k live. Live-ne-null h.base bs q k live;
  clear = λ q k live. inl refl;
  zone = inl refl;
}

Served-Buffered :
    (n : ℕ) (h : Heap) (bs : List Block) (p : ℕ) (g : Heap)
    → p ≢ null
    → Served n h bs (p, g)
    → (r : List Block) × Buffered n h bs p g r
Served-Buffered n h bs p g some_p (refused full) = absurd (some_p refl)
Served-Buffered n h bs p g _ (served _ _ r some_p base i t low high apart) = (
  r,
  record {
    heap = i;
    base = base;
    given = inr (t.size, t.live, omega (arith, t.enough));
    kept = t.kept;
    other = λ q k live e. t.fresh k (subst (λ x. Live h.base bs x k) e live);
    clear = λ q k live. inr (omega (arith, apart q k live, t.enough));
    zone = inr (omega arith, omega (arith, t.enough));
  },
)

Served-refused :
    (n : ℕ) (h : Heap) (bs : List Block) (p : ℕ) (g : Heap)
    → p ≡ null
    → Served n h bs (p, g)
    → (g ≡ h) × (has_room ((n + 7) / 8 * 8) bs ≡ false)
Served-refused n h bs p g is_null (refused full) = (refl, full)
Served-refused n h bs p g is_null (served _ _ r some_p base i t low high apart) =
    absurd (some_p is_null)

-- The buffer of `ramfs_write`: there is one, or the heap is full and as it was.
pub new_buffer-Buffered :
    (n : ℕ) (h : Heap) (bs : List Block)
    → IsHeap h bs
    → n ≤ word - 8
    → (p : ℕ) × (g : Heap) × (new_buffer n h ≡ some (p, g))
      × (((not (n == 0) && p == null) ≡ true) × ((g ≡ h) × (has_room ((n + 7) / 8 * 8) bs ≡ false))
          ⊎ ((not (n == 0) && p == null) ≡ false) × ((r : List Block) × Buffered n h bs p g r))
unfolding new_buffer
new_buffer-Buffered n h bs i small = elim (Bool-cases (n == 0)) [
  | inl none_asked ↦
      let e : n ≡ 0 = ground arith in
      (null, h, rw none_asked refl, inr (rw none_asked refl, (bs, rw e (no-Buffered h bs i))))
  | inr asked ↦
      let ((p, g), ends, found) = kmalloc-Served n (ground arith) small i in
      elim (Bool-cases (p == null)) [
        | inl full ↦ (
          p,
          g,
          rw (asked, ends) refl,
          inl (rw (asked, full) refl, Served-refused n h bs p g (ground arith) found),
        )
        | inr there ↦ (
          p,
          g,
          rw (asked, ends) refl,
          inr (rw (asked, there) refl, Served-Buffered n h bs p g (ground arith) found),
        )
      ]
]

pub free_buffer-Freed :
    (a p : ℕ) (h : Heap) (bs : List Block)
    → h.base ≡ a
    → IsHeap h bs
    → (p ≡ null) ⊎ ((k : ℕ) × Live a bs p k)
    → (g : Heap) × (free_buffer p h ≡ some g) × ((r : List Block) × Freed a p bs g r)
unfolding free_buffer
free_buffer-Freed a p h bs at i (inl is_null) =
    let hit : (p == null) ≡ true = ground arith in
    (
      h,
      rw hit refl,
      (
        bs,
        record {
          heap = i;
          base = at;
          left = λ q k.
              (λ live. (live, λ e. Live-ne-null a bs q k live (e ∙ is_null)), λ both. both.0);
        },
      ),
    )
free_buffer-Freed a p h bs at i (inr (k, live)) =
    let miss = Live-not_null a bs p k live in
    let (g, ends, freed) = kfree-Freed a p k h bs at i live in (g, rw (miss, ends) refl, freed)
