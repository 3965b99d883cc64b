-- ===== src/Heap/Malloc.antt =====
-- What `kmalloc` of heap.c promises to its callers.
use shad_os.Base.{
  ℕ, ◌+◌, ◌*◌, ◌/◌, ◌-◌, ◌≤◌, ◌<◌, ◌≡◌, refl, ◌≢◌, ◌⊎◌, inl, inr, true, false, Option, none, some,
  List, [], ◌∷◌, arith, ◌==◌, word, length, Option-cases, sym, ap, ◌∙◌, subst,
}
use shad_os.Heap.{
  Heap, header_size, heap_size, alignment, null, rounds, align_up, kmalloc, kmalloc_loop,
}
use shad_os.Heap.Layout.{Block, Chain-bytes, length-le-bytes, Live, link, IsHeap}
use shad_os.Heap.Align.{align_up_eight, align_up_wraps}
use shad_os.Heap.Blocks.{
  Taken, Live-bounds, Live-apart, first_fit-Taken, has_room, is_some, is_some-first_fit,
}
use shad_os.Heap.FirstFit.{first_fit, kmalloc_loop-first_fit}

-- A heap has fewer blocks than the loops get rounds, and its first block stands at the start.
pub length-lt-rounds : {h : Heap} {bs : List Block} → IsHeap h bs → length bs < rounds
length-lt-rounds {h} {bs} i =
    omega
      (arith, i.whole, length-le-bytes bs, Chain-bytes h.mem h.base (h.base + h.total) bs i.chain)

pub link-start : {h : Heap} {bs : List Block} → IsHeap h bs → link h.base bs ≡ h.start
link-start {h} {bs = []} i = absurd (omega (arith, i.chain, i.whole))
link-start {h} {bs = b ∷ bs} i = omega (arith, i.at_base)

-- What `kmalloc` gives where first fit gives `r`: `NULL` and the heap as it was, or the block that
-- first fit takes and a heap of the blocks that it leaves, in the same zone.
abbrev pub Allocates : Heap → Option (ℕ × List Block) → ℕ × Heap → Type 0
Allocates h none (p, g) = (p ≡ null) × (g ≡ h)
Allocates h (some (q, bs)) (p, g) = (p ≡ q) × IsHeap g bs × (g.base ≡ h.base) × (g.total ≡ h.total)

-- On a well-formed heap `kmalloc` of a size other than 0 ends, and does what first fit does on the
-- list of blocks for the size that `align_up` gives.
pub kmalloc-first_fit :
    (n : ℕ) {h : Heap} {bs : List Block}
    → n ≢ 0
    → IsHeap h bs
    → (r : ℕ × Heap) × (kmalloc n h ≡ some r)
      × Allocates h (first_fit (align_up n alignment) h.base bs) r
unfolding kmalloc
kmalloc-first_fit n {h} {bs} pos i =
    let not_zero : (n == 0) ≡ false = ground arith in
    let ((p, m), ends, fit) =
      kmalloc_loop-first_fit rounds (align_up n alignment) h.mem h.base (h.base + h.total) bs
        (length-lt-rounds i) i.not_null i.in_word i.chain in
    let from_start : kmalloc_loop rounds h.mem (align_up n alignment) h.start ≡ some (p, m) =
      rw (link-start i) at ends in
    elim (Option-cases (first_fit (align_up n alignment) h.base bs)) [
      | inl full ↦
          let (is_null, same) = rw full at fit in
          ((p, record h { mem = m }), rw (not_zero, from_start), rw full (is_null, rw same))
      | inr ((q, l), found) ↦
          let fits = rw found at fit in
          (
            (p, record h { mem = m }),
            rw (not_zero, from_start),
            rw found (
              fits.0,
              record {
                at_base = i.at_base;
                not_null = i.not_null;
                in_word = i.in_word;
                whole = i.whole;
                chain = fits.1;
              },
              refl,
              refl,
            ),
          )
    ]

-- What `kmalloc` owes to a caller that asks for `n` bytes.
pub data Served (n : ℕ) (h : Heap) (bs : List Block) : ℕ × Heap → Type 0 where
  refused : has_room ((n + 7) / 8 * 8) bs ≡ false → Served n h bs (null, h)
  served :
      (p : ℕ) (g : Heap) (r : List Block)
      → p ≢ null
      → g.base ≡ h.base
      → IsHeap g r
      → (t : Taken ((n + 7) / 8 * 8) h.base bs p r) → h.base + header_size ≤ p
      → p + t.size ≤ h.base + heap_size
      → ((q k : ℕ) → Live h.base bs q k → (p + t.size ≤ q) ⊎ (q + k ≤ p))
      → Served n h bs (p, g)

-- A live block at another address lies apart.
Live-apart_fresh :
    (a : ℕ) (bs : List Block) (p n q k : ℕ)
    → Live a bs p n
    → Live a bs q k
    → q ≢ p
    → (p + n ≤ q) ⊎ (q + k ≤ p)
Live-apart_fresh a bs p n q k h i other = omega (arith, Live-apart a bs p n q k h i)

Allocates-Served :
    (n : ℕ) (h : Heap) (bs : List Block) (p : ℕ) (g : Heap) (o : Option (ℕ × List Block))
    → first_fit ((n + 7) / 8 * 8) h.base bs ≡ o
    → 0 < h.base
    → Allocates h o (p, g)
    → Served n h bs (p, g)
Allocates-Served n h bs p g none e pos (is_null, same) =
    rw (is_null, same)
      (refused (sym (is_some-first_fit ((n + 7) / 8 * 8) h.base bs) ∙ ap is_some e))
Allocates-Served n h bs p g (some (q, r)) e pos (at_q, is, same_base, same_total) =
    let taken = first_fit-Taken ((n + 7) / 8 * 8) h.base bs e in
    let bounds = Live-bounds h.base r q taken.size taken.live in
    let whole = Chain-bytes g.mem g.base (g.base + g.total) r is.chain in
    rw at_q (
      served q g r (omega (arith, bounds)) same_base is taken (omega (arith, bounds))
        (omega (arith, bounds, whole, same_base, is.whole))
        (λ x k live.
          Live-apart_fresh h.base r q taken.size x k taken.live (taken.kept x k live)
            (λ same. taken.fresh k (subst (λ y. Live h.base bs y k) same live))))

-- On a well-formed heap `kmalloc` of a size other than 0 and up to 2^32 - 8 ends. It returns
-- `NULL`, and changes nothing, if no free block holds the size rounded up to 8; else a pointer
-- that was not live, to a block of at least that size and less than 28 bytes more, which lies in
-- the zone and apart from every block that was live. Those are live still, nothing else is, and
-- the heap is well formed.
pub kmalloc-Served :
    (n : ℕ) {h : Heap} {bs : List Block}
    → n ≢ 0
    → n ≤ word - 8
    → IsHeap h bs
    → (r : ℕ × Heap) × (kmalloc n h ≡ some r) × Served n h bs r
kmalloc-Served n {h} {bs} pos small i =
    let need : ℕ = (n + 7) / 8 * 8 in
    let ((p, g), ends, found) = kmalloc-first_fit n pos i in
    let alloc = rw (align_up_eight n small) at found in
    ((p, g), ends, Allocates-Served n h bs p g (first_fit need h.base bs) refl i.not_null alloc)

-- For a size within 7 bytes of the end of the address space, which rounds up to 0: if a
-- well-formed heap has a free block, `kmalloc` returns a block of fewer than 28 bytes.
pub kmalloc-wraps :
    (n : ℕ) {h : Heap} {bs : List Block}
    → word - 8 < n
    → n < word
    → has_room 0 bs ≡ true
    → IsHeap h bs
    → (r : ℕ × Heap) × (kmalloc n h ≡ some r)
      × (r.0 ≢ null)
      × ((l : List Block) × IsHeap r.1 l × (k : ℕ) × (k < 28) × Live h.base l r.0 k)
kmalloc-wraps n {h} {bs} big below room i =
    let ((p, g), ends, found) = kmalloc-first_fit n (omega arith) i in
    let alloc = rw (align_up_wraps n big below) at found in
    elim (Option-cases (first_fit 0 h.base bs)) [
      | inl nothing ↦ absurd (cc (is_some-first_fit 0 h.base bs, ap is_some nothing))
      | inr ((q, l), hit) ↦
          let (at_q, is, _, _) = rw hit at alloc in
          let taken = first_fit-Taken 0 h.base bs hit in
          (
            (p, g),
            ends,
            omega (arith, Live-bounds h.base l q taken.size taken.live, i.not_null),
            (l, is, taken.size, omega (arith, taken.close), rw at_q taken.live),
          )
    ]
