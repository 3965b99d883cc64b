-- ===== src/Heap/Totals.antt =====
-- `heap_get_stats` of heap.c against sums over the list of blocks.
use shad_os.Base.{
  ℕ, zero, suc, ◌+◌, ◌*◌, ◌<◌, ◌≡◌, refl, ◌∙◌, inl, inr, false, some, List, [], ◌∷◌, arith, ◌==◌,
  if◌then◌else◌, Bool-cases, length, word,
}
use shad_os.Heap.{
  Mem, Heap, Stats, header_size, heap_size, null, rounds, stats_loop, heap_get_stats,
}
use shad_os.Heap.Layout.{Block, after, bytes, link, Chain, Chain-bytes, IsHeap}
use shad_os.Heap.Malloc.{length-lt-rounds, link-start}

unfoldable pub used_bytes : List Block → ℕ
used_bytes [] = 0
used_bytes (b ∷ bs) = (if b.free then 0 else b.size) + used_bytes bs

unfoldable pub free_bytes : List Block → ℕ
free_bytes [] = 0
free_bytes (b ∷ bs) = (if b.free then b.size else 0) + free_bytes bs

unfoldable pub free_count : List Block → ℕ
free_count [] = 0
free_count (b ∷ bs) = (if b.free then 1 else 0) + free_count bs

-- The numbers for the blocks `bs`, behind those counted so far.
abbrev add_blocks : Stats → List Block → Stats
add_blocks s bs = record {
  total = s.total + (used_bytes bs + free_bytes bs);
  used = s.used + used_bytes bs;
  free_bytes = s.free_bytes + free_bytes bs;
  free_blocks = s.free_blocks + free_count bs;
}

bytes-sum : (bs : List Block) → bytes bs ≡ used_bytes bs + free_bytes bs + header_size * length bs
unfolding used_bytes free_bytes
bytes-sum [] = refl
bytes-sum (b ∷ bs) = ground (arith, bytes-sum bs)

stats_loop-add_blocks :
    (fuel : ℕ) (m : Mem) (a e : ℕ) (bs : List Block) (s : Stats)
    → length bs < fuel
    → 0 < a
    → Chain m a e bs
    → s.total + bytes bs < word
    → s.total ≡ s.used + s.free_bytes
    → stats_loop fuel m (link a bs) s ≡ some (add_blocks s bs)
unfolding stats_loop used_bytes free_bytes free_count
stats_loop-add_blocks zero m a e bs s enough pos c room sum = absurd (omega arith)
stats_loop-add_blocks (suc fuel) m a e [] s enough pos c room sum = ground arith
stats_loop-add_blocks (suc fuel) m a e (b ∷ bs) s enough pos c room sum =
    let at_a : (a == null) ≡ false = ground arith in
    elim (Bool-cases b.free) [
      | inl f ↦
          rw (at_a, c.0, f)
            (stats_loop-add_blocks fuel m (after a b) e bs _ (omega arith) (omega arith) c.1
                (omega arith) (omega arith)
              ∙ ground arith)
      | inr u ↦
          rw (at_a, c.0, u)
            (stats_loop-add_blocks fuel m (after a b) e bs _ (omega arith) (omega arith) c.1
                (omega arith) (omega arith)
              ∙ ground arith)
    ]

-- On a well-formed heap `heap_get_stats` ends and gives the sums over the blocks: the total is the
-- used and the free bytes, and with a header for each block it makes up `HEAP_SIZE`.
pub heap_get_stats-blocks :
    {h : Heap} {bs : List Block}
    → IsHeap h bs
    → (s : Stats) × (heap_get_stats h ≡ some s)
      × (s.used ≡ used_bytes bs)
      × (s.free_bytes ≡ free_bytes bs)
      × (s.free_blocks ≡ free_count bs)
      × (s.total ≡ s.used + s.free_bytes)
      × (s.total + header_size * length bs ≡ heap_size)
unfolding heap_get_stats
heap_get_stats-blocks {h} {bs} i =
    let whole = Chain-bytes h.mem h.base (h.base + h.total) bs i.chain in
    (
      add_blocks (record { total = 0; used = 0; free_bytes = 0; free_blocks = 0 }) bs,
      rw (← link-start i) (
          stats_loop-add_blocks rounds h.mem h.base (h.base + h.total) bs _ (length-lt-rounds i)
            i.not_null i.chain (omega (arith, whole, i.whole)) (omega arith)),
      omega arith,
      omega arith,
      omega arith,
      omega arith,
      omega (arith, bytes-sum bs, whole, i.whole),
    )
