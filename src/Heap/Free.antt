-- ===== src/Heap/Free.antt =====
-- `kfree` and `coalesce` of heap.c against freeing on the list of blocks.
use shad_os.Base.{
  ℕ, zero, suc, ◌+◌, ◌-◌, ◌%◌, ◌<◌, ◌≡◌, refl, ◌≢◌, ◌↔◌, ◌∙◌, sym, ap, subst, inl, inr, true, false,
  ◌&&◌, some, List, [], ◌∷◌, arith, ◌==◌, Bool-cases, length, word,
}
use shad_os.Heap.{
  Header, Mem, Heap, header_size, heap_size, null, rounds, write, absorb, coalesce_loop, kfree,
}
use shad_os.Heap.Layout.{
  Block, block, header, after, link, Chain, Chain-bytes, length-le-bytes, Chain-frame, Live, IsHeap,
  write_self, write_above, write_below,
}
use shad_os.Heap.Blocks.{Live-bounds}
use shad_os.Heap.Release.{
  join, merge_from, merge, mark_free, release, Coalesced, release-Coalesced, Live-release,
}

-- `block->free = 1` at the header at `q`.
abbrev pub freed : Mem → ℕ → Mem
freed m q = write m q (record { size = (m q).size; free = true; next = (m q).next })

link-mark_free : (p a x : ℕ) (bs : List Block) → link x (mark_free p a bs) ≡ link x bs
unfolding mark_free
link-mark_free p a x [] = refl
link-mark_free p a x (b ∷ bs) = ground arith

-- Setting the flag of a live block's header frees that block.
Chain-mark_free :
    (m : Mem) (a e : ℕ) (bs : List Block) (q n : ℕ)
    → Live a bs (q + header_size) n
    → Chain m a e bs
    → Chain (freed m q) a e (mark_free (q + header_size) a bs)
unfolding mark_free
Chain-mark_free m a e [] q n live c = absurd live
Chain-mark_free m a e (b ∷ bs) q n (inl here) c =
    let hit : (q + header_size == a + header_size) ≡ true = ground arith in
    let at : a ≡ q = omega arith in
    rw hit (
      subst (λ x. Chain (freed m x) a e (block b.size true ∷ bs)) at
        (
          write_self m a _
              ∙ ap (λ (y : Header). record { size = y.size; free = true; next = y.next }) c.0,
          Chain-frame m (freed m a) (after a b) e bs (λ x h. write_above m a x _ (omega arith)) c.1,
        ))
Chain-mark_free m a e (b ∷ bs) q n (inr later) c =
    let bounds = Live-bounds (after a b) bs (q + header_size) n later in
    let miss : (q + header_size == a + header_size) ≡ false = ground arith in
    rw miss (
      write_below m q a _ (omega arith)
          ∙ c.0
          ∙ ap (header b) (sym (link-mark_free (q + header_size) (after a b) (after a b) bs)),
      Chain-mark_free m (after a b) e bs q n later c.1,
    )

absorb-at :
    (m : Mem) (a q r : ℕ) (b c : Block)
    → m a ≡ header b q
    → m q ≡ header c r
    → b.size + (header_size + c.size) < word
    → absorb m a a ≡ header (join b c) r
unfolding absorb write
absorb-at m a q r b c at_a at_q small = ground arith

absorb-other : (m : Mem) (a x : ℕ) → x ≢ a → absorb m a x ≡ m x
unfolding absorb write
absorb-other m a x other = ground arith

-- One merge of the loop.
Chain-absorb :
    (m : Mem) (a e : ℕ) (b c : Block) (bs : List Block)
    → e < word
    → Chain m a e (b ∷ c ∷ bs)
    → Chain (absorb m a) a e (join b c ∷ bs)
Chain-absorb m a e b c bs small h =
    let far : after a b + header_size + c.size < word =
      omega (arith, Chain-bytes m (after (after a b) c) e bs h.1.1) in
    let ends : after (after a b) c ≡ after a (join b c) = omega arith in
    (
      absorb-at m a (after a b) (link (after (after a b) c) bs) b c h.0 h.1.0 (omega arith)
          ∙ ap (λ x. header (join b c) (link x bs)) ends,
      subst (λ x. Chain (absorb m a) x e bs) ends
          (Chain-frame m (absorb m a) (after (after a b) c) e bs
            (λ x l. absorb-other m a x (omega arith)) h.1.1),
    )

link-merge_from : (x : ℕ) (b : Block) (bs : List Block) → link x (merge_from b bs) ≡ x
unfolding merge_from
link-merge_from x b [] = refl
link-merge_from x b (c ∷ bs) = ground (arith, link-merge_from x (join b c) bs)

-- The loop of `coalesce` ends within one round for each block, and merges the list.
pub coalesce_loop-merge :
    (fuel : ℕ) (m : Mem) (a e : ℕ) (b : Block) (bs : List Block)
    → length bs < fuel
    → 0 < a
    → e < word
    → Chain m a e (b ∷ bs)
    → (g : Mem) × (coalesce_loop fuel m a ≡ some g)
      × Chain g a e (merge_from b bs)
      × ((x : ℕ) → x < a → g x ≡ m x)
unfolding coalesce_loop merge_from
coalesce_loop-merge zero m a e b bs enough pos small c = absurd (omega arith)
coalesce_loop-merge (suc fuel) m a e b [] enough pos small c =
    let at_a : (a == null) ≡ false = ground arith in rw (at_a, c.0) (m, refl, c, λ x l. refl)
coalesce_loop-merge (suc fuel) m a e b (d ∷ bs) enough pos small c =
    let at_a : (a == null) ≡ false = ground arith in
    let at_next : (after a b == null) ≡ false = ground arith in
    elim (Bool-cases (b.free && d.free)) [
      | inl both ↦
          let c' = Chain-absorb m a e b d bs small c in
          let (g, ends, chain, same) =
            coalesce_loop-merge fuel (absorb m a) a e (join b d) bs (omega arith) pos small c' in
          rw (at_a, c.0, at_next, c.1.0, both)
            (g, ends, chain, λ x l. same x l ∙ absorb-other m a x (omega arith))
      | inr apart ↦
          let (g, ends, chain, same) =
            coalesce_loop-merge fuel m (after a b) e d bs (omega arith) (omega arith) small c.1 in
          rw (at_a, c.0, at_next, c.1.0, apart)
            (
              g,
              ends,
              (
                same a (omega arith) ∙ c.0 ∙ ap (header b) (sym (link-merge_from (after a b) d bs)),
                chain,
              ),
              λ x l. same x (omega arith),
            )
    ]

-- The same from the start of a zone of `HEAP_SIZE` bytes, with the rounds that `kfree` gives.
coalesce-merge :
    (m : Mem) (a e : ℕ) (bs : List Block)
    → 0 < a
    → a + heap_size ≡ e
    → e < word
    → Chain m a e bs
    → (g : Mem) × (coalesce_loop rounds m a ≡ some g) × Chain g a e (merge bs)
coalesce-merge m a e [] pos whole small c = absurd (omega arith)
coalesce-merge m a e (b ∷ bs) pos whole small c =
    let (g, ends, chain, _) =
      coalesce_loop-merge rounds m a e b bs
        (omega (arith, length-le-bytes (b ∷ bs), Chain-bytes m a e (b ∷ bs) c)) pos small c in
    (g, ends, chain)

-- `kfree` of a live pointer ends and frees that block of the list, merging it with the free blocks
-- beside it.
pub kfree-release :
    (p n : ℕ) {h : Heap} {bs : List Block}
    → IsHeap h bs
    → Live h.base bs p n
    → (g : Heap) × (kfree p h ≡ some g) × IsHeap g (release p h.base bs) × (g.base ≡ h.base)
unfolding kfree release
kfree-release p n {h} {bs} i live =
    let bounds = Live-bounds h.base bs p n live in
    let in_zone = Chain-bytes h.mem h.base (h.base + h.total) bs i.chain in
    let q : ℕ = p - header_size in
    let at_p : q + header_size ≡ p = omega (arith, bounds) in
    let at_block : (p + word - header_size) % word ≡ q =
      omega (arith, bounds, in_zone, i.in_word) in
    let not_null : (p == null) ≡ false = ground arith in
    let marked =
      Chain-mark_free h.mem h.base (h.base + h.total) bs q n
        (subst (λ x. Live h.base bs x n) (sym at_p) live) i.chain in
    let (m, ends, chain) =
      coalesce-merge (freed h.mem q) h.base (h.base + h.total)
        (mark_free (q + header_size) h.base bs) i.not_null (omega (arith, i.whole)) i.in_word
        marked in
    let from_start : coalesce_loop rounds (freed h.mem q) h.start ≡ some m = rw i.at_base ends in
    (
      record h { mem = m },
      rw (not_null, at_block, from_start),
      record {
        at_base = i.at_base;
        not_null = i.not_null;
        in_word = i.in_word;
        whole = i.whole;
        chain = subst (λ x. Chain m h.base (h.base + h.total) (release x h.base bs)) at_p chain;
      },
      refl,
    )

-- On a well-formed heap `kfree` of a live pointer ends. The live blocks are then those from before
-- but that one, no two free blocks are neighbours, and the heap is well formed.
pub kfree-Live :
    (p n : ℕ) {h : Heap} {bs : List Block}
    → IsHeap h bs
    → Live h.base bs p n
    → (g : Heap) × (kfree p h ≡ some g)
      × (g.base ≡ h.base)
      × ((r : List Block) × IsHeap g r
          × Coalesced r
          × ((q k : ℕ) → Live g.base r q k ↔ Live h.base bs q k × (q ≢ p)))
kfree-Live p n {h} {bs} i live =
    let (g, ends, is, same) = kfree-release p n i live in
    (
      g,
      ends,
      same,
      (
        release p h.base bs,
        is,
        release-Coalesced p h.base bs,
        λ q k. rw same (Live-release p h.base bs q k),
      ),
    )
