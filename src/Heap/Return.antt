-- ===== src/Heap/Return.antt =====
-- Giving back what first fit took restores the blocks, if no two neighbours were free.
use shad_os.Base.{
  ℕ, ◌+◌, ◌-◌, ◌≤◌, ◌≡◌, ◌∙◌, ap, sym, inl, inr, true, false, ◌&&◌, some, List, [], ◌∷◌, arith,
  ◌==◌, Bool-cases, Option-cases, leb,
}
use shad_os.Heap.{header_size, min_block_data}
use shad_os.Heap.Layout.{Block, block, after}
use shad_os.Heap.FirstFit.{carve, first_fit}
use shad_os.Heap.Blocks.{Live-bounds, first_fit-Taken}
use shad_os.Heap.Release.{
  join, merge_from, merge, mark_free, release, head_free, Coalesced, head-merge_from,
  merge_from_self,
}

release-carve :
    (n a : ℕ) (b : Block) (bs : List Block)
    → b.free ≡ true
    → n ≤ b.size
    → Coalesced (b ∷ bs)
    → release (a + header_size) a (carve n b bs) ≡ b ∷ bs
unfolding release carve mark_free merge_from
release-carve n a b bs free fits c =
    let here : (a + header_size == a + header_size) ≡ true = ground arith in
    let whole : block b.size true ≡ b = ground arith in
    elim (Bool-cases (leb (header_size + min_block_data) (b.size - n))) [
      | inl big ↦
          let joined : join (block n true) (block (b.size - n - header_size) true) ≡ b =
            ground arith in
          rw (big, here, joined) (merge_from_self b bs c)
      | inr tight ↦ rw (tight, here, whole) (merge_from_self b bs c)
    ]

-- Merging behind a block that cannot be merged with what follows.
merge_from-cons :
    (b : Block) (xs bs : List Block) → merge xs ≡ bs → Coalesced (b ∷ bs) → merge_from b xs ≡ b ∷ bs
unfolding merge_from
merge_from-cons b [] bs e c = ap (λ l. b ∷ l) e
merge_from-cons b (x ∷ xs) bs e c =
    let at_head : head_free bs ≡ x.free = ap head_free (sym e) ∙ head-merge_from x xs in
    let apart : (b.free && x.free) ≡ false = rw (← at_head) c.0 in rw apart (ap (λ l. b ∷ l) e)

release-behind :
    (n a : ℕ) (b : Block) (bs : List Block) (q : ℕ) (l : List Block)
    → first_fit n (after a b) bs ≡ some (q, l)
    → Coalesced (b ∷ bs)
    → release q (after a b) l ≡ bs
    → release q a (b ∷ l) ≡ b ∷ bs
unfolding release mark_free
release-behind n a b bs q l found c ih =
    let taken = first_fit-Taken n (after a b) bs found in
    let bounds = Live-bounds (after a b) l q taken.size taken.live in
    let miss : (q == a + header_size) ≡ false = ground arith in
    rw miss (merge_from-cons b (mark_free q (after a b) l) bs ih c)

-- Freeing the block that first fit has just taken gives back the same blocks.
pub release-first_fit :
    (n a : ℕ) (bs : List Block) {p : ℕ} {r : List Block}
    → first_fit n a bs ≡ some (p, r)
    → Coalesced bs
    → release p a r ≡ bs
unfolding first_fit release
release-first_fit n a [] h c = cc
release-first_fit n a (b ∷ bs) {p} {r} h c = elim (Bool-cases (b.free && leb n b.size)) [
  | inl fits ↦
      let at_p : a + header_size ≡ p = ground arith in
      let is_r : carve n b bs ≡ r = ground arith in
      rw (← at_p, ← is_r) (release-carve n a b bs (ground arith) (ground arith) c)
  | inr misfit ↦ elim (Option-cases (first_fit n (after a b) bs)) [
    | inl full ↦ absurd (ground arith)
    | inr ((q, l), found) ↦
        let is_p : q ≡ p = ground arith in
        let is_r : b ∷ l ≡ r = ground arith in
        rw (← is_p, ← is_r)
          (release-behind n a b bs q l found c (release-first_fit n (after a b) bs found c.1))
  ]
]
