-- ===== src/Heap/Release.antt =====
-- Freeing on the list of blocks: mark the block, then merge neighbours that are free.
use shad_os.Base.{
  ℕ, ◌+◌, ◌≡◌, refl, ◌↔◌, ◌≢◌, ==_iff, inl, inr, Bool, true, false, ◌&&◌, List, [], ◌∷◌, arith,
  ◌==◌, if◌then◌else◌, Bool-cases, subst, sym,
}
use shad_os.Heap.{header_size}
use shad_os.Heap.Layout.{Block, block, after, bytes, Live}
use shad_os.Heap.Blocks.{Live-bounds}

-- Two blocks made one: the second's header becomes data.
abbrev pub join : Block → Block → Block
join b c = block (b.size + (header_size + c.size)) b.free

-- The blocks `b ∷ bs` with each run of free ones made one.
unfoldable pub merge_from : Block → List Block → List Block
merge_from b [] = b ∷ []
merge_from b (c ∷ bs) =
    let joined = merge_from (join b c) bs in
    let apart = b ∷ merge_from c bs in if b.free && c.free then joined else apart

abbrev pub merge : List Block → List Block
merge [] = []
merge (b ∷ bs) = merge_from b bs

-- Marks the block free whose bytes begin at `p`.
unfoldable pub mark_free : ℕ → ℕ → List Block → List Block
mark_free p a [] = []
mark_free p a (b ∷ bs) =
    if p == a + header_size then block b.size true ∷ bs else b ∷ mark_free p (after a b) bs

-- No two neighbours are free.
abbrev pub head_free : List Block → Bool
head_free [] = false
head_free (b ∷ bs) = b.free

abbrev pub Coalesced : List Block → Type 0
Coalesced [] = Unit {0}
Coalesced (b ∷ bs) = (b.free && head_free bs ≡ false) × Coalesced bs

-- Merging keeps the first block's state, if it is in use.
pub head-merge_from : (b : Block) (bs : List Block) → head_free (merge_from b bs) ≡ b.free
unfolding merge_from
head-merge_from b [] = refl
head-merge_from b (c ∷ bs) = ground (arith, head-merge_from (join b c) bs)

pub merge_from-Coalesced : (b : Block) (bs : List Block) → Coalesced (merge_from b bs)
unfolding merge_from
merge_from-Coalesced b [] = ground arith
merge_from-Coalesced b (c ∷ bs) = elim (Bool-cases (b.free && c.free)) [
  | inl both ↦ rw both (merge_from-Coalesced (join b c) bs)
  | inr one ↦ rw one (rw (head-merge_from c bs) one, merge_from-Coalesced c bs)
]

-- A list with nothing to merge stays.
pub merge_from_self : (b : Block) (bs : List Block) → Coalesced (b ∷ bs) → merge_from b bs ≡ b ∷ bs
unfolding merge_from
merge_from_self b [] h = refl
merge_from_self b (c ∷ bs) h = rw (h.0, merge_from_self c bs h.1)

pub bytes-merge_from : (b : Block) (bs : List Block) → bytes (merge_from b bs) ≡ bytes (b ∷ bs)
unfolding merge_from
bytes-merge_from b [] = refl
bytes-merge_from b (c ∷ bs) = elim (Bool-cases (b.free && c.free)) [
  | inl both ↦ rw both (omega (arith, bytes-merge_from (join b c) bs))
  | inr one ↦ rw one (omega (arith, bytes-merge_from c bs))
]

module _ (a : ℕ) (b c : Block) (bs : List Block) (q k : ℕ) (both : b.free && c.free ≡ true) where
  joined_end : after a (join b c) ≡ after (after a b) c
  joined_end = omega arith

  Live-unjoin : Live a (join b c ∷ bs) q k → Live a (b ∷ c ∷ bs) q k
  Live-unjoin (inl h) = absurd (ground arith)
  Live-unjoin (inr h) = inr (inr (subst (λ x. Live x bs q k) joined_end h))

  Live-join : Live a (b ∷ c ∷ bs) q k → Live a (join b c ∷ bs) q k
  Live-join (inl h) = absurd (ground arith)
  Live-join (inr (inl h)) = absurd (ground arith)
  Live-join (inr (inr h)) = inr (subst (λ x. Live x bs q k) (sym joined_end) h)

-- Merging touches no block in use.
pub Live-merge_from :
    (a : ℕ) (b : Block) (bs : List Block) (q k : ℕ)
    → Live a (merge_from b bs) q k ↔ Live a (b ∷ bs) q k
unfolding merge_from
Live-merge_from a b [] q k = (λ h. h, λ h. h)
Live-merge_from a b (c ∷ bs) q k = elim (Bool-cases (b.free && c.free)) [
  | inl both ↦ rw both (
      let (to, from) = Live-merge_from a (join b c) bs q k in
      (λ h. Live-unjoin a b c bs q k both (to h), λ h. from (Live-join a b c bs q k both h)))
  | inr one ↦ rw one (
      let (to, from) = Live-merge_from (after a b) c bs q k in
      (
        λ h. elim h [ inl x ↦ inl x | inr x ↦ inr (to x) ],
        λ h. elim h [ inl x ↦ inl x | inr x ↦ inr (from x) ],
      ))
]

unfoldable pub release : ℕ → ℕ → List Block → List Block
unfolding mark_free
release p a bs = merge (mark_free p a bs)

pub Live-mark_free :
    (p a : ℕ) (bs : List Block) (q k : ℕ) → Live a (mark_free p a bs) q k ↔ Live a bs q k × (q ≢ p)
unfolding mark_free
Live-mark_free p a [] q k = (λ h. absurd h, λ h. absurd h.0)
Live-mark_free p a (b ∷ bs) q k = elim (Bool-cases (p == a + header_size)) [
  | inl hit ↦ rw hit (
    (λ h. elim h [
      | inl x ↦ absurd (ground arith)
      | inr x ↦ (
        inr x,
        omega (arith, Live-bounds (after a b) bs q k x, (==_iff p (a + header_size)).0 hit),
      )
    ]),
    (λ h. elim h.0 [
      | inl x ↦ absurd (h.1 (omega (arith, (==_iff p (a + header_size)).0 hit)))
      | inr x ↦ inr x
    ]),
  )
  | inr miss ↦ rw miss (
    (λ h. elim h [
      | inl x ↦ (inl x, ground arith)
      | inr x ↦ let (live, other) = (Live-mark_free p (after a b) bs q k).0 x in (inr live, other)
    ]),
    (λ h. elim h.0 [
      | inl x ↦ inl x
      | inr x ↦ inr ((Live-mark_free p (after a b) bs q k).1 (x, h.1))
    ]),
  )
]

-- After a release the live blocks are those from before but the one at `p`.
pub Live-release :
    (p a : ℕ) (bs : List Block) (q k : ℕ) → Live a (release p a bs) q k ↔ Live a bs q k × (q ≢ p)
unfolding release
Live-release p a bs q k =
    elim (mark_free p a bs)
        as (λ l.
          (Live a l q k ↔ Live a bs q k × (q ≢ p))
          → Live a (merge l) q k ↔ Live a bs q k × (q ≢ p)) [
            | [] ↦ λ h. h
            | c ∷ cs ↦ λ h. (
              λ x. h.0 ((Live-merge_from a c cs q k).0 x),
              λ x. (Live-merge_from a c cs q k).1 (h.1 x),
            )
          ]
      (Live-mark_free p a bs q k)

pub release-Coalesced : (p a : ℕ) (bs : List Block) → Coalesced (release p a bs)
unfolding release
release-Coalesced p a bs = merge-Coalesced (mark_free p a bs)
  where
    merge-Coalesced : (l : List Block) → Coalesced (merge l)
    merge-Coalesced [] = tt
    merge-Coalesced (c ∷ cs) = merge_from-Coalesced c cs
