-- ===== src/Heap/FirstFit.antt =====
-- `kmalloc` of heap.c against first fit on the list of blocks.
use mathlib.Core.Option
use shad_os.Base.{
  ℕ, zero, suc, ◌+◌, ◌-◌, ◌%◌, ◌≤◌, ◌<◌, ◌≡◌, refl, ◌∙◌, subst, ap, sym, ◌≢◌, true, false, ◌&&◌,
  Option, none, some, List, [], ◌∷◌, inl, inr, arith, leb, ◌==◌, if◌then◌else◌, length, word,
  Bool-cases, Option-cases,
}
use shad_os.Heap.{Mem, header_size, min_block_data, null, write, split, occupy, kmalloc_loop}
use shad_os.Heap.Layout.{Block, block, header, after, link, Chain, Chain-bytes, Chain-frame}

-- What a free block becomes when `n` bytes of it are taken: the rest is a block of its own if it
-- is worth one.
unfoldable pub carve : ℕ → Block → List Block → List Block
carve n b bs =
    if leb (header_size + min_block_data) (b.size - n)
    then block n false ∷ block (b.size - n - header_size) true ∷ bs
    else block b.size false ∷ bs

-- The first free block of at least `n` bytes: the address of its bytes, and the blocks afterwards.
unfoldable pub first_fit : ℕ → ℕ → List Block → Option (ℕ × List Block)
unfolding carve
first_fit n a [] = none
first_fit n a (b ∷ bs) =
    if b.free && leb n b.size
    then some (a + header_size, carve n b bs)
    else Option.map (λ (p, r). (p, b ∷ r)) (first_fit n (after a b) bs)

-- The memory that `kmalloc` leaves at a block that fits, if the rest is split off and if it is not.
module _ (m : Mem) (a n size next : ℕ)
    (at_a : m a ≡ record { size = size; free = true; next = next }) (fits : n ≤ size)
    (room : a + header_size + size < word) where
  split-at :
      header_size + min_block_data ≤ size - n
      → occupy (split m a n) a a ≡ record { size = n; free = false; next = a + header_size + n }
  unfolding occupy split write
  split-at big = ground arith

  split-rest :
      header_size + min_block_data ≤ size - n
      → occupy (split m a n) a (a + header_size + n)
        ≡ record { size = size - n - header_size; free = true; next = next }
  unfolding occupy split write
  split-rest big = ground arith

  split-above : (x : ℕ) → a + header_size + size ≤ x → occupy (split m a n) a x ≡ m x
  unfolding occupy split write
  split-above x above = ground arith

  split-below : (x : ℕ) → x < a → occupy (split m a n) a x ≡ m x
  unfolding occupy split write
  split-below x below = ground arith

  whole-at :
      size - n < header_size + min_block_data
      → occupy (split m a n) a a ≡ record { size = size; free = false; next = next }
  unfolding occupy split write
  whole-at tight = ground arith

-- Taking `n` bytes of the first block of a chain carves that block, and touches no header outside.
Chain-place :
    (m : Mem) (a e n : ℕ) (b : Block) (bs : List Block)
    → Chain m a e (b ∷ bs)
    → b.free ≡ true
    → n ≤ b.size
    → e < word
    → Chain (occupy (split m a n) a) a e (carve n b bs)
unfolding carve
Chain-place m a e n b bs c free fits small =
    let g : Mem = occupy (split m a n) a in
    let at_a : m a ≡ header (block b.size true) (link (after a b) bs) = c.0 ∙ ground arith in
    let room : a + header_size + b.size < word =
      omega (arith, Chain-bytes m (after a b) e bs c.1) in
    let rest : Chain g (after a b) e bs =
      Chain-frame m g (after a b) e bs
        (split-above m a n b.size (link (after a b) bs) at_a fits room) c.1 in
    let ends : leb (header_size + min_block_data) (b.size - n) ≡ true
        → after a b ≡ after (after a (block n false)) (block (b.size - n - header_size) true) =
      λ big. ground arith in
    let rest_block : Block = block (b.size - n - header_size) true in
    elim (Bool-cases (leb (header_size + min_block_data) (b.size - n))) [
      | inl big ↦ rw big (
        split-at m a n b.size (link (after a b) bs) at_a fits room (ground arith),
        (
          split-rest m a n b.size (link (after a b) bs) at_a fits room (ground arith)
              ∙ ap (λ x. header rest_block (link x bs)) (ends big),
          subst (λ x. Chain g x e bs) (ends big) rest,
        ),
      )
      | inr tight ↦
          rw tight (whole-at m a n b.size (link (after a b) bs) at_a fits room (ground arith), rest)
    ]

-- What the loop of `kmalloc` returns where first fit gives `r` at the blocks from `a` to `e`.
abbrev Fits : Mem → (a e : ℕ) → Option (ℕ × List Block) → ℕ × Mem → Type 0
Fits m a e none (p, g) = (p ≡ null) × (g ≡ m)
Fits m a e (some (q, bs)) (p, g) = (p ≡ q) × Chain g a e bs × ((x : ℕ) → x < a → g x ≡ m x)

-- First fit gives blocks that stand where the old ones stood.
link-first_fit :
    (n a : ℕ) (bs : List Block) {q : ℕ} {r : List Block}
    → first_fit n a bs ≡ some (q, r)
    → (link a r ≡ link a bs) × (bs ≢ [])
unfolding first_fit
link-first_fit n a [] h = cc
link-first_fit n a (b ∷ bs) h = (ground arith, ground arith)

-- What `kmalloc` finds behind the first block, seen from the first block.
Fits-cons :
    (m : Mem) (a e n : ℕ) (b : Block) (bs : List Block) (r : ℕ × Mem)
    → m a ≡ header b (link (after a b) bs)
    → Fits m (after a b) e (first_fit n (after a b) bs) r
    → Fits m a e (Option.map (λ (p, l). (p, b ∷ l)) (first_fit n (after a b) bs)) r
Fits-cons m a e n b bs r at_a fit = elim (Option-cases (first_fit n (after a b) bs)) [
  | inl full ↦ rw full (rw full at fit)
  | inr (x, found) ↦
      let rest = rw found at fit in
      rw found (
        rest.0,
        (
          rest.2 a (omega arith)
              ∙ at_a
              ∙ ap (header b) (sym (link-first_fit n (after a b) bs found).0),
          rest.1,
        ),
        λ y below. rest.2 y (omega arith),
      )
]

-- The loop of `kmalloc` ends within one round for each block, and finds what first fit finds.
pub kmalloc_loop-first_fit :
    (fuel n : ℕ) (m : Mem) (a e : ℕ) (bs : List Block)
    → length bs < fuel
    → 0 < a
    → e < word
    → Chain m a e bs
    → (r : ℕ × Mem) × (kmalloc_loop fuel m n (link a bs) ≡ some r) × Fits m a e (first_fit n a bs) r
unfolding kmalloc_loop first_fit
kmalloc_loop-first_fit zero n m a e bs enough pos small c = absurd (omega arith)
kmalloc_loop-first_fit (suc fuel) n m a e [] enough pos small c = ((null, m), refl, (refl, refl))
kmalloc_loop-first_fit (suc fuel) n m a e (b ∷ bs) enough pos small c =
    let at_a : (a == null) ≡ false = ground arith in
    elim (Bool-cases (b.free && leb n b.size)) [
      | inl fits ↦
          rw (at_a, c.0, fits)
            (
              ((a + header_size) % word, occupy (split m a n) a),
              refl,
              (
                omega (arith, Chain-bytes m a e (b ∷ bs) c),
                Chain-place m a e n b bs c (ground arith) (ground arith) small,
                split-below m a n b.size (link (after a b) bs) (c.0 ∙ ground arith) (ground arith)
                    (omega (arith, Chain-bytes m a e (b ∷ bs) c)),
              ),
            )
      | inr misfit ↦
          let (r, found, fit) =
            kmalloc_loop-first_fit fuel n m (after a b) e bs (omega arith) (omega arith) small
              c.1 in
          rw (at_a, c.0, misfit) (r, found, Fits-cons m a e n b bs r c.0 fit)
    ]
