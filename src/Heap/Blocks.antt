-- ===== src/Heap/Blocks.antt =====
-- What first fit and freeing do to the blocks in use, on the list of blocks.
use shad_os.Base.{
  ℕ, ◌+◌, ◌-◌, ◌≤◌, ◌<◌, ◌≡◌, ◌≢◌, ◌==◌, refl, ◌⊎◌, inl, inr, Bool, true, false, ◌&&◌, ◌||◌, Option,
  none, some, List, [], ◌∷◌, arith, leb, Bool-cases, Option-cases, subst, sym,
}
use shad_os.Heap.{header_size, min_block_data, null}
use shad_os.Heap.Layout.{Block, block, after, bytes, Live}
use shad_os.Heap.FirstFit.{carve, first_fit}

-- The bytes of a live block lie between the blocks' start and end, behind its header.
pub Live-bounds :
    (a : ℕ) (bs : List Block) (p n : ℕ)
    → Live a bs p n
    → (a + header_size ≤ p) × (p + n ≤ a + bytes bs)
Live-bounds a [] p n h = absurd h
Live-bounds a (b ∷ bs) p n (inl h) = omega arith
Live-bounds a (b ∷ bs) p n (inr h) = omega (arith, Live-bounds (after a b) bs p n h)

pub Live-ne-null : (a : ℕ) (bs : List Block) (p n : ℕ) → Live a bs p n → p ≢ null
Live-ne-null a bs p n live = λ e. omega (arith, Live-bounds a bs p n live)

pub Live-not_null : (a : ℕ) (bs : List Block) (p n : ℕ) → Live a bs p n → (p == null) ≡ false
Live-not_null a bs p n live = let bounds = Live-bounds a bs p n live in ground arith

-- Two live blocks are the same, or their bytes are apart, with room for a header.
pub Live-apart :
    (a : ℕ) (bs : List Block) (p n q k : ℕ)
    → Live a bs p n
    → Live a bs q k
    → ((p ≡ q) × (n ≡ k)) ⊎ ((p + n + header_size ≤ q) ⊎ (q + k + header_size ≤ p))
Live-apart a [] p n q k h i = absurd h
Live-apart a (b ∷ bs) p n q k (inl h) (inl i) = omega arith
Live-apart a (b ∷ bs) p n q k (inl h) (inr i) = omega (arith, Live-bounds (after a b) bs q k i)
Live-apart a (b ∷ bs) p n q k (inr h) (inl i) = omega (arith, Live-bounds (after a b) bs p n h)
Live-apart a (b ∷ bs) p n q k (inr h) (inr i) = Live-apart (after a b) bs p n q k h i

-- What first fit has done to the blocks from `a` on: `p` is live with room for `n` bytes, what was
-- live is live still, and nothing else is.
pub record Taken (n a : ℕ) (bs : List Block) (p : ℕ) (r : List Block) : Type 0 where
  pub size : ℕ
  pub enough : n ≤ size
  pub close : size < n + header_size + min_block_data
  pub live : Live a r p size
  pub fresh : (k : ℕ) → Live a bs p k → ⊥
  pub kept : (q k : ℕ) → Live a bs q k → Live a r q k
  pub only : (q k : ℕ) → Live a r q k → ((q ≡ p) × (k ≡ size)) ⊎ Live a bs q k
  pub same_bytes : bytes r ≡ bytes bs

Live-tail :
    (a : ℕ) (b : Block) (bs : List Block) (q k : ℕ)
    → b.free ≡ true
    → Live a (b ∷ bs) q k
    → Live (after a b) bs q k
Live-tail a b bs q k free (inl h) = cc
Live-tail a b bs q k free (inr h) = h

-- A live block behind the first is not at the first's address.
Live-behind :
    (a : ℕ) (b : Block) (bs : List Block) (k : ℕ) → Live (after a b) bs (a + header_size) k → ⊥
Live-behind a b bs k h = omega (arith, Live-bounds (after a b) bs (a + header_size) k h)

module _ (n a : ℕ) (b : Block) (bs : List Block) (free : b.free ≡ true) (fits : n ≤ b.size) where
  carve_whole-Taken :
      b.size - n < header_size + min_block_data
      → Taken n a (b ∷ bs) (a + header_size) (block b.size false ∷ bs)
  carve_whole-Taken tight = record {
    size = b.size;
    enough = fits;
    close = omega arith;
    live = inl (refl, refl, refl);
    fresh = λ k h. Live-behind a b bs k (Live-tail a b bs (a + header_size) k free h);
    kept = λ q k h. inr (Live-tail a b bs q k free h);
    only = λ q k h. elim h [ inl x ↦ inl (x.1, x.2) | inr x ↦ inr (inr x) ];
    same_bytes = omega arith;
  }

  -- Where the rest of the block ends.
  rest_end :
      header_size + min_block_data ≤ b.size - n
      → after (after a (block n false)) (block (b.size - n - header_size) true) ≡ after a b
  rest_end big = omega arith

  carve_split-Taken :
      header_size + min_block_data ≤ b.size - n
      → Taken n a
          (b ∷ bs)
          (a + header_size)
          (block n false ∷ block (b.size - n - header_size) true ∷ bs)
  carve_split-Taken big = record {
    size = n;
    enough = omega arith;
    close = omega arith;
    live = inl (refl, refl, refl);
    fresh = λ k h. Live-behind a b bs k (Live-tail a b bs (a + header_size) k free h);
    kept = λ q k h.
        inr (inr (subst (λ x. Live x bs q k) (sym (rest_end big)) (Live-tail a b bs q k free h)));
    only = λ q k h. elim h [
      | inl x ↦ inl (x.1, x.2)
      | inr y ↦ inr (
          inr (
            subst (λ x. Live x bs q k) (rest_end big)
              (Live-tail (after a (block n false)) (block (b.size - n - header_size) true) bs q k
                refl y)))
    ];
    same_bytes = omega arith;
  }

  carve-Taken : Taken n a (b ∷ bs) (a + header_size) (carve n b bs)
  unfolding carve
  carve-Taken = elim (Bool-cases (leb (header_size + min_block_data) (b.size - n))) [
    | inl big ↦ rw big (carve_split-Taken (ground arith))
    | inr tight ↦ rw tight (carve_whole-Taken (ground arith))
  ]

Taken-cons :
    (n a : ℕ) (b : Block) (bs : List Block) (p : ℕ) (r : List Block)
    → Taken n (after a b) bs p r
    → Taken n a (b ∷ bs) p (b ∷ r)
Taken-cons n a b bs p r t = record {
  size = t.size;
  enough = t.enough;
  close = t.close;
  live = inr t.live;
  fresh = λ k h. elim h [
    | inl x ↦ Live-behind a b r t.size (subst (λ y. Live (after a b) r y t.size) x.1 t.live)
    | inr x ↦ t.fresh k x
  ];
  kept = λ q k h. elim h [ inl x ↦ inl x | inr x ↦ inr (t.kept q k x) ];
  only = λ q k h. elim h [
    | inl x ↦ inr (inl x)
    | inr x ↦ elim (t.only q k x) [ inl y ↦ inl y | inr y ↦ inr (inr y) ]
  ];
  same_bytes = omega (arith, t.same_bytes);
}

-- First fit takes a block for `n` bytes that was free, and leaves the live ones alone.
pub first_fit-Taken :
    (n a : ℕ) (bs : List Block) {p : ℕ} {r : List Block}
    → first_fit n a bs ≡ some (p, r)
    → Taken n a bs p r
unfolding first_fit
first_fit-Taken n a [] h = cc
first_fit-Taken n a (b ∷ bs) {p} {r} h = elim (Bool-cases (b.free && leb n b.size)) [
  | inl fits ↦
      let at_p : a + header_size ≡ p = ground arith in
      let is_r : carve n b bs ≡ r = ground arith in
      rw (← at_p, ← is_r) (carve-Taken n a b bs (ground arith) (ground arith))
  | inr misfit ↦ elim (Option-cases (first_fit n (after a b) bs)) [
    | inl full ↦ absurd (ground arith)
    | inr ((q, l), found) ↦
        let is_p : q ≡ p = ground arith in
        let is_r : b ∷ l ≡ r = ground arith in
        rw (← is_p, ← is_r) (Taken-cons n a b bs q l (first_fit-Taken n (after a b) bs found))
  ]
]

-- First fit fails only if no free block is large enough.
unfoldable pub has_room : ℕ → List Block → Bool
has_room n [] = false
has_room n (b ∷ bs) = (b.free && leb n b.size) || has_room n bs

abbrev pub is_some {ℓ} : {A : Type ℓ} → Option A → Bool
is_some none = false
is_some (some x) = true

pub is_some-first_fit : (n a : ℕ) (bs : List Block) → is_some (first_fit n a bs) ≡ has_room n bs
unfolding first_fit has_room
is_some-first_fit n a [] = refl
is_some-first_fit n a (b ∷ bs) = ground (arith, is_some-first_fit n (after a b) bs)
