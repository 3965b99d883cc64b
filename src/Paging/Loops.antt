-- ===== src/Paging/Loops.antt =====
-- What the loops of paging.c leave in memory.
use shad_os.Base.{
  ℕ, zero, suc, ◌+◌, ◌*◌, ◌<◌, ◌≤◌, ◌≡◌, refl, ◌≢◌, ◌⊎◌, inl, inr, ◌∙◌, ap, subst, arith, bit_or,
  ==_iff, ◌==◌, Bool-cases,
}
use shad_os.Base.Bits.{bit_or-split, bit_or-zero}
use shad_os.Paging.{store, fill, entry, fill_tables}

pub store_self : (p v : ℕ) (m : ℕ → ℕ) → store p v m p ≡ v
unfolding store
store_self p v m = ground arith

pub store_other : (p v : ℕ) (m : ℕ → ℕ) (x : ℕ) → x ≢ p → store p v m x ≡ m x
unfolding store
store_other p v m x h = ground arith

pub fill_inside : (n a : ℕ) (v : ℕ → ℕ) (m : ℕ → ℕ) (i : ℕ) → i < n → fill n a v m (a + i * 4) ≡ v i
unfolding fill
fill_inside zero a v m i h = absurd (omega arith)
fill_inside (suc n) a v m i h = ground (arith, fill_inside n a v m i)

pub fill_outside :
    (n a : ℕ) (v : ℕ → ℕ) (m : ℕ → ℕ) (x : ℕ) → (x < a) ⊎ (a + n * 4 ≤ x) → fill n a v m x ≡ m x
unfolding fill
fill_outside zero a v m x h = refl
fill_outside (suc n) a v m x h = ground (arith, fill_outside n a v m x (omega arith))

-- The flags go into the low bits of a page's address.
pub entry-page : (p : ℕ) → entry (p * 4096) ≡ p * 4096 + 7
unfolding entry
entry-page p = ap (λ x. bit_or (bit_or x 2) 4) one ∙ ap (λ x. bit_or x 4) two ∙ three
  where
    one : bit_or (p * 4096) 1 ≡ p * 4096 + 1
    one =
        ap (λ x. bit_or x 1) {x = p * 4096} {y = p * 4096 + 0} (omega arith)
        ∙ bit_or-split 12 p 0 0 1 (omega arith) (omega arith)
        ∙ omega (arith, bit_or-zero p)

    two : bit_or (p * 4096 + 1) 2 ≡ p * 4096 + 3
    two = bit_or-split 12 p 0 1 2 (omega arith) (omega arith) ∙ omega (arith, bit_or-zero p)

    three : bit_or (p * 4096 + 3) 4 ≡ p * 4096 + 7
    three = bit_or-split 12 p 0 3 4 (omega arith) (omega arith) ∙ omega (arith, bit_or-zero p)

pub fill_tables_inside :
    (count tables : ℕ) (m : ℕ → ℕ) (t i : ℕ)
    → t < count
    → i < 1024
    → fill_tables count tables m (tables + t * 4096 + i * 4) ≡ (t * 1024 + i) * 4096 + 7
unfolding fill_tables
fill_tables_inside zero tables m t i ht hi = absurd (omega arith)
fill_tables_inside (suc count) tables m t i ht hi = elim (Bool-cases (t == count)) [
  | inl last ↦
      subst
        (λ c.
          fill 1024 (tables + c * 4096) (λ j. entry (c * 0x400000 + j * 0x1000))
            (fill_tables count tables m) (tables + t * 4096 + i * 4)
          ≡ (t * 1024 + i) * 4096 + 7)
        ((==_iff t count).0 last)
        (fill_inside 1024 (tables + t * 4096) (λ j. entry (t * 0x400000 + j * 0x1000))
            (fill_tables count tables m) i hi
          ∙ ap entry {x = t * 0x400000 + i * 0x1000} {y = (t * 1024 + i) * 4096} (omega arith)
          ∙ entry-page (t * 1024 + i))
  | inr before ↦
      fill_outside 1024 (tables + count * 4096) _ (fill_tables count tables m) _ (ground arith)
      ∙ fill_tables_inside count tables m t i (ground arith) hi
]

pub fill_tables_outside :
    (count tables : ℕ) (m : ℕ → ℕ) (x : ℕ)
    → (x < tables) ⊎ (tables + count * 4096 ≤ x)
    → fill_tables count tables m x ≡ m x
unfolding fill_tables
fill_tables_outside zero tables m x h = refl
fill_tables_outside (suc count) tables m x h =
    fill_outside 1024 (tables + count * 4096) _ (fill_tables count tables m) x (omega arith)
    ∙ fill_tables_outside count tables m x (omega arith)
