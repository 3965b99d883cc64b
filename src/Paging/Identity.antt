-- ===== src/Paging/Identity.antt =====
-- Page tables of paging.c that map no page but to itself, and one more page in such tables.
use shad_os.Base.{
  ℕ, ◌+◌, ◌*◌, ◌/◌, ◌%◌, ◌^◌, ◌<◌, ◌≤◌, ◌≡◌, ◌≢◌, refl, ◌⊎◌, ◌∙◌, ap, false, none, arith,
  Bool-cases, inl, inr, word, ◌==◌, bit_and,
}
use shad_os.Base.Bits.{page_floor, bit_and-ones, bit_not, pow2}
use shad_os.Paging.{Layout, Paging, store, num_extra_tables, set_entry}
use shad_os.Paging.Walk.{walk}
use shad_os.Paging.Loops.{store_other, entry-page}
use shad_os.Paging.Init.{IsLayout}

-- One of the four tables, or of the extra ones that have been taken.
abbrev pub IsTable : Layout → (used table : ℕ) → Type 0
IsTable y used table =
    ((k : ℕ) × (k < 4) × (table ≡ y.tables + k * 4096))
    ⊎ ((k : ℕ) × (k < used) × (table ≡ y.extra + k * 4096))

-- Every entry of the directory is empty or leads to a table of its own; every entry of such a table
-- is empty or leads to the page's own address.
pub record IsIdentity (y : Layout) (s : Paging) : Type 0 where
  pub cr3 : s.cr3 ≡ y.directory
  pub used : s.extra_used ≤ num_extra_tables
  pub entries :
      (d : ℕ)
      → d < 1024
      → (s.words (y.directory + d * 4) ≡ 0)
        ⊎ ((table : ℕ) × IsTable y s.extra_used table × (s.words (y.directory + d * 4) ≡ table + 7))
  pub pages :
      (d i table : ℕ)
      → d < 1024
      → i < 1024
      → s.words (y.directory + d * 4) ≡ table + 7
      → (s.words (table + i * 4) ≡ 0) ⊎ (s.words (table + i * 4) ≡ (d * 1024 + i) * 4096 + 7)
  pub own :
      (d e table : ℕ)
      → d < 1024
      → e < 1024
      → s.words (y.directory + d * 4) ≡ table + 7
      → s.words (y.directory + e * 4) ≡ table + 7
      → d ≡ e

-- Through the tables of `t` every address is translated as through those of `s`, but for those of a
-- page.
abbrev pub SameBut : ℕ → (s t : Paging) → Type 0
SameBut p s t = (va : ℕ) → va < word → va / 4096 ≢ p → walk t.words t.cr3 va ≡ walk s.words s.cr3 va

pub record Place (y : Layout) (table : ℕ) : Type 0 where
  pub aligned : table % 4096 ≡ 0
  pub end : table + 4096 < word
  pub apart : (y.directory + 4096 ≤ table) ⊎ (table + 4096 ≤ y.directory)

pub IsTable-Place :
    (y : Layout) (used table : ℕ)
    → IsLayout y
    → used ≤ num_extra_tables
    → IsTable y used table
    → Place y table
IsTable-Place y used table ok few (inl (k, small, at)) = record {
  aligned = omega (arith, ok.tables_aligned);
  end = omega (arith, ok.tables_end);
  apart = omega (arith, ok.directory_tables);
}
IsTable-Place y used table ok few (inr (k, small, at)) = record {
  aligned = omega (arith, ok.extra_aligned);
  end = omega (arith, ok.extra_end);
  apart = omega (arith, ok.directory_extra);
}

-- What the processor reads for an address whose directory entry leads to `table`.
pub walk-same :
    (m g : ℕ → ℕ) (cr3 va table : ℕ)
    → table % 4096 ≡ 0
    → m (cr3 + va / 2 ^ 22 * 4) ≡ table + 7
    → g (cr3 + va / 2 ^ 22 * 4) ≡ table + 7
    → g (table + va / 2 ^ 12 % 1024 * 4) ≡ m (table + va / 2 ^ 12 % 1024 * 4)
    → walk g cr3 va ≡ walk m cr3 va
unfolding walk
walk-same m g cr3 va table aligned e f same =
    let at_table : (table + 7) / 4096 * 4096 ≡ table = omega arith in rw (e, f, at_table, same) refl

pub walk-absent :
    (m : ℕ → ℕ) (cr3 va table : ℕ)
    → table % 4096 ≡ 0
    → m (cr3 + va / 2 ^ 22 * 4) ≡ table + 7
    → m (table + va / 2 ^ 12 % 1024 * 4) ≡ 0
    → walk m cr3 va ≡ none
unfolding walk
walk-absent m cr3 va table aligned e absent =
    let at_table : (table + 7) / 4096 * 4096 ≡ table = omega arith in
    let present : ((table + 7) % 2 == 0) ≡ false = ground arith in
    rw (e, at_table, absent, present) refl

-- One entry more, in a table that the directory has.
module _ (y : Layout) (s : Paging) (ok : IsLayout y) (id : IsIdentity y s) (p table : ℕ)
    (small : p < 2 ^ 20) (there : IsTable y s.extra_used table)
    (leads : s.words (y.directory + p / 1024 * 4) ≡ table + 7) where
  pub place : Place y table
  place = IsTable-Place y s.extra_used table ok id.used there

  abbrev pub g : ℕ → ℕ
  g = store (table + p % 1024 * 4) (p * 4096 + 7) s.words

  pub set_entry-store : set_entry y s (p * 4096) ≡ record s { words = g }
  unfolding set_entry
  set_entry-store =
      let d : p * 4096 / 2 ^ 22 ≡ p / 1024 = omega arith in
      let at : bit_and (table + 7) (bit_not 0xfff) ≡ table =
        page_floor (table + 7) (omega (arith, place.end)) ∙ omega (arith, place.aligned) in
      let i : bit_and (p * 4096 / 2 ^ 12) 0x3ff ≡ p % 1024 =
        ap (λ x. bit_and x 0x3ff) {y = p / 1024 * pow2 10 + p % 1024} (omega arith)
        ∙ bit_and-ones 10 (p % 1024) (p / 1024) (omega arith) in
      rw (d, leads, at, i, entry-page p) refl

  pub g-directory : (d : ℕ) → d < 1024 → g (y.directory + d * 4) ≡ s.words (y.directory + d * 4)
  g-directory d below =
      store_other (table + p % 1024 * 4) (p * 4096 + 7) s.words (y.directory + d * 4)
        (omega (arith, place.apart))

  -- A table of the directory holds what it held, but for the entry of the page.
  pub g-table :
      (d i other : ℕ)
      → d < 1024
      → i < 1024
      → s.words (y.directory + d * 4) ≡ other + 7
      → other % 4096 ≡ 0
      → ((d ≡ p / 1024) × (i ≡ p % 1024) × (other ≡ table))
        ⊎ (g (other + i * 4) ≡ s.words (other + i * 4))
  g-table d i other in_d in_i leads' aligned =
      elim (Bool-cases (other + i * 4 == table + p % 1024 * 4)) [
        | inl hit ↦
            let cell : other + i * 4 ≡ table + p % 1024 * 4 = ground arith in
            let e : other ≡ table = omega (arith, place.aligned) in
            inl (
              id.own d (p / 1024) table in_d (omega arith) (leads' ∙ ap (λ x. x + 7) e) leads,
              omega (arith, place.aligned),
              e,
            )
        | inr miss ↦ inr (
            store_other (table + p % 1024 * 4) (p * 4096 + 7) s.words (other + i * 4)
              (ground arith))
      ]
