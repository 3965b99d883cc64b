-- ===== src/Paging/Init.antt =====
-- After `paging_init` of paging.c the processor maps the first 16 MiB to themselves, and no more.
use shad_os.Base.{
  ℕ, ◌+◌, ◌*◌, ◌/◌, ◌%◌, ◌^◌, ◌<◌, ◌≤◌, ◌≡◌, refl, ◌⊎◌, ◌∙◌, ap, true, none, some, arith, ltb,
  Bool-cases, inl, inr, if◌then◌else◌, word,
}
use shad_os.Paging.{Layout, Paging, entry, num_page_tables, paging_init}
use shad_os.Paging.Walk.{walk, walk-page, walk-empty}
use shad_os.Paging.Loops.{fill_inside, fill_outside, entry-page, fill_tables_inside}

-- The arrays are aligned to pages, apart, and below the end of memory.
pub record IsLayout (y : Layout) : Type 0 where
  pub directory_aligned : y.directory % 4096 ≡ 0
  pub tables_aligned : y.tables % 4096 ≡ 0
  pub extra_aligned : y.extra % 4096 ≡ 0
  pub directory_tables : (y.directory + 4096 ≤ y.tables) ⊎ (y.tables + 16384 ≤ y.directory)
  pub directory_extra : (y.directory + 4096 ≤ y.extra) ⊎ (y.extra + 16384 ≤ y.directory)
  pub tables_extra : (y.tables + 16384 ≤ y.extra) ⊎ (y.extra + 16384 ≤ y.tables)
  pub tables_end : y.tables + 16384 < word
  pub extra_end : y.extra + 16384 < word

module _ (y : Layout) (s : Paging) (ok : IsLayout y) where
  -- The directory entries.
  pub pde-mapped :
      (t : ℕ) → t < 4 → (paging_init y s).words (y.directory + t * 4) ≡ y.tables + t * 4096 + 7
  unfolding paging_init
  pde-mapped t h =
      fill_inside num_page_tables y.directory (λ t. entry (y.tables + t * 4096)) _ t h
      ∙ ap entry {x = y.tables + t * 4096} {y = (y.tables / 4096 + t) * 4096}
          (omega (arith, ok.tables_aligned))
      ∙ entry-page (y.tables / 4096 + t)
      ∙ omega (arith, ok.tables_aligned)

  pub pde-empty : (i : ℕ) → 4 ≤ i → i < 1024 → (paging_init y s).words (y.directory + i * 4) ≡ 0
  unfolding paging_init
  pde-empty i above below =
      fill_outside num_page_tables y.directory _ _ (y.directory + i * 4) (omega arith)
      ∙ fill_inside 1024 y.directory (λ i. 0) _ i below

  -- The table entries, which the directory's loops leave alone.
  pub pte-mapped :
      (t i : ℕ)
      → t < 4
      → i < 1024
      → (paging_init y s).words (y.tables + t * 4096 + i * 4) ≡ (t * 1024 + i) * 4096 + 7
  unfolding paging_init
  pte-mapped t i ht hi =
      fill_outside num_page_tables y.directory _ _ (y.tables + t * 4096 + i * 4)
        (omega (arith, ok.directory_tables))
      ∙ fill_outside 1024 y.directory _ _ (y.tables + t * 4096 + i * 4)
          (omega (arith, ok.directory_tables))
      ∙ fill_tables_inside num_page_tables y.tables s.words t i ht hi

  cr3-directory : (paging_init y s).cr3 ≡ y.directory
  unfolding paging_init
  cr3-directory = refl

  -- With the tables page-aligned, disjoint and inside the address space, `paging_init` loads CR3
  -- with a directory through which the processor maps the first 16 MiB to themselves and lets ring
  -- 3 write there, and faults at any other address.
  pub walk-paging_init :
      (va : ℕ)
      → va < word
      → walk (paging_init y s).words (paging_init y s).cr3 va
        ≡ (if ltb va 0x100_0000 then some (va, true) else none)
  walk-paging_init va h = elim (Bool-cases (ltb va 0x100_0000)) [
    | inl low ↦
        rw (low, cr3-directory)
          (walk-page (paging_init y s).words y.directory va (y.tables + va / 2 ^ 22 * 4096)
              (va / 4096) (omega (arith, ok.tables_aligned))
              (pde-mapped (va / 2 ^ 22) (ground arith))
              (pte-mapped (va / 2 ^ 22) (va / 2 ^ 12 % 1024) (ground arith) (omega arith)
                ∙ omega arith)
            ∙ ap (λ x. some (x, true)) (omega arith))
    | inr high ↦
        rw (high, cr3-directory)
          (walk-empty (paging_init y s).words y.directory va
            (pde-empty (va / 2 ^ 22) (ground arith) (omega arith)))
  ]
