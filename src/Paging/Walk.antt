-- ===== src/Paging/Walk.antt =====
-- How the processor reads the two levels of tables, with 4 KiB pages.
use shad_os.Base.{
  ℕ, ◌+◌, ◌*◌, ◌/◌, ◌%◌, ◌^◌, ◌≡◌, Bool, true, false, arith, ◌&&◌, Option, none, some, ◌==◌,
  if◌then◌else◌,
}

-- The physical address of a virtual one, and whether ring 3 may write there; `none` is a page
-- fault.
unfoldable pub walk : (words : ℕ → ℕ) (cr3 va : ℕ) → Option (ℕ × Bool)
walk words cr3 va =
    let pde = words (cr3 + va / 2 ^ 22 * 4) in
    let pte = words (pde / 4096 * 4096 + va / 2 ^ 12 % 1024 * 4) in
    if pde % 2 == 0
    then none
    else if pte % 2 == 0
    then none
    else some (pte / 4096 * 4096 + va % 4096, pde % 8 == 7 && pte % 8 == 7)

-- Two present entries, open to ring 3, lead to the page of the second.
pub walk-page :
    (words : ℕ → ℕ) (cr3 va table page : ℕ)
    → table % 4096 ≡ 0
    → words (cr3 + va / 2 ^ 22 * 4) ≡ table + 7
    → words (table + va / 2 ^ 12 % 1024 * 4) ≡ page * 4096 + 7
    → walk words cr3 va ≡ some (page * 4096 + va % 4096, true)
unfolding walk
walk-page words cr3 va table page aligned e f =
    let at_table : (table + 7) / 4096 * 4096 ≡ table = omega arith in
    let present : ((table + 7) % 2 == 0) ≡ false = ground arith in
    let present' : ((page * 4096 + 7) % 2 == 0) ≡ false = ground arith in
    let open_table : ((table + 7) % 8 == 7) ≡ true = ground arith in
    let open_page : ((page * 4096 + 7) % 8 == 7) ≡ true = ground arith in
    let base : (page * 4096 + 7) / 4096 * 4096 ≡ page * 4096 = omega arith in
    rw (e, at_table, f, present, present', open_table, open_page, base)

-- An empty directory entry faults.
pub walk-empty :
    (words : ℕ → ℕ) (cr3 va : ℕ) → words (cr3 + va / 2 ^ 22 * 4) ≡ 0 → walk words cr3 va ≡ none
unfolding walk
walk-empty words cr3 va e = rw e
