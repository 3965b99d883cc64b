-- ===== src/Paging.antt =====
-- paging.c: the page tables. Memory is read and written by words of four bytes.
pub mod Walk
pub mod Loops
pub mod Init
pub mod Wrap
pub mod Identity
pub mod Page
pub mod Extra
pub mod Region
mod Tests
use shad_os.Base.{
  ℕ, zero, suc, ◌+◌, ◌-◌, ◌*◌, ◌/◌, ◌%◌, ◌^◌, Bool, Option, none, some, bit_and, bit_or, ltb, leb,
  ◌==◌, if◌then◌else◌, word,
}
use shad_os.Base.Bits.{bit_not}

abbrev pub page_present : ℕ
page_present = 0x1

abbrev pub page_write : ℕ
page_write = 0x2

abbrev pub page_user : ℕ
page_user = 0x4

abbrev pub num_page_tables : ℕ
num_page_tables = 4

abbrev pub num_extra_tables : ℕ
num_extra_tables = 4

-- Where the linker puts `page_directory`, `page_tables` and `extra_page_tables`.
pub record Layout : Type 0 where
  pub directory : ℕ
  pub tables : ℕ
  pub extra : ℕ

-- The word at each address, `extra_tables_used`, and the registers CR3 and CR0.
pub record Paging : Type 0 where
  pub words : ℕ → ℕ
  pub extra_used : ℕ
  pub cr3 : ℕ
  pub cr0 : ℕ

unfoldable pub store : ℕ → ℕ → (ℕ → ℕ) → ℕ → ℕ
store p v m a = if a == p then v else m a

-- `for (i = 0; i < n; i++) a[i] = v(i);` on the array of words at `a`.
unfoldable pub fill : (n a : ℕ) (v : ℕ → ℕ) → (ℕ → ℕ) → ℕ → ℕ
unfolding store
fill zero a v m = m
fill (suc n) a v m = store (a + n * 4) (v n) (fill n a v m)

-- `x | PAGE_PRESENT | PAGE_WRITE | PAGE_USER`
unfoldable pub entry : ℕ → ℕ
entry x = bit_or (bit_or (bit_or x page_present) page_write) page_user

-- The tables from the first to the last: entry i of table t leads to t * 4 MiB + i * 4 KiB.
unfoldable pub fill_tables : (count tables : ℕ) → (ℕ → ℕ) → ℕ → ℕ
fill_tables zero tables m = m
fill_tables (suc t) tables m =
    fill 1024 (tables + t * 4096) (λ i. entry (t * 0x400000 + i * 0x1000)) (fill_tables t tables m)

unfoldable pub paging_init : Layout → Paging → Paging
paging_init y s =
    let mapped = fill_tables num_page_tables y.tables s.words in
    let cleared = fill 1024 y.directory (λ i. 0) mapped in
    record s {
      words = fill num_page_tables y.directory (λ t. entry (y.tables + t * 4096)) cleared;
      cr3 = y.directory;
      cr0 = bit_or s.cr0 0x8000_0000;
    }

-- The outcome of one round of `paging_identity_map_region`: it goes on, or the function returns.
pub data Round : Type 0 where
  next : Paging → Round
  stop : Paging → Round

-- The entry written for the page at `addr`, in the table that the directory gives.
unfoldable pub set_entry : Layout → Paging → ℕ → Paging
set_entry y s addr =
    let table = bit_and (s.words (y.directory + addr / 2 ^ 22 * 4)) (bit_not 0xfff) in
    record s { words = store (table + bit_and (addr / 2 ^ 12) 0x3ff * 4) (entry addr) s.words }

-- A fresh table, cleared and put into the directory.
unfoldable pub add_table : Layout → Paging → ℕ → Paging
add_table y s addr =
    let new_table = y.extra + s.extra_used * 4096 in
    record s {
      words =
          store (y.directory + addr / 2 ^ 22 * 4) (entry new_table)
            (fill 1024 new_table (λ i. 0) s.words);
      extra_used = s.extra_used + 1;
    }

unfoldable pub map_page : Layout → Paging → ℕ → Round
map_page y s addr =
    if bit_and (s.words (y.directory + addr / 2 ^ 22 * 4)) page_present == 0
    then (if leb num_extra_tables s.extra_used
        then stop s
        else next (set_entry y (add_table y s addr) addr))
    else next (set_entry y s addr)

-- `for (addr = start; addr < end; addr += 0x1000)`. `none`: out of fuel.
unfoldable pub map_loop : ℕ → Layout → Paging → (addr end : ℕ) → Option Paging
map_loop zero y s addr end = none
map_loop (suc fuel) y s addr end =
    let rest = λ (t : Paging). map_loop fuel y t ((addr + 0x1000) % word) end in
    if ltb addr end then elim (map_page y s addr) [ stop t ↦ some t | next t ↦ rest t ] else some s

-- More rounds than there are pages.
abbrev pub pages : ℕ
pages = 2 ^ 20 + 1

unfoldable pub identity_map_region : Layout → Paging → (phys_addr size : ℕ) → Option Paging
identity_map_region y s phys_addr size =
    map_loop pages y s (bit_and phys_addr (bit_not 0xfff))
      (bit_and ((phys_addr + size + 0xfff) % word) (bit_not 0xfff))
