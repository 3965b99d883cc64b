-- ===== src/Ramfs.antt =====
-- ramfs.c: the table of files, whose contents stand in blocks of the heap. A name is taken by its
-- bytes up to the `\0`; contents are bytes of memory at an address.
pub mod Lookup
pub mod Store
pub mod Buffer
pub mod Fill
pub mod Write
pub mod Delete
pub mod Session
pub mod Samples
mod Tests
use shad_os.Base.{
  ℕ, zero, suc, ◌+◌, Bool, true, false, not, ◌&&◌, ◌||◌, Option, none, some, List, [], ◌∷◌, ◌++◌,
  length, take, leb, ◌==◌, if◌then◌else◌,
}
use shad_os.Base.Text.{codes}
use shad_os.Base.Copy.{copy_bytes}
use shad_os.Heap.{Heap, kmalloc, kfree, null}
use shad_os.Terminal.{Call, write_string, write_number}

abbrev pub max_files : ℕ
max_files = 32

abbrev pub max_name : ℕ
max_name = 32

pub record RamFile : Type 0 where
  pub name : List ℕ
  pub data_at : ℕ
  pub size : ℕ
  pub used : Bool

-- The static variables with the memory and the heap behind them; `ready` is `ramfs_ready`.
pub record Ramfs : Type 0 where
  pub files : ℕ → RamFile
  pub ready : Bool
  pub mem : ℕ → ℕ
  pub heap : Heap

abbrev pub blank : RamFile → RamFile
blank f = record f { data_at = null; size = 0; used = false }

unfoldable pub ramfs_init : Ramfs → Ramfs
ramfs_init s = record s {
  files = λ i. if leb max_files i then s.files i else blank (s.files i);
  ready = true;
}

-- `strcmp(a, b) == 0`, on two strings.
unfoldable pub same : List ℕ → List ℕ → Bool
same [] [] = true
same [] (d ∷ t) = false
same (c ∷ s) [] = false
same (c ∷ s) (d ∷ t) = c == d && same s t

-- The loops over the table: the first index from `i` on, of `left`, at which a test holds.
unfoldable pub first_index : (ℕ → Bool) → (left i : ℕ) → Option ℕ
first_index test zero i = none
first_index test (suc left) i =
    let rest = first_index test left (i + 1) in if test i then some i else rest

unfoldable pub ramfs_find : (ℕ → RamFile) → List ℕ → Option ℕ
ramfs_find files name = first_index (λ i. (files i).used && same (files i).name name) max_files 0

unfoldable pub ramfs_find_free : (ℕ → RamFile) → Option ℕ
ramfs_find_free files = first_index (λ i. not (files i).used) max_files 0

unfoldable pub store_file : ℕ → RamFile → (ℕ → RamFile) → ℕ → RamFile
store_file i f files j = if j == i then f else files j

-- A new entry keeps what an unused one had but for its name; 31 bytes of the name fit.
abbrev pub claim : RamFile → List ℕ → RamFile
claim f name = record f { name = take 31 name; used = true }

-- The entry that is written: that of the name, or else a free one, which gets the name.
unfoldable pub open_file : List ℕ → Ramfs → Option (ℕ × Ramfs)
open_file name s = elim (ramfs_find s.files name) [
  | some i ↦ some (i, s)
  | none ↦ elim (ramfs_find_free s.files) [
    | none ↦ none
    | some i ↦ some (i, record s { files = store_file i (claim (s.files i) name) s.files })
  ]
]

-- `newbuf`, up to its copy: `NULL` for no bytes.
unfoldable pub new_buffer : ℕ → Heap → Option (ℕ × Heap)
new_buffer size h = if size == 0 then some (null, h) else kmalloc size h

-- `if (p) kfree(p);`
unfoldable pub free_buffer : ℕ → Heap → Option Heap
free_buffer p h = if p == null then some h else kfree p h

unfoldable pub memcpy_ramfs : (dst src n : ℕ) → (ℕ → ℕ) → ℕ → ℕ
memcpy_ramfs dst src n m = copy_bytes n dst src m

-- The rest of `ramfs_write` for the entry `i`: true for 0 and false for -1. The outer `none`: the
-- heap does not end.
unfoldable pub fill_file : (i src size : ℕ) → Ramfs → Option (Bool × Ramfs)
fill_file i src size s = elim (new_buffer size s.heap) [
  | none ↦ none
  | some (buf, h) ↦
      if not (size == 0) && buf == null
      then some (false, record s { heap = h })
      else elim (free_buffer (s.files i).data_at h) [
        | none ↦ none
        | some g ↦ some (
          true,
          record s {
            files = store_file i (record (s.files i) { data_at = buf; size = size }) s.files;
            mem = memcpy_ramfs buf src size s.mem;
            heap = g;
          },
        )
      ]
]

unfoldable pub ramfs_write : List ℕ → (src size : ℕ) → Ramfs → Option (Bool × Ramfs)
ramfs_write name src size s =
    if not s.ready || leb max_name (length name)
    then some (false, s)
    else elim (open_file name s) [ none ↦ some (false, s) | some (i, t) ↦ fill_file i src size t ]

-- The pointer and the size that `ramfs_read` stores, or `none` for -1.
unfoldable pub ramfs_read : List ℕ → Ramfs → Option (ℕ × ℕ)
ramfs_read name s = elim (ramfs_find s.files name) [
  | none ↦ none
  | some i ↦ some ((s.files i).data_at, (s.files i).size)
]

unfoldable pub ramfs_delete : List ℕ → Ramfs → Option (Bool × Ramfs)
ramfs_delete name s = elim (ramfs_find s.files name) [
  | none ↦ some (false, s)
  | some i ↦ elim (free_buffer (s.files i).data_at s.heap) [
    | none ↦ none
    | some g ↦ some (true, record s { files = store_file i (blank (s.files i)) s.files; heap = g })
  ]
]

-- One line of `ramfs_list`.
abbrev pub line_of : RamFile → List Call
line_of f =
    if f.used
    then write_string (codes "  ")
      ∷ write_string f.name
      ∷ write_string (codes "  (")
      ∷ write_number f.size
      ∷ write_string (codes " octets)\n")
      ∷ []
    else []

unfoldable pub list_lines : (left i : ℕ) → (ℕ → RamFile) → List Call
list_lines zero i files = []
list_lines (suc left) i files = line_of (files i) ++ list_lines left (i + 1) files

unfoldable pub count_used : (left i : ℕ) → (ℕ → RamFile) → ℕ
count_used zero i files = 0
count_used (suc left) i files = (if (files i).used then 1 else 0) + count_used left (i + 1) files

unfoldable pub ramfs_list : Ramfs → List Call
ramfs_list s =
    list_lines max_files 0 s.files
    ++ (if count_used max_files 0 s.files == 0
        then write_string (codes "  (aucun fichier)\n") ∷ []
        else [])
