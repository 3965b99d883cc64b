-- ===== src/Heap.antt =====
-- heap.c: the dynamic allocator. A header is read and written at its address; the memory of the
-- headers is a function from addresses, as every address of the mapped zone can be read.
pub mod Layout
pub mod FirstFit
pub mod Align
pub mod Blocks
pub mod Malloc
pub mod Release
pub mod Free
pub mod Return
pub mod Session
pub mod Totals
pub mod Client
pub mod Samples
mod Tests
use shad_os.Base.{
  ℕ, zero, suc, ◌+◌, ◌-◌, ◌*◌, ◌%◌, Bool, true, false, ◌&&◌, ◌||◌, Option, none, some, bit_and, leb,
  ◌==◌, if◌then◌else◌, word,
}
use shad_os.Base.Bits.{bit_not}

-- `block_header_t`; `free` is 1 or 0, `next` is 0 for `NULL`.
pub record Header : Type 0 where
  pub size : ℕ
  pub free : Bool
  pub next : ℕ

abbrev pub Mem : Type 0
Mem = ℕ → Header

-- The static variables of heap.c and the headers in memory.
pub record Heap : Type 0 where
  pub mem : Mem
  pub start : ℕ
  pub base : ℕ
  pub total : ℕ

-- `sizeof(block_header_t)`, `HEAP_SIZE`, `ALIGNMENT` and `MIN_BLOCK_DATA`.
abbrev pub header_size : ℕ
header_size = 12

abbrev pub heap_size : ℕ
heap_size = 8 * 1024 * 1024

abbrev pub alignment : ℕ
alignment = 8

abbrev pub min_block_data : ℕ
min_block_data = 16

abbrev pub null : ℕ
null = 0

unfoldable pub write : Mem → ℕ → Header → Mem
write m p h a = if a == p then h else m a

-- `(n + align - 1) & ~(align - 1)` on `size_t`.
unfoldable pub align_up : ℕ → ℕ → ℕ
align_up n align = bit_and ((n + align - 1) % word) (bit_not (align - 1))

-- `kernel_end` is the address that the linker gives.
pub heap_init : ℕ → Heap → Heap
heap_init kernel_end h =
    let at = align_up kernel_end 4096 in
    record {
      mem = write h.mem at (record { size = heap_size - header_size; free = true; next = null });
      start = at;
      base = at;
      total = heap_size;
    }

-- The `if (remaining >= ...)` of `kmalloc`: the two header writes of a split.
unfoldable pub split : Mem → ℕ → ℕ → Mem
split m cur size =
    let remaining = (m cur).size - size in
    let new_block = (cur + header_size + size) % word in
    if leb (header_size + min_block_data) remaining
    then write
        (write m new_block
          (record { size = remaining - header_size; free = true; next = (m cur).next }))
        cur (record { size = size; free = (m cur).free; next = new_block })
    else m

-- `cur->free = 0`
unfoldable pub occupy : Mem → ℕ → Mem
occupy m cur = write m cur (record { size = (m cur).size; free = false; next = (m cur).next })

-- The loop of `kmalloc`: the pointer that it returns and the memory. `none`: out of fuel.
unfoldable pub kmalloc_loop : ℕ → Mem → ℕ → ℕ → Option (ℕ × Mem)
kmalloc_loop zero m size cur = none
kmalloc_loop (suc fuel) m size cur =
    let rest = kmalloc_loop fuel m size (m cur).next in
    if cur == null
    then some (null, m)
    else if (m cur).free && leb size (m cur).size
    then some ((cur + header_size) % word, occupy (split m cur size) cur)
    else rest

-- More rounds than `HEAP_SIZE` has room for headers.
abbrev pub rounds : ℕ
rounds = heap_size

unfoldable pub kmalloc : ℕ → Heap → Option (ℕ × Heap)
unfolding align_up
kmalloc size h =
    if size == 0
    then some (null, h)
    else elim (kmalloc_loop rounds h.mem (align_up size alignment) h.start) [
      | none ↦ none
      | some (p, m) ↦ some (p, record h { mem = m })
    ]

-- `cur->size += sizeof(block_header_t) + cur->next->size; cur->next = cur->next->next;`
pub absorb : Mem → ℕ → Mem
absorb m cur =
    let next = m (m cur).next in
    write m cur (record {
      size = ((m cur).size + (header_size + next.size)) % word;
      free = (m cur).free;
      next = next.next;
    })

pub coalesce_loop : ℕ → Mem → ℕ → Option Mem
coalesce_loop zero m cur = none
coalesce_loop (suc fuel) m cur =
    let merged = coalesce_loop fuel (absorb m cur) cur in
    let advanced = coalesce_loop fuel m (m cur).next in
    if cur == null || (m cur).next == null
    then some m
    else if (m cur).free && (m (m cur).next).free
    then merged
    else advanced

pub kfree : ℕ → Heap → Option Heap
kfree ptr h =
    let block = (ptr + word - header_size) % word in
    let marked =
      write h.mem block
        (record { size = (h.mem block).size; free = true; next = (h.mem block).next }) in
    if ptr == null then some h else elim (coalesce_loop rounds marked h.start) [
      | none ↦ none
      | some m ↦ some (record h { mem = m })
    ]

-- What `heap_get_stats` stores through its four pointers.
pub record Stats : Type 0 where
  pub total : ℕ
  pub used : ℕ
  pub free_bytes : ℕ
  pub free_blocks : ℕ

pub stats_loop : ℕ → Mem → ℕ → Stats → Option Stats
stats_loop zero m cur s = none
stats_loop (suc fuel) m cur s =
    let size = (m cur).size in
    let rest = stats_loop fuel m (m cur).next (
      if (m cur).free
      then record s {
        total = (s.total + size) % word;
        free_bytes = (s.free_bytes + size) % word;
        free_blocks = s.free_blocks + 1;
      }
      else record s { total = (s.total + size) % word; used = (s.used + size) % word }) in
    if cur == null then some s else rest

pub heap_get_stats : Heap → Option Stats
heap_get_stats h =
    stats_loop rounds h.mem h.start
      (record { total = 0; used = 0; free_bytes = 0; free_blocks = 0 })

pub heap_get_base : Heap → ℕ
heap_get_base h = h.base
