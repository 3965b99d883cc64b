-- ===== src/Heap/Tests.antt =====
-- Runs of heap.c on a small kernel, and its theorems at concrete inputs.
use mathlib.Core.Option
use shad_os.Base.{
  ℕ, ◌+◌, ◌-◌, ◌*◌, ◌<◌, ◌↔◌, ◌≡◌, refl, ◌≢◌, false, some, List, arith, inl, length, word,
}
use shad_os.Heap.{
  Heap, Stats, header_size, heap_size, alignment, null, heap_init, kmalloc, kmalloc_loop, split,
  occupy, write, kfree, align_up, heap_get_stats,
}
use shad_os.Heap.Layout.{Block, Live, IsHeap}
use shad_os.Heap.FirstFit.{first_fit}
use shad_os.Heap.Blocks.{has_room}
use shad_os.Heap.Release.{Coalesced}
use shad_os.Heap.Malloc.{Allocates, Served, kmalloc-first_fit, kmalloc-Served, kmalloc-wraps}
use shad_os.Heap.Free.{kfree-Live}
use shad_os.Heap.Session.{
  initial, heap_init-IsHeap, kfree-kmalloc, Session, begin, allocated, Session-returns,
}
use shad_os.Heap.Samples.{shared, busy, busy-IsHeap}
use shad_os.Heap.Totals.{used_bytes, free_bytes, free_count, heap_get_stats-blocks}

abbrev zeroed : Heap
zeroed = record {
  mem = λ _. record { size = 0; free = false; next = 0 };
  start = 0;
  base = 0;
  total = 0;
}

abbrev kernel_end : ℕ
kernel_end = 0x12_3456

-- The heap after `heap_init`.
booted : Heap
booted = heap_init kernel_end zeroed

booted-IsHeap : IsHeap booted initial
unfolding booted
booted-IsHeap = (heap_init-IsHeap kernel_end zeroed (omega arith) (omega arith)).0

first_pointer : Option.map (λ r. r.0) (kmalloc 100 booted) ≡ some 0x12_400c
unfolding booted kmalloc kmalloc_loop heap_init align_up split occupy write
first_pointer = refl

kmalloc-first_fit_example :
    (r : ℕ × Heap) × (kmalloc 100 booted ≡ some r)
    × Allocates booted (first_fit (align_up 100 alignment) booted.base initial) r
kmalloc-first_fit_example = kmalloc-first_fit 100 (omega arith) booted-IsHeap

kmalloc-Served_example :
    (r : ℕ × Heap) × (kmalloc 100 booted ≡ some r) × Served 100 booted initial r
kmalloc-Served_example = kmalloc-Served 100 (omega arith) (omega arith) booted-IsHeap

kmalloc-wraps_example :
    (r : ℕ × Heap) × (kmalloc (word - 1) booted ≡ some r)
    × (r.0 ≢ null)
    × ((l : List Block) × IsHeap r.1 l × (k : ℕ) × (k < 28) × Live booted.base l r.0 k)
unfolding has_room
kmalloc-wraps_example = kmalloc-wraps (word - 1) (omega arith) (omega arith) refl booted-IsHeap

kfree-Live_example :
    (g : Heap) × (kfree 0x12_400c busy ≡ some g)
    × (g.base ≡ busy.base)
    × ((r : List Block) × IsHeap g r
        × Coalesced r
        × ((q k : ℕ) → Live g.base r q k ↔ Live busy.base shared q k × (q ≢ 0x12_400c)))
kfree-Live_example = kfree-Live 0x12_400c 104 busy-IsHeap (inl (refl, refl, refl))

-- The heap that `kmalloc 100` leaves.
after_first : Heap
unfolding booted heap_init align_up split occupy write
after_first = record booted { mem = occupy (split booted.mem 0x12_4000 104) 0x12_4000 }

first_call : kmalloc 100 booted ≡ some (0x12_400c, after_first)
unfolding after_first kmalloc kmalloc_loop
first_call = refl

kfree-kmalloc_example : (g : Heap) × (kfree 0x12_400c after_first ≡ some g) × IsHeap g initial
kfree-kmalloc_example =
    kfree-kmalloc 100 booted-IsHeap (refl, tt) (omega arith) first_call (omega arith)

heap_get_stats-blocks_example :
    (s : Stats) × (heap_get_stats busy ≡ some s)
    × (s.used ≡ used_bytes shared)
    × (s.free_bytes ≡ free_bytes shared)
    × (s.free_blocks ≡ free_count shared)
    × (s.total ≡ s.used + s.free_bytes)
    × (s.total + header_size * length shared ≡ heap_size)
heap_get_stats-blocks_example = heap_get_stats-blocks busy-IsHeap

first-Session : Session (heap_init kernel_end zeroed) after_first
unfolding booted
first-Session = allocated 100 0x12_400c begin (omega arith) first_call

Session-returns_example :
    (bs : List Block) × IsHeap after_first bs
    × Coalesced bs
    × (((p n : ℕ) → Live after_first.base bs p n → ⊥) → bs ≡ initial)
Session-returns_example =
    Session-returns kernel_end zeroed (omega arith) (omega arith) first-Session
