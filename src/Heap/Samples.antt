-- ===== src/Heap/Samples.antt =====
-- A heap with a block in use, for tests.
use shad_os.Base.{◌-◌, refl, true, false, List, [], ◌∷◌, ◌==◌, if◌then◌else◌, arith}
use shad_os.Heap.{Heap, heap_size}
use shad_os.Heap.Layout.{Block, block, IsHeap}

-- A heap with one block of 104 bytes in use, at 0x12_400c.
abbrev pub shared : List Block
shared = block 104 false ∷ block (heap_size - 128) true ∷ []

abbrev pub busy : Heap
busy = record {
  mem = λ a.
      if a == 0x12_4000
      then record { size = 104; free = false; next = 0x12_4074 }
      else record { size = heap_size - 128; free = true; next = 0 };
  start = 0x12_4000;
  base = 0x12_4000;
  total = heap_size;
}

pub busy-IsHeap : IsHeap busy shared
busy-IsHeap = record {
  at_base = refl;
  not_null = omega arith;
  in_word = omega arith;
  whole = refl;
  chain = (refl, (refl, refl));
}
