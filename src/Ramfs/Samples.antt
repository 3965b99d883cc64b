-- ===== src/Ramfs/Samples.antt =====
-- Two tables of files of ramfs.c, for tests.
use shad_os.Base.{◌%◌, refl, inl, inr, true, false, [], arith}
use shad_os.Base.Text.{codes}
use shad_os.Heap.{null}
use shad_os.Heap.Samples.{shared, busy, busy-IsHeap}
use shad_os.Ramfs.{RamFile, Ramfs, store_file}
use shad_os.Ramfs.Store.{IsStore, IsStore-store_file}

abbrev pub unused : RamFile
unused = record { name = []; data_at = null; size = 0; used = false }

abbrev pub no_files : Ramfs
no_files = record { files = λ _. unused; ready = true; mem = λ a. a % 256; heap = busy }

pub no_files-IsStore : IsStore no_files shared
no_files-IsStore = record {
  heap = busy-IsHeap;
  held = λ i _. inl (refl, refl);
  empty = λ i _ _. refl;
  own = λ i j _ _ _ some_data. absurd (some_data refl);
  unique = λ i j q n _. absurd (cc n.used);
}

-- One file, `a`, with 3 bytes in that block.
abbrev pub a_file : RamFile
a_file = record { name = codes "a"; data_at = 0x12_400c; size = 3; used = true }

abbrev pub one_file : Ramfs
one_file = record no_files { files = store_file 0 a_file no_files.files }

pub one_file-IsStore : IsStore one_file shared
one_file-IsStore =
    IsStore-store_file no_files shared 0 a_file no_files.mem busy shared no_files-IsStore (record {
      heap = busy-IsHeap;
      held = inr (104, inl (refl, refl, refl), omega arith);
      others = λ j _ _. inl (refl, refl);
      empty = λ unused. cc;
      own = λ j _ _ some_data. some_data;
      own' = λ j _ _ some_data. absurd (some_data refl);
      unique = λ j _ _ n. cc n.used;
    })
