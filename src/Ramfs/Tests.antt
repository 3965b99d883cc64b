-- ===== src/Ramfs/Tests.antt =====
-- Runs of ramfs.c, and its theorems at concrete inputs.
use shad_os.Base.{◌≡◌, refl, inl, Bool, true, false, Option, none, some, [], ◌∷◌, arith}
use shad_os.Base.Text.{codes}
use shad_os.Base.Copy.{read_bytes}
use shad_os.Heap.{Heap, heap_size, null}
use shad_os.Heap
use shad_os.Heap.{kmalloc, kmalloc_loop, align_up, split, occupy}
use shad_os.Base.Bits.{bit_not}
use shad_os.Ramfs.{
  open_file, ramfs_find_free, fill_file, new_buffer, free_buffer, Ramfs, store_file, same,
  first_index, ramfs_find, ramfs_read, ramfs_init, ramfs_write, ramfs_delete,
}
use shad_os.Heap.Samples.{shared, busy-IsHeap}
use shad_os.Ramfs.Samples.{one_file, one_file-IsStore}
use shad_os.Ramfs.Store.{contents}
use shad_os.Ramfs.Write.{Written, ramfs_write-Written}
use shad_os.Ramfs.Session.{
  write, delete, Meets, started, called_write, called_delete, Session-Meets,
}

shows_data : contents one_file (codes "a") ≡ some (0x0c ∷ 0x0d ∷ 0x0e ∷ [])
unfolding contents ramfs_read ramfs_find first_index same store_file
shows_data = refl

ramfs_write-Written_example :
    (r : Bool) × (u : Ramfs) × (ramfs_write (codes "a") 0x1000 40 one_file ≡ some (r, u))
    × Written (codes "a") (read_bytes one_file.mem 0x1000 40) 40 one_file shared r u
ramfs_write-Written_example =
    ramfs_write-Written (codes "a") 0x1000 40 one_file shared refl one_file-IsStore (omega arith)
      (omega arith)

-- A table without files, four bytes written under a name, and another name deleted.
abbrev empty_table : Ramfs
empty_table = ramfs_init one_file

abbrev behind_write : Option (Bool × Ramfs) → Ramfs
behind_write none = empty_table
behind_write (some (ok, u)) = u

abbrev four_bytes : Ramfs
four_bytes = behind_write (ramfs_write (codes "b") 0x1000 4 empty_table)

writes : ramfs_write (codes "b") 0x1000 4 empty_table ≡ some (true, four_bytes)
unfolding ramfs_write ramfs_init open_file ramfs_find ramfs_find_free first_index fill_file
    new_buffer kmalloc kmalloc_loop align_up bit_not split occupy Heap.write free_buffer store_file
writes = refl

deletes_nothing : ramfs_delete (codes "c") four_bytes ≡ some (false, four_bytes)
unfolding ramfs_write ramfs_init open_file ramfs_find ramfs_find_free first_index fill_file
    new_buffer kmalloc kmalloc_loop align_up bit_not split occupy Heap.write free_buffer store_file
    ramfs_delete same
deletes_nothing = refl

Session-Meets_example :
    Meets
      (delete (codes "c") false ∷ write (codes "b") (read_bytes empty_table.mem 0x1000 4) true ∷ [])
      four_bytes
unfolding ramfs_init
Session-Meets_example = Session-Meets one_file shared busy-IsHeap (
    called_delete (codes "c") false deletes_nothing
      (called_write (codes "b") 0x1000 4 true (inl (omega arith)) (omega arith) writes started))
