-- ===== src/Shell/Sound.antt =====
-- Every command of shell.c ends, and leaves the files and the heap in order.
use shad_os.Base.{
  ℕ, ◌<◌, ◌≡◌, ◌⊎◌, ◌∙◌, refl, sym, subst, inl, inr, true, false, Option, none, some, List, length,
}
use shad_os.Base.Copy.{Apart}
use shad_os.Io.{Log}
use shad_os.Heap.{Heap, heap_size}
use shad_os.Heap.Layout.{Block, Live, IsHeap}
use shad_os.String.{Bytes}
use shad_os.Terminal.{Call}
use shad_os.Ramfs.{Ramfs, same}
use shad_os.Ramfs.Store.{IsStore, IsStore-mem}
use shad_os.Tasking.{Tasking}
use shad_os.Tasking.Ring.{Ring}
use shad_os.Commands.{World}
use shad_os.Commands.Alloc.{Tested, given_back, out_of_memory}
use shad_os.Commands.Texts.{WriteShown, written, failed, RmShown, gone, missing}
use shad_os.Shell.{Ending, went, cleared, halted, cmd_buffer_size, set_mem, set_fs}

-- The list of tasks is not started, or a circle of fewer tasks than the rounds of its listing.
abbrev pub IsListed : (rounds : ℕ) → Tasking → Type 0
IsListed rounds t =
    (t.ready ≡ false)
    ⊎ ((t.ready ≡ true)
        × ((ts : List ℕ) × Ring t.tasks t.current t.current ts × (length ts < rounds)))

-- The table of files and the heap are in order, the buffer of the line stands outside the heap's
-- zone, and the tasks can be listed.
pub record IsInOrder (buffer rounds : ℕ) (w : World) : Type 0 where
  pub store : (bs : List Block) × IsStore w.fs bs
  pub ready : w.fs.ready ≡ true
  pub apart : Apart buffer cmd_buffer_size w.fs.heap.base heap_size
  pub tasks : IsListed rounds w.tasking

-- A command has ended, and left the world in order if it has not stopped the machine.
abbrev pub EndsInOrder : (buffer rounds : ℕ) → Option (Ending × Log) → Type 0
EndsInOrder buffer rounds none = ⊥
EndsInOrder buffer rounds (some (went w calls, l)) = IsInOrder buffer rounds w
EndsInOrder buffer rounds (some (cleared w calls, l)) = IsInOrder buffer rounds w
EndsInOrder buffer rounds (some (halted calls, l)) = Unit {0}

-- A heap on which what was live is live still holds the files.
IsStore-heap :
    (s : Ramfs) (bs r : List Block) (m : Bytes) (g : Heap)
    → IsStore s bs
    → IsHeap g r
    → g.base ≡ s.heap.base
    → ((q k : ℕ) → Live s.heap.base bs q k → Live s.heap.base r q k)
    → IsStore (record s { mem = m; heap = g }) r
IsStore-heap s bs r m g ok is at kept = record {
  heap = is;
  held = λ i inside. rw at (elim (ok.held i inside) [
    | inl no_data ↦ inl no_data
    | inr (k, live, room) ↦ inr (k, kept (s.files i).data_at k live, room)
  ]);
  empty = ok.empty;
  own = ok.own;
  unique = ok.unique;
}

pub moved-IsInOrder :
    (buffer rounds : ℕ) (w : World) (m : Bytes)
    → IsInOrder buffer rounds w
    → IsInOrder buffer rounds (set_mem m w)
moved-IsInOrder buffer rounds w m ok = record {
  store = (ok.store.0, IsStore-mem w.fs ok.store.0 m ok.store.1);
  ready = ok.ready;
  apart = ok.apart;
  tasks = ok.tasks;
}

-- The table and the heap are replaced, in the same place.
pub filed-IsInOrder :
    (buffer rounds : ℕ) (w : World) (t : Ramfs)
    → IsInOrder buffer rounds w
    → ((r : List Block) × IsStore t r)
    → t.ready ≡ w.fs.ready
    → t.heap.base ≡ w.fs.heap.base
    → IsInOrder buffer rounds (set_fs t w)
filed-IsInOrder buffer rounds w t ok store ready base = record {
  store = store;
  ready = ready ∙ ok.ready;
  apart = rw base ok.apart;
  tasks = ok.tasks;
}

pub Tested-IsInOrder :
    {m' : Bytes} {g : Heap} {calls : List Call} (buffer rounds : ℕ) (w : World)
    (ok : IsInOrder buffer rounds w)
    → Tested w.fs.heap ok.store.0 w.fs.mem m' g calls
    → IsInOrder buffer rounds (set_fs (record w.fs { mem = m'; heap = g }) w)
Tested-IsInOrder {m'} {g} buffer rounds w ok (given_back a b c before during after r is at same _) =
    filed-IsInOrder buffer rounds w (record w.fs { mem = m'; heap = g }) ok
      (r, IsStore-heap w.fs ok.store.0 r m' g ok.store.1 is at (λ q k. (same q k).1)) refl at
Tested-IsInOrder {m'} {g} buffer rounds w ok
      (out_of_memory a b c h1 h2 before r _ _ _ _ is at kept _) =
    filed-IsInOrder buffer rounds w (record w.fs { mem = m'; heap = g }) ok
      (r, IsStore-heap w.fs ok.store.0 r m' g ok.store.1 is at kept) refl at

pub WriteShown-IsStore :
    {name text : List ℕ} {t : Ramfs} {calls : List Call}
    → WriteShown name text t calls
    → (r : List Block) × IsStore t r
WriteShown-IsStore (written _ store) = store
WriteShown-IsStore (failed store) = store

pub RmShown-IsStore :
    {name : List ℕ} {s t : Ramfs} {calls : List Call} (bs : List Block)
    → IsStore s bs
    → RmShown name s t calls
    → (r : List Block) × IsStore t r
RmShown-IsStore bs ok (gone _ _ store) = store
RmShown-IsStore {t} bs ok (missing _ e) = (bs, subst (λ x. IsStore x bs) (sym e) ok)
