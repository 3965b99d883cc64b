-- ===== src/Tasking/Freed.antt =====
-- What becomes of a finished task of tasking.c once it has been freed.
use shad_os.Base.{ℕ, ◌<◌, ◌≡◌, ◌≢◌, refl, inl, true, some, List, length}
use shad_os.Heap.{Heap, null}
use shad_os.Heap.Layout.{Block, Live, IsHeap}
use shad_os.Tasking.{Tasking, Step, stays, switches, schedule}
use shad_os.Tasking.Ring.{Ring, first_alive}
use shad_os.Tasking.Circle.{Ring-same}
use shad_os.Tasking.Linked.{Absent}
use shad_os.Tasking.Schedule.{Scheduled, alone, turned, schedule-Scheduled}
use shad_os.Tasking.Reap.{IsReapable}

-- The state where a step ends.
abbrev pub reached : Step → Tasking
reached (stays s) = s
reached (switches s old new_esp) = s

Scheduled-heap :
    (s : Tasking) (h : Heap) (next : ℕ) (r : Step) → Scheduled s h next r → (reached r).heap ≡ h
Scheduled-heap s h next _ (alone _) = refl
Scheduled-heap s h next _ (turned _ _ _ _ _ _ _) = refl

Scheduled-Ring :
    (s : Tasking) (h : Heap) (next : ℕ) (ts : List ℕ) (r : Step)
    → Scheduled s h next r
    → Ring s.tasks s.current s.current ts
    → Ring (reached r).tasks s.current s.current ts
Scheduled-Ring s h next ts _ (alone _) ring = ring
Scheduled-Ring s h next ts _ (turned m _ _ _ _ links _) ring =
    Ring-same s.tasks m s.current s.current ts links ring

-- On a well-formed heap, with the tasking started, a finished task that waits in the circular
-- list, on the heap as its stack is, and fewer tasks than the rounds of the search: `schedule`
-- ends with no block in use at the finished task, which stands in the circular list nevertheless,
-- as the links of all tasks still lead through it.
pub schedule-dangling :
    (fuel : ℕ) (s : Tasking) (bs : List Block) (ts : List ℕ)
    → s.ready ≡ true
    → IsHeap s.heap bs
    → IsReapable s bs
    → Ring s.tasks s.current s.current ts
    → length ts < fuel
    → s.zombie ≢ null
    → (Absent s.zombie ts → ⊥)
    → (r : Step) × (schedule fuel s ≡ some r)
      × ((l : List Block) × IsHeap (reached r).heap l
          × ((k : ℕ) → Live (reached r).heap.base l s.zombie k → ⊥))
      × Ring (reached r).tasks s.current s.current ts
schedule-dangling fuel s bs ts ready i z ring room waits among =
    let (h, r, reaped, ends, turn) = schedule-Scheduled fuel s bs ts ready i z ring room in
    let same = Scheduled-heap s h (first_alive s.tasks s.current ts) r turn in
    (
      r,
      ends,
      (
        reaped.blocks,
        rw same reaped.heap,
        λ k live. ((reaped.left s.zombie k).0 (rw (same, reaped.base) at live)).1 (waits, inl refl),
      ),
      Scheduled-Ring s h (first_alive s.tasks s.current ts) ts r turn ring,
    )
