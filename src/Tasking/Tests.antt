-- ===== src/Tasking/Tests.antt =====
-- The theorems about tasking.c at concrete inputs.
use shad_os.Base.{
  ℕ, ◌≡◌, ◌≢◌, refl, inl, inr, true, false, Option, some, List, [], ◌∷◌, arith, ◌==◌, if◌then◌else◌,
}
use shad_os.Base.Text.{codes}
use shad_os.Terminal.{Call, write_string}
use shad_os.Heap.{kmalloc, kmalloc_loop, occupy, write, split, Heap, heap_init, null}
use shad_os.Heap.Layout.{Block, IsHeap}
use shad_os.Heap.Session.{initial, heap_init-IsHeap}
use shad_os.Heap.Samples.{shared, busy, busy-IsHeap}
use shad_os.Heap.Layout.{Live}
use shad_os.Tasking.Create.{Created, task_create-Created}
use shad_os.Tasking.{
  task_exit, switches, Task, Tasking, Step, task_ready, task_running, task_terminated, schedule,
  task_create,
}
use shad_os.Tasking.Listing.{tasking_list}
use shad_os.Tasking.Samples.{first_task}
use shad_os.Tasking.Ring.{Ring, first_alive, rows_of, read_rows, tasking_list-read_rows}
use shad_os.Tasking.Exit.{Exited, task_exit-Exited}
use mathlib.Core.Option.{get_or}
use shad_os.Tasking.Reuse.{Among, follow, task_create-cut}
use shad_os.Tasking.Freed.{reached, schedule-dangling}
use shad_os.Tasking.Schedule.{Scheduled, schedule-Scheduled}
use shad_os.Tasking.Reap.{Reaped}

abbrev kernel_end : ℕ
kernel_end = 0x12_3456

abbrev zeroed : Heap
zeroed = record {
  mem = λ _. record { size = 0; free = false; next = 0 };
  start = 0;
  base = 0;
  total = 0;
}

-- Three tasks in a circle: the first runs, the second has finished, the third is ready.
abbrev circle : ℕ → Task
circle a =
    if a == 0x100
    then record { esp = 1; stack_base = 0; entry = 0; pid = 0; state = task_running; next = 0x200 }
    else if a == 0x200
    then record {
      esp = 2;
      stack_base = 0;
      entry = 0;
      pid = 1;
      state = task_terminated;
      next = 0x300;
    }
    else record { esp = 3; stack_base = 0; entry = 0; pid = 2; state = task_ready; next = 0x100 }

abbrev started : Tasking
started = record {
  tasks = circle;
  current = 0x100;
  zombie = null;
  next_pid = 3;
  ready = true;
  tick_counter = 0;
  paused = false;
  heap = heap_init kernel_end zeroed;
  words = λ _. 0;
}

abbrev behind : List ℕ
behind = 0x200 ∷ 0x300 ∷ []

third_is_next : first_alive circle 0x100 behind ≡ 0x300
unfolding first_alive
third_is_next = refl

schedule-Scheduled_example :
    (h : Heap) × (r : Step) × Reaped started initial h
    × (schedule 3 started ≡ some r)
    × Scheduled started h (first_alive circle 0x100 behind) r
schedule-Scheduled_example =
    schedule-Scheduled 3 started initial behind refl
      (heap_init-IsHeap kernel_end zeroed (omega arith) (omega arith)).0 (inl refl)
      (refl, ground arith, (refl, ground arith, refl)) (omega arith)

tasking_list-read_rows_example :
    (calls : List Call) × (tasking_list 3 started
      ≡ some (write_string (codes "PID  ETAT\n") ∷ calls))
    × (read_rows calls ≡ some (rows_of circle (0x100 ∷ behind)))
tasking_list-read_rows_example =
    tasking_list-read_rows 3 started behind refl (refl, ground arith, (refl, ground arith, refl))
      (omega arith)

task_create-Created_example :
    (r : Option ℕ) × (u : Tasking) × (task_create 0x10_3000 0x10_2000 first_task ≡ some (r, u))
    × Created 0x10_3000 0x10_2000 first_task shared [] r u
task_create-Created_example =
    task_create-Created 0x10_3000 0x10_2000 first_task shared [] busy-IsHeap refl
      ((104, inl (refl, refl, refl)), tt)

-- The circle with its second task in a block of the heap, waiting to be freed.
abbrev ended : Tasking
ended = record started {
  tasks = λ a.
      if a == 0x100
      then record (circle 0x100) { next = 0x12_400c }
      else if a == 0x12_400c
      then circle 0x200
      else circle 0x300;
  zombie = 0x12_400c;
  heap = busy;
}

schedule-dangling_example :
    (r : Step) × (schedule 3 ended ≡ some r)
    × ((l : List Block) × IsHeap (reached r).heap l
        × ((k : ℕ) → Live (reached r).heap.base l 0x12_400c k → ⊥))
    × Ring (reached r).tasks 0x100 0x100 (0x12_400c ∷ 0x300 ∷ [])
schedule-dangling_example =
    schedule-dangling 3 ended shared (0x12_400c ∷ 0x300 ∷ []) refl busy-IsHeap
      (inr (104, inl (refl, refl, refl), inl refl)) (refl, ground arith, (refl, ground arith, refl))
      (omega arith) (ground arith) (λ absent. absent.0 refl)

-- The first task has been joined by another, and its turn is over.
abbrev leaving : Tasking
leaving = record first_task {
  tasks = λ a. record (first_task.tasks a) { next = if a == 0x12_400c then 0x100 else 0x12_400c };
}

task_exit-Exited_example :
    (g : Tasking) × (esp : ℕ) × (task_exit 2 leaving ≡ some (switches g 0x12_400c esp))
    × Exited leaving shared g
task_exit-Exited_example =
    task_exit-Exited 2 leaving shared (0x100 ∷ []) refl refl busy-IsHeap
      (104, inl (refl, refl, refl), inl refl) (refl, ground arith, refl) (inl refl) (omega arith)

-- Three tasks in a circle behind the first, the second of them freed, and the heap about to give
-- its block again.
abbrev stale : Tasking
stale = record first_task {
  tasks = λ a. record (first_task.tasks a) {
    next =
        if a == 0x12_400c
        then 0x100
        else if a == 0x100
        then 0x12_4080
        else if a == 0x12_4080
        then 0x200
        else 0x12_400c;
  };
}

-- The heaps behind the two calls of `kmalloc`.
abbrev first_heap : Heap
first_heap = (get_or (kmalloc 24 busy) (0, busy)).1

abbrev second_heap : Heap
second_heap = (get_or (kmalloc 8192 first_heap) (0, busy)).1

first_call : kmalloc 24 busy ≡ some (0x12_4080, first_heap)
unfolding kmalloc kmalloc_loop occupy write split
first_call = refl

second_call : kmalloc 8192 first_heap ≡ some (0x12_40a4, second_heap)
unfolding kmalloc kmalloc_loop occupy write split
second_call = refl

task_create-cut_example :
    (u : Tasking) × (task_create 0x10_3000 0x10_2000 stale ≡ some (some 1, u))
    × ((u.tasks 0x12_400c).next ≡ 0x12_4080)
    × ((n : ℕ)
        → Among (follow u.tasks n 0x12_4080) (0x12_4080 ∷ 0x100 ∷ [])
          × (follow u.tasks n 0x12_4080 ≢ 0x12_400c))
task_create-cut_example =
    task_create-cut 0x10_3000 0x10_2000 0x12_4080 0x12_40a4 stale first_heap second_heap
      (0x100 ∷ []) (0x200 ∷ [])
      (refl, ground arith, (refl, ground arith, (refl, ground arith, refl)))
      (
        (ground arith, (ground arith, (ground arith, tt))),
        ((ground arith, (ground arith, tt)), ((ground arith, tt), (tt, tt))),
      )
      first_call second_call (omega arith) (omega arith)
