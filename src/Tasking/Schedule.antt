-- ===== src/Tasking/Schedule.antt =====
-- What `schedule` of tasking.c does, on a list whose finished task is still on the heap.
use shad_os.Base.{
  ℕ, ◌<◌, ◌≡◌, ◌≢◌, refl, inl, inr, true, false, some, List, ◌==◌, if◌then◌else◌, arith, length,
  Bool-cases,
}
use shad_os.Heap.{Heap, null}
use shad_os.Heap.Layout.{Block, IsHeap}
use shad_os.Tasking.{
  Task, Tasking, Step, stays, switches, TaskState, task_ready, task_running, task_terminated,
  is_terminated, is_running, store_task, leave, take_up, schedule,
}
use shad_os.Tasking.Reap.{IsReapable, Reaped, reap-Reaped}
use shad_os.Tasking.Ring.{Ring, first_alive, find_next-first_alive, first_alive-none_over}

-- The task that is left is running no more.
abbrev pub settled : Task → Task
settled t = if is_running t.state then record t { state = task_ready } else t

-- The task that waits to be freed once `prev` has been left.
abbrev pub waiting : Tasking → (prev : ℕ) → ℕ
waiting s prev = if is_terminated (s.tasks prev).state then prev else null

-- One turn of the scheduler from `s`, where the next task is `next`, the heap becomes `h`, and
-- nothing but what is named changes.
pub data Scheduled (s : Tasking) (h : Heap) (next : ℕ) : Step → Type 0 where
  alone : next ≡ s.current → Scheduled s h next (stays (record s { zombie = null; heap = h }))
  turned :
      (m : ℕ → Task)
      → next ≢ s.current
      → is_terminated (s.tasks next).state ≡ false
      → m next ≡ record (s.tasks next) { state = task_running }
      → m s.current ≡ settled (s.tasks s.current)
      → ((x : ℕ) → (m x).next ≡ (s.tasks x).next)
      → ((x : ℕ) → x ≢ next → x ≢ s.current → m x ≡ s.tasks x)
      → Scheduled s h next (
          switches
            (record s { tasks = m; current = next; zombie = waiting s s.current; heap = h })
            s.current
            (s.tasks next).esp)

-- What `leave` makes of the tasks.
record Left (s : Tasking) (h : Heap) (prev : ℕ) (m : ℕ → Task) : Type 0 where
  whole :
      leave (record s { zombie = null; heap = h }) prev
      ≡ record s { tasks = m; zombie = waiting s prev; heap = h }
  quiet : m prev ≡ settled (s.tasks prev)
  links : (x : ℕ) → (m x).next ≡ (s.tasks x).next
  others : (x : ℕ) → x ≢ prev → m x ≡ s.tasks x

not_running : (t : TaskState) → is_terminated t ≡ true → is_running t ≡ false
not_running task_ready over = refl
not_running task_running over = absurd (ground arith)
not_running task_terminated over = refl

leave-Left : (s : Tasking) (h : Heap) (prev : ℕ) → (m : ℕ → Task) × Left s h prev m
unfolding leave store_task
leave-Left s h prev = elim (Bool-cases (is_terminated (s.tasks prev).state)) [
  | inl over ↦ (
    s.tasks,
    record {
      whole = rw over refl;
      quiet = rw (not_running (s.tasks prev).state over) refl;
      links = λ x. refl;
      others = λ x h. refl;
    },
  )
  | inr alive ↦ elim (Bool-cases (is_running (s.tasks prev).state)) [
    | inl running ↦ (
      store_task prev (record (s.tasks prev) { state = task_ready }) s.tasks,
      record {
        whole = rw (alive, running) refl;
        quiet = rw running (ground arith);
        links = λ x. ground arith;
        others = λ x other. ground arith;
      },
    )
    | inr idle ↦ (
      s.tasks,
      record {
        whole = rw (alive, idle) refl;
        quiet = rw idle refl;
        links = λ x. refl;
        others = λ x h. refl;
      },
    )
  ]
]

take_up-Scheduled :
    (s : Tasking) (h : Heap) (next : ℕ)
    → (next ≢ s.current → is_terminated (s.tasks next).state ≡ false)
    → Scheduled s h next (take_up (record s { zombie = null; heap = h }) s.current next)
unfolding take_up store_task
take_up-Scheduled s h next alive = elim (Bool-cases (next == s.current)) [
  | inl same ↦ rw same (alone (ground arith))
  | inr other ↦
      let apart : next ≢ s.current = ground arith in
      let (m, left) = leave-Left s h s.current in
      let before : m next ≡ s.tasks next = left.others next apart in
      let started : Task = record (s.tasks next) { state = task_running } in
      let hit : (next == next) ≡ true = ground arith in
      let back : (s.current == next) ≡ false = ground arith in
      rw (other, left.whole, before)
        (turned (store_task next started m) apart (alive apart) (rw hit refl) (rw back left.quiet)
          (λ x. ground (arith, before, left.links next, left.links x))
          (λ x off off'.
            let miss : (x == next) ≡ false = ground arith in rw miss (left.others x off')))
]

-- On a well-formed heap, with the tasking started, the finished task that waits (if any) and its
-- stack on the heap, and a circular list of fewer tasks than the rounds of the search: `schedule`
-- ends. Exactly the blocks of the finished task are freed, and the first task behind the current
-- one that has not finished takes the turn, or nothing else changes if there is none; a task that
-- has finished waits to be freed, and the links, all other tasks, the words of the stacks and the
-- rest of the state are as they were.
pub schedule-Scheduled :
    (fuel : ℕ) (s : Tasking) (bs : List Block) (ts : List ℕ)
    → s.ready ≡ true
    → IsHeap s.heap bs
    → IsReapable s bs
    → Ring s.tasks s.current s.current ts
    → length ts < fuel
    → (h : Heap) × (r : Step) × Reaped s bs h
      × (schedule fuel s ≡ some r)
      × Scheduled s h (first_alive s.tasks s.current ts) r
unfolding schedule
schedule-Scheduled fuel s bs ts ready i z ring room =
    let (h, reaped, whole) = reap-Reaped s bs i z in
    let found = find_next-first_alive fuel s.tasks s.current s.current ts ring room in
    (
      h,
      _,
      whole,
      rw (reaped, found, ready) refl,
      take_up-Scheduled s h (first_alive s.tasks s.current ts)
          (first_alive-none_over s.tasks s.current ts),
    )
