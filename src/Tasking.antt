-- ===== src/Tasking.antt =====
-- tasking.c: the tasks in a circular list, and the scheduler. A task is read and written at its
-- address; `switch_to` of low_level.S is the end of a step, as it goes on in another task.
pub mod Listing
pub mod Ring
pub mod Reap
pub mod Schedule
pub mod Linked
pub mod Freed
pub mod Exit
pub mod Reuse
pub mod Create
pub mod Circle
pub mod Samples
mod Tests
use shad_os.Base.{
  ℕ, zero, suc, ◌+◌, ◌-◌, ◌*◌, ◌%◌, Bool, true, false, not, ◌&&◌, ◌||◌, Option, none, some, List,
  [], ◌∷◌, ◌++◌, ltb, leb, ◌==◌, if◌then◌else◌, word,
}
use shad_os.Heap.{Heap, kmalloc, kfree, null}

abbrev pub task_stack_size : ℕ
task_stack_size = 8192

abbrev pub schedule_every_n_ticks : ℕ
schedule_every_n_ticks = 5

pub data TaskState : Type 0 where
  task_ready task_running task_terminated : TaskState

abbrev pub is_terminated : TaskState → Bool
is_terminated task_ready = false
is_terminated task_running = false
is_terminated task_terminated = true

abbrev pub is_running : TaskState → Bool
is_running task_ready = false
is_running task_running = true
is_running task_terminated = false

pub record Task : Type 0 where
  pub esp : ℕ
  pub stack_base : ℕ
  pub entry : ℕ
  pub pid : ℕ
  pub state : TaskState
  pub next : ℕ

-- `sizeof(task_t)`
abbrev pub task_size : ℕ
task_size = 24

-- The static variables, the tasks at their addresses, the heap that they are taken from, and the
-- words of their stacks, each at its address.
-- `ready` is `tasking_ready`, `paused` is `tasking_paused`, and `current` is `current_task`.
pub record Tasking : Type 0 where
  pub tasks : ℕ → Task
  pub current : ℕ
  pub zombie : ℕ
  pub next_pid : ℕ
  pub ready : Bool
  pub tick_counter : ℕ
  pub paused : Bool
  pub heap : Heap
  pub words : ℕ → ℕ

-- Where a call ends: in its caller, or in a switch that saves the stack of one task and takes up
-- another's.
pub data Step : Type 0 where
  stays : Tasking → Step
  switches : Tasking → (old new_esp : ℕ) → Step

unfoldable pub store_task : ℕ → Task → (ℕ → Task) → ℕ → Task
store_task p t m a = if a == p then t else m a

unfoldable pub set_paused : Bool → Tasking → Tasking
set_paused paused s = record s { paused = paused }

-- `none`: `kmalloc` does not end. The code does not test for `NULL` here.
unfoldable pub tasking_init : Tasking → Option Tasking
unfolding store_task
tasking_init s = elim (kmalloc task_size s.heap) [
  | none ↦ none
  | some (t0, h) ↦ some (record s {
    tasks =
        store_task t0
          (record {
            esp = 0;
            stack_base = null;
            entry = null;
            pid = s.next_pid;
            state = task_running;
            next = t0;
          })
          s.tasks;
    next_pid = s.next_pid + 1;
    current = t0;
    ready = true;
    heap = h;
  })
]

-- `p[0] = v0; p[1] = v1; ...` on words.
unfoldable pub store_words : ℕ → List ℕ → (ℕ → ℕ) → ℕ → ℕ
store_words p [] m = m
store_words p (v ∷ vs) m = store_words (p + 4) vs (λ a. if a == p then v else m a)

-- The stores of `task_create` behind its two allocations: the five words that `switch_to` pops, the
-- new task, and the links. `trampoline` is the address of `task_trampoline`.
unfoldable pub link_task : (trampoline entry t stack : ℕ) → Tasking → Tasking
unfolding store_task store_words
link_task trampoline entry t stack s =
    let sp = stack + task_stack_size - 20 in
    let made =
      store_task t
        (record {
          esp = sp;
          stack_base = stack;
          entry = entry;
          pid = s.next_pid;
          state = task_ready;
          next = (s.tasks s.current).next;
        })
        s.tasks in
    record s {
      tasks = store_task s.current (record (made s.current) { next = t }) made;
      next_pid = s.next_pid + 1;
      words = store_words sp (0 ∷ 0 ∷ 0 ∷ 0 ∷ trampoline ∷ []) s.words;
    }

unfoldable pub task_create : (trampoline entry : ℕ) → Tasking → Option (Option ℕ × Tasking)
unfolding link_task
task_create trampoline entry s = elim (kmalloc task_size s.heap) [
  | none ↦ none
  | some (t, h) ↦
      if t == null then some (none, record s { heap = h }) else elim (kmalloc task_stack_size h) [
        | none ↦ none
        | some (stack, g) ↦
            if stack == null
            then (elim (kfree t g) [ none ↦ none | some f ↦ some (none, record s { heap = f }) ])
            else some (some s.next_pid, link_task trampoline entry t stack (record s { heap = g }))
      ]
]

-- `if (zombie) { ... }`
unfoldable pub reap : Tasking → Option Tasking
reap s =
    let stack = (s.tasks s.zombie).stack_base in
    if s.zombie == null
    then some s
    else elim (if stack == null then some s.heap else kfree stack s.heap) [
      | none ↦ none
      | some h ↦ elim (kfree s.zombie h) [
        | none ↦ none
        | some g ↦ some (record s { zombie = null; heap = g })
      ]
    ]

-- `while (next->state == TASK_TERMINATED && next != prev) next = next->next;`
unfoldable pub find_next : (fuel : ℕ) → (ℕ → Task) → (prev next : ℕ) → Option ℕ
find_next zero m prev next = none
find_next (suc fuel) m prev next =
    let rest = find_next fuel m prev (m next).next in
    if is_terminated (m next).state && not (next == prev) then rest else some next

-- What becomes of the task that is left: a finished one waits to be freed.
unfoldable pub leave : Tasking → ℕ → Tasking
unfolding store_task
leave s prev =
    if is_terminated (s.tasks prev).state
    then record s { zombie = prev }
    else if is_running (s.tasks prev).state
    then record s { tasks = store_task prev (record (s.tasks prev) { state = task_ready }) s.tasks }
    else s

-- `schedule` from the two tests of `next == prev` on.
unfoldable pub take_up : Tasking → (prev next : ℕ) → Step
unfolding leave store_task
take_up s prev next =
    let left = leave s prev in
    let started = record (left.tasks next) { state = task_running } in
    if next == prev
    then stays s
    else switches (record left { tasks = store_task next started left.tasks; current = next }) prev
        (left.tasks next).esp

-- `fuel` bounds the search for a task alone.
unfoldable pub schedule : (fuel : ℕ) → Tasking → Option Step
schedule fuel s = if not s.ready then some (stays s) else elim (reap s) [
  | none ↦ none
  | some t ↦ elim (find_next fuel t.tasks t.current (t.tasks t.current).next) [
    | none ↦ none
    | some n ↦ some (take_up t t.current n)
  ]
]

unfoldable pub task_exit : (fuel : ℕ) → Tasking → Option Step
unfolding schedule store_task
task_exit fuel s = schedule fuel (record s {
  tasks = store_task s.current (record (s.tasks s.current) { state = task_terminated }) s.tasks;
})

-- Where a new task starts. `run` stands for the function at an address, which returns with what it
-- has made of the state.
unfoldable pub task_trampoline : (run : ℕ → Tasking → Tasking) → (fuel : ℕ) → Tasking → Option Step
unfolding task_exit
task_trampoline run fuel s =
    let entry = (s.tasks s.current).entry in
    task_exit fuel (if s.current == null || entry == null then s else run entry s)

unfoldable pub tasking_tick : (fuel : ℕ) → Tasking → Option Step
unfolding schedule
tasking_tick fuel s =
    let count = (s.tick_counter + 1) % word in
    if not s.ready || s.paused
    then some (stays s)
    else if leb schedule_every_n_ticks count
    then schedule fuel (record s { tick_counter = 0 })
    else some (stays (record s { tick_counter = count }))
