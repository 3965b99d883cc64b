-- ===== src/Switch/Tests.antt =====
-- The theorems about `switch_to` at concrete inputs.
use shad_os.Base.{
  ◌++◌, ℕ, zero, suc, ◌+◌, true, false, List, ◌==◌, if◌then◌else◌, ◌≡◌, refl, inl, inr, none, some,
  [], ◌∷◌, arith,
}
use shad_os.Heap.{null, kmalloc, kmalloc_loop, occupy, write, split}
use shad_os.Heap.Samples.{shared, busy, busy-IsHeap}
use shad_os.Tasking.{
  store_task, store_words, link_task, Task, Tasking, Step, task_running, task_ready, task_create,
  schedule,
}
use shad_os.Tasking.Samples.{first_task}
use mathlib.Core.Option.{get_or}
use shad_os.Switch.{Cpu, Words, switch_to, perform}
use shad_os.Switch.Resume.{returned, switch_to-returned}
use shad_os.Switch.Turns.{Shows, InTurn}
use shad_os.Switch.Rounds.{ticks, after_ticks, ticks-Shows}
use shad_os.Switch.Cycle.{run_ticks, AllLeave, run_ticks-returned}
use shad_os.Switch.User.{Entered, enter_usermode, enter_usermode-Entered}
use shad_os.Switch.Start.{Begun, task_create-Begun}

-- A task that calls `switch_to` from 0x10_2345, on a stack below the heap.
abbrev caller : Cpu
caller = record { edi = 1; esi = 2; ebx = 3; ebp = 0x8_fff0; esp = 0x8_ffd0; eip = 0x10_2340 }

abbrev other : Cpu
other = record { edi = 5; esi = 6; ebx = 7; ebp = 8; esp = 0x9_0000; eip = 0x10_2340 }

abbrev blank : Words
blank _ = 0x10_2345

switch_to-returned_example :
    (switch_to (switch_to 0x9_0000 caller blank).0 other (switch_to 0x9_0000 caller blank).2).1
    ≡ returned caller blank
switch_to-returned_example =
    switch_to-returned 0x9_0000 caller blank other (switch_to 0x9_0000 caller blank).2
      (omega arith, omega arith) (omega arith, omega arith) (inr (omega arith)) (λ x low high. refl)

abbrev made : Tasking
made = (get_or (task_create 0x10_3000 0x10_2000 first_task) (none, first_task)).1

made-created : task_create 0x10_3000 0x10_2000 first_task ≡ some (some 1, made)
unfolding task_create link_task store_task store_words kmalloc kmalloc_loop occupy write split
made-created = refl

task_create-Begun_example :
    (r : Step) × (t : ℕ) × (stack : ℕ) × (schedule 2 made ≡ some r)
    × Begun 0x10_3000 0x10_2000 first_task caller t stack (perform caller r).0 (perform caller r).1
task_create-Begun_example =
    task_create-Begun 0x10_3000 0x10_2000 2 first_task shared [] caller 1 made refl refl
      (omega arith) busy-IsHeap refl ((104, inl (refl, refl, refl)), tt) (omega arith, omega arith)
      (inr (inl (omega arith))) made-created

-- Three tasks in a circle.
abbrev three : ℕ → Task
three a = record {
  esp = 0;
  stack_base = null;
  entry = null;
  pid = a;
  state = if a == 1 then task_running else task_ready;
  next = if a == 3 then 1 else a + 1;
}

abbrev circle : Tasking
circle = record {
  tasks = three;
  current = 1;
  zombie = null;
  next_pid = 4;
  ready = true;
  tick_counter = 0;
  paused = false;
  heap = busy;
  words = blank;
}

circle-Shows : Shows circle (0, 1 ∷ 2 ∷ 3 ∷ [])
circle-Shows = (
  refl,
  record {
    ready = refl;
    paused = refl;
    zombie = refl;
    count = refl;
    early = omega arith;
    ring = (refl, ground arith, (refl, ground arith, refl));
    distinct = ((ground arith, (ground arith, tt)), ((ground arith, tt), (tt, tt)));
    alive = (refl, (refl, (refl, tt)));
    heap = (shared, busy-IsHeap);
  },
)

abbrev callers : ℕ → Cpu → List Cpu
callers zero c = []
callers (suc n) c = c ∷ callers n c

others-leave : (n : ℕ) → AllLeave 0x8_ffc0 (callers n other)
others-leave zero = tt
others-leave (suc n) = (((omega arith, omega arith), inr (omega arith)), others-leave n)

ticks-Shows_example :
    (u : Tasking) × (ticks 3 (caller ∷ other ∷ []) circle ≡ some u)
    × Shows u (after_ticks 2 (0, 1 ∷ 2 ∷ 3 ∷ []))
ticks-Shows_example =
    ticks-Shows 3 (caller ∷ other ∷ []) circle (0, 1 ∷ 2 ∷ 3 ∷ []) (omega arith) circle-Shows

-- Each of the tasks with a stack of its own: the first is interrupted at 0x8_ffd0, the others far off.
run_ticks-returned_example :
    (v : Tasking) × (run_ticks 3 (callers 4 other ++ caller ∷ callers 10 other) (circle, other)
      ≡ some (v, returned caller blank))
    × (v.current ≡ 1)
    × InTurn v 0 (2 ∷ 3 ∷ [])
run_ticks-returned_example =
    run_ticks-returned 3 circle other 1 2 (3 ∷ []) (callers 4 other) caller (callers 10 other)
      (omega arith) circle-Shows refl refl (omega arith, omega arith) (omega arith)
      (others-leave 10)

enter_usermode-Entered_example :
    Entered 0x202 caller blank
      (enter_usermode 0x202 caller blank).0
      (enter_usermode 0x202 caller blank).1
      (enter_usermode 0x202 caller blank).2
enter_usermode-Entered_example =
    enter_usermode-Entered 0x202 caller blank (omega arith) (omega arith)
