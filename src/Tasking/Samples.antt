-- ===== src/Tasking/Samples.antt =====
-- A state of the tasking, for tests.
use shad_os.Base.{true, false}
use shad_os.Heap.{null}
use shad_os.Heap.Samples.{busy}
use shad_os.Tasking.{Tasking, task_running}

-- The first task, alone in its circle, in a block of the heap.
abbrev pub first_task : Tasking
first_task = record {
  tasks = λ _. record {
    esp = 0;
    stack_base = null;
    entry = null;
    pid = 0;
    state = task_running;
    next = 0x12_400c;
  };
  current = 0x12_400c;
  zombie = null;
  next_pid = 1;
  ready = true;
  tick_counter = 0;
  paused = false;
  heap = busy;
  words = λ _. 0;
}
