-- ===== src/Switch/Start.antt =====
-- A task that `task_create` has made begins in `task_trampoline`, on a stack of its own.
use shad_os.Base.{
  ℕ, ◌+◌, ◌-◌, ◌≤◌, ◌<◌, ◌≡◌, ◌≢◌, ◌⊎◌, ◌∙◌, refl, sym, ap, subst, inl, inr, true, false, Option,
  none, some, List, ◌∷◌, length, Bool-cases, ◌==◌, word, arith,
}
use mathlib.Core.Option.{some-injective, some-ne-none}
use shad_os.Base.Copy.{Apart}
use shad_os.Heap.{Heap, heap_size, null}
use shad_os.Heap.Layout.{Block, Live, IsHeap}
use shad_os.Heap.Blocks.{Live-apart}
use shad_os.Heap.Client.{Live-zone}
use shad_os.Tasking.{
  Task, Tasking, Step, is_running, task_running, task_stack_size, store_task, store_words,
  task_create, schedule,
}
use shad_os.Tasking.Ring.{Ring, first_alive}
use shad_os.Tasking.Schedule.{Scheduled, alone, turned, settled, schedule-Scheduled}
use shad_os.Tasking.Create.{Created, created, failed, task_create-Created}
use shad_os.Tasking.Linked.{AreLive, Linked}
use shad_os.Switch.{Cpu, Words, save, switch_to, perform}
use shad_os.Switch.Frame.{fresh_cpu, frame, restore-frame, frame-other}
use shad_os.Switch.Resume.{HasRoom, Keeps, save-Saved}

-- The return address and the sixteen bytes below it belong to a block in use, or stand outside the
-- zone of the heap.
abbrev pub HasStack : Cpu → Tasking → List Block → Type 0
HasStack c s bs =
    ((p : ℕ) × (k : ℕ) × Live s.heap.base bs p k × (p + 16 ≤ c.esp) × (c.esp + 4 ≤ p + k))
    ⊎ Apart (c.esp - 16) 20 s.heap.base heap_size

-- The new stack is apart from the one in use.
stacks-Apart :
    (c : Cpu) (s : Tasking) (bs r : List Block) (stack k : ℕ) (u : Tasking)
    → HasStack c s bs
    → HasRoom c
    → IsHeap u.heap r
    → u.heap.base ≡ s.heap.base
    → Live s.heap.base r stack k
    → ((q j : ℕ) → Live s.heap.base bs q j → Live s.heap.base r q j)
    → ((j : ℕ) → Live s.heap.base bs stack j → ⊥)
    → Apart (c.esp - 16) 20 stack k
stacks-Apart c s bs r stack k u (inl (p, n, live, low, high)) room i base new kept fresh =
    elim (Live-apart s.heap.base r p n stack k (kept p n live) new) [
      | inl both ↦ absurd (fresh n (subst (λ x. Live s.heap.base bs x n) both.0 live))
      | inr (inl below) ↦ inl (omega arith)
      | inr (inr above) ↦ inr (omega arith)
    ]
stacks-Apart c s bs r stack k u (inr out) room i base new kept fresh =
    let zone = Live-zone u.heap r stack k i (subst (λ a. Live a r stack k) (sym base) new) in
    elim out [ inl below ↦ inl (omega (arith, zone)) | inr above ↦ inr (omega (arith, zone)) ]

-- The new task `t` runs from `task_trampoline` on, on an empty stack of its own, and the words that
-- the old one takes up again are below its saved stack pointer.
pub record Begun (trampoline entry : ℕ) (s : Tasking) (c : Cpu) (t stack : ℕ) (v : Tasking)
    (d : Cpu) : Type 0 where
  pub cpu : d ≡ fresh_cpu trampoline (stack + task_stack_size)
  pub current : v.current ≡ t
  pub entered : (v.tasks t).entry ≡ entry
  pub running : (v.tasks t).state ≡ task_running
  pub left : v.tasks s.current ≡ record (settled (s.tasks s.current)) { next = t; esp = c.esp - 16 }
  pub kept : Keeps c s.words v.words

settled-linked :
    (x : Task) (t : ℕ) → settled (record x { next = t }) ≡ record (settled x) { next = t }
settled-linked x t = elim (Bool-cases (is_running x.state)) [
  | inl running ↦ rw running refl
  | inr idle ↦ rw idle refl
]

-- The turn of the scheduler behind a creation, and the switch.
Scheduled-Begun :
    (trampoline entry : ℕ) (s u : Tasking) (ts : List ℕ) (c : Cpu) (t stack k : ℕ) (h : Heap)
    (r : Step)
    → Linked trampoline entry t stack s ts u
    → HasRoom c
    → Apart (c.esp - 16) 20 stack k
    → task_stack_size ≤ k
    → stack + k < word
    → Scheduled u h t r
    → Begun trampoline entry s c t stack (perform c r).0 (perform c r).1
unfolding perform store_task switch_to
Scheduled-Begun trampoline entry s u ts c t stack k h _ link room apart wide top (alone same) =
    absurd (link.ring.1 same)
Scheduled-Begun trampoline entry s u ts c t stack k h _ link room apart wide top
      (turned n _ _ new old _ _) =
    let saved = save-Saved c u.words room in
    let p : ℕ = stack + task_stack_size - 20 in
    let sp : (u.tasks t).esp ≡ p = ap (λ (x : Task). x.esp) link.task in
    let other = link.ring.1 in
    let miss : (t == s.current) ≡ false = ground (arith, link.current) in
    let hit : (s.current == s.current) ≡ true = ground arith in
    let m : (x : ℕ) → u.words x ≡ store_words p (frame trampoline) s.words x =
      λ x. ap (λ (w : Words). w x) link.frame in
    let same : (x : ℕ)
        → p ≤ x
        → x < p + 20
        → (save c u.words).1 x ≡ store_words p (frame trampoline) s.words x =
      λ x low high. saved.elsewhere x (omega arith) ∙ m x in
    let esp : p + 20 ≡ stack + task_stack_size = omega arith in
    let made : n t ≡ record {
      esp = p;
      stack_base = stack;
      entry = entry;
      pid = s.next_pid;
      state = task_running;
      next = (s.tasks s.current).next;
    } =
      new ∙ ap (λ (x : Task). record x { state = task_running }) link.task in
    let gone : n s.current ≡ record (settled (s.tasks s.current)) { next = t } =
      rw (link.current) at old ∙ ap settled link.before ∙ settled-linked (s.tasks s.current) t in
    record {
      cpu =
          rw sp (
            restore-frame trampoline p (save c u.words).0 s.words (save c u.words).1 (omega arith)
              same)
          ∙ ap (fresh_cpu trampoline) esp;
      current = refl;
      entered = rw (link.current, miss) (ap (λ (x : Task). x.entry) made);
      running = rw (link.current, miss) (ap (λ (x : Task). x.state) made);
      left =
          rw (link.current, hit, saved.esp) (ap (λ (x : Task). record x { esp = c.esp - 16 }) gone);
      kept = (
        saved.edi,
        saved.esi,
        saved.ebx,
        saved.ebp,
        saved.elsewhere c.esp (omega arith)
            ∙ m c.esp
            ∙ frame-other trampoline p s.words c.esp (omega arith),
      );
    }

-- The new task is the first behind the current one that has not finished.
Linked-first :
    (trampoline entry t stack : ℕ) (s : Tasking) (ts : List ℕ) (u : Tasking)
    → Linked trampoline entry t stack s ts u
    → first_alive u.tasks u.current (t ∷ ts) ≡ t
unfolding first_alive
Linked-first trampoline entry t stack s ts u link = rw link.task refl

-- A new process has been made: the next turn is its own.
Created-Begun :
    (trampoline entry fuel : ℕ) (s : Tasking) (bs : List Block) (ts : List ℕ) (c : Cpu)
    (o : Option ℕ) (u : Tasking)
    → s.ready ≡ true
    → s.zombie ≡ null
    → length ts + 1 < fuel
    → HasRoom c
    → HasStack c s bs
    → o ≢ none
    → Created trampoline entry s bs ts o u
    → (r : Step) × (t : ℕ) × (stack : ℕ) × (schedule fuel u ≡ some r)
      × Begun trampoline entry s c t stack (perform c r).0 (perform c r).1
Created-Begun trampoline entry fuel s bs ts c o u ready no_zombie rounds room used given
      (failed _ _ _ _ _) =
    absurd (given refl)
Created-Begun trampoline entry fuel s bs ts c o u ready no_zombie rounds room used given
      (created t stack k r link i base live new wide kept only apart fresh fresh') =
    let first = Linked-first trampoline entry t stack s ts u link in
    let zone = Live-zone u.heap r stack k i (subst (λ a. Live a r stack k) (sym base) new) in
    let (h, step, _, ends, turn) =
      schedule-Scheduled fuel u r (t ∷ ts) (link.ready ∙ ready) i (inl (link.zombie ∙ no_zombie))
        link.ring (omega arith) in
    let free = stacks-Apart c s bs r stack k u used room i base new kept fresh' in
    (
      step,
      t,
      stack,
      ends,
      Scheduled-Begun trampoline entry s u ts c t stack k h step link room free wide
          (omega (arith, zone)) (subst (λ x. Scheduled u h x step) first turn),
    )

-- With the tasking started and no finished task waiting, on a well-formed heap with a block for
-- each task of the circular list, and with more rounds of the search than tasks behind the current
-- one once there is a new one: let `task_create` have made a process, and let the stack pointer at
-- the call of `switch_to` have room for four words below it, in a block in use or outside the zone
-- of the heap. Then `schedule` ends, and its switch runs the new task, which is now the current
-- one, from `task_trampoline` on with its entry and the end of its own stack as the stack pointer;
-- the task that is left runs no more, its saved stack pointer is 16 bytes below that at the call,
-- and the five words from there on are its registers and its return address.
pub task_create-Begun :
    (trampoline entry fuel : ℕ) (s : Tasking) (bs : List Block) (ts : List ℕ) (c : Cpu) (pid : ℕ)
    (u : Tasking)
    → s.ready ≡ true
    → s.zombie ≡ null
    → length ts + 1 < fuel
    → IsHeap s.heap bs
    → Ring s.tasks s.current s.current ts
    → AreLive s.heap.base bs (s.current ∷ ts)
    → HasRoom c
    → HasStack c s bs
    → task_create trampoline entry s ≡ some (some pid, u)
    → (r : Step) × (t : ℕ) × (stack : ℕ) × (schedule fuel u ≡ some r)
      × Begun trampoline entry s c t stack (perform c r).0 (perform c r).1
task_create-Begun trampoline entry fuel s bs ts c pid u ready no_zombie rounds i ring live room used
      made =
    let (o, v, ends, what) = task_create-Created trampoline entry s bs ts i ring live in
    let e : Path (Option ℕ × Tasking) (o, v) (some pid, u) =
      some-injective (o, v) (some pid, u) (sym ends ∙ made) in
    Created-Begun trampoline entry fuel s bs ts c (some pid) u ready no_zombie rounds room used
      (some-ne-none pid)
      (subst (λ (x : Option ℕ × Tasking). Created trampoline entry s bs ts x.0 x.1) e what)
