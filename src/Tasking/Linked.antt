-- ===== src/Tasking/Linked.antt =====
-- What the stores of `task_create` in tasking.c do to the circular list.
use shad_os.Base.{
  ℕ, ◌+◌, ◌-◌, ◌≡◌, ◌≢◌, ◌∙◌, refl, sym, subst, true, false, List, [], ◌∷◌, ◌==◌, arith,
}
use shad_os.Heap.Layout.{Block, Live}
use shad_os.Tasking.{Task, Tasking, task_ready, task_stack_size, store_task, store_words, link_task}
use shad_os.Tasking.Ring.{Ring}

-- Each of the addresses is that of a block in use.
abbrev pub AreLive : ℕ → List Block → List ℕ → Type 0
AreLive a bs [] = Unit {0}
AreLive a bs (t ∷ ts) = ((k : ℕ) × Live a bs t k) × AreLive a bs ts

abbrev pub Absent : ℕ → List ℕ → Type 0
Absent t [] = Unit {0}
Absent t (u ∷ us) = (u ≢ t) × Absent t us

pub AreLive-Absent :
    (a : ℕ) (bs : List Block) (t : ℕ) (ts : List ℕ)
    → ((k : ℕ) → Live a bs t k → ⊥)
    → AreLive a bs ts
    → Absent t ts
AreLive-Absent a bs t [] fresh live = tt
AreLive-Absent a bs t (u ∷ us) fresh live = (
  λ e. fresh live.0.0 (subst (λ x. Live a bs x live.0.0) e live.0.1),
  AreLive-Absent a bs t us fresh live.1,
)

pub AreLive-kept :
    (a : ℕ) (bs r : List Block) (ts : List ℕ)
    → ((q k : ℕ) → Live a bs q k → Live a r q k)
    → AreLive a bs ts
    → AreLive a r ts
AreLive-kept a bs r [] kept live = tt
AreLive-kept a bs r (t ∷ ts) kept live =
    ((live.0.0, kept t live.0.0 live.0.1), AreLive-kept a bs r ts kept live.1)

-- A ring goes on from another task with the same link, where the tasks in it keep theirs.
Ring-from :
    (m g : ℕ → Task) (prev new a b : ℕ) (ts : List ℕ)
    → (g b).next ≡ (m a).next
    → ((x : ℕ) → x ≢ prev → x ≢ new → (g x).next ≡ (m x).next)
    → Absent new ts
    → Ring m prev a ts
    → Ring g prev b ts
Ring-from m g prev new a b [] e same absent ring = e ∙ ring
Ring-from m g prev new a b (t ∷ ts) e same absent ring = (
  e ∙ ring.0,
  ring.1,
  Ring-from m g prev new t t ts (same t ring.1 absent.0) same absent.1 ring.2,
)

-- The new task `t` stands right behind the current one, ready to run, with a block of its own for
-- itself and one for its stack, at whose end five words are taken.
pub record Linked (trampoline entry t stack : ℕ) (s : Tasking) (ts : List ℕ) (u : Tasking)
    : Type 0 where
  pub ring : Ring u.tasks u.current u.current (t ∷ ts)
  pub current : u.current ≡ s.current
  pub task : u.tasks t ≡ record {
    esp = stack + task_stack_size - 20;
    stack_base = stack;
    entry = entry;
    pid = s.next_pid;
    state = task_ready;
    next = (s.tasks s.current).next;
  }
  pub frame :
      u.words ≡ store_words (stack + task_stack_size - 20) (0 ∷ 0 ∷ 0 ∷ 0 ∷ trampoline ∷ []) s.words
  pub ready : u.ready ≡ s.ready
  pub zombie : u.zombie ≡ s.zombie
  pub next_pid : u.next_pid ≡ s.next_pid + 1
  pub before : u.tasks s.current ≡ record (s.tasks s.current) { next = t }
  pub others : (x : ℕ) → x ≢ t → x ≢ s.current → u.tasks x ≡ s.tasks x

pub link_task-Linked :
    (trampoline entry t stack : ℕ) (s : Tasking) (ts : List ℕ)
    → Ring s.tasks s.current s.current ts
    → s.current ≢ t
    → Absent t ts
    → Linked trampoline entry t stack s ts (link_task trampoline entry t stack s)
unfolding link_task store_task
link_task-Linked trampoline entry t stack s ts ring other absent =
    let u : Tasking = link_task trampoline entry t stack s in
    let miss : (s.current == t) ≡ false = ground arith in
    let miss' : (t == s.current) ≡ false = ground arith in
    let hit : (t == t) ≡ true = ground arith in
    let hit' : (s.current == s.current) ≡ true = ground arith in
    let links : (x : ℕ) → x ≢ s.current → x ≢ t → (u.tasks x).next ≡ (s.tasks x).next =
      λ x off off'.
        let m : (x == t) ≡ false = ground arith in
        let m' : (x == s.current) ≡ false = ground arith in rw (m, m') refl in
    record {
      ring = (
        rw hit' refl,
        (λ e. other (sym e)),
        Ring-from s.tasks u.tasks s.current t s.current t ts (rw (miss', hit) refl) links absent
            ring,
      );
      current = refl;
      task = rw (miss', hit) refl;
      frame = refl;
      ready = refl;
      zombie = refl;
      next_pid = refl;
      before = rw (hit', miss) refl;
      others = λ x off off'.
          let m : (x == t) ≡ false = ground arith in
          let m' : (x == s.current) ≡ false = ground arith in rw (m, m') refl;
    }
