-- ===== src/Tasking/Exit.antt =====
-- What becomes of a task that calls `task_exit` of tasking.c.
use shad_os.Base.{
  ℕ, ◌<◌, ◌≡◌, ◌≢◌, ◌⊎◌, ◌↔◌, ◌∙◌, refl, sym, ap, inl, inr, true, false, some, List, [], ◌∷◌, ◌==◌,
  length, Bool-cases, arith,
}
use shad_os.Heap.{Heap, null}
use shad_os.Heap.Layout.{Block, Live, IsHeap}
use shad_os.Heap.Blocks.{Live-ne-null}
use shad_os.Tasking.{
  Task, Tasking, Step, switches, task_terminated, is_terminated, store_task, reap, task_exit,
}
use shad_os.Tasking.Ring.{Ring, first_alive}
use shad_os.Tasking.Circle.{Ring-same}
use shad_os.Tasking.Reap.{IsReapable, IsReaped, reap-Reaped}
use shad_os.Tasking.Schedule.{waiting, Scheduled, alone, turned, settled, schedule-Scheduled}

-- One of the tasks has not finished.
abbrev pub HasAlive : (ℕ → Task) → List ℕ → Type 0
HasAlive m [] = ⊥
HasAlive m (t ∷ ts) = (is_terminated (m t).state ≡ false) ⊎ HasAlive m ts

first_alive-other :
    (m g : ℕ → Task) (prev a : ℕ) (ts : List ℕ)
    → ((x : ℕ) → x ≢ prev → g x ≡ m x)
    → Ring m prev a ts
    → HasAlive m ts
    → first_alive g prev ts ≢ prev
unfolding first_alive
first_alive-other m g prev a [] same ring some_alive = absurd some_alive
first_alive-other m g prev a (t ∷ ts) same ring some_alive =
    elim (Bool-cases (is_terminated (g t).state)) [
      | inr alive ↦ rw alive ring.1
      | inl over ↦ rw over (
          first_alive-other m g prev t ts same ring.2 (elim some_alive [
            | inr later ↦ later
            | inl alive ↦ absurd (
                ground
                  (arith, over, alive, ap (λ (x : Task). is_terminated x.state) (same t ring.1)))
          ]))
    ]

-- The current task and its stack, if it has one of its own, are two blocks in use.
abbrev pub IsOwned : Tasking → List Block → Type 0
IsOwned s bs =
    (k : ℕ) × Live s.heap.base bs s.current k
    × (((s.tasks s.current).stack_base ≡ null)
        ⊎ ((j : ℕ) × Live s.heap.base bs (s.tasks s.current).stack_base j
            × (s.current ≢ (s.tasks s.current).stack_base)))

-- The task at `old` has been left for ever, and what the next call of `schedule` frees is exactly
-- its blocks.
pub record Exited (s : Tasking) (bs : List Block) (g : Tasking) : Type 0 where
  pub other : g.current ≢ s.current
  pub over : (g.tasks s.current).state ≡ task_terminated
  pub alive : is_terminated (g.tasks g.current).state ≡ false
  pub zombie : g.zombie ≡ s.current
  pub freed : Heap
  pub reaped : reap g ≡ some (record g { zombie = null; heap = freed })
  pub blocks : List Block
  pub heap : IsHeap freed blocks
  pub left :
      (q k : ℕ)
      → Live s.heap.base blocks q k
        ↔ Live s.heap.base bs q k × (((q ≡ s.current) ⊎ (q ≡ (s.tasks s.current).stack_base)) → ⊥)

finished-Exited :
    (s : Tasking) (bs : List Block) (g : Tasking) (r : List Block)
    → IsHeap g.heap r
    → g.heap.base ≡ s.heap.base
    → ((q k : ℕ) → Live s.heap.base r q k ↔ Live s.heap.base bs q k)
    → g.zombie ≡ s.current
    → g.tasks s.current ≡ record (s.tasks s.current) { state = task_terminated }
    → g.current ≢ s.current
    → is_terminated (g.tasks g.current).state ≡ false
    → IsOwned s bs
    → Exited s bs g
finished-Exited s bs g r i base same zombie over other alive (k, live, stack) =
    let a : ℕ = s.heap.base in
    let own : ℕ = (s.tasks s.current).stack_base in
    let stays : (g.tasks s.current).stack_base ≡ own = ap (λ (x : Task). x.stack_base) over in
    let waits : IsReapable g r = inr (
      k,
      rw (base, zombie) ((same s.current k).1 live),
      rw (base, zombie, stays)
          (elim stack [
            | inl none_owned ↦ inl none_owned
            | inr (j, live', apart) ↦ inr (j, (same own j).1 live', apart)
          ]),
    ) in
    let (h, ends, freed) = reap-Reaped g r i waits in
    let here : (q : ℕ) → IsReaped g q ↔ (g.zombie ≢ null) × ((q ≡ s.current) ⊎ (q ≡ own)) =
      λ q. rw (zombie, stays) ((λ x. x), λ x. x) in
    let some_zombie : g.zombie ≢ null = λ e. Live-ne-null a bs s.current k live (sym zombie ∙ e) in
    record {
      other = other;
      over = ap (λ (x : Task). x.state) over;
      alive = alive;
      zombie = zombie;
      freed = h;
      reaped = ends;
      blocks = freed.blocks;
      heap = freed.heap;
      left = λ q n.
          let step : Live a freed.blocks q n ↔ Live a r q n × (IsReaped g q → ⊥) =
            rw base at freed.left q n in
          (
            λ still.
                let (was, off) = step.0 still in
                ((same q n).0 was, λ own. off ((here q).1 (some_zombie, own))),
            λ both. step.1 ((same q n).1 both.0, λ reaped. both.1 ((here q).0 reaped).1),
          );
    }

Scheduled-Exited :
    (s : Tasking) (bs : List Block) (n : ℕ → Task) (h : Heap) (next : ℕ) (r : Step) (l : List Block)
    → n s.current ≡ record (s.tasks s.current) { state = task_terminated }
    → next ≢ s.current
    → IsHeap h l
    → h.base ≡ s.heap.base
    → ((q k : ℕ) → Live s.heap.base l q k ↔ Live s.heap.base bs q k)
    → IsOwned s bs
    → Scheduled (record s { tasks = n }) h next r
    → (g : Tasking) × (esp : ℕ) × (r ≡ switches g s.current esp) × Exited s bs g
Scheduled-Exited s bs n h next _ l over off i base same owned (alone e) = absurd (off e)
Scheduled-Exited s bs n h next _ l over off i base same owned (turned m _ _ new old _ _) =
    let g : Tasking = record s {
      tasks = m;
      current = next;
      zombie = waiting (record s { tasks = n }) s.current;
      heap = h;
    } in
    (
      g,
      _,
      refl,
      finished-Exited s bs g l i base same (rw over refl) (old ∙ ap settled over) off
          (ap (λ (x : Task). is_terminated x.state) new) owned,
    )

-- With the tasking started and no finished task waiting, on a well-formed heap, the current task
-- and its stack in blocks of their own, and a circular list of fewer tasks than the rounds of the
-- search, one of which, other than the current one, has not finished: `task_exit` ends in a switch
-- to a task that has not finished and leaves the current one finished and waiting; the first thing
-- that `schedule` then does frees exactly the block and the stack of that task.
pub task_exit-Exited :
    (fuel : ℕ) (s : Tasking) (bs : List Block) (ts : List ℕ)
    → s.ready ≡ true
    → s.zombie ≡ null
    → IsHeap s.heap bs
    → IsOwned s bs
    → Ring s.tasks s.current s.current ts
    → HasAlive s.tasks ts
    → length ts < fuel
    → (g : Tasking) × (esp : ℕ) × (task_exit fuel s ≡ some (switches g s.current esp))
      × Exited s bs g
unfolding task_exit store_task
task_exit-Exited fuel s bs ts ready no_zombie i owned ring some_alive room =
    let n : ℕ → Task =
      store_task s.current (record (s.tasks s.current) { state = task_terminated }) s.tasks in
    let hit : (s.current == s.current) ≡ true = ground arith in
    let same : (x : ℕ) → x ≢ s.current → n x ≡ s.tasks x =
      λ x off. let miss : (x == s.current) ≡ false = ground arith in rw miss refl in
    let links : (x : ℕ) → (n x).next ≡ (s.tasks x).next = λ x. ground arith in
    let (h, r, reaped, ends, turn) =
      schedule-Scheduled fuel (record s { tasks = n }) bs ts ready i (inl no_zombie)
        (Ring-same s.tasks n s.current s.current ts links ring) room in
    let (g, esp, e, exited) =
      Scheduled-Exited s bs n h (first_alive n s.current ts) r reaped.blocks (rw hit refl)
        (first_alive-other s.tasks n s.current s.current ts same ring some_alive) reaped.heap
        reaped.base
        (λ q k. (
          λ live. ((reaped.left q k).0 live).0,
          λ was. (reaped.left q k).1 (was, λ over. over.0 no_zombie),
        ))
        owned turn in
    (g, esp, ends ∙ ap some e, exited)
