-- ===== src/Switch/Turns.antt =====
-- The timer takes the tasks in turn: tasking_tick and schedule of tasking.c with `switch_to`.
use shad_os.Base.{
  ℕ, ◌+◌, ◌%◌, ◌≤◌, ◌<◌, ◌≡◌, ◌≢◌, ◌∙◌, refl, sym, ap, inl, inr, true, false, some, List, [], ◌∷◌,
  ◌++◌, ◌==◌, leb, if◌then◌else◌, length, Bool-cases, arith, word, not, ◌||◌,
}
use shad_os.Heap.{Heap, null}
use shad_os.Heap.Layout.{Block, IsHeap}
use shad_os.Tasking.{
  Task, Tasking, Step, stays, switches, is_terminated, is_running, task_running, tasking_tick,
  schedule_every_n_ticks, store_task,
}
use shad_os.Tasking.Ring.{Ring, first_alive}
use shad_os.Tasking.Circle.{
  Distinct, Distinct-rotate, AreAlive, AreAlive-rotate, AreAlive-same, Ring-close, Ring-same,
}
use shad_os.Tasking.Schedule.{waiting, Scheduled, alone, turned, settled, schedule-Scheduled}
use shad_os.Switch.{Cpu, perform}

-- The abstract scheduler: the count of ticks and the tasks in the order of their turns.
abbrev pub rotate : List ℕ → List ℕ
rotate [] = []
rotate (t ∷ ts) = ts ++ t ∷ []

unfoldable pub ticked : ℕ × List ℕ → ℕ × List ℕ
ticked (k, q) = if leb schedule_every_n_ticks (k + 1) then (0, rotate q) else (k + 1, q)

-- `k` ticks have passed in the turn of the current task, and the next turns are those of `ts`; all
-- of these tasks are alive.
pub record InTurn (s : Tasking) (k : ℕ) (ts : List ℕ) : Type 0 where
  pub ready : s.ready ≡ true
  pub paused : s.paused ≡ false
  pub zombie : s.zombie ≡ null
  pub count : s.tick_counter ≡ k
  pub early : k < schedule_every_n_ticks
  pub ring : Ring s.tasks s.current s.current ts
  pub distinct : Distinct (s.current ∷ ts)
  pub alive : AreAlive s.tasks (s.current ∷ ts)
  pub heap : (bs : List Block) × IsHeap s.heap bs

abbrev pub Shows : Tasking → ℕ × List ℕ → Type 0
Shows s (k, []) = ⊥
Shows s (k, t ∷ ts) = (s.current ≡ t) × InTurn s k ts

settled-alive : (t : Task) → is_terminated t.state ≡ false → is_terminated (settled t).state ≡ false
settled-alive t alive = elim (Bool-cases (is_running t.state)) [
  | inl running ↦ rw running (ground arith)
  | inr idle ↦ rw idle alive
]

-- A turn and its switch keep the links.
perform-next :
    (c : Cpu) (g : Tasking) (old esp x : ℕ)
    → ((perform c (switches g old esp)).0.tasks x).next ≡ (g.tasks x).next
unfolding perform store_task
perform-next c g old esp x = ground arith

perform-state :
    (c : Cpu) (g : Tasking) (old esp x : ℕ)
    → ((perform c (switches g old esp)).0.tasks x).state ≡ (g.tasks x).state
unfolding perform store_task
perform-state c g old esp x = ground arith

-- Who is alive before a turn is alive behind it.
turn-alive :
    (s : Tasking) (u : ℕ) (m : ℕ → Task)
    → m u ≡ record (s.tasks u) { state = task_running }
    → m s.current ≡ settled (s.tasks s.current)
    → ((x : ℕ) → x ≢ u → x ≢ s.current → m x ≡ s.tasks x)
    → (x : ℕ) → is_terminated (s.tasks x).state ≡ false
    → is_terminated (m x).state ≡ false
turn-alive s u m new old others x alive = elim (Bool-cases (x == u)) [
  | inl e ↦ let at : x ≡ u = ground arith in rw (at, new) (ground arith)
  | inr off ↦ elim (Bool-cases (x == s.current)) [
    | inl e ↦
        let at : x ≡ s.current = ground arith in
        rw (at, old)
          (settled-alive (s.tasks s.current)
            (ap (λ y. is_terminated (s.tasks y).state) (sym at) ∙ alive))
    | inr off' ↦ rw (others x (ground arith) (ground arith)) alive
  ]
]

module _ (c : Cpu) (s : Tasking) (k : ℕ) (h : Heap) (whole : (bs : List Block) × IsHeap h bs) where
  -- The only task goes on.
  alone-Shows :
      (r : Step)
      → InTurn s k []
      → Scheduled (record s { tick_counter = 0 }) h s.current r
      → Shows (perform c r).0 (0, s.current ∷ [])
  unfolding perform
  alone-Shows _ i (alone _) = (
    refl,
    record {
      ready = i.ready;
      paused = i.paused;
      zombie = refl;
      count = refl;
      early = omega arith;
      ring = i.ring;
      distinct = i.distinct;
      alive = i.alive;
      heap = whole;
    },
  )
  alone-Shows _ i (turned m other _ _ _ _ _) = absurd (other refl)

  -- The next task takes its turn.
  turned-Shows :
      (u : ℕ) (us : List ℕ) (r : Step)
      → InTurn s k (u ∷ us)
      → Scheduled (record s { tick_counter = 0 }) h u r
      → Shows (perform c r).0 (0, u ∷ us ++ s.current ∷ [])
  unfolding perform
  turned-Shows u us _ i (alone same) = absurd (i.ring.1 same)
  turned-Shows u us _ i (turned m other _ new old links others) =
      let esp : ℕ = (s.tasks u).esp in
      let g : Tasking = record s {
        tasks = m;
        tick_counter = 0;
        current = u;
        zombie = waiting s s.current;
        heap = h;
      } in
      let v : Tasking = (perform c (switches g s.current esp)).0 in
      let same : (x : ℕ) → (v.tasks x).next ≡ (s.tasks x).next =
        λ x. perform-next c g s.current esp x ∙ links x in
      let alive : AreAlive v.tasks (s.current ∷ u ∷ us) =
        AreAlive-same s.tasks v.tasks (s.current ∷ u ∷ us)
          (λ x was. rw (perform-state c g s.current esp x) (turn-alive s u m new old others x was))
          i.alive in
      let ring : Ring v.tasks s.current u us =
        Ring-same s.tasks v.tasks s.current u us same i.ring.2 in
      (
        refl,
        record {
          ready = i.ready;
          paused = i.paused;
          zombie = rw i.alive.0 refl;
          count = refl;
          early = omega arith;
          ring =
              Ring-close v.tasks s.current u u us ring (same s.current ∙ i.ring.0) i.distinct.1.0
                (λ e. i.ring.1 (sym e));
          distinct = Distinct-rotate s.current (u ∷ us) i.distinct;
          alive = AreAlive-rotate v.tasks s.current (u ∷ us) alive;
          heap = whole;
        },
      )

-- The turn at the fifth tick.
turn-Shows :
    (c : Cpu) (s : Tasking) (k t : ℕ) (ts : List ℕ) (h : Heap) (r : Step)
    → s.current ≡ t
    → InTurn s k ts
    → ((bs : List Block) × IsHeap h bs)
    → Scheduled (record s { tick_counter = 0 }) h (first_alive s.tasks s.current ts) r
    → Shows (perform c r).0 (0, ts ++ t ∷ [])
unfolding first_alive
turn-Shows c s k t [] h r at i whole turn = rw (sym at) (alone-Shows c s k h whole r i turn)
turn-Shows c s k t (u ∷ us) h r at i whole turn =
    rw (sym at) (turned-Shows c s k h whole u us r i (rw i.alive.1.0 at turn))

-- One tick is one of the abstract scheduler.
pub tick-Shows :
    (fuel : ℕ) (c : Cpu) (s : Tasking) (v : ℕ × List ℕ)
    → length v.1 ≤ fuel
    → Shows s v
    → (r : Step) × (tasking_tick fuel s ≡ some r) × Shows (perform c r).0 (ticked v)
unfolding tasking_tick ticked perform
tick-Shows fuel c s (k, []) rounds shown = absurd shown
tick-Shows fuel c s (k, t ∷ ts) rounds (at, i) =
    let count : (s.tick_counter + 1) % word ≡ k + 1 = omega (arith, i.early, i.count) in
    let runs : (not s.ready || s.paused) ≡ false = rw (i.ready, i.paused) refl in
    elim (Bool-cases (leb schedule_every_n_ticks (k + 1))) [
      | inl due ↦
          let s0 : Tasking = record s { tick_counter = 0 } in
          let (h, r, whole, ends, turn) =
            schedule-Scheduled fuel s0 i.heap.0 ts i.ready i.heap.1 (inl i.zombie) i.ring
              (omega arith) in
          (
            r,
            rw (runs, count, due) ends,
            rw due (turn-Shows c s k t ts h r at i (whole.blocks, whole.heap) turn),
          )
      | inr early ↦ (
        stays (record s { tick_counter = k + 1 }),
        rw (runs, count, early) refl,
        rw early (
          at,
          record {
            ready = i.ready;
            paused = i.paused;
            zombie = i.zombie;
            count = refl;
            early = ground arith;
            ring = i.ring;
            distinct = i.distinct;
            alive = i.alive;
            heap = i.heap;
          },
        ),
      )
    ]
