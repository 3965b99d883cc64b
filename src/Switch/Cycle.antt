-- ===== src/Switch/Cycle.antt =====
-- The registers through the turns of tasking.c: a task that the timer interrupts goes on, once all
-- the others have had their turns, where it was.
use mathlib.Core.List.{append_assoc}
use shad_os.Base.{
  ℕ, ◌+◌, ◌-◌, ◌*◌, ◌≤◌, ◌<◌, ◌≡◌, ◌≢◌, ◌∙◌, refl, ap, subst, inl, inr, true, false, Option, none,
  some, List, [], ◌∷◌, ◌++◌, leb, length, length-append, Bool-cases, arith, word,
}
use shad_os.Tasking.{Tasking, tasking_tick, schedule_every_n_ticks}
use shad_os.Tasking.Linked.{Absent}
use shad_os.Switch.{Cpu, Words, save, perform}
use shad_os.Switch.Resume.{HasRoom, returned}
use shad_os.Switch.Turns.{InTurn, Shows, ticked, tick-Shows}
use shad_os.Switch.Moves.{
  resumed, tick-Moved, Waits, LeavesFrame, Moved-Waits, Moved-resumed, Moved-words, Moved-leaves,
  resumed-returned,
}

-- A call of `tasking_tick` for each of the registers that it finds, and the registers that the last
-- one leaves, `d` where there is none.
unfoldable pub run_ticks : (fuel : ℕ) → List Cpu → Tasking × Cpu → Option (Tasking × Cpu)
run_ticks fuel [] (s, d) = some (s, d)
run_ticks fuel (c ∷ cs) (s, d) = elim (tasking_tick fuel s) [
  | none ↦ none
  | some r ↦ run_ticks fuel cs (perform c r)
]

abbrev pub AllLeave : (p : ℕ) → List Cpu → Type 0
AllLeave p [] = Unit {0}
AllLeave p (c ∷ cs) = LeavesFrame p c × AllLeave p cs

-- The outcome of the ticks up to the turn of `t`.
abbrev pub Resumes : (fuel : ℕ) → List Cpu → Tasking × Cpu → (t p : ℕ) → Words → List ℕ → Type 0
Resumes fuel cs r t p m others =
    (v : Tasking) × (run_ticks fuel cs r ≡ some (v, resumed p m)) × Shows v (0, t ∷ others)

ticked-early :
    (k : ℕ) (q : List ℕ) → leb schedule_every_n_ticks (k + 1) ≡ false → ticked (k, q) ≡ (k + 1, q)
unfolding ticked
ticked-early k q early = rw early refl

ticked-due :
    (k b : ℕ) (q : List ℕ)
    → leb schedule_every_n_ticks (k + 1) ≡ true
    → ticked (k, b ∷ q) ≡ (0, q ++ b ∷ [])
unfolding ticked
ticked-due k b q due = rw due refl

Absent-middle : (b t : ℕ) (before after : List ℕ) → Absent b (before ++ t ∷ after) → t ≢ b
Absent-middle b t [] after absent = absent.0
Absent-middle b t (c ∷ before) after absent = Absent-middle b t before after absent.1

module _ (fuel t p : ℕ) (m : Words) (small : p + 20 < word) where
  none_left :
      (cs : List Cpu) (r : Tasking × Cpu) (others : List ℕ)
      → length cs ≡ 0
      → r.1 ≡ resumed p m
      → Shows r.0 (0, t ∷ others)
      → Resumes fuel cs r t p m others
  unfolding run_ticks
  none_left [] r others no_more cpu shown = (r.0, ap (λ e. some (r.0, e)) cpu, shown)
  none_left (c ∷ cs) r others no_more cpu shown = absurd (omega arith)

  -- Up to the turn of `t`, whose frame stays as it is.
  pub run_ticks-Resumes :
      (cs : List Cpu) (s : Tasking) (d : Cpu) (k b : ℕ) (before after : List ℕ)
      → length (b ∷ before ++ t ∷ after) ≤ fuel
      → Shows s (k, b ∷ before ++ t ∷ after)
      → length cs + k ≡ schedule_every_n_ticks * length (b ∷ before)
      → AllLeave p cs
      → Waits s t p m
      → Resumes fuel cs (s, d) t p m (after ++ b ∷ before)
  unfolding run_ticks
  run_ticks-Resumes [] s d k b before after rounds shown enough leave waits =
      absurd (omega (arith, shown.1.early))
  run_ticks-Resumes (c ∷ cs) s d k b [] after rounds shown enough leave waits =
      let (r, ends, next) = tick-Shows fuel c s (k, b ∷ t ∷ after) rounds shown in
      let off : t ≢ s.current = shown.1.distinct.0.0 in
      let moved = tick-Moved fuel c s k b t after r rounds shown ends in
      elim (Bool-cases (leb schedule_every_n_ticks (k + 1))) [
        | inl due ↦
            rw (ends, run_ticks)
              (none_left cs (perform c r) (after ++ b ∷ []) (ground (arith, shown.1.early))
                (Moved-resumed c s k t p m (perform c r) leave.0 small due moved waits)
                (rw (ticked-due k b (t ∷ after) due) at next))
        | inr early ↦
            rw (ends, run_ticks)
              (run_ticks-Resumes cs (perform c r).0 (perform c r).1 (k + 1) b [] after rounds
                (rw (ticked-early k (b ∷ t ∷ after) early) at next) (omega arith) leave.1
                (Moved-Waits c s k t t p m (perform c r) leave.0 off moved waits))
      ]
  run_ticks-Resumes (c ∷ cs) s d k b (u ∷ before) after rounds shown enough leave waits =
      let q : List ℕ = u ∷ before ++ t ∷ after in
      let (r, ends, next) = tick-Shows fuel c s (k, b ∷ q) rounds shown in
      let off : t ≢ s.current = Absent-middle s.current t before after shown.1.distinct.0.1 in
      let moved = tick-Moved fuel c s k b u (before ++ t ∷ after) r rounds shown ends in
      let still = Moved-Waits c s k u t p m (perform c r) leave.0 off moved waits in
      elim (Bool-cases (leb schedule_every_n_ticks (k + 1))) [
        | inl due ↦
            let turned : Shows (perform c r).0 (0, u ∷ before ++ (t ∷ (after ++ b ∷ []))) =
              rw (ticked-due k b q due, append_assoc before (t ∷ after) (b ∷ [])) at next in
            let (v, ran, last) =
              run_ticks-Resumes cs (perform c r).0 (perform c r).1 0 u before (after ++ b ∷ [])
                (omega (
                  arith,
                  length-append before (t ∷ after),
                  length-append before (t ∷ (after ++ b ∷ [])),
                  length-append after (b ∷ []),
                ))
                turned (ground (arith, shown.1.early)) leave.1 still in
            (v, rw (ends, run_ticks) ran, rw (append_assoc after (b ∷ []) (u ∷ before)) at last)
        | inr early ↦
            rw (ends, run_ticks)
              (run_ticks-Resumes cs (perform c r).0 (perform c r).1 (k + 1) b (u ∷ before) after
                rounds (rw (ticked-early k (b ∷ q) early) at next) (omega arith) leave.1 still)
      ]

-- The first four ticks of a turn only count.
first_ticks :
    (fuel : ℕ) (early cs : List Cpu) (s : Tasking) (d : Cpu) (k t u : ℕ) (us : List ℕ)
    → length (t ∷ u ∷ us) ≤ fuel
    → Shows s (k, t ∷ u ∷ us)
    → length early + k ≡ 4
    → (v : Tasking) × (e : Cpu) × (run_ticks fuel (early ++ cs) (s, d) ≡ run_ticks fuel cs (v, e))
      × Shows v (4, t ∷ u ∷ us)
      × (v.words ≡ s.words)
unfolding run_ticks
first_ticks fuel [] cs s d k t u us rounds shown enough =
    (s, d, refl, subst (λ n. Shows s (n, t ∷ u ∷ us)) (omega arith) shown, refl)
first_ticks fuel (c ∷ early) cs s d k t u us rounds shown enough =
    let (r, ends, next) = tick-Shows fuel c s (k, t ∷ u ∷ us) rounds shown in
    let moved = tick-Moved fuel c s k t u us r rounds shown ends in
    let counting : leb schedule_every_n_ticks (k + 1) ≡ false = ground arith in
    let (v, e, ran, last, words) =
      first_ticks fuel early cs (perform c r).0 (perform c r).1 (k + 1) t u us rounds
        (rw (ticked-early k (t ∷ u ∷ us) counting) at next) (omega arith) in
    (v, e, rw (ends, run_ticks) ran, last, words ∙ Moved-words c s k u (perform c r) counting moved)

-- With the tasking started and not paused, no finished task waiting, a well-formed heap, two or more
-- tasks in the circular list, all alive and distinct, no fewer rounds of the search than tasks, and
-- no tick of the turn gone: let `c` be the registers that the fifth tick finds, with room for four
-- words below the stack pointer and above it inside the address space, and let five ticks follow for each of the other tasks, whose pushes
-- have room and do not meet these words nor the return address at `c`. Then all the ticks end, the
-- task that had the turn at first has it again, and it returns behind its call of `switch_to` with
-- its registers as they were at `c`.
pub run_ticks-returned :
    (fuel : ℕ) (s : Tasking) (d : Cpu) (t u : ℕ) (us : List ℕ) (early : List Cpu) (c : Cpu)
    (later : List Cpu)
    → length (t ∷ u ∷ us) ≤ fuel
    → Shows s (0, t ∷ u ∷ us)
    → length early ≡ 4
    → length later ≡ schedule_every_n_ticks * length (u ∷ us)
    → HasRoom c
    → c.esp + 4 < word
    → AllLeave (c.esp - 16) later
    → (v : Tasking) × (run_ticks fuel (early ++ c ∷ later) (s, d) ≡ some (v, returned c s.words))
      × (v.current ≡ t)
      × InTurn v 0 (u ∷ us)
unfolding run_ticks
run_ticks-returned fuel s d t u us early c later rounds shown four enough room small leave =
    let (w, e, before, at_fifth, words) =
      first_ticks fuel early (c ∷ later) s d 0 t u us rounds shown (omega arith) in
    let (r, ends, next) = tick-Shows fuel c w (4, t ∷ u ∷ us) rounds at_fifth in
    let moved = tick-Moved fuel c w 4 t u us r rounds at_fifth ends in
    let waits : Waits (perform c r).0 t (c.esp - 16) (save c w.words).1 =
      subst (λ x. Waits (perform c r).0 x (c.esp - 16) (save c w.words).1) at_fifth.0
        (Moved-leaves c w 4 u (perform c r) room refl moved) in
    let (v, ran, last) =
      run_ticks-Resumes fuel t (c.esp - 16) (save c w.words).1 (omega arith) later (perform c r).0
        (perform c r).1 0 u us [] (omega (arith, length-append us (t ∷ [])))
        (rw (ticked-due 4 t (u ∷ us) refl) at next) (omega arith) leave waits in
    let cpu : resumed (c.esp - 16) (save c w.words).1 ≡ returned c s.words =
      resumed-returned c w.words room ∙ ap (returned c) words in
    (v, before ∙ rw (ends, run_ticks) (ran ∙ ap (λ x. some (v, x)) cpu), last.0, last.1)
