-- ===== src/Switch/Rounds.antt =====
-- What any number of timer ticks does: each task of tasking.c has its turn.
use shad_os.Base.{
  ℕ, zero, suc, ◌+◌, ◌≤◌, ◌≡◌, refl, inl, inr, Option, none, some, List, [], ◌∷◌, leb, length,
  length-append, Bool-cases, arith,
}
use shad_os.Tasking.{Tasking, tasking_tick, schedule_every_n_ticks}
use shad_os.Switch.{Cpu, perform}
use shad_os.Switch.Turns.{rotate, ticked, Shows, tick-Shows}

-- One call of `tasking_tick` for each of the registers that it finds.
unfoldable pub ticks : (fuel : ℕ) → List Cpu → Tasking → Option Tasking
ticks fuel [] s = some s
ticks fuel (c ∷ cs) s = elim (tasking_tick fuel s) [
  | none ↦ none
  | some r ↦ ticks fuel cs (perform c r).0
]

unfoldable pub after_ticks : ℕ → ℕ × List ℕ → ℕ × List ℕ
after_ticks zero v = v
after_ticks (suc n) v = after_ticks n (ticked v)

length-rotate : (q : List ℕ) → length (rotate q) ≡ length q
length-rotate [] = refl
length-rotate (t ∷ ts) = omega (arith, length-append ts (t ∷ []))

length-ticked : (v : ℕ × List ℕ) → length (ticked v).1 ≡ length v.1
unfolding ticked
length-ticked (k, q) = elim (Bool-cases (leb schedule_every_n_ticks (k + 1))) [
  | inl due ↦ rw due (length-rotate q)
  | inr early ↦ rw early refl
]

-- With the tasking started and not paused, no finished task waiting, a well-formed heap, all tasks
-- of the circular list alive and distinct, and no fewer rounds of the search than tasks: any number
-- of ticks in a row, on whatever registers, ends, and leaves the count of ticks and the circular
-- list, from the current task on, as that many steps of the abstract scheduler do, which counts to
-- five and then moves the first task of its queue to the end.
pub ticks-Shows :
    (fuel : ℕ) (cs : List Cpu) (s : Tasking) (v : ℕ × List ℕ)
    → length v.1 ≤ fuel
    → Shows s v
    → (u : Tasking) × (ticks fuel cs s ≡ some u) × Shows u (after_ticks (length cs) v)
unfolding ticks after_ticks
ticks-Shows fuel [] s v rounds shown = (s, refl, shown)
ticks-Shows fuel (c ∷ cs) s v rounds shown =
    let (r, ends, next) = tick-Shows fuel c s v rounds shown in
    let (u, rest, last) =
      ticks-Shows fuel cs (perform c r).0 (ticked v) (omega (arith, length-ticked v)) next in
    (u, rw (ends, ticks) rest, last)
