-- ===== src/Tasking/Ring.antt =====
-- The circular list of tasking.c as the list of the tasks behind the current one.
use shad_os.Base.{
  Bool, Option, none, ◌&&◌, ℕ, zero, suc, ◌<◌, ◌≡◌, ◌≢◌, subst, sym, ap, refl, ◌++◌, inl, inr, true,
  false, some, List, [], ◌∷◌, ◌==◌, if◌then◌else◌, arith, length, Bool-cases,
}
use mathlib.Core.List.{append-nil}
use shad_os.Base.Text.{codes}
use shad_os.Terminal.{Call, write_string, write_number}
use shad_os.Tasking.{
  Task, Tasking, TaskState, task_ready, task_running, task_terminated, is_terminated, find_next,
}
use shad_os.Tasking.Listing.{task_line, state_name, list_loop, tasking_list}

-- From the task at `a` the links lead through `ts` to `prev`, which is not among them.
abbrev pub Ring : (ℕ → Task) → (prev a : ℕ) → List ℕ → Type 0
Ring m prev a [] = (m a).next ≡ prev
Ring m prev a (t ∷ ts) = ((m a).next ≡ t) × (t ≢ prev) × Ring m prev t ts

-- The first of the tasks that has not finished, or the last resort `prev`.
unfoldable pub first_alive : (ℕ → Task) → (prev : ℕ) → List ℕ → ℕ
first_alive m prev [] = prev
first_alive m prev (t ∷ ts) = if is_terminated (m t).state then first_alive m prev ts else t

pub find_next-first_alive :
    (fuel : ℕ) (m : ℕ → Task) (prev a : ℕ) (ts : List ℕ)
    → Ring m prev a ts
    → length ts < fuel
    → find_next fuel m prev (m a).next ≡ some (first_alive m prev ts)
unfolding find_next first_alive
find_next-first_alive zero m prev a ts ring room = absurd (omega arith)
find_next-first_alive (suc fuel) m prev a [] ring room = ground arith
find_next-first_alive (suc fuel) m prev a (t ∷ ts) ring room =
    let rest = find_next-first_alive fuel m prev t ts ring.2 (omega arith) in
    let other : (t == prev) ≡ false = ground arith in
    elim (Bool-cases (is_terminated (m t).state)) [
      | inl over ↦ rw (ring.0, over, other) rest
      | inr alive ↦ rw (ring.0, alive) refl
    ]

first_alive_over :
    (m : ℕ → Task) (prev t : ℕ) (ts : List ℕ)
    → is_terminated (m t).state ≡ true
    → first_alive m prev (t ∷ ts) ≡ first_alive m prev ts
unfolding first_alive
first_alive_over m prev t ts over = rw over refl

pub first_alive-none_over :
    (m : ℕ → Task) (prev : ℕ) (ts : List ℕ)
    → first_alive m prev ts ≢ prev
    → is_terminated (m (first_alive m prev ts)).state ≡ false
unfolding first_alive
first_alive-none_over m prev [] other = absurd (other refl)
first_alive-none_over m prev (t ∷ ts) other = elim (Bool-cases (is_terminated (m t).state)) [
  | inl over ↦ rw over (
      first_alive-none_over m prev ts
        (subst (λ x. x ≢ prev) (first_alive_over m prev t ts over) other))
  | inr alive ↦ rw alive alive
]

-- One line for each of the tasks.
unfoldable pub lines_of : (ℕ → Task) → List ℕ → List Call
lines_of m [] = []
lines_of m (t ∷ ts) = task_line (m t) ++ lines_of m ts

list_loop-lines_of :
    (fuel : ℕ) (m : ℕ → Task) (current t : ℕ) (ts : List ℕ)
    → Ring m current t ts
    → length ts < fuel
    → list_loop fuel m current t ≡ some (lines_of m (t ∷ ts))
unfolding list_loop lines_of
list_loop-lines_of zero m current t ts ring room = absurd (omega arith)
list_loop-lines_of (suc fuel) m current t [] ring room =
    let last : ((m t).next == current) ≡ true = ground arith in
    rw last (ap some (sym (append-nil (task_line (m t)))))
list_loop-lines_of (suc fuel) m current t (u ∷ us) ring room =
    let more : ((m t).next == current) ≡ false = ground arith in
    let rest : list_loop fuel m current (m t).next ≡ some (lines_of m (u ∷ us)) =
      rw ring.0 (list_loop-lines_of fuel m current u us ring.2 (omega arith)) in
    rw (more, rest) refl

-- What a reader finds on a line: behind the margin a number, and behind three blanks the word for a
-- state, which ends the line.
abbrev pub word_of : TaskState → List ℕ
word_of task_ready = codes "prete"
word_of task_running = codes "en cours"
word_of task_terminated = codes "terminee"

abbrev same_text : List ℕ → List ℕ → Bool
same_text [] [] = true
same_text [] (c ∷ cs) = false
same_text (c ∷ cs) [] = false
same_text (b ∷ bs) (c ∷ cs) = (b == c) && same_text bs cs

abbrev state_of : List ℕ → Option TaskState
state_of text =
    if same_text text (word_of task_ready)
    then some task_ready
    else if same_text text (word_of task_running)
    then some task_running
    else if same_text text (word_of task_terminated)
    then some task_terminated
    else none

-- The numbers and states of a listing, from its calls; `none` if it is no listing.
unfoldable pub read_rows : List Call → Option (List (ℕ × TaskState))
read_rows [] = some []
read_rows
      (write_string margin
        ∷ write_number n
        ∷ write_string gap
        ∷ write_string text
        ∷ write_string end
        ∷ calls) =
    let rest = read_rows calls in
    if same_text margin (codes "  ") && same_text gap (codes "   ") && same_text end (codes "\n")
    then (elim (state_of text) [
      | none ↦ none
      | some st ↦ elim rest [ none ↦ none | some rows ↦ some ((n, st) ∷ rows) ]
    ])
    else none
read_rows _ = none

abbrev pub rows_of : (ℕ → Task) → List ℕ → List (ℕ × TaskState)
rows_of m [] = []
rows_of m (t ∷ ts) = ((m t).pid, (m t).state) ∷ rows_of m ts

state_of-state_name : (st : TaskState) → state_of (state_name st) ≡ some st
state_of-state_name task_ready = refl
state_of-state_name task_running = refl
state_of-state_name task_terminated = refl

read_rows-lines_of : (m : ℕ → Task) (ts : List ℕ) → read_rows (lines_of m ts) ≡ some (rows_of m ts)
unfolding read_rows lines_of
read_rows-lines_of m [] = refl
read_rows-lines_of m (t ∷ ts) = rw (state_of-state_name (m t).state, read_rows-lines_of m ts) refl

-- With the tasking started, and a circular list of fewer tasks than the rounds of the loop: the
-- listing ends. Behind a heading it shows one line for each task of the list, the current one first,
-- from which the task's number and state can be read back.
pub tasking_list-read_rows :
    (fuel : ℕ) (s : Tasking) (ts : List ℕ)
    → s.ready ≡ true
    → Ring s.tasks s.current s.current ts
    → length ts < fuel
    → (calls : List Call) × (tasking_list fuel s
        ≡ some (write_string (codes "PID  ETAT\n") ∷ calls))
      × (read_rows calls ≡ some (rows_of s.tasks (s.current ∷ ts)))
unfolding tasking_list
tasking_list-read_rows fuel s ts ready ring room = (
  lines_of s.tasks (s.current ∷ ts),
  rw (list_loop-lines_of fuel s.tasks s.current s.current ts ring room, ready) refl,
  read_rows-lines_of s.tasks (s.current ∷ ts),
)
