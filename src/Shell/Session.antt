-- ===== src/Shell/Session.antt =====
-- Any sequence of keys, from `shell_handle_char` to the commands that it runs.
use shad_os.Base.{
  ℕ, ◌≡◌, ◌≢◌, refl, sym, subst, inl, inr, Option, none, some, List, [], ◌∷◌, ◌==◌, arith,
  Bool-cases,
}
use shad_os.Io.{Log, Device}
use shad_os.String.Range.{AllNe}
use shad_os.Commands.{World}
use shad_os.Shell.{
  Shell, Ending, went, cleared, halted, Turn, waits, stopped, Rounds, ◌>>=◌, set_mem, run_command,
  with_prompt, shell_init, type_char, next_line, shell_handle_char,
}
use shad_os.Shell.Split.{first_word, after_word}
use shad_os.Shell.Editor.{edit_lines, Holds, OnlyBuffer, type_chars-Holds}
use shad_os.Shell.Enter.{edit_lines-AllNe, enter-run_line, press}
use shad_os.Shell.Sound.{IsInOrder, EndsInOrder, moved-IsInOrder}
use shad_os.Shell.Commands.{TakesReset, run_command-InOrder}

-- The kernel is in order, and the buffer holds a line of fewer than 128 bytes, none of them 0.
pub record IsSound (buffer rounds : ℕ) (s : Shell) : Type 0 where
  pub world : IsInOrder buffer rounds s.world
  pub line : List ℕ
  pub held : Holds buffer line s
  pub no_zero : AllNe 0 line

-- A turn has come to its end, and left all in order if it has not stopped the machine.
abbrev pub TurnsSound : (buffer rounds : ℕ) → Option (Turn × Log) → Type 0
TurnsSound buffer rounds none = ⊥
TurnsSound buffer rounds (some (waits s calls, l)) = IsSound buffer rounds s
TurnsSound buffer rounds (some (stopped calls, l)) = Unit {0}

fresh_line :
    (buffer rounds : ℕ) (w : World)
    → IsInOrder buffer rounds w
    → IsSound buffer rounds (record { world = w; cmd_len = 0 })
fresh_line buffer rounds w ok = record {
  world = ok;
  line = [];
  held = record { held = tt; size = refl; room = omega arith };
  no_zero = tt;
}

next_line-Sound :
    (buffer rounds : ℕ) (r : Option (Ending × Log))
    → EndsInOrder buffer rounds r
    → TurnsSound buffer rounds
        (◌>>=◌ {B = Turn × Log} r (λ (e, l'). some (next_line (with_prompt e), l')))
next_line-Sound buffer rounds none ok = absurd ok
next_line-Sound buffer rounds (some (went w calls, l)) ok = fresh_line buffer rounds w ok
next_line-Sound buffer rounds (some (cleared w calls, l)) ok = fresh_line buffer rounds w ok
next_line-Sound buffer rounds (some (halted calls, l)) ok = tt

typed-InOrder :
    (buffer rounds : ℕ) (s t : Shell)
    → IsInOrder buffer rounds s.world
    → OnlyBuffer buffer s t
    → IsInOrder buffer rounds t.world
typed-InOrder buffer rounds s t ok only =
    subst (IsInOrder buffer rounds) (sym only.world)
      (moved-IsInOrder buffer rounds s.world t.world.fs.mem ok)

shell_handle_char-Sound :
    (dev : Device) (n : Rounds) (buffer c : ℕ) (s : Shell) (l : Log)
    → TakesReset dev n.polls
    → c ≢ 0
    → IsSound buffer n.tasks s
    → TurnsSound buffer n.tasks (shell_handle_char dev n buffer c s l)
unfolding shell_handle_char
shell_handle_char-Sound dev n buffer c s l takes ne ok = elim (Bool-cases (c == 10)) [
  | inl enter ↦
      let (g, q, ran, a) = enter-run_line dev n buffer ok.line s l ok.held ok.no_zero in
      let e : c ≡ 10 = ground arith in
      rw (e, ran)
        (next_line-Sound buffer n.tasks
          (run_command dev n (first_word ok.line) q (set_mem g s.world) l)
          (run_command-InOrder dev n buffer (set_mem g s.world)
            (moved-IsInOrder buffer n.tasks s.world g ok.world) q (after_word ok.line) a.text a.low
            a.size l (first_word ok.line) takes))
  | inr typed ↦
      let t : Shell = (type_char buffer c s).0 in
      let (held, only) = type_chars-Holds buffer (c ∷ []) ok.line s ok.held in
      rw typed (record {
        world = typed-InOrder buffer n.tasks s t ok.world only;
        line = edit_lines ok.line (c ∷ []);
        held = held;
        no_zero = edit_lines-AllNe 0 (c ∷ []) ok.line (ne, tt) ok.no_zero;
      })
]

press-turn :
    (dev : Device) (n : Rounds) (buffer : ℕ) (cs : List ℕ) (r : Option (Turn × Log))
    → TakesReset dev n.polls
    → AllNe 0 cs
    → TurnsSound buffer n.tasks r
    → TurnsSound buffer n.tasks (◌>>=◌ {B = Turn × Log} r (λ (t, l'). press dev n buffer cs t l'))
press-turn dev n buffer [] none takes ne ok = ok
press-turn dev n buffer [] (some (waits s calls, l)) takes ne ok = ok
press-turn dev n buffer [] (some (stopped calls, l)) takes ne ok = tt
press-turn dev n buffer (c ∷ cs) none takes ne ok = ok
press-turn dev n buffer (c ∷ cs) (some (waits s calls, l)) takes ne ok =
    press-turn dev n buffer cs (shell_handle_char dev n buffer c s l) takes ne.1
      (shell_handle_char-Sound dev n buffer c s l takes ne.0 ok)
press-turn dev n buffer (c ∷ cs) (some (stopped calls, l)) takes ne ok = tt

-- From `shell_init`, with the table of files and the heap in order, the buffer outside the heap's
-- zone, the tasks not started or in a circle of fewer than the rounds of their listing, and a
-- keyboard controller that takes a reset within the polls: whatever characters other than 0 are
-- typed, every turn of the shell ends, commands included, and unless one has stopped the machine
-- the files, the heap and the tasks are in order again, and the buffer holds a line of fewer than
-- 128 bytes with its length in `cmd_len`.
pub press-Sound :
    (dev : Device) (n : Rounds) (buffer : ℕ) (cs : List ℕ) (s : Shell) (l : Log)
    → IsInOrder buffer n.tasks s.world
    → TakesReset dev n.polls
    → AllNe 0 cs
    → TurnsSound buffer n.tasks (press dev n buffer cs (waits (shell_init s).0 (shell_init s).1) l)
unfolding shell_init
press-Sound dev n buffer cs s l ok takes ne =
    press-turn dev n buffer cs (some (waits (shell_init s).0 (shell_init s).1, l)) takes ne
      (fresh_line buffer n.tasks s.world ok)
