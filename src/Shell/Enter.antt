-- ===== src/Shell/Enter.antt =====
-- `shell_handle_char` on a typed line: which command Enter runs, on which arguments.
use shad_os.Base.{
  ℕ, ◌+◌, ◌-◌, ◌≤◌, ◌<◌, ◌≡◌, ◌≢◌, ◌⊎◌, ◌∙◌, refl, ap, inl, inr, false, Option, none, some, List,
  [], ◌∷◌, ◌++◌, length, ltb, ◌==◌, arith, Bool-cases,
}
use shad_os.Io.{Log, Device}
use shad_os.String.{Bytes}
use shad_os.String.Compare.{IsString}
use shad_os.String.Range.{At, At-same, AllNe, AllNe-take, AllNe-append, At-IsString}
use shad_os.Terminal.{Call}
use shad_os.Commands.{World}
use shad_os.Commands.Strings.{text_at-string}
use shad_os.Shell.{
  Shell, Ending, Turn, waits, stopped, Rounds, ◌>>=◌, cmd_buffer_size, store, set_mem, run_command,
  with_prompt, shell_execute, type_char, next_line, shell_handle_char,
}
use shad_os.Shell.Split.{first_word, first_word-le, after_word, split_command-Halves}
use shad_os.Shell.Editor.{edit_line, edit_lines, type_chars, Holds, type_chars-Holds}

edit_line-AllNe : (d c : ℕ) (line : List ℕ) → c ≢ d → AllNe d line → AllNe d (edit_line line c)
edit_line-AllNe d c line ne all = elim (Bool-cases (c == 8)) [
  | inl back ↦ rw back (AllNe-take d (length line - 1) line all)
  | inr letter ↦ elim (Bool-cases (ltb (length line) (cmd_buffer_size - 1))) [
    | inl fits ↦ rw (letter, fits) (AllNe-append d line (c ∷ []) all (ne, tt))
    | inr full ↦ rw (letter, full) all
  ]
]

pub edit_lines-AllNe :
    (d : ℕ) (cs line : List ℕ) → AllNe d cs → AllNe d line → AllNe d (edit_lines line cs)
edit_lines-AllNe d [] line ne all = all
edit_lines-AllNe d (c ∷ cs) line ne all =
    edit_lines-AllNe d cs (edit_line line c) ne.1 (edit_line-AllNe d c line ne.0 all)

-- The 0 of Enter makes the line a string, which `split_command` cuts: `g` and `q` are the memory
-- and the address of the arguments that the command finds.
pub record Arguments (buffer : ℕ) (line : List ℕ) (w : World) (g : Bytes) (q : ℕ) : Type 0 where
  pub text : IsString g q (after_word line)
  pub low : buffer ≤ q
  pub size : q + length (after_word line) < buffer + cmd_buffer_size
  pub elsewhere : (x : ℕ) → (x < buffer) ⊎ (buffer + cmd_buffer_size ≤ x) → g x ≡ w.fs.mem x

-- What Enter does with a line.
abbrev pub run_line :
    Device → Rounds → (line : List ℕ) → Bytes → ℕ → World → Log → Option (Turn × Log)
run_line dev n line g q w l = run_command dev n (first_word line) q (set_mem g w) l >>= λ (e, l').
    some (next_line (with_prompt e), l')

after_prompt :
    (r : Option (Ending × Log))
    → ◌>>=◌ {B = Turn × Log}
        (◌>>=◌ {B = Ending × Log} r (λ (e, l'). some (with_prompt e, l')))
        (λ (e, l'). some (next_line e, l'))
      ≡ ◌>>=◌ {B = Turn × Log} r (λ (e, l'). some (next_line (with_prompt e), l'))
after_prompt none = refl
after_prompt (some (e, l')) = refl

pub enter-run_line :
    (dev : Device) (n : Rounds) (buffer : ℕ) (line : List ℕ) (s : Shell) (l : Log)
    → Holds buffer line s
    → AllNe 0 line
    → (g : Bytes) × (q : ℕ) × (shell_handle_char dev n buffer 10 s l
        ≡ run_line dev n line g q s.world l)
      × Arguments buffer line s.world g q
unfolding shell_handle_char shell_execute
enter-run_line dev n buffer line s l h ne =
    let m : Bytes = store (buffer + s.cmd_len) 0 s.world.fs.mem in
    let other : (x : ℕ) → x ≢ buffer + s.cmd_len → m x ≡ s.world.fs.mem x = λ x ne. ground arith in
    let size : s.cmd_len ≡ length line = h.size in
    let held : At m buffer line =
      At-same s.world.fs.mem m buffer line (λ x low high. other x (omega arith)) h.held in
    let is : IsString m buffer line = At-IsString m buffer line held ne (ground arith) in
    let (g, q, cut, halves) = split_command-Halves m buffer line is h.room in
    let shown =
      text_at-string g buffer (first_word line) halves.command
        (omega (arith, first_word-le line, h.room)) in
    (
      g,
      q,
      rw (cut, shown) (after_prompt (run_command dev n (first_word line) q (set_mem g s.world) l)),
      record {
        text = halves.arguments;
        low = halves.low;
        size = omega (arith, halves.size, h.room);
        elsewhere =
            λ x out. halves.elsewhere x (omega (arith, h.room)) ∙ other x (omega (arith, h.room));
      },
    )

-- The last turn of characters that come one after the other; a machine that has stopped takes none.
abbrev pub press : Device → Rounds → (buffer : ℕ) → List ℕ → Turn → Log → Option (Turn × Log)
press dev n buffer [] t l = some (t, l)
press dev n buffer (c ∷ cs) (stopped calls) l = some (stopped calls, l)
press dev n buffer (c ∷ cs) (waits s calls) l =
    shell_handle_char dev n buffer c s l >>= λ (t, l'). press dev n buffer cs t l'

press-type_chars :
    (dev : Device) (n : Rounds) (buffer : ℕ) (cs : List ℕ) (s : Shell) (calls : List Call) (l : Log)
    → AllNe 10 cs
    → (calls' : List Call) × (press dev n buffer (cs ++ 10 ∷ []) (waits s calls) l
        ≡ press dev n buffer (10 ∷ []) (waits (type_chars buffer cs s) calls') l)
unfolding shell_handle_char
press-type_chars dev n buffer [] s calls l ne = (calls, refl)
press-type_chars dev n buffer (c ∷ cs) s calls l ne =
    let typed : (c == 10) ≡ false = ground (arith, ne.0) in
    let (t, shown) = type_char buffer c s in
    let (calls', e) = press-type_chars dev n buffer cs t shown l ne.1 in (calls', rw typed e)

stays : (r : Option (Turn × Log)) → ◌>>=◌ {B = Turn × Log} r (λ (t, l'). some (t, l')) ≡ r
stays none = refl
stays (some (t, l')) = refl

-- From an empty line, characters without a 0 and a `\n`, and then Enter: the shell runs, in the
-- world as it was but for the buffer, the command that the bytes of the edited line in front of
-- the first space name, with the address of a string that holds those behind the first run of
-- spaces; the string lies in the buffer. Then it shows the prompt, but after `clear`, and waits
-- for the next line with `cmd_len` 0, unless the command stops the machine.
pub press-run_line :
    (dev : Device) (n : Rounds) (buffer : ℕ) (cs : List ℕ) (s : Shell) (l : Log)
    → s.cmd_len ≡ 0
    → AllNe 0 cs
    → AllNe 10 cs
    → (g : Bytes) × (q : ℕ) × (press dev n buffer (cs ++ 10 ∷ []) (waits s []) l
        ≡ run_line dev n (edit_lines [] cs) g q s.world l)
      × Arguments buffer (edit_lines [] cs) s.world g q
press-run_line dev n buffer cs s l empty no_zero no_enter =
    let (h, only) =
      type_chars-Holds buffer cs [] s (record { held = tt; size = empty; room = omega arith }) in
    let t : Shell = type_chars buffer cs s in
    let line : List ℕ = edit_lines [] cs in
    let (g, q, ran, a) =
      enter-run_line dev n buffer line t l h (edit_lines-AllNe 0 cs [] no_zero tt) in
    let (calls', typed) = press-type_chars dev n buffer cs s [] l no_enter in
    (
      g,
      q,
      typed
          ∙ stays (shell_handle_char dev n buffer 10 t l)
          ∙ ran
          ∙ ap
              (λ w. run_command dev n (first_word line) q w l >>= λ (e, l').
                some (next_line (with_prompt e), l'))
              (ap (set_mem g) only.world),
      record {
        text = a.text;
        low = a.low;
        size = a.size;
        elsewhere = λ x out. a.elsewhere x out ∙ only.elsewhere x out;
      },
    )
