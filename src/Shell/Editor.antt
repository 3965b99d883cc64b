-- ===== src/Shell/Editor.antt =====
-- The line editor of `shell_handle_char`: what the buffer holds while a line is typed.
use shad_os.Base.{
  ℕ, zero, suc, ◌+◌, ◌-◌, ◌≤◌, ◌<◌, ◌≡◌, ◌≢◌, ◌⊎◌, ◌∙◌, refl, ap, inl, inr, true, false, List, [],
  ◌∷◌, ◌++◌, length, length-append, take, ltb, ◌==◌, if◌then◌else◌, arith, Bool-cases,
}
use shad_os.String.{Bytes}
use shad_os.String.Range.{At, At-append, At-same}
use shad_os.Shell.{Shell, cmd_buffer_size, store, set_mem, type_char}

-- What a line becomes when the character `c` is typed.
abbrev pub edit_line : List ℕ → ℕ → List ℕ
edit_line line c =
    if c == 8
    then take (length line - 1) line
    else if ltb (length line) (cmd_buffer_size - 1)
    then line ++ c ∷ []
    else line

abbrev pub edit_lines : List ℕ → List ℕ → List ℕ
edit_lines line [] = line
edit_lines line (c ∷ cs) = edit_lines (edit_line line c) cs

-- The state behind the characters, typed one after the other.
abbrev pub type_chars : (buffer : ℕ) → List ℕ → Shell → Shell
type_chars buffer [] s = s
type_chars buffer (c ∷ cs) s = type_chars buffer cs (type_char buffer c s).0

-- The buffer holds the line, and leaves room for the 0 behind it.
pub record Holds (buffer : ℕ) (line : List ℕ) (s : Shell) : Type 0 where
  pub held : At s.world.fs.mem buffer line
  pub size : s.cmd_len ≡ length line
  pub room : length line < cmd_buffer_size

-- `t` differs from `s` in the buffer and in `cmd_len` at most.
pub record OnlyBuffer (buffer : ℕ) (s t : Shell) : Type 0 where
  pub world : t.world ≡ set_mem t.world.fs.mem s.world
  pub elsewhere :
      (x : ℕ) → (x < buffer) ⊎ (buffer + cmd_buffer_size ≤ x) → t.world.fs.mem x ≡ s.world.fs.mem x

At-take : (m : Bytes) (p n : ℕ) (xs : List ℕ) → At m p xs → At m p (take n xs)
At-take m p zero xs held = tt
At-take m p (suc n) [] held = tt
At-take m p (suc n) (c ∷ xs) held = (held.0, At-take m (p + 1) n xs held.1)

pub length-take : (n : ℕ) (xs : List ℕ) → n ≤ length xs → length (take n xs) ≡ n
length-take zero xs h = refl
length-take (suc n) [] h = absurd (omega arith)
length-take (suc n) (c ∷ xs) h = ap suc (length-take n xs (omega arith))

unedited : (buffer : ℕ) (s : Shell) → OnlyBuffer buffer s s
unedited buffer s = record { world = refl; elsewhere = λ x _. refl }

type_char-edit_line :
    (buffer c : ℕ) (line : List ℕ) (s : Shell)
    → Holds buffer line s
    → Holds buffer (edit_line line c) (type_char buffer c s).0
      × OnlyBuffer buffer s (type_char buffer c s).0
unfolding type_char
type_char-edit_line buffer c line s h = elim (Bool-cases (c == 8)) [
  | inl back ↦
      let shorter : length (take (length line - 1) line) ≡ length line - 1 =
        length-take (length line - 1) line (omega arith) in
      let held' = At-take s.world.fs.mem buffer (length line - 1) line h.held in
      elim (Bool-cases (ltb 0 s.cmd_len)) [
        | inl some_left ↦
            rw (back, some_left)
              (
                record {
                  held = held';
                  size = omega (arith, shorter, h.size);
                  room = omega (arith, shorter, h.room);
                },
                record { world = refl; elsewhere = λ x _. refl },
              )
        | inr empty ↦
            let none_left : length line ≡ 0 = ground (arith, h.size) in
            rw (back, empty)
              (
                record {
                  held = held';
                  size = omega (arith, shorter, h.size);
                  room = omega (arith, shorter, h.room);
                },
                unedited buffer s,
              )
      ]
  | inr letter ↦ elim (Bool-cases (ltb (length line) (cmd_buffer_size - 1))) [
    | inl fits ↦
        let m : Bytes = s.world.fs.mem in
        let small : length line < 127 = ground arith in
        let g : Bytes = store (buffer + s.cmd_len) c m in
        let other : (x : ℕ) → x ≢ buffer + s.cmd_len → g x ≡ m x = λ x ne. ground arith in
        let fits' : ltb s.cmd_len (cmd_buffer_size - 1) ≡ true = rw h.size fits in
        let longer : length (line ++ c ∷ []) ≡ length line + 1 = length-append line (c ∷ []) in
        rw (letter, fits, fits')
          (
            record {
              held =
                  At-append g buffer (buffer + s.cmd_len) line (c ∷ []) (omega (arith, h.size))
                    (At-same m g buffer line (λ x low high. other x (omega (arith, h.size))) h.held)
                    (ground arith, tt);
              size = omega (arith, longer, h.size);
              room = omega (arith, longer);
            },
            record { world = refl; elsewhere = λ x out. other x (omega (arith, h.size)) },
          )
    | inr full ↦
        let full' : ltb s.cmd_len (cmd_buffer_size - 1) ≡ false = rw h.size full in
        rw (letter, full, full') (h, unedited buffer s)
  ]
]

OnlyBuffer-trans :
    {buffer : ℕ} {s t u : Shell}
    → OnlyBuffer buffer s t
    → OnlyBuffer buffer t u
    → OnlyBuffer buffer s u
OnlyBuffer-trans a b = record {
  world = b.world ∙ ap (set_mem _) a.world;
  elsewhere = λ x out. b.elsewhere x out ∙ a.elsewhere x out;
}

-- From a buffer that holds a line of fewer than 128 bytes, any sequence of characters other than
-- `\n` leaves it with the edited line, again of fewer than 128 bytes and with its length in
-- `cmd_len`, where `\b` takes the last byte away, if there is one, and any other character is put
-- behind a line of fewer than 127 bytes. Nothing outside the buffer and `cmd_len` changes.
pub type_chars-Holds :
    (buffer : ℕ) (cs line : List ℕ) (s : Shell)
    → Holds buffer line s
    → Holds buffer (edit_lines line cs) (type_chars buffer cs s)
      × OnlyBuffer buffer s (type_chars buffer cs s)
type_chars-Holds buffer [] line s h = (h, unedited buffer s)
type_chars-Holds buffer (c ∷ cs) line s h =
    let (h', only) = type_char-edit_line buffer c line s h in
    let (h'', only') = type_chars-Holds buffer cs (edit_line line c) (type_char buffer c s).0 h' in
    (h'', OnlyBuffer-trans only only')
