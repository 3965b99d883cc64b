-- ===== src/Shell/Split.antt =====
-- `split_command` of shell.c on the strings that memory holds.
use shad_os.Base.{
  ℕ, zero, suc, ◌+◌, ◌≤◌, ◌<◌, ◌≡◌, ◌≢◌, ◌⊎◌, ◌∙◌, refl, ap, subst, inl, inr, true, false, ◌||◌,
  some, List, [], ◌∷◌, length, ◌==◌, if◌then◌else◌, arith, Bool-cases,
}
use shad_os.String.{Bytes}
use shad_os.String.Compare.{IsString, IsString-same}
use shad_os.Shell.{cmd_buffer_size, store, word_end, skip_spaces, split_command}

-- The bytes in front of the first space.
abbrev pub first_word : List ℕ → List ℕ
first_word [] = []
first_word (c ∷ s) = if c == 32 then [] else c ∷ first_word s

abbrev pub drop_spaces : List ℕ → List ℕ
drop_spaces [] = []
drop_spaces (c ∷ s) = if c == 32 then drop_spaces s else c ∷ s

-- The bytes behind the first run of spaces.
abbrev pub after_word : List ℕ → List ℕ
after_word [] = []
after_word (c ∷ s) = if c == 32 then drop_spaces s else after_word s

word_end-first_word :
    (fuel : ℕ) (m : Bytes) (p : ℕ) (s : List ℕ)
    → IsString m p s
    → length s < fuel
    → word_end fuel m p ≡ some (p + length (first_word s))
unfolding word_end
word_end-first_word zero m p s is enough = absurd (omega arith)
word_end-first_word (suc fuel) m p [] is enough = ground arith
word_end-first_word (suc fuel) m p (c ∷ s) is enough = elim (Bool-cases (c == 32)) [
  | inl space ↦ ground arith
  | inr letter ↦
      let more : (m p == 0 || m p == 32) ≡ false = ground arith in
      rw (more, letter)
        (word_end-first_word fuel m (p + 1) s is.2 (omega arith) ∙ ap some (omega arith))
]

pub first_word-le : (s : List ℕ) → length (first_word s) ≤ length s
first_word-le [] = omega arith
first_word-le (c ∷ s) = elim (Bool-cases (c == 32)) [
  | inl space ↦ rw space (omega arith)
  | inr letter ↦ rw letter (omega (arith, first_word-le s))
]

-- What stands behind the first word, which ends at `e`.
data Behind (m : Bytes) (p : ℕ) (s : List ℕ) (e : ℕ) : Type 0 where
  the_end : m e ≡ 0 → e ≡ p + length s → after_word s ≡ [] → Behind m p s e
  spaces :
      (t : List ℕ)
      → m e ≡ 32
      → IsString m (e + 1) t
      → after_word s ≡ drop_spaces t
      → e + 1 + length t ≡ p + length s
      → Behind m p s e

first_word-Behind :
    (m : Bytes) (p : ℕ) (s : List ℕ) → IsString m p s → Behind m p s (p + length (first_word s))
first_word-Behind m p [] is = the_end (ground arith) refl refl
first_word-Behind m p (c ∷ s) is = elim (Bool-cases (c == 32)) [
  | inl space ↦ rw space (
      spaces s (ground arith) (subst (λ x. IsString m x s) (omega arith) is.2) (rw space refl)
        (omega arith))
  | inr letter ↦
      let e : p + 1 + length (first_word s) ≡ p + suc (length (first_word s)) = omega arith in
      rw letter (elim (first_word-Behind m (p + 1) s is.2) [
        | the_end last at none_left ↦ the_end (rw e at last) (omega arith) (rw letter none_left)
        | spaces t at next left size ↦
            spaces t (rw e at at) (rw e at next) (rw letter left) (omega arith)
      ])
]

-- The word itself, in a memory with a 0 behind it.
first_word-IsString :
    (m g : Bytes) (p e : ℕ) (s : List ℕ)
    → IsString m p s
    → e ≡ p + length (first_word s)
    → g e ≡ 0
    → ((x : ℕ) → p ≤ x → x < e → g x ≡ m x)
    → IsString g p (first_word s)
first_word-IsString m g p e [] is at last same = ground arith
first_word-IsString m g p e (c ∷ s) is at last same = elim (Bool-cases (c == 32)) [
  | inl space ↦ rw space (ap g {y = e} (ground arith) ∙ last)
  | inr letter ↦
      let at' : e ≡ p + suc (length (first_word s)) = rw letter at at in
      rw letter (
        same p (omega arith) (omega arith) ∙ is.0,
        is.1,
        first_word-IsString m g (p + 1) e s is.2 (omega arith) last
            (λ x low high. same x (omega arith) high),
      )
]

skip_spaces-drop :
    (fuel : ℕ) (m : Bytes) (q : ℕ) (t : List ℕ)
    → IsString m q t
    → length t < fuel
    → (r : ℕ) × (skip_spaces fuel m q ≡ some r)
      × IsString m r (drop_spaces t)
      × (q ≤ r)
      × (r + length (drop_spaces t) ≡ q + length t)
unfolding skip_spaces
skip_spaces-drop zero m q t is enough = absurd (omega arith)
skip_spaces-drop (suc fuel) m q [] is enough =
    let no_space : (m q == 32) ≡ false = ground arith in
    (q, rw no_space refl, is, omega arith, refl)
skip_spaces-drop (suc fuel) m q (c ∷ t) is enough = elim (Bool-cases (c == 32)) [
  | inl space ↦
      let (r, found, rest, low, size) = skip_spaces-drop fuel m (q + 1) t is.2 (omega arith) in
      rw space (r, rw (is.0, space) found, rest, omega arith, omega arith)
  | inr letter ↦ rw letter (q, rw (is.0, letter) refl, is, omega arith, refl)
]

-- The memory `g` and the address `q` are those of a line `s` at `p` split in two.
pub record Halves (m : Bytes) (p : ℕ) (s : List ℕ) (g : Bytes) (q : ℕ) : Type 0 where
  pub command : IsString g p (first_word s)
  pub arguments : IsString g q (after_word s)
  pub low : p ≤ q
  pub size : q + length (after_word s) ≡ p + length s
  pub elsewhere : (x : ℕ) → (x < p) ⊎ (p + length s ≤ x) → g x ≡ m x

-- On a line of fewer than 128 bytes `split_command` ends, and afterwards two strings stand in
-- memory: at the line the bytes in front of the first space, and at the address returned, inside
-- the line, those behind the first run of spaces. No byte outside the line has changed.
pub split_command-Halves :
    (m : Bytes) (p : ℕ) (s : List ℕ)
    → IsString m p s
    → length s < cmd_buffer_size
    → (g : Bytes) × (q : ℕ) × (split_command p m ≡ some (g, q)) × Halves m p s g q
unfolding split_command
split_command-Halves m p s is short =
    let e : ℕ = p + length (first_word s) in
    let found = word_end-first_word cmd_buffer_size m p s is short in
    elim (first_word-Behind m p s is) [
      | the_end last at none_left ↦
          let no_space : (m e == 32) ≡ false = ground arith in
          (
            m,
            e,
            rw (found, no_space) refl,
            record {
              command = first_word-IsString m m p e s is refl last (λ x _ _. refl);
              arguments = rw none_left last;
              low = omega arith;
              size = rw none_left (omega arith);
              elsewhere = λ x _. refl;
            },
          )
      | spaces t at next left size ↦
          let g : Bytes = store e 0 m in
          let other : (x : ℕ) → x ≢ e → g x ≡ m x = λ x ne. ground arith in
          let is' : IsString g (e + 1) t =
            IsString-same m g (e + 1) t (λ x low high. other x (omega arith)) next in
          let (q, skipped, rest, low, size') =
            skip_spaces-drop cmd_buffer_size g (e + 1) t is' (omega arith) in
          let space : (m e == 32) ≡ true = ground arith in
          (
            g,
            q,
            rw (found, space, skipped) refl,
            record {
              command =
                  first_word-IsString m g p e s is refl (ground arith)
                    (λ x _ high. other x (omega arith));
              arguments = rw left rest;
              low = omega arith;
              size = rw left (omega arith);
              elsewhere = λ x out. other x (omega arith);
            },
          )
    ]
