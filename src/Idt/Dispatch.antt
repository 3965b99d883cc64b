-- ===== src/Idt/Dispatch.antt =====
-- The two C handlers of idt.c.
use shad_os.Base.{
  Option, some, List, [], ◌++◌, ◌≢◌, ◌∙◌, refl, true, false, ltb, ℕ, ◌+◌, ◌-◌, ◌%◌, ◌<◌, ◌≡◌, inl,
  inr, none, ◌∷◌, arith, leb, ◌==◌, if◌then◌else◌, word, Bool-cases,
}
use shad_os.Io.{Log, out8}
use shad_os.Pic.{pic1, pic2, pic_eoi, pic_send_eoi}
use shad_os.Idt.{Routine, Routines, irq_install_handler, irq_handler}

-- The accesses that acknowledge IRQ `k`: the master always, the slave before it for its lines.
abbrev pub acknowledge : ℕ → Log → Log
acknowledge k l =
    if leb 8 k then out8 pic1 pic_eoi ∷ out8 pic2 pic_eoi ∷ l else out8 pic1 pic_eoi ∷ l

pic_send_eoi-acknowledge : (k : ℕ) (l : Log) → pic_send_eoi k l ≡ (tt, acknowledge k l)
unfolding pic_send_eoi
pic_send_eoi-acknowledge k l = elim (Bool-cases (leb 8 k)) [
  | inl slave ↦ rw slave
  | inr master ↦ rw master
]

-- The lines that drivers install their routines for are those of the array.
abbrev pub AllLines : (S : Type 0) → List (ℕ × Routine S) → Type 0
AllLines S [] = Unit {0}
AllLines S (j ∷ js) = (j.0 < 16) × AllLines S js

-- None of the routines is for the line `k`.
abbrev pub NoneFor : (S : Type 0) → ℕ → List (ℕ × Routine S) → Type 0
NoneFor S k [] = Unit {0}
NoneFor S k (j ∷ js) = (k ≢ j.0) × NoneFor S k js

module _ (S : Type 0) where
  -- The calls of `irq_install_handler` of the drivers, in order.
  unfoldable pub install_all : List (ℕ × Routine S) → Routines S → Option (Routines S)
  install_all [] t = some t
  install_all (j ∷ js) t = elim (irq_install_handler S j.0 j.1 t) [
    | none ↦ none
    | some u ↦ install_all js u
  ]

  install-at :
      (j k : ℕ) (h : Routine S) (t : Routines S)
      → j < 16
      → (u : Routines S) × (irq_install_handler S j h t ≡ some u)
        × (k ≡ j → u k ≡ some h)
        × (k ≢ j → u k ≡ t k)
  unfolding irq_install_handler
  install-at j k h t small =
      let inside : ltb j 16 ≡ true = ground arith in
      (
        (λ n. if n == j then some h else t n),
        rw inside refl,
        (λ same. let hit : (k == j) ≡ true = ground arith in rw hit refl),
        λ other. let miss : (k == j) ≡ false = ground arith in rw miss refl,
      )

  install_all-kept :
      (js : List (ℕ × Routine S)) (k : ℕ) (t : Routines S)
      → AllLines S js
      → NoneFor S k js
      → (u : Routines S) × (install_all js t ≡ some u) × (u k ≡ t k)
  unfolding install_all
  install_all-kept [] k t lines others = (t, refl, refl)
  install_all-kept (j ∷ js) k t lines others =
      let (u, ends, _, kept) = install-at j.0 k j.1 t lines.0 in
      let (v, rest, same) = install_all-kept js k u lines.1 others.1 in
      (v, rw (ends, install_all) rest, same ∙ kept others.0)

  install_all-last :
      (pre post : List (ℕ × Routine S)) (k : ℕ) (h : Routine S) (t : Routines S)
      → AllLines S (pre ++ (k, h) ∷ post)
      → NoneFor S k post
      → (u : Routines S) × (install_all (pre ++ (k, h) ∷ post) t ≡ some u) × (u k ≡ some h)
  unfolding install_all
  install_all-last [] post k h t lines others =
      let (u, ends, set, _) = install-at k k h t lines.0 in
      let (v, rest, same) = install_all-kept post k u lines.1 others in
      (v, rw (ends, install_all) rest, same ∙ set refl)
  install_all-last (j ∷ pre) post k h t lines others =
      let (u, ends, _, _) = install-at j.0 k j.1 t lines.0 in
      let (v, rest, set) = install_all-last pre post k h u lines.1 others in
      (v, rw (ends, install_all) rest, set)

-- Where the drivers have installed any routines, all for lines below 16: an interrupt of the line
-- `k`, on vector 32 + k, runs the last of those that were for this line, and then acknowledges the
-- interrupt, to the slave before the master for the lines from 8 on. The routine is one that returns.
pub irq_handler-last :
    (S : Type 0) (pre post : List (ℕ × Routine S)) (k : ℕ) (h : Routine S) (t : Routines S) (s : S)
    (l : Log)
    → AllLines S (pre ++ (k, h) ∷ post)
    → NoneFor S k post
    → k < 16
    → (u : Routines S) × (install_all S (pre ++ (k, h) ∷ post) t ≡ some u)
      × (irq_handler S u (32 + k) s l ≡ some ((h s l).0, acknowledge k (h s l).1))
unfolding irq_handler
irq_handler-last S pre post k h t s l lines others small =
    let is_k : (32 + k + word - 32) % 256 ≡ k = omega arith in
    let inside : ltb k 16 ≡ true = ground arith in
    let (u, ends, set) = install_all-last S pre post k h t lines others in
    (u, ends, rw (is_k, inside, set, pic_send_eoi-acknowledge k (h s l).1) refl)
