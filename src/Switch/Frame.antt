-- ===== src/Switch/Frame.antt =====
-- What `switch_to` pops from the stack that `task_create` has laid out.
use shad_os.Base.{ℕ, ◌+◌, ◌%◌, ◌≤◌, ◌<◌, ◌≡◌, ◌⊎◌, ◌∙◌, refl, List, [], ◌∷◌, word, arith}
use shad_os.Tasking.{store_words}
use shad_os.Switch.{Cpu, Words, restore}

-- The registers of a task at the start of `task_trampoline`.
abbrev pub fresh_cpu : (trampoline top : ℕ) → Cpu
fresh_cpu trampoline top = record {
  edi = 0;
  esi = 0;
  ebx = 0;
  ebp = 0;
  esp = top;
  eip = trampoline;
}

-- The five words of a new task at `p`.
abbrev pub frame : (trampoline : ℕ) → List ℕ
frame trampoline = 0 ∷ 0 ∷ 0 ∷ 0 ∷ trampoline ∷ []

pub restore-frame :
    (trampoline p : ℕ) (c : Cpu) (m w : Words)
    → p + 20 < word
    → ((x : ℕ) → p ≤ x → x < p + 20 → w x ≡ store_words p (frame trampoline) m x)
    → restore (record c { esp = p }) w ≡ fresh_cpu trampoline (p + 20)
unfolding restore store_words
restore-frame trampoline p c m w small same =
    let a4 : (p + 4) % word ≡ p + 4 = omega arith in
    let a8 : (p + 8) % word ≡ p + 8 = omega arith in
    let a12 : (p + 12) % word ≡ p + 12 = omega arith in
    let a16 : (p + 16) % word ≡ p + 16 = omega arith in
    let a20 : (p + 20) % word ≡ p + 20 = omega arith in
    let edi : w p ≡ 0 = same p (omega arith) (omega arith) ∙ ground arith in
    let esi : w (p + 4) ≡ 0 = same (p + 4) (omega arith) (omega arith) ∙ ground arith in
    let ebx : w (p + 8) ≡ 0 = same (p + 8) (omega arith) (omega arith) ∙ ground arith in
    let ebp : w (p + 12) ≡ 0 = same (p + 12) (omega arith) (omega arith) ∙ ground arith in
    let eip : w (p + 16) ≡ trampoline = same (p + 16) (omega arith) (omega arith) ∙ ground arith in
    rw (a4, a8, a12, a16, a20, edi, esi, ebx, ebp, eip) refl

pub frame-other :
    (trampoline p : ℕ) (m : Words) (x : ℕ)
    → (x < p) ⊎ (p + 20 ≤ x)
    → store_words p (frame trampoline) m x ≡ m x
unfolding store_words
frame-other trampoline p m x out = ground arith
