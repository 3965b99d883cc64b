-- ===== src/Switch/Resume.antt =====
-- A task that has been left by `switch_to` goes on where it was.
use shad_os.Base.{ℕ, ◌+◌, ◌-◌, ◌%◌, ◌≤◌, ◌<◌, ◌≡◌, ◌⊎◌, ◌∙◌, refl, word, arith}
use shad_os.Base.Copy.{Apart}
use shad_os.Switch.{Cpu, Words, push, save, restore, switch_to}

-- Room on the stack for the four words.
abbrev pub HasRoom : Cpu → Type 0
HasRoom c = (16 ≤ c.esp) × (c.esp < word)

-- What the pushes leave: the registers right below the stack pointer, and all other words.
pub record Saved (c : Cpu) (m : Words) (d : Cpu) (w : Words) : Type 0 where
  pub esp : d.esp ≡ c.esp - 16
  pub edi : w (c.esp - 16) ≡ c.edi
  pub esi : w (c.esp - 12) ≡ c.esi
  pub ebx : w (c.esp - 8) ≡ c.ebx
  pub ebp : w (c.esp - 4) ≡ c.ebp
  pub elsewhere : (x : ℕ) → (x + 16 < c.esp) ⊎ (c.esp ≤ x) → w x ≡ m x

pub save-Saved : (c : Cpu) (m : Words) → HasRoom c → Saved c m (save c m).0 (save c m).1
unfolding save push
save-Saved c m room =
    let a1 : (c.esp + word - 4) % word ≡ c.esp - 4 = omega arith in
    let a2 : (c.esp - 4 + word - 4) % word ≡ c.esp - 8 = omega arith in
    let a3 : (c.esp - 8 + word - 4) % word ≡ c.esp - 12 = omega arith in
    let a4 : (c.esp - 12 + word - 4) % word ≡ c.esp - 16 = omega arith in
    record {
      esp = rw (a1, a2, a3, a4) refl;
      edi = rw (a1, a2, a3, a4) (ground arith);
      esi = rw (a1, a2, a3, a4) (ground arith);
      ebx = rw (a1, a2, a3, a4) (ground arith);
      ebp = rw (a1, a2, a3, a4) (ground arith);
      elsewhere = λ x out. rw (a1, a2, a3, a4) (ground arith);
    }

-- The registers of `c` at its call of `switch_to`, behind the return.
abbrev pub returned : Cpu → Words → Cpu
returned c m = record c { esp = (c.esp + 4) % word; eip = m c.esp }

-- The words that `restore` pops are those of `c`.
abbrev pub Keeps : (c : Cpu) → (m w : Words) → Type 0
Keeps c m w =
    (w (c.esp - 16) ≡ c.edi)
    × (w (c.esp - 12) ≡ c.esi)
    × (w (c.esp - 8) ≡ c.ebx)
    × (w (c.esp - 4) ≡ c.ebp)
    × (w c.esp ≡ m c.esp)

pub restore-returned :
    (c d : Cpu) (m w : Words)
    → HasRoom c
    → Keeps c m w
    → restore (record d { esp = c.esp - 16 }) w ≡ returned c m
unfolding restore
restore-returned c d m w room (edi, esi, ebx, ebp, eip) =
    let b1 : (c.esp - 16 + 4) % word ≡ c.esp - 12 = omega arith in
    let b2 : (c.esp - 16 + 8) % word ≡ c.esp - 8 = omega arith in
    let b3 : (c.esp - 16 + 12) % word ≡ c.esp - 4 = omega arith in
    let b4 : (c.esp - 16 + 16) % word ≡ c.esp = omega arith in
    let b5 : (c.esp - 16 + 20) % word ≡ (c.esp + 4) % word = omega arith in
    rw (b1, b2, b3, b4, b5, edi, esi, ebx, ebp, eip) refl

-- Two calls of `switch_to`, the first with room for four words below its return address and the
-- second, with room as well, on the stack pointer that the first has stored: if the five words from
-- there on are as the first call left them, and the second call's pushes do not meet them, the
-- second returns behind the first call, with the saved registers as they were at that call and the
-- stack pointer above the return address.
pub switch_to-returned :
    (new_esp : ℕ) (c : Cpu) (m : Words) (d : Cpu) (w : Words)
    → HasRoom c
    → HasRoom d
    → Apart (d.esp - 16) 16 (c.esp - 16) 20
    → ((x : ℕ) → c.esp - 16 ≤ x → x ≤ c.esp → w x ≡ (switch_to new_esp c m).2 x)
    → (switch_to (switch_to new_esp c m).0 d w).1 ≡ returned c m
unfolding switch_to
switch_to-returned new_esp c m d w room room' apart same =
    let first = save-Saved c m room in
    let second = save-Saved d w room' in
    let kept : (x : ℕ) → c.esp - 16 ≤ x → x ≤ c.esp → (save d w).1 x ≡ (save c m).1 x =
      λ x low high. second.elsewhere x (omega arith) ∙ same x low high in
    rw first.esp (
      restore-returned c (save d w).0 m (save d w).1 room (
        kept (c.esp - 16) (omega arith) (omega arith) ∙ first.edi,
        kept (c.esp - 12) (omega arith) (omega arith) ∙ first.esi,
        kept (c.esp - 8) (omega arith) (omega arith) ∙ first.ebx,
        kept (c.esp - 4) (omega arith) (omega arith) ∙ first.ebp,
        kept c.esp (omega arith) (omega arith) ∙ first.elsewhere c.esp (omega arith),
      ))
