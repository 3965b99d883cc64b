-- ===== src/Switch/User.antt =====
-- The way into user mode and back, `enter_usermode` and `return_to_kernel` of low_level.S.
use shad_os.Base.{ℕ, ◌+◌, ◌-◌, ◌%◌, ◌≤◌, ◌<◌, ◌≡◌, ◌⊎◌, refl, inr, word, arith, bit_or}
use shad_os.Switch.{Cpu, Words, push}

-- `km_esp` and `km_ebp`.
pub record Marks : Type 0 where
  pub km_esp : ℕ
  pub km_ebp : ℕ

-- What `iret` takes from the stack for the way to ring 3.
pub record Iret : Type 0 where
  pub eip : ℕ
  pub cs : ℕ
  pub eflags : ℕ
  pub esp : ℕ
  pub ss : ℕ

unfoldable pub iret : Cpu → Words → Iret
iret c m = record {
  eip = m c.esp;
  cs = m ((c.esp + 4) % word);
  eflags = m ((c.esp + 8) % word);
  esp = m ((c.esp + 12) % word);
  ss = m ((c.esp + 16) % word);
}

-- From the call on, with `flags` in EFLAGS: the two variables, what `iret` takes, and the words.
-- `pushf` and `pop %edx` leave the stack pointer where it was.
unfoldable pub enter_usermode : (flags : ℕ) → Cpu → Words → Marks × Iret × Words
unfolding iret push
enter_usermode flags c m =
    let entry = m ((c.esp + 4) % word) in
    let top = m ((c.esp + 8) % word) in
    let (d, w) = push top (push 0x23 (c, m)) in
    let (e, v) = push flags (d, w) in
    let (f, x) = push entry (push 0x1b (push (bit_or (v e.esp) 0x200) (d, v))) in
    (record { km_esp = c.esp; km_ebp = c.ebp }, iret f x, x)

-- `mov km_esp, %esp; mov km_ebp, %ebp; ret`
unfoldable pub return_to_kernel : Marks → Cpu → Words → Cpu
return_to_kernel k c m = record c { esp = (k.km_esp + 4) % word; ebp = k.km_ebp; eip = m k.km_esp }

-- The way into user mode from the call at `c`.
pub record Entered (flags : ℕ) (c : Cpu) (m : Words) (k : Marks) (i : Iret) (w : Words)
    : Type 0 where
  pub eip : i.eip ≡ m (c.esp + 4)
  pub cs : i.cs ≡ 0x1b
  pub eflags : i.eflags ≡ bit_or flags 0x200
  pub esp : i.esp ≡ m (c.esp + 8)
  pub ss : i.ss ≡ 0x23
  pub elsewhere : (x : ℕ) → (x + 20 < c.esp) ⊎ (c.esp ≤ x) → w x ≡ m x
  pub back :
      (d : Cpu) (v : Words)
      → v c.esp ≡ w c.esp
      → return_to_kernel k d v ≡ record d { esp = c.esp + 4; ebp = c.ebp; eip = m c.esp }

-- At a call of `enter_usermode` with room for five words below its return address, whose two
-- arguments stand above it: `iret` takes the entry with the code segment of ring 3, the flags with
-- interrupts on, and the end of the user's stack with the data segment of ring 3, and no other
-- words than the five change. Wherever `return_to_kernel` is called, while the return address
-- stands as it was left, it returns behind that call with its `ebp` and its stack pointer, but
-- with the other registers as they are where it is called.
pub enter_usermode-Entered :
    (flags : ℕ) (c : Cpu) (m : Words)
    → 20 ≤ c.esp
    → c.esp + 8 < word
    → Entered flags c m
        (enter_usermode flags c m).0
        (enter_usermode flags c m).1
        (enter_usermode flags c m).2
unfolding enter_usermode iret push return_to_kernel
enter_usermode-Entered flags c m room small =
    let a1 : (c.esp + word - 4) % word ≡ c.esp - 4 = omega arith in
    let a2 : (c.esp - 4 + word - 4) % word ≡ c.esp - 8 = omega arith in
    let a3 : (c.esp - 8 + word - 4) % word ≡ c.esp - 12 = omega arith in
    let a4 : (c.esp - 12 + word - 4) % word ≡ c.esp - 16 = omega arith in
    let a5 : (c.esp - 16 + word - 4) % word ≡ c.esp - 20 = omega arith in
    let b4 : (c.esp + 4) % word ≡ c.esp + 4 = omega arith in
    let b8 : (c.esp + 8) % word ≡ c.esp + 8 = omega arith in
    let c1 : (c.esp - 20 + 4) % word ≡ c.esp - 16 = omega arith in
    let c2 : (c.esp - 20 + 8) % word ≡ c.esp - 12 = omega arith in
    let c3 : (c.esp - 20 + 12) % word ≡ c.esp - 8 = omega arith in
    let c4 : (c.esp - 20 + 16) % word ≡ c.esp - 4 = omega arith in
    let elsewhere : (x : ℕ)
        → (x + 20 < c.esp) ⊎ (c.esp ≤ x)
        → (enter_usermode flags c m).2 x ≡ m x =
      λ x out. rw (a1, a2, a3, a4, a5) (ground arith) in
    record {
      eip = rw (a1, a2, a3, a4, a5, b4, b8) (ground arith);
      cs = rw (a1, a2, a3, a4, a5, c1) (ground arith);
      eflags = rw (a1, a2, a3, a4, a5, c2) (ground arith);
      esp = rw (a1, a2, a3, a4, a5, c3, b4, b8) (ground arith);
      ss = rw (a1, a2, a3, a4, a5, c4) (ground arith);
      elsewhere = elsewhere;
      back = λ d v same. rw (b4, same, elsewhere c.esp (inr (omega arith))) refl;
    }
