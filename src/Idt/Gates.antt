-- ===== src/Idt/Gates.antt =====
-- The table that `idt_init` of idt.c leaves, read as the processor reads it.
use shad_os.Base.{
  ℕ, zero, suc, ◌+◌, ◌-◌, ◌*◌, ◌/◌, ◌%◌, ◌^◌, ◌<◌, ◌≡◌, ◌∙◌, ap, Option, none, some, arith, bit_and,
  ltb, ◌==◌, ◌&&◌, ◌||◌, not, leb, if◌then◌else◌, word,
}
use shad_os.Base.Bits.{bit_and-ones}
use shad_os.Idt.{Idt, IdtEntry, Stubs, idt_set_gate, set_gates, fill_gates}

-- A gate leads to an interrupt's code if it is present, bit 7 of its flags, and of the type of a
-- 32-bit interrupt gate, 14 in the low five bits: to its base in the segment of its selector, for
-- callers up to its privilege level.
unfoldable pub gate : IdtEntry → Option (ℕ × ℕ × ℕ)
gate e =
    if e.flags / 128 == 0 || not (e.flags % 32 == 14)
    then none
    else some (e.base_low + e.base_high * 2 ^ 16, e.sel, e.flags / 32 % 4)

-- The gate that the three arguments of `idt_set_gate` make.
abbrev made_gate : (base sel flags : ℕ) → Option (ℕ × ℕ × ℕ)
made_gate base sel flags =
    if flags / 128 == 0 || not (flags % 32 == 14) then none else some (base, sel, flags / 32 % 4)

-- The kernel's code segment, as the stubs of low_level.S have it.
abbrev pub code_segment : ℕ
code_segment = 0x08

low_half : (x : ℕ) → bit_and x 0xffff ≡ x % 2 ^ 16
low_half x =
    ap (λ y. bit_and y 0xffff) {x = x} {y = x / 2 ^ 16 * 2 ^ 16 + x % 2 ^ 16} (omega arith)
    ∙ bit_and-ones 16 (x % 2 ^ 16) (x / 2 ^ 16) (omega arith)

gate-idt_set_gate :
    (num base sel flags n : ℕ) (t : Idt)
    → base < word
    → gate (idt_set_gate num base sel flags t n)
      ≡ (if n == num then made_gate base sel flags else gate (t n))
unfolding gate idt_set_gate
gate-idt_set_gate num base sel flags n t h = ground (arith, low_half base, low_half (base / 2 ^ 16))

gate-set_gates :
    (first count : ℕ) (base : ℕ → ℕ) (sel flags n : ℕ) (t : Idt)
    → ((i : ℕ) → base i < word)
    → gate (set_gates first count base sel flags t n) ≡ (
        if leb first n && ltb n (first + count)
        then made_gate (base (n - first)) sel flags
        else gate (t n))
unfolding set_gates
gate-set_gates first zero base sel flags n t h = ground arith
gate-set_gates first (suc count) base sel flags n t h = ground (
  arith,
  gate-idt_set_gate (first + count) (base count) sel flags n
      (set_gates first count base sel flags t) (h count),
  gate-set_gates first count base sel flags n t h,
)

-- With stubs inside the address space, after the gates of `idt_init` each of the vectors below 32 has
-- an interrupt gate to its exception stub and each of those from 32 to 47 one to its IRQ stub, for
-- ring 0 alone; vector 128 has one to the system call's stub that admits ring 3; all are in the
-- kernel's code segment, and no other of the 256 vectors has a gate.
pub gate-fill_gates :
    (s : Stubs) (t : Idt) (n : ℕ)
    → ((i : ℕ) → s.isr i < word)
    → ((i : ℕ) → s.irq i < word)
    → s.isr128 < word
    → n < 256
    → gate (fill_gates s t n) ≡ (
        if ltb n 32
        then some (s.isr n, code_segment, 0)
        else if ltb n 48
        then some (s.irq (n - 32), code_segment, 0)
        else if n == 128
        then some (s.isr128, code_segment, 3)
        else none)
unfolding fill_gates
gate-fill_gates s t n isr irq sys h =
    gate-idt_set_gate 128 s.isr128 0x08 0xee n _ sys
    ∙ ground (
      arith,
      gate-set_gates 32 16 s.irq 0x08 0x8e n
          (set_gates 0 32 s.isr 0x08 0x8e (set_gates 0 256 (λ _. 0) 0 0 t)) irq,
      gate-set_gates 0 32 s.isr 0x08 0x8e n (set_gates 0 256 (λ _. 0) 0 0 t) isr,
      gate-set_gates 0 256 (λ _. 0) 0 0 n t (λ _. omega arith),
    )
