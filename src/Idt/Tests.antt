-- ===== src/Idt/Tests.antt =====
-- The theorems about idt.c at concrete inputs.
use shad_os.Base.{◌∷◌, ℕ, ◌+◌, ◌-◌, ◌≡◌, none, some, [], arith, ltb, ◌==◌, if◌then◌else◌}
use shad_os.Idt.{Idt, Stubs, fill_gates, Routine, Routines, irq_handler}
use shad_os.Idt.Gates.{gate, gate-fill_gates}
use shad_os.Idt.Dispatch.{acknowledge, install_all, irq_handler-last}

abbrev stubs : Stubs
stubs = record { isr = λ i. 0x10_1000; irq = λ i. 0x10_2000; isr128 = 0x10_3000; table = 0x10_4000 }

abbrev blank : Idt
blank n = record { base_low = 0; sel = 0; always0 = 0; flags = 0; base_high = 0 }

gate-fill_gates_example : gate (fill_gates stubs blank 128) ≡ (
    if ltb 128 32
    then some (stubs.isr 128, 0x08, 0)
    else if ltb 128 48
    then some (stubs.irq (128 - 32), 0x08, 0)
    else if 128 == 128
    then some (stubs.isr128, 0x08, 3)
    else none)
gate-fill_gates_example =
    gate-fill_gates stubs blank 128 (λ i. omega arith) (λ i. omega arith) (omega arith)
      (omega arith)

-- A routine that counts its calls.
abbrev counter : Routine ℕ
counter n l = (n + 1, l)

abbrev idle : Routine ℕ
idle n l = (n, l)

abbrev no_routines : Routines ℕ
no_routines irq = none

-- Three installations, two of them for the mouse.
irq_handler-last_example :
    (u : Routines ℕ) × (install_all ℕ
        ((1, idle) ∷ (12, idle) ∷ (12, counter) ∷ (11, idle) ∷ [])
        no_routines
      ≡ some u)
    × (irq_handler ℕ u (32 + 12) 7 [] ≡ some ((counter 7 []).0, acknowledge 12 (counter 7 []).1))
irq_handler-last_example =
    irq_handler-last ℕ ((1, idle) ∷ (12, idle) ∷ []) ((11, idle) ∷ []) 12 counter no_routines 7 []
      (omega arith, (omega arith, (omega arith, (omega arith, tt)))) (ground arith, tt)
      (omega arith)
