-- ===== src/Idt.antt =====
-- idt.c: the interrupt descriptor table and the two handlers that the stubs of low_level.S call.
pub mod Gates
pub mod Dispatch
mod Tests
use shad_os.Base.{
  ℕ, zero, suc, ◌+◌, ◌-◌, ◌*◌, ◌/◌, ◌%◌, ◌^◌, Bool, Option, none, some, List, [], ◌∷◌, bit_and, ltb,
  ◌==◌, if◌then◌else◌, word, get_or,
}
use shad_os.Base.Text.{codes}
use shad_os.String.{Bytes, write_hex}
use shad_os.Syscall.{Registers, Dispatched, syscall_dispatch}
use shad_os.Io.{Io, Log, Device, ◌>>=◌, ◌>>◌, pure}
use shad_os.Pic.{pic_remap, pic_send_eoi}
use shad_os.Terminal.{Call, write_string, set_color, vga_entry_color, white, red, light_grey, black}

-- `struct idt_entry`
pub record IdtEntry : Type 0 where
  pub base_low : ℕ
  pub sel : ℕ
  pub always0 : ℕ
  pub flags : ℕ
  pub base_high : ℕ

abbrev pub Idt : Type 0
Idt = ℕ → IdtEntry

-- `struct idt_ptr`
pub record IdtPtr : Type 0 where
  pub limit : ℕ
  pub base : ℕ

abbrev pub idt_entries : ℕ
idt_entries = 256

unfoldable pub idt_set_gate : ℕ → (base sel flags : ℕ) → Idt → Idt
idt_set_gate num base sel flags t n =
    if n == num
    then record {
      base_low = bit_and base 0xffff;
      sel = sel;
      always0 = 0;
      flags = flags;
      base_high = bit_and (base / 2 ^ 16) 0xffff;
    }
    else t n

-- `for (i = 0; i < n; i++)` over the gates from `first` on.
unfoldable pub set_gates : (first count : ℕ) (base : ℕ → ℕ) (sel flags : ℕ) → Idt → Idt
set_gates first zero base sel flags t = t
set_gates first (suc count) base sel flags t =
    idt_set_gate (first + count) (base count) sel flags (set_gates first count base sel flags t)

-- The addresses that the linker gives: of the stubs and of the table.
pub record Stubs : Type 0 where
  pub isr : ℕ → ℕ
  pub irq : ℕ → ℕ
  pub isr128 : ℕ
  pub table : ℕ

-- The gates that `idt_init` leaves: all empty, then the 32 exceptions, the 16 IRQs and the system
-- call.
unfoldable pub fill_gates : Stubs → Idt → Idt
fill_gates s t = idt_set_gate 128 s.isr128 0x08 0xee (
    set_gates 32 16 s.irq 0x08 0x8e
      (set_gates 0 32 s.isr 0x08 0x8e (set_gates 0 idt_entries (λ _. 0) 0 0 t)))

unfoldable pub idt_init : Device → Stubs → Idt → Io (Idt × IdtPtr)
idt_init dev s t = do
  pic_remap dev
  pure (fill_gates s t, record { limit = 8 * idt_entries - 1; base = s.table })

-- The routines that drivers install, each a function on the state `S` of the kernel and the ports;
-- `none` is the null pointer.
module _ (S : Type 0) where
  abbrev pub Routine : Type 0
  Routine = S → Io S

  abbrev pub Routines : Type 0
  Routines = ℕ → Option Routine

  -- `none`: the store or the read is not in `irq_routines`, which has 16 entries and is not checked.
  unfoldable pub irq_install_handler : ℕ → Routine → Routines → Option Routines
  irq_install_handler irq h t =
      if ltb irq 16 then some (λ n. if n == irq then some h else t n) else none

  -- `irq` is a `uint8_t`.
  unfoldable pub irq_handler : Routines → (int_no : ℕ) → S → Log → Option (S × Log)
  irq_handler t int_no s l =
      let irq = (int_no + word - 32) % 256 in
      if ltb irq 16
      then some (
          ((elim (t irq) [ some h ↦ h s | none ↦ pure s ]) >>= λ s'.
          pic_send_eoi irq >>= λ _. pure s')
            l)
      else none

abbrev reserved : List ℕ
reserved = codes "Reservee"

-- `exception_messages`
abbrev pub exception_messages : List (List ℕ)
exception_messages =
    codes "Division par zero"
    ∷ codes "Debug"
    ∷ codes "NMI"
    ∷ codes "Breakpoint"
    ∷ codes "Overflow"
    ∷ codes "Depassement de limite"
    ∷ codes "Opcode invalide"
    ∷ codes "Peripherique absent"
    ∷ codes "Double fault"
    ∷ codes "Depassement coprocesseur"
    ∷ codes "TSS invalide"
    ∷ codes "Segment absent"
    ∷ codes "Faute de pile"
    ∷ codes "Protection generale (GPF)"
    ∷ codes "Page fault"
    ∷ reserved
    ∷ codes "Erreur x87"
    ∷ codes "Alignement"
    ∷ codes "Machine check"
    ∷ codes "SIMD"
    ∷ codes "Virtualisation"
    ∷ reserved
    ∷ reserved
    ∷ reserved
    ∷ reserved
    ∷ reserved
    ∷ reserved
    ∷ reserved
    ∷ reserved
    ∷ reserved
    ∷ codes "Securite"
    ∷ reserved
    ∷ []

-- How an exception or a system call ends. The endless `hlt` is `halted`.
pub data Outcome : Type 0 where
  dispatched : Dispatched → Outcome
  halted : List Call → Outcome
  returned : Outcome

-- What `page_fault_handler` of paging.c writes before it halts; `cr2` is the faulting address.
unfoldable pub page_fault_calls : (cr2 err_code : ℕ) → List Call
page_fault_calls cr2 err_code =
    set_color (vga_entry_color white red)
    ∷ write_string (codes "\n*** PAGE FAULT *** adresse=")
    ∷ write_string (write_hex cr2)
    ∷ write_string (
        if bit_and err_code 0x1 == 0
        then codes " (page absente)"
        else codes " (violation de protection)")
    ∷ write_string (if bit_and err_code 0x2 == 0 then codes ", lecture" else codes ", ecriture")
    ∷ write_string
        (if bit_and err_code 0x4 == 0 then codes ", mode noyau" else codes ", mode utilisateur")
    ∷ write_string (codes "\nSysteme arrete.\n")
    ∷ set_color (vga_entry_color light_grey black)
    ∷ []

unfoldable pub isr_handler : Bytes → (cr2 count : ℕ) → Registers → Outcome
isr_handler m cr2 count regs =
    if regs.int_no == 128
    then dispatched (syscall_dispatch m count regs)
    else if regs.int_no == 14
    then halted (page_fault_calls cr2 regs.err_code)
    else if ltb regs.int_no 32
    then halted (
        set_color (vga_entry_color white red)
        ∷ write_string (codes "\n*** EXCEPTION : ")
        ∷ write_string (get_or exception_messages regs.int_no [])
        ∷ write_string (codes " *** Systeme arrete.\n")
        ∷ set_color (vga_entry_color light_grey black)
        ∷ [])
    else returned
