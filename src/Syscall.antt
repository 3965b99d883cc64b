-- ===== src/Syscall.antt =====
-- syscall.c: the dispatcher of `int $0x80`.
pub mod Results
mod Tests
use shad_os.Base.{
  ℕ, zero, suc, ◌+◌, ◌-◌, ◌%◌, ◌^◌, Option, none, some, List, [], ◌∷◌, ◌++◌, bit_and, ◌==◌,
  if◌then◌else◌, word, Bool,
}
use shad_os.Base.Text.{codes}
use shad_os.String.{Bytes, write_uint, write_hex}
use shad_os.Terminal.{
  Call, write_string, write_number, put_char, set_color, vga_entry_color, yellow, black, light_grey,
}

-- The fields of `struct registers` that the modelled files use.
pub record Registers : Type 0 where
  pub eax : ℕ
  pub ebx : ℕ
  pub ecx : ℕ
  pub cs : ℕ
  pub int_no : ℕ
  pub err_code : ℕ

abbrev pub sys_exit : ℕ
sys_exit = 1

abbrev pub sys_write : ℕ
sys_write = 4

-- How a system call ends: back in the caller, with its registers, or by `return_to_kernel`, which
-- drops the stack of the interrupt.
pub data Ending : Type 0 where
  back : Registers → Ending
  to_kernel : Ending

pub record Dispatched : Type 0 where
  pub count : ℕ
  pub calls : List Call
  pub ending : Ending

-- `for (i = 0; i < len; i++) terminal_putchar(buf[i])`
unfoldable pub put_bytes : Bytes → (buf len : ℕ) → List Call
put_bytes m buf zero = []
put_bytes m buf (suc len) = put_bytes m buf len ++ (put_char (m ((buf + len) % word)) ∷ [])

-- What the very first call writes, if it is a write.
unfoldable pub announce : Registers → List Call
announce regs =
    set_color (vga_entry_color yellow black)
    ∷ write_string (codes "[noyau] syscall recu depuis CS=0x")
    ∷ write_string (write_hex regs.cs)
    ∷ write_string (codes " (RPL=")
    ∷ write_number (bit_and regs.cs 0x3)
    ∷ write_string (codes ") -> ring3 confirme\n")
    ∷ set_color (vga_entry_color light_grey black)
    ∷ []

-- `count` is `syscall_count` before the call.
unfoldable pub syscall_dispatch : Bytes → (count : ℕ) → Registers → Dispatched
syscall_dispatch m count regs =
    if regs.eax == sys_write
    then record {
      count = count + 1;
      calls = (if count + 1 == 1 then announce regs else []) ++ put_bytes m regs.ebx regs.ecx;
      ending = back (record regs { eax = regs.ecx });
    }
    else if regs.eax == sys_exit
    then record {
      count = count + 1;
      calls = write_string (codes "[noyau] syscall exit() recu, retour au contexte noyau.\n") ∷ [];
      ending = to_kernel;
    }
    else record {
      count = count + 1;
      calls = write_string (codes "[noyau] appel systeme inconnu.\n") ∷ [];
      ending = back (record regs { eax = word - 1 });
    }
