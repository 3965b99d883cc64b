-- ===== src/Switch.antt =====
-- `switch_to` of low_level.S, and what it does with the steps of tasking.c.
pub mod Resume
pub mod Frame
pub mod Start
pub mod User
pub mod Turns
pub mod Moves
pub mod Cycle
pub mod Rounds
mod Tests
use shad_os.Base.{ℕ, ◌+◌, ◌-◌, ◌%◌, ◌==◌, if◌then◌else◌, word}
use shad_os.Tasking.{Tasking, Step, stays, switches, store_task}

-- The registers that `switch_to` saves, the stack pointer and the instruction pointer.
pub record Cpu : Type 0 where
  pub edi : ℕ
  pub esi : ℕ
  pub ebx : ℕ
  pub ebp : ℕ
  pub esp : ℕ
  pub eip : ℕ

-- The word at each address.
abbrev pub Words : Type 0
Words = ℕ → ℕ

unfoldable pub push : ℕ → Cpu × Words → Cpu × Words
push v (c, m) =
    let p = (c.esp + word - 4) % word in (record c { esp = p }, λ a. if a == p then v else m a)

-- `push %ebp; push %ebx; push %esi; push %edi`
unfoldable pub save : Cpu → Words → Cpu × Words
unfolding push
save c m = push c.edi (push c.esi (push c.ebx (push c.ebp (c, m))))

-- `pop %edi; pop %esi; pop %ebx; pop %ebp; ret`
unfoldable pub restore : Cpu → Words → Cpu
restore c m = record c {
  edi = m c.esp;
  esi = m ((c.esp + 4) % word);
  ebx = m ((c.esp + 8) % word);
  ebp = m ((c.esp + 12) % word);
  eip = m ((c.esp + 16) % word);
  esp = (c.esp + 20) % word;
}

-- With the stack pointer at the return address of the call: what is stored through the first
-- argument, the registers behind the `ret`, and the words. `new_esp` is the second argument.
unfoldable pub switch_to : (new_esp : ℕ) → Cpu → Words → ℕ × Cpu × Words
unfolding save restore
switch_to new_esp c m = let (d, w) = save c m in (d.esp, restore (record d { esp = new_esp }) w, w)

-- The end of `schedule`: it returns to its caller, or calls `switch_to` on the two tasks.
unfoldable pub perform : Cpu → Step → Tasking × Cpu
unfolding switch_to store_task
perform c (stays s) = (s, c)
perform c (switches s old new_esp) =
    let (saved, d, w) = switch_to new_esp c s.words in
    (
      record s { tasks = store_task old (record (s.tasks old) { esp = saved }) s.tasks; words = w },
      d,
    )
