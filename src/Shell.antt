-- ===== src/Shell.antt =====
-- shell.c: the line that is typed, and the command that it names.
pub mod Editor
pub mod Split
pub mod Enter
pub mod Files
pub mod Sound
pub mod Commands
pub mod Session
mod Tests
use shad_os.Base.{
  ℕ, zero, suc, ◌+◌, ◌-◌, Bool, true, false, ◌||◌, Option, none, some, List, [], ◌∷◌, ◌++◌, ltb,
  ◌==◌, if◌then◌else◌,
}
use shad_os.Base.Text.{codes}
use shad_os.Io.{Log, Device}
use shad_os.Heap.{Heap}
use shad_os.String.{Bytes}
use shad_os.Terminal.{
  Call, write_string, put_char, set_color, vga_entry_color, yellow, black, light_grey, backspace,
  initialize, usermode_run_demo,
}
use shad_os.Ramfs.{Ramfs, same, ramfs_list}
use shad_os.Tasking.Listing.{tasking_list}
use shad_os.Commands.{
  World, say, text_at, cmd_help, cmd_uptime, cmd_meminfo, cmd_cat, cmd_write, cmd_rm,
}
use shad_os.Commands.Alloctest.{cmd_alloctest}
use shad_os.Commands.Machine.{cmd_mouse, cmd_gfx, cmd_nettest, cmd_reboot}

abbrev pub cmd_buffer_size : ℕ
cmd_buffer_size = 128

-- `cmd_len`, with the state that the commands use; the buffer stands in its memory.
pub record Shell : Type 0 where
  pub world : World
  pub cmd_len : ℕ

infixl 5 ◌>>=◌
abbrev ◌>>=◌ : {A B : Type 0} → Option A → (A → Option B) → Option B
none >>= f = none
some a >>= f = f a

abbrev pub store : ℕ → ℕ → Bytes → Bytes
store p v m a = if a == p then v else m a

abbrev pub set_mem : Bytes → World → World
set_mem m w = record w { fs = record w.fs { mem = m } }

abbrev pub set_fs : Ramfs → World → World
set_fs s w = record w { fs = s }

unfoldable pub print_prompt : List Call
print_prompt =
    set_color (vga_entry_color yellow black)
    ∷ say "\nshadestia> "
    ∷ set_color (vga_entry_color light_grey black)
    ∷ []

-- `while (*p && *p != ' ') p++;` and `while (*p == ' ') p++;`. `none`: out of fuel.
unfoldable pub word_end : (fuel : ℕ) → Bytes → ℕ → Option ℕ
word_end zero m p = none
word_end (suc fuel) m p =
    let rest = word_end fuel m (p + 1) in if m p == 0 || m p == 32 then some p else rest

unfoldable pub skip_spaces : (fuel : ℕ) → Bytes → ℕ → Option ℕ
skip_spaces zero m p = none
skip_spaces (suc fuel) m p =
    let rest = skip_spaces fuel m (p + 1) in if m p == 32 then rest else some p

-- The memory behind `split_command`, and the pointer that it returns. No line is longer than the
-- buffer.
unfoldable pub split_command : ℕ → Bytes → Option (Bytes × ℕ)
split_command line m = word_end cmd_buffer_size m line >>= λ p.
    if m p == 32
    then (skip_spaces cmd_buffer_size (store p 0 m) (p + 1) >>= λ q. some (store p 0 m, q))
    else some (m, p)

-- Where a command ends: in front of the prompt, without one, or never.
pub data Ending : Type 0 where
  went : World → List Call → Ending
  cleared : World → List Call → Ending
  halted : List Call → Ending

abbrev pub goes : World → List Call → Log → Option (Ending × Log)
goes w calls l = some (went w calls, l)

-- The rounds for the list of tasks, and for the polls of the reset: parameters of the model.
pub record Rounds : Type 0 where
  pub tasks : ℕ
  pub polls : ℕ

-- The chain of `shell_execute`, for the first word of the line and the address of the rest.
unfoldable pub run_command :
    Device → Rounds → (word : List ℕ) → (args : ℕ) → World → Log → Option (Ending × Log)
run_command dev n word args w l =
    if same word []
    then goes w [] l
    else if same word (codes "help")
    then goes w cmd_help l
    else if same word (codes "clear")
    then some (cleared w (initialize ∷ []), l)
    else if same word (codes "echo")
    then (text_at w.fs.mem args >>= λ t. goes w (write_string t ∷ say "\n" ∷ []) l)
    else if same word (codes "uptime")
    then goes w (cmd_uptime w) l
    else if same word (codes "meminfo")
    then (cmd_meminfo w.fs.heap >>= λ calls. goes w calls l)
    else if same word (codes "alloctest")
    then (cmd_alloctest w.fs.mem w.fs.heap >>= λ (m, h, calls).
        goes (set_fs (record w.fs { mem = m; heap = h }) w) calls l)
    else if same word (codes "ps")
    then (tasking_list n.tasks w.tasking >>= λ calls. goes w calls l)
    else if same word (codes "ls")
    then goes w (ramfs_list w.fs) l
    else if same word (codes "cat")
    then (text_at w.fs.mem args >>= λ name. goes w (cmd_cat name w.fs) l)
    else if same word (codes "write")
    then (split_command args w.fs.mem >>= λ (m, content). text_at m args >>= λ name.
        cmd_write name content (record w.fs { mem = m }) >>= λ (s, calls).
        goes (set_fs s w) calls l)
    else if same word (codes "rm")
    then (text_at w.fs.mem args >>= λ name.
        cmd_rm name w.fs >>= λ (s, calls). goes (set_fs s w) calls l)
    else if same word (codes "mouse")
    then goes w (cmd_mouse w.mouse) l
    else if same word (codes "gfx")
    then goes w (cmd_gfx w) l
    else if same word (codes "usertest")
    then goes w (usermode_run_demo ∷ []) l
    else if same word (codes "nettest")
    then (let ((u, calls), l') = cmd_nettest w l in goes u calls l')
    else if same word (codes "reboot")
    then (cmd_reboot dev n.polls l >>= λ (calls, l'). some (halted calls, l'))
    else goes w (say "Commande inconnue : " ∷ write_string word ∷ say " (tapez 'help')\n" ∷ []) l

abbrev pub with_prompt : Ending → Ending
with_prompt (went w calls) = went w (calls ++ print_prompt)
with_prompt (cleared w calls) = cleared w calls
with_prompt (halted calls) = halted calls

unfoldable pub shell_execute : Device → Rounds → (line : ℕ) → World → Log → Option (Ending × Log)
shell_execute dev n line w l = split_command line w.fs.mem >>= λ (m, args).
    text_at m line >>= λ word.
    run_command dev n word args (set_mem m w) l >>= λ (e, l'). some (with_prompt e, l')

unfoldable pub shell_init : Shell → Shell × List Call
shell_init s =
    (record s { cmd_len = 0 }, say "\nTapez 'help' pour la liste des commandes." ∷ print_prompt)

-- A character other than `\n`, for the buffer at `buffer`; 8 is `\b`.
unfoldable pub type_char : (buffer c : ℕ) → Shell → Shell × List Call
type_char buffer c s =
    if c == 8
    then (if ltb 0 s.cmd_len
        then (record s { cmd_len = s.cmd_len - 1 }, backspace ∷ [])
        else (s, []))
    else if ltb s.cmd_len (cmd_buffer_size - 1)
    then (
      record s {
        world = set_mem (store (buffer + s.cmd_len) c s.world.fs.mem) s.world;
        cmd_len = s.cmd_len + 1;
      },
      put_char c ∷ [],
    )
    else (s, [])

-- What a character leads to: the shell waits for the next one, or the machine has stopped.
pub data Turn : Type 0 where
  waits : Shell → List Call → Turn
  stopped : List Call → Turn

abbrev pub next_line : Ending → Turn
next_line (went w calls) = waits (record { world = w; cmd_len = 0 }) (put_char 10 ∷ calls)
next_line (cleared w calls) = waits (record { world = w; cmd_len = 0 }) (put_char 10 ∷ calls)
next_line (halted calls) = stopped (put_char 10 ∷ calls)

unfoldable pub shell_handle_char :
    Device → Rounds → (buffer c : ℕ) → Shell → Log → Option (Turn × Log)
shell_handle_char dev n buffer c s l =
    if c == 10
    then (shell_execute dev n buffer (set_mem (store (buffer + s.cmd_len) 0 s.world.fs.mem) s.world)
          l
        >>= λ (e, l'). some (next_line e, l'))
    else (let (t, calls) = type_char buffer c s in some (waits t calls, l))
