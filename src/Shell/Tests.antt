-- ===== src/Shell/Tests.antt =====
-- Runs of shell.c, and its theorems at concrete inputs.
use shad_os.Base.{ℕ, ◌≡◌, refl, inl, true, false, some, List, [], ◌∷◌, ◌++◌, arith}
use shad_os.Base.Text.{codes}
use shad_os.Base.Int.{pos}
use shad_os.Io.{Device}
use shad_os.String.{Bytes}
use shad_os.Tasking.{task_ready}
use shad_os.String.Range.{lacks-AllNe}
use shad_os.Terminal.{Call, put_char}
use shad_os.Ramfs.{Ramfs}
use shad_os.Heap.Samples.{shared, busy}
use shad_os.Ramfs.Samples.{one_file, one_file-IsStore}
use shad_os.Commands.{World}
use shad_os.Commands.Texts.{WriteShown, ShowsSame}
use shad_os.Shell.{shell_init, Shell, waits, Rounds, set_fs, print_prompt}
use shad_os.Shell.Split.{after_word}
use shad_os.Shell.Editor.{edit_lines}
use shad_os.Shell.Enter.{press, run_line, Arguments, press-run_line}
use shad_os.Io.{inb}
use shad_os.Commands.Machine.{wait_keyboard}
use shad_os.Shell.Sound.{IsInOrder}
use shad_os.Shell.Commands.{TakesReset}
use shad_os.Shell.Session.{TurnsSound, press-Sound}
use shad_os.Shell.Files.{press-WriteShown}

abbrev world : World
world = record {
  fs = one_file;
  tasking = record {
    tasks =
        λ _. record { esp = 0; stack_base = 0; entry = 0; pid = 0; state = task_ready; next = 0 };
    current = 0;
    zombie = 0;
    next_pid = 0;
    ready = false;
    tick_counter = 0;
    paused = false;
    heap = busy;
    words = λ _. 0;
  };
  mouse = record {
    cycle = 0;
    packet0 = 0;
    packet1 = 0;
    packet2 = 0;
    x = pos 40;
    y = pos 12;
    buttons = 0;
    ready = true;
  };
  net_ready = false;
  rtl = record {
    io_base = 0;
    mac = [];
    rx_buffer = 0;
    tx_buffer = 0;
    rx_offset = 0;
    tx_cur = 0;
    ready = false;
    rx_packets_seen = 0;
  };
  seconds = 12;
  ticks = 1200;
  graphics_available = false;
  width = 0;
  height = 0;
  frame = 0x20_0000;
}

abbrev fresh : Shell
fresh = record { world = world; cmd_len = 0 }

abbrev rounds : Rounds
rounds = record { tasks = 4; polls = 4 }

abbrev quiet : Device
quiet log port = 0

-- `writz`, a backspace, and the rest of a line.
abbrev keys : List ℕ
keys = codes "writz" ++ 8 ∷ codes "e  note du texte"

line_is : edit_lines [] keys ≡ codes "write  note du texte"
line_is = refl

text_is : after_word (after_word (edit_lines [] keys)) ≡ codes "du texte"
text_is = refl

abbrev buffer : ℕ
buffer = 0x1000

press-run_line_example :
    (g : Bytes) × (q : ℕ) × (press quiet rounds buffer (keys ++ 10 ∷ []) (waits fresh []) []
      ≡ run_line quiet rounds (edit_lines [] keys) g q world [])
    × Arguments buffer (edit_lines [] keys) world g q
press-run_line_example =
    press-run_line quiet rounds buffer keys fresh [] refl (lacks-AllNe 0 keys refl)
      (lacks-AllNe 10 keys refl)

press-WriteShown_example :
    (t : Ramfs) × (calls : List Call) × (press quiet rounds buffer
        (keys ++ 10 ∷ [])
        (waits fresh [])
        []
      ≡ some (
        waits
            (record { world = set_fs t world; cmd_len = 0 })
            (put_char 10 ∷ (calls ++ print_prompt)),
        [],
      ))
    × WriteShown (codes "note") (after_word (after_word (edit_lines [] keys))) t calls
    × ShowsSame (codes "note") one_file t
press-WriteShown_example =
    press-WriteShown quiet rounds buffer keys fresh shared [] b'n' (codes "ote") refl
      (lacks-AllNe 0 keys refl) (lacks-AllNe 10 keys refl) refl refl (inl (omega arith)) refl
      one_file-IsStore

world-IsInOrder : IsInOrder buffer 4 world
world-IsInOrder = record {
  store = (shared, one_file-IsStore);
  ready = refl;
  apart = inl (omega arith);
  tasks = inl refl;
}

quiet-TakesReset : TakesReset quiet 4
unfolding wait_keyboard inb
quiet-TakesReset l = ((inb quiet 0x64 l).1, refl)

-- Three lines: a file is written, the test of the heap runs, and the machine stops.
abbrev session : List ℕ
session = keys ++ codes "\nalloctest\nreboot\nls\n"

press-Sound_example :
    TurnsSound buffer 4
      (press quiet rounds buffer session (waits (shell_init fresh).0 (shell_init fresh).1) [])
press-Sound_example =
    press-Sound quiet rounds buffer session fresh [] world-IsInOrder quiet-TakesReset
      (lacks-AllNe 0 session refl)
