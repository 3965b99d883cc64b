-- ===== src/Commands/Tests.antt =====
-- Runs of the commands of shell.c, and their theorems at concrete inputs.
use shad_os.Base.{◌≡◌, some, List}
use shad_os.Heap.{Heap}
use shad_os.String.{Bytes}
use shad_os.Terminal.{Call}
use shad_os.Heap.Samples.{shared, busy, busy-IsHeap}
use shad_os.Commands.Alloctest.{cmd_alloctest}
use shad_os.Commands.Alloc.{Tested, cmd_alloctest-Tested}

abbrev memory : Bytes
memory a = 7

cmd_alloctest-Tested_example :
    (m' : Bytes) × (g : Heap) × (calls : List Call) × (cmd_alloctest memory busy
      ≡ some (m', g, calls))
    × Tested busy shared memory m' g calls
cmd_alloctest-Tested_example = cmd_alloctest-Tested memory busy shared busy-IsHeap
