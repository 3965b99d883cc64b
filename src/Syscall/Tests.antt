-- ===== src/Syscall/Tests.antt =====
-- The theorems about syscall.c at concrete inputs.
use shad_os.Base.{ℕ, ◌+◌, ◌%◌, ◌<◌, ◌≡◌, ◌≢◌, refl, List, [], ◌++◌, length, get_or, word}
use shad_os.String.{Bytes}
use shad_os.Terminal.{Call, put_char}
use shad_os.Syscall.{Registers, back, syscall_dispatch}
use shad_os.Syscall.Results.{ring_shown, syscall_dispatch-write}

abbrev memory : Bytes
memory a = a % 256

-- A write of five bytes from 0x41 on, by ring 3.
abbrev writes : Registers
writes = record { eax = 4; ebx = 0x41; ecx = 5; cs = 0x1b; int_no = 128; err_code = 0 }

syscall_dispatch-write_example :
    let r = syscall_dispatch memory 0 writes in
    (r.ending ≡ back (record writes { eax = writes.ecx }))
    × ((before bytes : List Call) × (r.calls ≡ before ++ bytes)
        × (◌≡◌ {A = ℕ} 0 0 → before ≡ ring_shown 0x1b)
        × (◌≢◌ {A = ℕ} 0 0 → before ≡ [])
        × (length bytes ≡ writes.ecx)
        × ((i : ℕ)
            → i < writes.ecx
            → get_or bytes i (put_char 0) ≡ put_char (memory ((writes.ebx + i) % word))))
syscall_dispatch-write_example = syscall_dispatch-write memory 0 writes (put_char 0) refl
