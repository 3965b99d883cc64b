-- ===== src/Commands/Alloctest.antt =====
-- The command `alloctest` of shell.c.
use shad_os.Base.{
  ℕ, zero, suc, ◌+◌, ◌*◌, ◌/◌, ◌%◌, ◌||◌, Option, some, List, [], ◌∷◌, ◌++◌, ◌==◌, if◌then◌else◌,
}
use shad_os.Heap.{Heap, Stats, kmalloc, kfree, heap_get_stats, null}
use shad_os.String.{Bytes}
use shad_os.Terminal.{Call, write_string, write_number}
use shad_os.Net.{store_bytes}
use shad_os.Commands.{◌>>=◌, say, say_hex, text_at}

-- The lines of `cmd_alloctest` with the sums of `heap_get_stats`.
abbrev pub used_and_free : Stats → List Call
used_and_free s =
    say "  utilise=" ∷ write_number s.used ∷ say " octets, libre=" ∷ write_number s.free_bytes ∷ []

-- `for (int i = 0; i < 31; i++) a[i] = 'A' + (i % 26); a[31] = '\0';`
unfoldable pub letters : (left i : ℕ) → List ℕ
letters zero i = 0 ∷ []
letters (suc left) i = (b'A' + i % 26) ∷ letters left (i + 1)

-- `for (int i = 0; i < 10; i++) c[i] = i * i;`, an `int` being four bytes from the low one on.
unfoldable pub squares : (left i : ℕ) → List ℕ
squares zero i = []
squares (suc left) i = i * i % 256 ∷ i * i / 256 % 256 ∷ 0 ∷ 0 ∷ squares left (i + 1)

-- An `int` read back.
abbrev pub read_int : Bytes → ℕ → ℕ
read_int m p = m p + 0x100 * m (p + 1) + 0x1_0000 * m (p + 2) + 0x100_0000 * m (p + 3)

-- The part of `cmd_alloctest` behind three allocations that have succeeded: the memory, the heap
-- and the calls. The call of `strcmp`, whose result is not used, only reads.
unfoldable pub use_blocks : (a b c : ℕ) → Bytes → Heap → Option (Bytes × Heap × List Call)
use_blocks a b c m h =
    let m' = store_bytes c (squares 10 0) (store_bytes a (letters 31 0) m) in
    text_at m' a >>= λ shown. heap_get_stats h >>= λ during. kfree a h >>= λ h1.
    kfree b h1 >>= λ h2. kfree c h2 >>= λ h3. heap_get_stats h3 >>= λ after. some (
      m',
      h3,
      say "Allocations : a(32o)="
          ∷ say_hex a
          ∷ say " b(128o)="
          ∷ say_hex b
          ∷ say " c(40o)="
          ∷ say_hex c
          ∷ say "\n"
          ∷ say "Contenu de a  : "
          ∷ write_string shown
          ∷ say "\nContenu de c  : c[9]="
          ∷ write_number (read_int m' (c + 36))
          ∷ say " (attendu 81)\n"
          ∷ say "Apres allocation :\n"
          ∷ (used_and_free during
              ++ say " octets\n"
                ∷ say "Apres liberation (kfree) :\n"
                ∷ (used_and_free after
                    ++ say " octets, blocs libres="
                      ∷ write_number after.free_blocks
                      ∷ say "\n"
                      ∷ [])),
    )

unfoldable pub cmd_alloctest : Bytes → Heap → Option (Bytes × Heap × List Call)
cmd_alloctest m h = heap_get_stats h >>= λ before. kmalloc 32 h >>= λ (a, h1).
    kmalloc 128 h1 >>= λ (b, h2). kmalloc 40 h2 >>= λ (c, h3).
    let start = say "Avant allocation :\n" ∷ (used_and_free before ++ say " octets\n" ∷ []) in
    if a == null || b == null || c == null
    then some (m, h3, start ++ say "Echec d'allocation !\n" ∷ [])
    else (use_blocks a b c m h3 >>= λ (m', g, calls). some (m', g, start ++ calls))
