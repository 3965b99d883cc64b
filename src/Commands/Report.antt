-- ===== src/Commands/Report.antt =====
-- The part of `cmd_alloctest` behind three allocations that have succeeded.
use shad_os.Base.{
  ℕ, ◌+◌, ◌≤◌, ◌<◌, ◌≡◌, ◌≢◌, ◌⊎◌, ◌↔◌, ◌∙◌, refl, sym, ap, inl, inr, some, List, [], ◌∷◌, ◌++◌,
  arith,
}
use shad_os.Base.Text.{codes}
use shad_os.Heap.{Heap, Stats, heap_size}
use shad_os.Heap.Layout.{Block, Live, IsHeap}
use shad_os.Heap.Blocks.{Live-apart}
use shad_os.Heap.Client.{kfree-Freed}
use shad_os.Heap.Totals.{heap_get_stats-blocks}
use shad_os.String.{Bytes}
use shad_os.String.Range.{At, At-same, At-prefix, At-get_or, At-IsString, lacks-AllNe}
use shad_os.Terminal.{Call, write_string, write_number}
use shad_os.Net.{store_bytes}
use shad_os.Net.Frame.{store_bytes-other, store_bytes-At}
use shad_os.Commands.Strings.{text_at-string}
use shad_os.Commands.{say, say_hex, text_at}
use shad_os.Commands.Alloctest.{used_and_free, letters, squares, read_int, use_blocks}

-- The text that the first block shows.
abbrev pub alphabet : List ℕ
alphabet = codes "ABCDEFGHIJKLMNOPQRSTUVWXYZABCDE"

-- Three blocks in use of one heap, each apart from the other two.
pub record Three (a b c : ℕ) (h : Heap) (bs : List Block) : Type 0 where
  pub heap : IsHeap h bs
  pub a_live : (k : ℕ) × Live h.base bs a k × (32 ≤ k) × (h.base ≤ a) × (a + k ≤ h.base + heap_size)
  pub b_live : (k : ℕ) × Live h.base bs b k
  pub c_live : (k : ℕ) × Live h.base bs c k × (40 ≤ k) × (h.base ≤ c) × (c + k ≤ h.base + heap_size)
  pub a_b : a ≢ b
  pub a_c : a ≢ c
  pub b_c : b ≢ c

-- The blocks hold what the test writes to them.
module _ (a b c : ℕ) (m : Bytes) (h : Heap) (bs : List Block) (t : Three a b c h bs) where
  abbrev pub marked : Bytes
  marked = store_bytes c (squares 10 0) (store_bytes a (letters 31 0) m)

  apart : (a + 32 ≤ c) ⊎ (c + 40 ≤ a)
  apart =
      let (k, at_a, wide, _, _) = t.a_live in
      let (j, at_c, wide', _, _) = t.c_live in
      elim (Live-apart h.base bs a k c j at_a at_c) [
        | inl both ↦ absurd (t.a_c both.0)
        | inr off ↦ omega arith
      ]

  a_At : At marked a (letters 31 0)
  unfolding letters squares
  a_At =
      At-same (store_bytes a (letters 31 0) m) marked a (letters 31 0)
        (λ x low high.
          store_bytes-other c (squares 10 0) (store_bytes a (letters 31 0) m) x
            (omega (arith, apart)))
        (store_bytes-At a (letters 31 0) m)

  a_text : text_at marked a ≡ some alphabet
  unfolding letters
  a_text =
      let held : At marked a (alphabet ++ 0 ∷ []) = a_At in
      text_at-string marked a alphabet
        (At-IsString marked a alphabet (At-prefix marked a alphabet (0 ∷ []) held)
          (lacks-AllNe 0 alphabet refl)
          (At-get_or marked a (alphabet ++ 0 ∷ []) 31 held (omega arith)))
        (omega arith)

  c_int : read_int marked (c + 36) ≡ 81
  unfolding squares
  c_int =
      let held : At marked c (squares 10 0) =
        store_bytes-At c (squares 10 0) (store_bytes a (letters 31 0) m) in
      let byte = λ (i : ℕ) (small : i < 40). At-get_or marked c (squares 10 0) i held small in
      let b0 : marked (c + 36) ≡ 81 = byte 36 (omega arith) in
      let b1 : marked (c + 36 + 1) ≡ 0 =
        ap marked {y = c + 37} (omega arith) ∙ byte 37 (omega arith) in
      let b2 : marked (c + 36 + 2) ≡ 0 =
        ap marked {y = c + 38} (omega arith) ∙ byte 38 (omega arith) in
      let b3 : marked (c + 36 + 3) ≡ 0 =
        ap marked {y = c + 39} (omega arith) ∙ byte 39 (omega arith) in
      rw (b0, b1, b2, b3) refl

  pub marked-other : (x : ℕ) → (x < h.base) ⊎ (h.base + heap_size ≤ x) → marked x ≡ m x
  unfolding letters squares
  marked-other x out =
      let (k, at_a, wide, low, high) = t.a_live in
      let (j, at_c, wide', low', high') = t.c_live in
      store_bytes-other c (squares 10 0) (store_bytes a (letters 31 0) m) x (omega arith)
      ∙ store_bytes-other a (letters 31 0) m x (omega arith)

-- What the test shows once three blocks are given.
abbrev pub report : (a b c : ℕ) → (during after : Stats) → List Call
report a b c during after =
    say "Allocations : a(32o)="
    ∷ say_hex a
    ∷ say " b(128o)="
    ∷ say_hex b
    ∷ say " c(40o)="
    ∷ say_hex c
    ∷ say "\n"
    ∷ say "Contenu de a  : "
    ∷ write_string alphabet
    ∷ say "\nContenu de c  : c[9]="
    ∷ write_number 81
    ∷ say " (attendu 81)\n"
    ∷ say "Apres allocation :\n"
    ∷ (used_and_free during
        ++ say " octets\n"
          ∷ say "Apres liberation (kfree) :\n"
          ∷ (used_and_free after
              ++ say " octets, blocs libres=" ∷ write_number after.free_blocks ∷ say "\n" ∷ []))

pub use_blocks-report :
    (a b c : ℕ) (m : Bytes) (h : Heap) (bs : List Block)
    → (t : Three a b c h bs)
    → (g : Heap) × (during : Stats) × (after : Stats) × (use_blocks a b c m h
        ≡ some (marked a b c m h bs t, g, report a b c during after))
      × (g.base ≡ h.base)
      × ((r : List Block) × IsHeap g r
          × ((q k : ℕ) → Live h.base r q k ↔ Live h.base bs q k × (q ≢ a) × (q ≢ b) × (q ≢ c)))
unfolding use_blocks
use_blocks-report a b c m h bs t =
    let (k, at_a, _, _, _) = t.a_live in
    let (j, at_b) = t.b_live in
    let (i, at_c, _, _, _) = t.c_live in
    let (during, measured, _, _, _, _, _) = heap_get_stats-blocks t.heap in
    let (h1, free_a, (r1, f1)) = kfree-Freed h.base a k h bs refl t.heap at_a in
    let (h2, free_b, (r2, f2)) =
      kfree-Freed h.base b j h1 r1 f1.base f1.heap ((f1.left b j).1 (at_b, λ e. t.a_b (sym e))) in
    let (h3, free_c, (r3, f3)) =
      kfree-Freed h.base c i h2 r2 f2.base f2.heap
        ((f2.left c i).1 ((f1.left c i).1 (at_c, λ e. t.a_c (sym e)), λ e. t.b_c (sym e))) in
    let (after, measured', _, _, _, _, _) = heap_get_stats-blocks f3.heap in
    (
      h3,
      during,
      after,
      rw (a_text a b c m h bs t, measured, free_a, free_b, free_c, measured', c_int a b c m h bs t)
          refl,
      f3.base,
      (
        r3,
        f3.heap,
        λ q n. (
          λ live.
              let both3 = (f3.left q n).0 live in
              let both2 = (f2.left q n).0 both3.0 in
              let both1 = (f1.left q n).0 both2.0 in (both1.0, both1.1, both2.1, both3.1),
          λ all. (f3.left q n).1 ((f2.left q n).1 ((f1.left q n).1 (all.0, all.1), all.2), all.3),
        ),
      ),
    )
