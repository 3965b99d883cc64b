-- ===== src/Commands/Alloc.antt =====
-- `cmd_alloctest` of shell.c on the blocks of the heap.
use shad_os.Base.{
  ℕ, ◌+◌, ◌≤◌, ◌<◌, ◌≡◌, ◌≢◌, ◌⊎◌, ◌↔◌, ◌∙◌, refl, subst, inl, inr, true, false, ◌||◌, some, List,
  [], ◌∷◌, ◌++◌, ◌==◌, arith,
}
use shad_os.Heap.{Heap, Stats, heap_size, null, kmalloc}
use shad_os.Heap.Layout.{Block, Live, IsHeap}
use shad_os.Heap.Client.{Given, kmalloc-Given}
use shad_os.Heap.Totals.{heap_get_stats-blocks}
use shad_os.String.{Bytes}
use shad_os.Terminal.{Call}
use shad_os.Commands.{say}
use shad_os.Commands.Alloctest.{used_and_free, cmd_alloctest}
use shad_os.Commands.Report.{Three, marked, marked-other, report, use_blocks-report}

abbrev pub start : Stats → List Call
start before = say "Avant allocation :\n" ∷ (used_and_free before ++ say " octets\n" ∷ [])

-- What the test leaves, and what it prints.
pub data Tested (h : Heap) (bs : List Block) (m : Bytes) : Bytes → Heap → List Call → Type 0 where
  given_back :
      {m' : Bytes} {g : Heap} (a b c : ℕ) (before during after : Stats) (r : List Block)
      → IsHeap g r
      → g.base ≡ h.base
      → ((q k : ℕ) → Live h.base r q k ↔ Live h.base bs q k)
      → ((x : ℕ) → (x < h.base) ⊎ (h.base + heap_size ≤ x) → m' x ≡ m x)
      → Tested h bs m m' g (start before ++ report a b c during after)
  out_of_memory :
      {g : Heap} (a b c : ℕ) (h1 h2 : Heap) (before : Stats) (r : List Block)
      → kmalloc 32 h ≡ some (a, h1)
      → kmalloc 128 h1 ≡ some (b, h2)
      → kmalloc 40 h2 ≡ some (c, g)
      → (a ≡ null) ⊎ ((b ≡ null) ⊎ (c ≡ null))
      → IsHeap g r
      → g.base ≡ h.base
      → ((q k : ℕ) → Live h.base bs q k → Live h.base r q k)
      → ((p : ℕ)
          → (p ≡ a) ⊎ ((p ≡ b) ⊎ (p ≡ c))
          → p ≢ null
          → ((k : ℕ) × Live h.base r p k) × ((k : ℕ) → Live h.base bs p k → ⊥))
      → Tested h bs m m g (start before ++ say "Echec d'allocation !\n" ∷ [])

null_test :
    (a b c : ℕ)
    → (((a == null || b == null || c == null) ≡ true) × ((a ≡ null) ⊎ ((b ≡ null) ⊎ (c ≡ null))))
      ⊎ (((a == null || b == null || c == null) ≡ false) × (a ≢ null) × (b ≢ null) × (c ≢ null))
null_test a b c = ground arith

-- The three calls one after the other, on a zone that stays at its base.
module _ (h : Heap) (bs r1 r2 r3 : List Block) (a b c : ℕ) (g : Heap) (is : IsHeap g r3)
    (at : g.base ≡ h.base) (ga : Given h.base 32 bs a r1) (gb : Given h.base 128 r1 b r2)
    (gc : Given h.base 40 r2 c r3) where
  all_kept : (q k : ℕ) → Live h.base bs q k → Live h.base r3 q k
  all_kept q k live = gc.kept q k (gb.kept q k (ga.kept q k live))

  Given-Three : a ≢ null → b ≢ null → c ≢ null → Three a b c g r3
  Given-Three some_a some_b some_c =
      let (k, at_a, wide, low, high) = ga.live some_a in
      let (j, at_b, _, _, _) = gb.live some_b in
      let (i, at_c, wide', low', high') = gc.live some_c in
      record {
        heap = is;
        a_live = rw at (k, gc.kept a k (gb.kept a k at_a), wide, low, high);
        b_live = rw at (j, gc.kept b j at_b);
        c_live = rw at (i, at_c, wide', low', high');
        a_b = λ e. gb.fresh k (subst (λ x. Live h.base r1 x k) e at_a);
        a_c = λ e. gc.fresh k (subst (λ x. Live h.base r2 x k) e (gb.kept a k at_a));
        b_c = λ e. gc.fresh j (subst (λ x. Live h.base r2 x j) e at_b);
      }

  -- What is in use and is none of the three was in use before.
  only_before : (q k : ℕ) → Live h.base r3 q k × (q ≢ a) × (q ≢ b) × (q ≢ c) ↔ Live h.base bs q k
  only_before q k = (
    λ (live, not_a, not_b, not_c). elim (gc.only q k live) [
      | inl e ↦ absurd (not_c e)
      | inr was2 ↦ elim (gb.only q k was2) [
        | inl e ↦ absurd (not_b e)
        | inr was1 ↦ elim (ga.only q k was1) [ inl e ↦ absurd (not_a e) | inr was ↦ was ]
      ]
    ],
    λ live. (
      all_kept q k live,
      λ e. ga.fresh k (subst (λ x. Live h.base bs x k) e live),
      λ e. gb.fresh k (subst (λ x. Live h.base r1 x k) e (ga.kept q k live)),
      λ e. gc.fresh k (subst (λ x. Live h.base r2 x k) e (gb.kept q k (ga.kept q k live))),
    ),
  )

  stay :
      (p : ℕ)
      → (p ≡ a) ⊎ ((p ≡ b) ⊎ (p ≡ c))
      → p ≢ null
      → ((k : ℕ) × Live h.base r3 p k) × ((k : ℕ) → Live h.base bs p k → ⊥)
  stay p which some_p = elim which [
    | inl e ↦
        let (k, live, _, _, _) = ga.live (rw e at some_p) in
        rw e ((k, gc.kept a k (gb.kept a k live)), ga.fresh)
    | inr (inl e) ↦
        let (k, live, _, _, _) = gb.live (rw e at some_p) in
        rw e ((k, gc.kept b k live), λ j was. gb.fresh j (ga.kept b j was))
    | inr (inr e) ↦
        let (k, live, _, _, _) = gc.live (rw e at some_p) in
        rw e ((k, live), λ j was. gc.fresh j (gb.kept c j (ga.kept c j was)))
  ]

-- On a well-formed heap `alloctest` ends, with the heap well formed and its zone in its place.
-- Either all three calls of `kmalloc` have succeeded: it prints the letters that it has put into
-- the first block and 81 for the ten squares in the third, exactly the blocks that were live
-- before are live afterwards, and memory outside the zone is as it was. Or one of the calls has
-- returned `NULL`: it says so, memory is as it was, what was live is live still, and so are the
-- blocks that the other calls have given.
pub cmd_alloctest-Tested :
    (m : Bytes) (h : Heap) (bs : List Block)
    → IsHeap h bs
    → (m' : Bytes) × (g : Heap) × (calls : List Call) × (cmd_alloctest m h ≡ some (m', g, calls))
      × Tested h bs m m' g calls
unfolding cmd_alloctest
cmd_alloctest-Tested m h bs i =
    let (before, measured, _, _, _, _, _) = heap_get_stats-blocks i in
    let (a, h1, r1, ends1, is1, at1, ga) =
      kmalloc-Given h.base 32 h bs (omega arith) (omega arith) refl i in
    let (b, h2, r2, ends2, is2, at2, gb) =
      kmalloc-Given h.base 128 h1 r1 (omega arith) (omega arith) at1 is1 in
    let (c, h3, r3, ends3, is3, at3, gc) =
      kmalloc-Given h.base 40 h2 r2 (omega arith) (omega arith) at2 is2 in
    elim (null_test a b c) [
      | inl (failed, which) ↦ (
        m,
        h3,
        _,
        rw (measured, ends1, ends2, ends3, failed) refl,
        out_of_memory a b c h1 h2 before r3 ends1 ends2 ends3 which is3 at3
            (all_kept h bs r1 r2 r3 a b c h3 is3 at3 ga gb gc)
            (stay h bs r1 r2 r3 a b c h3 is3 at3 ga gb gc),
      )
      | inr (fine, some_a, some_b, some_c) ↦
          let three = Given-Three h bs r1 r2 r3 a b c h3 is3 at3 ga gb gc some_a some_b some_c in
          let (g, during, after, used, base, (r, is, left)) =
            use_blocks-report a b c m h3 r3 three in
          (
            marked a b c m h3 r3 three,
            g,
            _,
            rw (measured, ends1, ends2, ends3, fine, used) refl,
            given_back a b c before during after r is (base ∙ at3)
                (λ q k.
                  let (to, from) = only_before h bs r1 r2 r3 a b c h3 is3 at3 ga gb gc q k in
                  let (to', from') = rw at3 at (left q k) in
                  (λ live. to (to' live), λ live. from' (from live)))
                (rw at3 at (marked-other a b c m h3 r3 three)),
          )
    ]
