-- ===== src/Tasking/Reap.antt =====
-- What `schedule` of tasking.c does first: a task that has finished is freed.
use shad_os.Base.{ℕ, ◌≡◌, ◌≢◌, ◌⊎◌, ◌↔◌, ◌∙◌, refl, ap, inl, inr, true, some, List, ◌==◌, arith}
use shad_os.Heap.{Heap, null}
use shad_os.Heap.Layout.{Block, Live, IsHeap}
use shad_os.Heap.Blocks.{Live-ne-null, Live-not_null}
use shad_os.Heap.Client.{kfree-Freed}
use shad_os.Tasking.{Tasking, reap}

-- The finished task, if one waits, and its stack, if it has one, are two blocks in use.
abbrev pub IsReapable : Tasking → List Block → Type 0
IsReapable s bs =
    (s.zombie ≡ null)
    ⊎ ((k : ℕ) × Live s.heap.base bs s.zombie k
        × (((s.tasks s.zombie).stack_base ≡ null)
            ⊎ ((j : ℕ) × Live s.heap.base bs (s.tasks s.zombie).stack_base j
                × (s.zombie ≢ (s.tasks s.zombie).stack_base))))

-- The blocks of the finished task.
abbrev pub IsReaped : Tasking → ℕ → Type 0
IsReaped s q = (s.zombie ≢ null) × ((q ≡ s.zombie) ⊎ (q ≡ (s.tasks s.zombie).stack_base))

-- The heap once exactly these blocks have been freed.
pub record Reaped (s : Tasking) (bs : List Block) (h : Heap) : Type 0 where
  pub blocks : List Block
  pub heap : IsHeap h blocks
  pub base : h.base ≡ s.heap.base
  pub left : (q k : ℕ) → Live s.heap.base blocks q k ↔ Live s.heap.base bs q k × (IsReaped s q → ⊥)

pub reap-Reaped :
    (s : Tasking) (bs : List Block)
    → IsHeap s.heap bs
    → IsReapable s bs
    → (h : Heap) × (reap s ≡ some (record s { zombie = null; heap = h })) × Reaped s bs h
unfolding reap
reap-Reaped s bs i (inl no_zombie) =
    let hit : (s.zombie == null) ≡ true = ground arith in
    (
      s.heap,
      rw hit (ap (λ z. some (record s { zombie = z })) no_zombie),
      record {
        blocks = bs;
        heap = i;
        base = refl;
        left = λ q k. ((λ live. (live, λ was. was.0 no_zombie)), λ both. both.0);
      },
    )
reap-Reaped s bs i (inr (k, live, inl no_stack)) =
    let miss = Live-not_null s.heap.base bs s.zombie k live in
    let hit : ((s.tasks s.zombie).stack_base == null) ≡ true = ground arith in
    let (g, ends, (r, freed)) = kfree-Freed s.heap.base s.zombie k s.heap bs refl i live in
    (
      g,
      rw (miss, hit, ends) refl,
      record {
        blocks = r;
        heap = freed.heap;
        base = freed.base;
        left = λ q j. (
          λ still.
              let (was, other) = (freed.left q j).0 still in
              (
                was,
                λ reaped. elim reaped.1 [
                  | inl e ↦ other e
                  | inr e ↦ Live-ne-null s.heap.base bs q j was (e ∙ no_stack)
                ],
              ),
          λ both.
              (freed.left q j).1
                (both.0, λ e. both.1 (Live-ne-null s.heap.base bs s.zombie k live, inl e)),
        );
      },
    )
reap-Reaped s bs i (inr (k, live, inr (j, stack, apart))) =
    let a : ℕ = s.heap.base in
    let miss = Live-not_null a bs s.zombie k live in
    let miss' = Live-not_null a bs (s.tasks s.zombie).stack_base j stack in
    let (g, ends, (r, freed)) =
      kfree-Freed a (s.tasks s.zombie).stack_base j s.heap bs refl i stack in
    let (f, ends', (r', freed')) =
      kfree-Freed a s.zombie k g r freed.base freed.heap
        ((freed.left s.zombie k).1 (live, apart)) in
    (
      f,
      rw (miss, miss', ends, ends') refl,
      record {
        blocks = r';
        heap = freed'.heap;
        base = freed'.base;
        left = λ q n. (
          λ still.
              let (was', other') = (freed'.left q n).0 still in
              let (was, other) = (freed.left q n).0 was' in
              (was, λ reaped. elim reaped.1 [ inl e ↦ other' e | inr e ↦ other e ]),
          λ both.
              let some_zombie = Live-ne-null a bs s.zombie k live in
              (freed'.left q n).1 (
                (freed.left q n).1 (both.0, λ e. both.1 (some_zombie, inr e)),
                λ e. both.1 (some_zombie, inl e),
              ),
        );
      },
    )
