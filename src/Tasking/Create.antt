-- ===== src/Tasking/Create.antt =====
-- What `task_create` of tasking.c does to the heap and to the circular list.
use shad_os.Base.{
  ℕ, ◌≤◌, ◌≡◌, ◌≢◌, ◌⊎◌, ◌↔◌, ◌∙◌, refl, subst, inl, inr, Option, none, some, List, ◌∷◌, ◌==◌,
  arith, Bool-cases,
}
use shad_os.Heap.{Heap, null}
use shad_os.Heap.Layout.{Block, Live, IsHeap}
use shad_os.Heap.Blocks.{Live-ne-null}
use shad_os.Heap.Client.{Freed, kfree-Freed, Given, kmalloc-Given}
use shad_os.Tasking.{Tasking, task_size, task_stack_size, link_task, task_create}
use shad_os.Tasking.Ring.{Ring}
use shad_os.Tasking.Linked.{AreLive, AreLive-Absent, AreLive-kept, Linked, link_task-Linked}

-- What `task_create` returns and leaves.
pub data Created (trampoline entry : ℕ) (s : Tasking) (bs : List Block) (ts : List ℕ)
    : Option ℕ → Tasking → Type 0 where
  created :
      {u : Tasking} (t stack k : ℕ) (r : List Block)
      → Linked trampoline entry t stack s ts u
      → IsHeap u.heap r
      → u.heap.base ≡ s.heap.base
      → AreLive s.heap.base r (s.current ∷ t ∷ ts)
      → Live s.heap.base r stack k
      → task_stack_size ≤ k
      → ((q j : ℕ) → Live s.heap.base bs q j → Live s.heap.base r q j)
      → ((q j : ℕ) → Live s.heap.base r q j → ((q ≡ t) ⊎ (q ≡ stack)) ⊎ Live s.heap.base bs q j)
      → t ≢ stack
      → ((j : ℕ) → Live s.heap.base bs t j → ⊥)
      → ((j : ℕ) → Live s.heap.base bs stack j → ⊥)
      → Created trampoline entry s bs ts (some s.next_pid) u
  failed :
      (h : Heap) (r : List Block)
      → IsHeap h r
      → h.base ≡ s.heap.base
      → ((q k : ℕ) → Live s.heap.base r q k ↔ Live s.heap.base bs q k)
      → Created trampoline entry s bs ts none (record s { heap = h })

-- A call that gives `NULL` leaves the blocks in use.
Given-null :
    (a n : ℕ) (bs : List Block) (p : ℕ) (r : List Block)
    → Given a n bs p r
    → p ≡ null
    → (q k : ℕ) → Live a r q k ↔ Live a bs q k
Given-null a n bs p r given is_null q k = (
  λ live. elim (given.only q k live) [
    | inl e ↦ absurd (Live-ne-null a r q k live (e ∙ is_null))
    | inr was ↦ was
  ],
  given.kept q k,
)

-- Giving back what a call has just given restores the blocks in use.
Given-Freed :
    (a n : ℕ) (bs : List Block) (p : ℕ) (r r' l : List Block) (g : Heap)
    → Given a n bs p r
    → ((q k : ℕ) → Live a r' q k ↔ Live a r q k)
    → Freed a p r' g l
    → (q k : ℕ) → Live a l q k ↔ Live a bs q k
Given-Freed a n bs p r r' l g given same freed q k = (
  λ live.
      let (was', other) = (freed.left q k).0 live in
      elim (given.only q k ((same q k).0 was')) [ inl e ↦ absurd (other e) | inr was ↦ was ],
  λ was.
      (freed.left q k).1
        ((same q k).1 (given.kept q k was), λ e. given.fresh k (subst (λ x. Live a bs x k) e was)),
)

-- Behind two calls, what is live is one of the two blocks or was live.
only_two :
    (a t p n k : ℕ) (bs r l : List Block)
    → Given a n bs t r
    → Given a k r p l
    → (q j : ℕ) → Live a l q j
    → ((q ≡ t) ⊎ (q ≡ p)) ⊎ Live a bs q j
only_two a t p n k bs r l first second q j live = elim (second.only q j live) [
  | inl e ↦ inl (inr e)
  | inr was ↦ elim (first.only q j was) [ inl e ↦ inl (inl e) | inr before ↦ inr before ]
]

-- On a well-formed heap with a block for each task of the circular list: `task_create` ends, with
-- the heap well formed. Either it returns the next process number, and the new task stands in the
-- list right behind the current one, ready, with a new block for itself and another of at least
-- 8192 bytes for its stack, at whose end the five words stand that `switch_to` pops, and all other
-- tasks are as they were, and no block but these two has come into use or gone; or it returns -1,
-- and exactly the blocks that were in use are, and no task has changed.
pub task_create-Created :
    (trampoline entry : ℕ) (s : Tasking) (bs : List Block) (ts : List ℕ)
    → IsHeap s.heap bs
    → Ring s.tasks s.current s.current ts
    → AreLive s.heap.base bs (s.current ∷ ts)
    → (r : Option ℕ) × (u : Tasking) × (task_create trampoline entry s ≡ some (r, u))
      × Created trampoline entry s bs ts r u
unfolding task_create
task_create-Created trampoline entry s bs ts i ring live =
    let a : ℕ = s.heap.base in
    let (t, h, r1, ends1, is1, at1, given1) =
      kmalloc-Given a task_size s.heap bs (omega arith) (omega arith) refl i in
    elim (Bool-cases (t == null)) [
      | inl none_given ↦ (
        none,
        record s { heap = h },
        rw (ends1, none_given, task_create) refl,
        failed h r1 is1 at1 (Given-null a task_size bs t r1 given1 (ground arith)),
      )
      | inr some_t ↦
          let (k1, live_t, _, _, _) = given1.live (ground arith) in
          let (stack, g, r2, ends2, is2, at2, given2) =
            kmalloc-Given a task_stack_size h r1 (omega arith) (omega arith) at1 is1 in
          elim (Bool-cases (stack == null)) [
            | inl no_stack ↦
                let (f, freed, (l, back)) =
                  kfree-Freed a t k1 g r2 at2 is2 (given2.kept t k1 live_t) in
                let same = Given-null a task_stack_size r1 stack r2 given2 (ground arith) in
                (
                  none,
                  record s { heap = f },
                  rw (ends1, some_t, ends2, no_stack, freed, task_create) refl,
                  failed f l back.heap back.base
                      (Given-Freed a task_size bs t r1 r2 l f given1 same back),
                )
            | inr some_stack ↦
                let (k2, live_stack, wide, _, _) = given2.live (ground arith) in
                let absent = AreLive-Absent a bs t (s.current ∷ ts) given1.fresh live in
                let all_kept =
                  λ (q k : ℕ) (was : Live a bs q k). given2.kept q k (given1.kept q k was) in
                let still = AreLive-kept a bs r2 (s.current ∷ ts) all_kept live in
                let v : Tasking = record s { heap = g } in
                let k = link_task-Linked trampoline entry t stack v ts ring absent.0 absent.1 in
                (
                  some s.next_pid,
                  link_task trampoline entry t stack v,
                  rw (ends1, some_t, ends2, some_stack, task_create) refl,
                  created t stack k2 r2
                      (record {
                        ring = k.ring;
                        current = k.current;
                        task = k.task;
                        frame = k.frame;
                        ready = k.ready;
                        zombie = k.zombie;
                        next_pid = k.next_pid;
                        before = k.before;
                        others = k.others;
                      })
                      is2 at2 (still.0, ((k1, given2.kept t k1 live_t), still.1)) live_stack wide
                      all_kept (only_two a t stack task_size task_stack_size bs r1 r2 given1 given2)
                      (λ e. given2.fresh k1 (subst (λ x. Live a r1 x k1) e live_t)) given1.fresh
                      (λ j was. given2.fresh j (given1.kept stack j was)),
                )
          ]
    ]
