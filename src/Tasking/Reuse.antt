-- ===== src/Tasking/Reuse.antt =====
-- A new task of tasking.c in the block of one that has been freed and stands in the circular list.
use shad_os.Base.{
  ℕ, zero, suc, ◌≡◌, ◌≢◌, ◌⊎◌, ◌∙◌, refl, sym, subst, inl, inr, true, false, some, List, [], ◌∷◌,
  ◌++◌, ◌==◌, arith,
}
use shad_os.Heap.{Heap, kmalloc, null}
use shad_os.Tasking.{Task, Tasking, task_size, task_stack_size, store_task, link_task, task_create}
use shad_os.Tasking.Ring.{Ring}
use shad_os.Tasking.Linked.{Absent}
use shad_os.Tasking.Circle.{Distinct}

abbrev pub Among : ℕ → List ℕ → Type 0
Among x [] = ⊥
Among x (t ∷ ts) = (x ≡ t) ⊎ Among x ts

-- Where a number of links lead from a task.
unfoldable pub follow : (ℕ → Task) → (n a : ℕ) → ℕ
follow m zero a = a
follow m (suc n) a = follow m n (m a).next

-- A task in front of `t` is linked to another such or to `t`.
Ring-head :
    (m : ℕ → Task) (prev a t : ℕ) (before after : List ℕ)
    → Ring m prev a (before ++ t ∷ after)
    → Among (m a).next (t ∷ before)
Ring-head m prev a t [] after ring = inl ring.0
Ring-head m prev a t (b ∷ before) after ring = inr (inl ring.0)

Among-more : (x t b : ℕ) (ts : List ℕ) → Among x (t ∷ ts) → Among x (t ∷ b ∷ ts)
Among-more x t b ts (inl e) = inl e
Among-more x t b ts (inr later) = inr (inr later)

Ring-inner :
    (m : ℕ → Task) (prev a t x : ℕ) (before after : List ℕ)
    → Ring m prev a (before ++ t ∷ after)
    → Among x before
    → Among (m x).next (t ∷ before)
Ring-inner m prev a t x [] after ring here = absurd here
Ring-inner m prev a t x (b ∷ before) after ring (inl e) =
    Among-more (m x).next t b before (
      subst (λ y. Among (m y).next (t ∷ before)) (sym e) (Ring-head m prev b t before after ring.2))
Ring-inner m prev a t x (b ∷ before) after ring (inr here) =
    Among-more (m x).next t b before (Ring-inner m prev b t x before after ring.2 here)

Absent-last : (b t : ℕ) (before after : List ℕ) → Absent b (before ++ t ∷ after) → t ≢ b
Absent-last b t [] after absent = absent.0
Absent-last b t (c ∷ before) after absent = Absent-last b t before after absent.1

Distinct-off :
    (c t x : ℕ) (before after : List ℕ)
    → Distinct (c ∷ before ++ t ∷ after)
    → Among x before
    → (x ≢ c) × (x ≢ t)
Distinct-off c t x [] after d here = absurd here
Distinct-off c t x (b ∷ before) after (off, d) (inl e) =
    (λ same. off.0 (sym e ∙ same), λ same. Absent-last b t before after d.0 (sym same ∙ e))
Distinct-off c t x (b ∷ before) after (off, d) (inr here) =
    Distinct-off c t x before after (off.1, d.1) here

-- From the new task, links lead to it and to the tasks that stood before its block, and to no
-- other.
link_task-closed :
    (trampoline entry t stack : ℕ) (s : Tasking) (before after : List ℕ)
    → Ring s.tasks s.current s.current (before ++ t ∷ after)
    → Distinct (s.current ∷ before ++ t ∷ after)
    → (x : ℕ) → Among x (t ∷ before)
    → Among ((link_task trampoline entry t stack s).tasks x).next (t ∷ before)
unfolding link_task store_task
link_task-closed trampoline entry t stack s before after ring d x (inl e) =
    let hit : (x == t) ≡ true = ground arith in
    let other = Absent-last s.current t before after d.0 in
    let miss : (x == s.current) ≡ false = ground arith in
    let linked : ((link_task trampoline entry t stack s).tasks x).next ≡ (s.tasks s.current).next =
      rw (miss, hit) refl in
    subst (λ y. Among y (t ∷ before)) (sym linked)
      (Ring-head s.tasks s.current s.current t before after ring)
link_task-closed trampoline entry t stack s before after ring d x (inr here) =
    let (off, off') = Distinct-off s.current t x before after d here in
    let miss : (x == t) ≡ false = ground arith in
    let miss' : (x == s.current) ≡ false = ground arith in
    let linked : ((link_task trampoline entry t stack s).tasks x).next ≡ (s.tasks x).next =
      rw (miss', miss) refl in
    subst (λ y. Among y (t ∷ before)) (sym linked)
      (Ring-inner s.tasks s.current s.current t x before after ring here)

link_task-next :
    (trampoline entry t stack : ℕ) (s : Tasking)
    → ((link_task trampoline entry t stack s).tasks s.current).next ≡ t
unfolding link_task store_task
link_task-next trampoline entry t stack s =
    let hit : (s.current == s.current) ≡ true = ground arith in rw hit refl

Among-off :
    (c t x : ℕ) (before after : List ℕ)
    → Distinct (c ∷ before ++ t ∷ after)
    → Among x (t ∷ before)
    → x ≢ c
Among-off c t x before after d (inl e) = λ same. Absent-last c t before after d.0 (sym e ∙ same)
Among-off c t x before after d (inr here) = (Distinct-off c t x before after d here).0

follow-closed :
    (m : ℕ → Task) (ts : List ℕ)
    → ((x : ℕ) → Among x ts → Among (m x).next ts)
    → (n x : ℕ) → Among x ts
    → Among (follow m n x) ts
unfolding follow
follow-closed m ts closed zero x here = here
follow-closed m ts closed (suc n) x here = follow-closed m ts closed n (m x).next (closed x here)

-- Where the tasks of the circular list are distinct, and the two calls of `kmalloc` in
-- `task_create` give the address of one of them, other than the current one, as after its block
-- has been freed, and a stack: `task_create` succeeds and links the current task to the new one,
-- but however many links are followed from there, they lead to the new task and to those that
-- stood before that address, and never back to the current task.
pub task_create-cut :
    (trampoline entry t stack : ℕ) (s : Tasking) (h g : Heap) (before after : List ℕ)
    → Ring s.tasks s.current s.current (before ++ t ∷ after)
    → Distinct (s.current ∷ before ++ t ∷ after)
    → kmalloc task_size s.heap ≡ some (t, h)
    → kmalloc task_stack_size h ≡ some (stack, g)
    → t ≢ null
    → stack ≢ null
    → (u : Tasking) × (task_create trampoline entry s ≡ some (some s.next_pid, u))
      × ((u.tasks s.current).next ≡ t)
      × ((n : ℕ) → Among (follow u.tasks n t) (t ∷ before) × (follow u.tasks n t ≢ s.current))
unfolding task_create
task_create-cut trampoline entry t stack s h g before after ring d first second some_t some_stack =
    let v : Tasking = record s { heap = g } in
    let u : Tasking = link_task trampoline entry t stack v in
    let miss : (t == null) ≡ false = ground arith in
    let miss' : (stack == null) ≡ false = ground arith in
    let inside =
      follow-closed u.tasks (t ∷ before)
        (link_task-closed trampoline entry t stack v before after ring d) in
    (
      u,
      rw (first, miss, second, miss', task_create) refl,
      link_task-next trampoline entry t stack v,
      λ n. (
        inside n t (inl refl),
        Among-off s.current t (follow u.tasks n t) before after d (inside n t (inl refl)),
      ),
    )
