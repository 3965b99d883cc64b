-- ===== src/Switch/Moves.antt =====
-- What one tick of the timer does to the words of the stacks and to the registers.
use mathlib.Core.Option.{some-injective}
use shad_os.Base.{
  ℕ, ◌+◌, ◌-◌, ◌%◌, ◌≤◌, ◌<◌, ◌≡◌, ◌≢◌, ◌∙◌, refl, sym, ap, subst, inl, inr, true, false, not, ◌||◌,
  some, List, ◌∷◌, ◌==◌, leb, length, Bool-cases, arith, word,
}
use shad_os.Base.Copy.{Apart}
use shad_os.Heap.{Heap}
use shad_os.Tasking.{Task, Tasking, Step, stays, tasking_tick, schedule_every_n_ticks, store_task}
use shad_os.Tasking.Ring.{first_alive}
use shad_os.Tasking.Schedule.{Scheduled, alone, turned, schedule-Scheduled}
use shad_os.Switch.{Cpu, Words, save, restore, switch_to, perform}
use shad_os.Switch.Resume.{HasRoom, returned, restore-returned, save-Saved}
use shad_os.Switch.Turns.{Shows}

-- The registers that `switch_to` takes from the five words at `p`.
abbrev pub resumed : (p : ℕ) → Words → Cpu
resumed p m = record {
  edi = m p;
  esi = m ((p + 4) % word);
  ebx = m ((p + 8) % word);
  ebp = m ((p + 12) % word);
  esp = (p + 20) % word;
  eip = m ((p + 16) % word);
}

-- A tick on the registers `c` in the turn of the current task, where `u` is the next.
pub data Moved (c : Cpu) (s : Tasking) (k u : ℕ) : Tasking × Cpu → Type 0 where
  counted :
      (v : Tasking)
      → leb schedule_every_n_ticks (k + 1) ≡ false
      → v.words ≡ s.words
      → ((x : ℕ) → (v.tasks x).esp ≡ (s.tasks x).esp)
      → Moved c s k u (v, c)
  switched :
      (v : Tasking) (e : Cpu)
      → leb schedule_every_n_ticks (k + 1) ≡ true
      → v.words ≡ (save c s.words).1
      → (v.tasks s.current).esp ≡ (save c s.words).0.esp
      → ((x : ℕ) → x ≢ s.current → (v.tasks x).esp ≡ (s.tasks x).esp)
      → e ≡ resumed (s.tasks u).esp (save c s.words).1
      → Moved c s k u (v, e)

Scheduled-Moved :
    (c : Cpu) (s : Tasking) (k u : ℕ) (h : Heap) (r : Step)
    → u ≢ s.current
    → leb schedule_every_n_ticks (k + 1) ≡ true
    → Scheduled (record s { tick_counter = 0 }) h u r
    → Moved c s k u (perform c r)
unfolding perform switch_to store_task restore
Scheduled-Moved c s k u h _ off due (alone same) = absurd (off same)
Scheduled-Moved c s k u h _ off due (turned m _ _ new old links others) =
    let hit : (s.current == s.current) ≡ true = ground arith in
    switched _ _ due refl (rw hit refl)
      (λ x other.
        let miss : (x == s.current) ≡ false = ground arith in
        rw miss (elim (Bool-cases (x == u)) [
          | inl e ↦ let at : x ≡ u = ground arith in rw at (ap (λ (t : Task). t.esp) new)
          | inr far ↦ ap (λ (t : Task). t.esp) (others x (ground arith) other)
        ]))
      refl

pub tick-Moved :
    (fuel : ℕ) (c : Cpu) (s : Tasking) (k t u : ℕ) (us : List ℕ) (r : Step)
    → length (t ∷ u ∷ us) ≤ fuel
    → Shows s (k, t ∷ u ∷ us)
    → tasking_tick fuel s ≡ some r
    → Moved c s k u (perform c r)
unfolding tasking_tick first_alive perform
tick-Moved fuel c s k t u us r rounds (at, i) ends =
    let count : (s.tick_counter + 1) % word ≡ k + 1 = omega (arith, i.early, i.count) in
    let runs : (not s.ready || s.paused) ≡ false = rw (i.ready, i.paused) refl in
    elim (Bool-cases (leb schedule_every_n_ticks (k + 1))) [
      | inl due ↦
          let (h, q, whole, found, turn) =
            schedule-Scheduled fuel (record s { tick_counter = 0 }) i.heap.0 (u ∷ us) i.ready
              i.heap.1 (inl i.zombie) i.ring (omega arith) in
          let path : tasking_tick fuel s ≡ some q = rw (runs, count, due) found in
          subst (λ x. Moved c s k u (perform c x)) (some-injective q r (sym path ∙ ends))
            (Scheduled-Moved c s k u h q i.ring.1 due (rw i.alive.1.0 at turn))
      | inr early ↦
          let path : tasking_tick fuel s ≡ some (stays (record s { tick_counter = k + 1 })) =
            rw (runs, count, early) refl in
          subst (λ x. Moved c s k u (perform c x))
            (some-injective (stays (record s { tick_counter = k + 1 })) r (sym path ∙ ends))
            (counted _ early refl (λ x. refl))
    ]

-- The frame of a task that waits for its turn: its saved stack pointer and the five words there.
abbrev pub Waits : Tasking → (t p : ℕ) → Words → Type 0
Waits s t p m = ((s.tasks t).esp ≡ p) × ((x : ℕ) → p ≤ x → x < p + 20 → s.words x ≡ m x)

-- The pushes at a call of `switch_to` have room and leave the frame at `p` alone.
abbrev pub LeavesFrame : (p : ℕ) → Cpu → Type 0
LeavesFrame p c = HasRoom c × Apart (c.esp - 16) 16 p 20

save-frame :
    (c : Cpu) (m n : Words) (p : ℕ)
    → LeavesFrame p c
    → ((x : ℕ) → p ≤ x → x < p + 20 → m x ≡ n x)
    → (x : ℕ) → p ≤ x
    → x < p + 20
    → (save c m).1 x ≡ n x
save-frame c m n p (room, apart) same x low high =
    (save-Saved c m room).elsewhere x (omega arith) ∙ same x low high

pub Moved-Waits :
    (c : Cpu) (s : Tasking) (k u t p : ℕ) (m : Words) (r : Tasking × Cpu)
    → LeavesFrame p c
    → t ≢ s.current
    → Moved c s k u r
    → Waits s t p m
    → Waits r.0 t p m
Moved-Waits c s k u t p m _ quiet off (counted v _ words esp) (at, frame) =
    (esp t ∙ at, λ x low high. ap (λ (w : Words). w x) words ∙ frame x low high)
Moved-Waits c s k u t p m _ quiet off (switched v e _ words _ esp _) (at, frame) = (
  esp t off ∙ at,
  λ x low high. ap (λ (w : Words). w x) words ∙ save-frame c s.words m p quiet frame x low high,
)

pub resumed-same :
    (p : ℕ) (m n : Words)
    → p + 20 < word
    → ((x : ℕ) → p ≤ x → x < p + 20 → m x ≡ n x)
    → resumed p m ≡ resumed p n
resumed-same p m n small same =
    let a4 : (p + 4) % word ≡ p + 4 = omega arith in
    let a8 : (p + 8) % word ≡ p + 8 = omega arith in
    let a12 : (p + 12) % word ≡ p + 12 = omega arith in
    let a16 : (p + 16) % word ≡ p + 16 = omega arith in
    rw
      (
        a4,
        a8,
        a12,
        a16,
        same p (omega arith) (omega arith),
        same (p + 4) (omega arith) (omega arith),
        same (p + 8) (omega arith) (omega arith),
        same (p + 12) (omega arith) (omega arith),
        same (p + 16) (omega arith) (omega arith),
      )
      refl

-- The turn of a task that waits: its registers are those of its frame.
pub Moved-resumed :
    (c : Cpu) (s : Tasking) (k t p : ℕ) (m : Words) (r : Tasking × Cpu)
    → LeavesFrame p c
    → p + 20 < word
    → leb schedule_every_n_ticks (k + 1) ≡ true
    → Moved c s k t r
    → Waits s t p m
    → r.1 ≡ resumed p m
Moved-resumed c s k t p m _ quiet small due (counted v early _ _) waits = absurd (ground arith)
Moved-resumed c s k t p m _ quiet small due (switched v e _ _ _ _ cpu) (at, frame) =
    cpu
    ∙ ap (λ q. resumed q (save c s.words).1) at
    ∙ resumed-same p (save c s.words).1 m small (save-frame c s.words m p quiet frame)

pub Moved-words :
    (c : Cpu) (s : Tasking) (k u : ℕ) (r : Tasking × Cpu)
    → leb schedule_every_n_ticks (k + 1) ≡ false
    → Moved c s k u r
    → r.0.words ≡ s.words
Moved-words c s k u _ early (counted v _ words _) = words
Moved-words c s k u _ early (switched v e due _ _ _ _) = absurd (ground arith)

-- The frame that the current task leaves behind at its last tick.
pub Moved-leaves :
    (c : Cpu) (s : Tasking) (k u : ℕ) (r : Tasking × Cpu)
    → HasRoom c
    → leb schedule_every_n_ticks (k + 1) ≡ true
    → Moved c s k u r
    → Waits r.0 s.current (c.esp - 16) (save c s.words).1
Moved-leaves c s k u _ room due (counted v early _ _) = absurd (ground arith)
Moved-leaves c s k u _ room due (switched v e _ words esp _ _) =
    (esp ∙ (save-Saved c s.words room).esp, λ x low high. ap (λ (w : Words). w x) words)

pub resumed-returned :
    (c : Cpu) (m : Words) → HasRoom c → resumed (c.esp - 16) (save c m).1 ≡ returned c m
unfolding restore
resumed-returned c m room =
    let saved = save-Saved c m room in
    restore-returned c c m (save c m).1 room
      (saved.edi, saved.esi, saved.ebx, saved.ebp, saved.elsewhere c.esp (omega arith))
