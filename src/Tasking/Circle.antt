-- ===== src/Tasking/Circle.antt =====
-- The circular list of tasking.c as its tasks take turns.
use shad_os.Base.{ℕ, ◌≡◌, ◌≢◌, ◌∙◌, sym, false, List, [], ◌∷◌, ◌++◌}
use shad_os.Tasking.{Task, is_terminated}
use shad_os.Tasking.Ring.{Ring}
use shad_os.Tasking.Linked.{Absent}

abbrev pub Distinct : List ℕ → Type 0
Distinct [] = Unit {0}
Distinct (t ∷ ts) = Absent t ts × Distinct ts

abbrev pub AreAlive : (ℕ → Task) → List ℕ → Type 0
AreAlive m [] = Unit {0}
AreAlive m (t ∷ ts) = (is_terminated (m t).state ≡ false) × AreAlive m ts

Absent-snoc : (t u : ℕ) (ts : List ℕ) → Absent t ts → u ≢ t → Absent t (ts ++ u ∷ [])
Absent-snoc t u [] absent other = (other, tt)
Absent-snoc t u (v ∷ ts) absent other = (absent.0, Absent-snoc t u ts absent.1 other)

pub Distinct-rotate : (t : ℕ) (ts : List ℕ) → Distinct (t ∷ ts) → Distinct (ts ++ t ∷ [])
Distinct-rotate t [] d = (tt, tt)
Distinct-rotate t (u ∷ ts) (absent, d) =
    (Absent-snoc u t ts d.0 (λ e. absent.0 (sym e)), Distinct-rotate t ts (absent.1, d.1))

pub AreAlive-rotate :
    (m : ℕ → Task) (t : ℕ) (ts : List ℕ) → AreAlive m (t ∷ ts) → AreAlive m (ts ++ t ∷ [])
AreAlive-rotate m t [] a = a
AreAlive-rotate m t (u ∷ ts) (a, b) = (b.0, AreAlive-rotate m t ts (a, b.1))

pub AreAlive-same :
    (m n : ℕ → Task) (ts : List ℕ)
    → ((x : ℕ) → is_terminated (m x).state ≡ false → is_terminated (n x).state ≡ false)
    → AreAlive m ts
    → AreAlive n ts
AreAlive-same m n [] same a = tt
AreAlive-same m n (t ∷ ts) same a = (same t a.0, AreAlive-same m n ts same a.1)

-- The circle from the next task on.
pub Ring-close :
    (m : ℕ → Task) (prev a t : ℕ) (ts : List ℕ)
    → Ring m prev a ts
    → (m prev).next ≡ t
    → Absent t ts
    → prev ≢ t
    → Ring m t a (ts ++ prev ∷ [])
Ring-close m prev a t [] ring e absent other = (ring, other, e)
Ring-close m prev a t (u ∷ us) ring e absent other =
    (ring.0, absent.0, Ring-close m prev u t us ring.2 e absent.1 other)

pub Ring-same :
    (m n : ℕ → Task) (prev a : ℕ) (ts : List ℕ)
    → ((x : ℕ) → (n x).next ≡ (m x).next)
    → Ring m prev a ts
    → Ring n prev a ts
Ring-same m n prev a [] same ring = same a ∙ ring
Ring-same m n prev a (t ∷ ts) same ring =
    (same a ∙ ring.0, ring.1, Ring-same m n prev t ts same ring.2)
