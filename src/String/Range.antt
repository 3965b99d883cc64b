-- ===== src/String/Range.antt =====
-- Memory that holds a list of bytes from an address on.
use shad_os.Base.{
  ℕ, zero, suc, ◌+◌, ◌≤◌, ◌<◌, ◌≡◌, ◌≢◌, ◌∙◌, refl, ap, ap₂, subst, List, [], ◌∷◌, ◌++◌, length,
  take, get_or, arith, Bool, true, false, ◌==◌, if◌then◌else◌, Bool-cases, inl, inr,
}
use shad_os.Base.Copy.{read_bytes}
use shad_os.String.{Bytes}
use shad_os.String.Compare.{IsString}

-- A memory that holds `xs` from `p` on.
abbrev pub At : Bytes → ℕ → List ℕ → Type 0
At m p [] = Unit {0}
At m p (c ∷ xs) = (m p ≡ c) × At m (p + 1) xs

pub read_bytes-At : (m : Bytes) (p : ℕ) (xs : List ℕ) → At m p xs → read_bytes m p (length xs) ≡ xs
read_bytes-At m p [] held = refl
read_bytes-At m p (c ∷ xs) held = ap₂ ◌∷◌ held.0 (read_bytes-At m (p + 1) xs held.1)

pub At-append :
    (m : Bytes) (p q : ℕ) (xs ys : List ℕ)
    → q ≡ p + length xs
    → At m p xs
    → At m q ys
    → At m p (xs ++ ys)
At-append m p q [] ys e held behind = subst (λ x. At m x ys) (omega arith) behind
At-append m p q (c ∷ xs) ys e held behind =
    (held.0, At-append m (p + 1) q xs ys (omega arith) held.1 behind)

pub At-prefix : (m : Bytes) (p : ℕ) (xs ys : List ℕ) → At m p (xs ++ ys) → At m p xs
At-prefix m p [] ys held = tt
At-prefix m p (c ∷ xs) ys held = (held.0, At-prefix m (p + 1) xs ys held.1)

pub At-same :
    (m g : Bytes) (p : ℕ) (xs : List ℕ)
    → ((x : ℕ) → p ≤ x → x < p + length xs → g x ≡ m x)
    → At m p xs
    → At g p xs
At-same m g p [] same held = tt
At-same m g p (c ∷ xs) same held = (
  same p (omega arith) (omega arith) ∙ held.0,
  At-same m g (p + 1) xs (λ x low high. same x (omega arith) (omega arith)) held.1,
)

pub At-moved :
    (m g : Bytes) (p q : ℕ) (xs : List ℕ)
    → ((i : ℕ) → i < length xs → g (q + i) ≡ m (p + i))
    → At m p xs
    → At g q xs
At-moved m g p q [] same held = tt
At-moved m g p q (c ∷ xs) same held = (
  ground (arith, same 0 (omega arith), held.0),
  At-moved m g (p + 1) (q + 1) xs (λ i h. ground (arith, same (i + 1) (omega arith))) held.1,
)

pub At-get_or :
    (m : Bytes) (p : ℕ) (xs : List ℕ) (i : ℕ)
    → At m p xs
    → i < length xs
    → m (p + i) ≡ get_or xs i 0
At-get_or m p [] i held small = absurd (omega arith)
At-get_or m p (c ∷ xs) zero held small = ap m {x = p + 0} (omega arith) ∙ held.0
At-get_or m p (c ∷ xs) (suc i) held small =
    ap m {x = p + suc i} (omega arith) ∙ At-get_or m (p + 1) xs i held.1 (omega arith)

abbrev pub AllNe : ℕ → List ℕ → Type 0
AllNe d [] = Unit {0}
AllNe d (c ∷ s) = (c ≢ d) × AllNe d s

-- The same as a test.
abbrev pub lacks : ℕ → List ℕ → Bool
lacks d [] = true
lacks d (c ∷ s) = if c == d then false else lacks d s

pub lacks-AllNe : (d : ℕ) (s : List ℕ) → lacks d s ≡ true → AllNe d s
lacks-AllNe d [] h = tt
lacks-AllNe d (c ∷ s) h = elim (Bool-cases (c == d)) [
  | inl hit ↦ absurd (cc (rw hit at h))
  | inr fine ↦ (ground arith, lacks-AllNe d s (rw fine at h))
]

pub AllNe-take : (d n : ℕ) (s : List ℕ) → AllNe d s → AllNe d (take n s)
AllNe-take d zero s h = tt
AllNe-take d (suc n) [] h = tt
AllNe-take d (suc n) (c ∷ s) h = (h.0, AllNe-take d n s h.1)

pub AllNe-append : (d : ℕ) (s t : List ℕ) → AllNe d s → AllNe d t → AllNe d (s ++ t)
AllNe-append d [] t h k = k
AllNe-append d (c ∷ s) t h k = (h.0, AllNe-append d s t h.1 k)

pub At-IsString :
    (m : Bytes) (p : ℕ) (s : List ℕ) → At m p s → AllNe 0 s → m (p + length s) ≡ 0 → IsString m p s
At-IsString m p [] held ne last = ap m {y = p + 0} (omega arith) ∙ last
At-IsString m p (c ∷ s) held ne last =
    (held.0, ne.0, At-IsString m (p + 1) s held.1 ne.1 (ap m (omega arith) ∙ last))
