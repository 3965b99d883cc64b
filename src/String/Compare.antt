-- ===== src/String/Compare.antt =====
-- `strlen`, `strcmp`, `strncmp` and `memset` of string.c against the strings that memory holds.
use shad_os.Base.{
  ℕ, zero, suc, ◌+◌, ◌%◌, ◌<◌, ◌≤◌, ◌≡◌, refl, ◌≢◌, ◌↔◌, false, some, List, [], ◌∷◌, arith, ◌==◌,
  if◌then◌else◌, length, take, word, Bool-cases, inl, inr, ◌⊎◌, ap, ap₂, ◌∙◌, subst,
}
use shad_os.Base.Copy.{read_bytes}
use shad_os.Base.Int.{ℤ, pos, sub_ℕ}
use shad_os.String.{Bytes, strlen_loop, strlen, strcmp_loop, strcmp, strncmp, memset}

-- At `p` memory holds the bytes `s`, none of them 0, and then a 0.
abbrev pub IsString : Bytes → ℕ → List ℕ → Type 0
IsString m p [] = m p ≡ 0
IsString m p (c ∷ s) = (m p ≡ c) × (c ≢ 0) × IsString m (p + 1) s

-- The order of bytes: negative, zero or positive.
unfoldable pub compare_bytes : List ℕ → List ℕ → ℤ
compare_bytes [] [] = pos 0
compare_bytes [] (d ∷ t) = sub_ℕ 0 d
compare_bytes (c ∷ s) [] = sub_ℕ c 0
compare_bytes (c ∷ s) (d ∷ t) = if c == d then compare_bytes s t else sub_ℕ c d

pub IsString-same :
    (m g : Bytes) (p : ℕ) (s : List ℕ)
    → ((x : ℕ) → p ≤ x → x ≤ p + length s → g x ≡ m x)
    → IsString m p s
    → IsString g p s
IsString-same m g p [] same is = same p (omega arith) (omega arith) ∙ is
IsString-same m g p (c ∷ s) same is = (
  same p (omega arith) (omega arith) ∙ is.0,
  is.1,
  IsString-same m g (p + 1) s (λ x low high. same x (omega arith) (omega arith)) is.2,
)

pub read_bytes-string :
    (m : Bytes) (p : ℕ) (s : List ℕ) → IsString m p s → read_bytes m p (length s) ≡ s
read_bytes-string m p [] is = refl
read_bytes-string m p (c ∷ s) is = ap₂ ◌∷◌ is.0 (read_bytes-string m (p + 1) s is.2)

strlen_loop-length :
    (fuel : ℕ) (m : Bytes) (p len : ℕ) (s : List ℕ)
    → IsString m (p + len) s
    → length s < fuel
    → strlen_loop fuel m p len ≡ some (len + length s)
unfolding strlen_loop
strlen_loop-length zero m p len s is enough = absurd (omega arith)
strlen_loop-length (suc fuel) m p len [] is enough = ground arith
strlen_loop-length (suc fuel) m p len (c ∷ s) is enough =
    let more : (m (p + len) == 0) ≡ false = ground arith in
    let next : IsString m (p + (len + 1)) s = subst (λ x. IsString m x s) (omega arith) is.2 in
    rw more (
      strlen_loop-length fuel m p (len + 1) s next (omega arith)
      ∙ ap some {x = len + 1 + length s} (omega arith))

-- `strlen` of a string shorter than the address space ends at the string's 0 and counts the bytes
-- before it.
pub strlen-length :
    (m : Bytes) (p : ℕ) (s : List ℕ)
    → IsString m p s
    → length s < word
    → strlen m p ≡ some (length s)
unfolding strlen
strlen-length m p s is short =
    strlen_loop-length word m p 0 s (subst (λ x. IsString m x s) (omega arith) is) short
    ∙ ap some {x = 0 + length s} (omega arith)

strcmp_loop-compare :
    (fuel : ℕ) (m : Bytes) (p q : ℕ) (s t : List ℕ)
    → IsString m p s
    → IsString m q t
    → length s < fuel
    → strcmp_loop fuel m p q ≡ some (compare_bytes s t)
unfolding strcmp_loop compare_bytes
strcmp_loop-compare zero m p q s t is js enough = absurd (omega arith)
strcmp_loop-compare (suc fuel) m p q [] [] is js enough = ground arith
strcmp_loop-compare (suc fuel) m p q [] (d ∷ t) is js enough = ground arith
strcmp_loop-compare (suc fuel) m p q (c ∷ s) [] is js enough = ground arith
strcmp_loop-compare (suc fuel) m p q (c ∷ s) (d ∷ t) is js enough =
    ground (arith, strcmp_loop-compare fuel m (p + 1) (q + 1) s t is.2 js.2)

compare_bytes-zero :
    (m : Bytes) (p q : ℕ) (s t : List ℕ)
    → IsString m p s
    → IsString m q t
    → (compare_bytes s t ≡ pos 0) ↔ (s ≡ t)
unfolding compare_bytes
compare_bytes-zero m p q [] [] is js = (λ h. refl, λ h. refl)
compare_bytes-zero m p q [] (d ∷ t) is js = (λ h. absurd (ground arith), λ h. cc)
compare_bytes-zero m p q (c ∷ s) [] is js = (λ h. absurd (ground arith), λ h. cc)
compare_bytes-zero m p q (c ∷ s) (d ∷ t) is js =
    let (to, from) = compare_bytes-zero m (p + 1) (q + 1) s t is.2 js.2 in
    elim (Bool-cases (c == d)) [
      | inl same ↦
          let e : c ≡ d = ground arith in rw same (λ h. ap₂ ◌∷◌ e (to h), λ h. from (ground arith))
      | inr differ ↦ rw differ (λ h. absurd (ground arith), λ h. absurd (ground arith))
    ]

-- `strcmp` of two strings, the first shorter than the address space, ends; it gives the difference
-- of the first bytes that differ, which is 0 exactly when the strings are equal.
pub strcmp-compare :
    (m : Bytes) (p q : ℕ) (s t : List ℕ)
    → IsString m p s
    → IsString m q t
    → length s < word
    → (strcmp m p q ≡ some (compare_bytes s t)) × ((compare_bytes s t ≡ pos 0) ↔ (s ≡ t))
unfolding strcmp
strcmp-compare m p q s t is js short =
    (strcmp_loop-compare word m p q s t is js short, compare_bytes-zero m p q s t is js)

-- `strncmp` of two strings gives 0 exactly when their first `n` bytes agree.
pub strncmp-take :
    (n : ℕ) (m : Bytes) (p q : ℕ) (s t : List ℕ)
    → IsString m p s
    → IsString m q t
    → (strncmp m p q n ≡ pos 0) ↔ (take n s ≡ take n t)
unfolding strncmp
strncmp-take zero m p q s t is js = (λ h. refl, λ h. refl)
strncmp-take (suc n) m p q [] [] is js = (λ h. refl, λ h. ground arith)
strncmp-take (suc n) m p q [] (d ∷ t) is js = (λ h. absurd (ground arith), λ h. cc)
strncmp-take (suc n) m p q (c ∷ s) [] is js = (λ h. absurd (ground arith), λ h. cc)
strncmp-take (suc n) m p q (c ∷ s) (d ∷ t) is js =
    let (to, from) = strncmp-take n m (p + 1) (q + 1) s t is.2 js.2 in
    let more : (m p == 0) ≡ false = ground arith in
    elim (Bool-cases (m p == m q)) [
      | inl same ↦
          let e : c ≡ d = ground arith in
          rw (more, same) (λ h. ap₂ ◌∷◌ e (to h), λ h. from (ground arith))
      | inr differ ↦ rw (more, differ) (λ h. absurd (ground arith), λ h. absurd (ground arith))
    ]

-- `memset` sets the `n` bytes from `dst` on to the low byte of `val`, and no other byte.
pub memset-range :
    (m : Bytes) (dst val n x : ℕ)
    → ((dst ≤ x) × (x < dst + n) → memset m dst val n x ≡ val % 256)
      × ((x < dst) ⊎ (dst + n ≤ x) → memset m dst val n x ≡ m x)
unfolding memset
memset-range m dst val zero x = (λ h. absurd (omega arith), λ h. refl)
memset-range m dst val (suc n) x =
    let (inside, outside) = memset-range m dst val n x in
    elim (Bool-cases (x == dst + n)) [
      | inl last ↦ rw last (λ h. refl, λ h. absurd (ground arith))
      | inr other ↦ rw other (λ h. inside (ground arith), λ h. outside (ground arith))
    ]
