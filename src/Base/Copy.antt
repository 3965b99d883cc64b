-- ===== src/Base/Copy.antt =====
-- Copying between two ranges of memory, byte by byte from the lowest on.
use Prim.Native.Nat.{ℕ, zero, suc, ◌+◌, ◌≤◌, ◌<◌}
use mathlib.Core.Path.{◌≡◌, refl}
use mathlib.Core.Logic.{◌⊎◌, inl, inr}
use mathlib.Core.Bool.{false}
use mathlib.Core.List.{List, [], ◌∷◌}
use native.Mathlib.Omega.{arith}
use shad_os.Base.Tests.{◌==◌, if◌then◌else◌, Bool-cases}

-- `for (i = 0; i < n; i++) dst[i] = src[i]`
unfoldable pub copy_bytes : (n dst src : ℕ) → (ℕ → ℕ) → ℕ → ℕ
copy_bytes zero dst src m = m
copy_bytes (suc n) dst src m =
    let before = copy_bytes n dst src m in λ a. if a == dst + n then before (src + n) else before a

-- Two ranges of memory that do not meet.
abbrev pub Apart : (p n q k : ℕ) → Type 0
Apart p n q k = (p + n ≤ q) ⊎ (q + k ≤ p)

pub copy_bytes-other :
    (n dst src : ℕ) (m : (ℕ → ℕ)) (x : ℕ)
    → (x < dst) ⊎ (dst + n ≤ x)
    → copy_bytes n dst src m x ≡ m x
unfolding copy_bytes
copy_bytes-other zero dst src m x out = refl
copy_bytes-other (suc n) dst src m x out =
    let miss : (x == dst + n) ≡ false = ground arith in
    rw miss (copy_bytes-other n dst src m x (ground arith))

pub copy_bytes-copied :
    (n dst src : ℕ) (m : (ℕ → ℕ)) (i : ℕ)
    → Apart dst n src n
    → i < n
    → copy_bytes n dst src m (dst + i) ≡ m (src + i)
unfolding copy_bytes
copy_bytes-copied zero dst src m i apart small = absurd (omega arith)
copy_bytes-copied (suc n) dst src m i apart small = elim (Bool-cases (dst + i == dst + n)) [
  | inl last ↦
      let e : i ≡ n = ground arith in
      rw (last, e) (copy_bytes-other n dst src m (src + n) (ground arith))
  | inr other ↦ rw other (copy_bytes-copied n dst src m i (ground arith) (ground arith))
]

-- The `n` bytes from `p` on.
abbrev pub read_bytes : (ℕ → ℕ) → (p n : ℕ) → List ℕ
read_bytes m p zero = []
read_bytes m p (suc n) = m p ∷ read_bytes m (p + 1) n

pub read_bytes-same :
    (m g : ℕ → ℕ) (p q n : ℕ)
    → ((i : ℕ) → i < n → g (q + i) ≡ m (p + i))
    → read_bytes g q n ≡ read_bytes m p n
read_bytes-same m g p q zero same = refl
read_bytes-same m g p q (suc n) same = ground (
  arith,
  same 0,
  read_bytes-same m g (p + 1) (q + 1) n (λ i h. ground (arith, same (i + 1) (omega arith))),
)
