-- ===== src/Ramfs/Lookup.antt =====
-- The search loops of ramfs.c, and the entry of a name.
use shad_os.Base.{
  ℕ, zero, suc, ◌+◌, ◌≤◌, ◌<◌, ◌≡◌, ◌≢◌, ◌↔◌, ◌∙◌, refl, sym, ap, ap₂, inl, inr, Bool, true, false,
  ◌&&◌, ◌⊎◌, none, some, List, [], ◌∷◌, ◌==◌, arith, Bool-cases, Option-cases, eq_of_some,
}
use shad_os.Ramfs.{RamFile, max_files, same, first_index, ramfs_find, ramfs_find_free, store_file}

pub same_iff : (s t : List ℕ) → (same s t ≡ true) ↔ (s ≡ t)
unfolding same
same_iff [] [] = (λ h. refl, λ h. refl)
same_iff [] (d ∷ t) = (λ h. cc, λ h. cc)
same_iff (c ∷ s) [] = (λ h. cc, λ h. cc)
same_iff (c ∷ s) (d ∷ t) =
    let (to, from) = same_iff s t in
    (λ h. ap₂ ◌∷◌ (ground arith) (to (ground arith)), λ h. ground (arith, from (cc)))

pub first_index-some :
    (test : ℕ → Bool) (left i k : ℕ)
    → first_index test left i ≡ some k
    → (i ≤ k) × (k < i + left) × (test k ≡ true) × ((j : ℕ) → i ≤ j → j < k → test j ≡ false)
unfolding first_index
first_index-some test zero i k h = cc
first_index-some test (suc left) i k h = elim (Bool-cases (test i)) [
  | inl hit ↦
      let e : i ≡ k = eq_of_some (rw hit at h) in
      (omega arith, omega arith, rw (← e) hit, λ j p q. absurd (omega arith))
  | inr miss ↦
      let (p, q, r, s) = first_index-some test left (i + 1) k (rw miss at h) in
      (
        omega arith,
        omega arith,
        r,
        λ j u v. elim (Bool-cases (j == i)) [
          | inl same_place ↦ let e : j ≡ i = ground arith in rw e miss
          | inr behind ↦ s j (ground arith) v
        ],
      )
]

pub first_index-none :
    (test : ℕ → Bool) (left i j : ℕ)
    → first_index test left i ≡ none
    → i ≤ j
    → j < i + left
    → test j ≡ false
unfolding first_index
first_index-none test zero i j h p q = absurd (omega arith)
first_index-none test (suc left) i j h p q = elim (Bool-cases (test i)) [
  | inl hit ↦ let bad = rw hit at h in cc
  | inr miss ↦ elim (Bool-cases (j == i)) [
    | inl same_place ↦ let e : j ≡ i = ground arith in rw e miss
    | inr behind ↦ first_index-none test left (i + 1) j (rw miss at h) (ground arith) (omega arith)
  ]
]

-- The loop depends on the test in its range only.
pub first_index-same :
    (f g : ℕ → Bool) (left i : ℕ)
    → ((j : ℕ) → i ≤ j → j < i + left → f j ≡ g j)
    → first_index f left i ≡ first_index g left i
unfolding first_index
first_index-same f g zero i same_test = refl
first_index-same f g (suc left) i same_test =
    rw
      (
        same_test i (omega arith) (omega arith),
        first_index-same f g left (i + 1) (λ j p q. same_test j (omega arith) (omega arith)),
      )
      refl

-- The entry `i` of the table is in use under the name `q`.
pub record Named (files : ℕ → RamFile) (i : ℕ) (q : List ℕ) : Type 0 where
  pub inside : i < max_files
  pub used : (files i).used ≡ true
  pub named : (files i).name ≡ q

Named-test :
    (f : RamFile) (q : List ℕ) → (f.used && same f.name q) ≡ true → (f.used ≡ true) × (f.name ≡ q)
Named-test f q h = (ground arith, (same_iff f.name q).0 (ground arith))

pub ramfs_find-Named :
    (files : ℕ → RamFile) (q : List ℕ) (i : ℕ) → ramfs_find files q ≡ some i → Named files i q
unfolding ramfs_find
ramfs_find-Named files q i h =
    let (p, below, hit, _) = first_index-some _ max_files 0 i h in
    let (used, named) = Named-test (files i) q hit in
    record { inside = omega arith; used = used; named = named }

pub ramfs_find-none :
    (files : ℕ → RamFile) (q : List ℕ) (i : ℕ) → ramfs_find files q ≡ none → Named files i q → ⊥
unfolding ramfs_find
ramfs_find-none files q i h n =
    let miss = first_index-none _ max_files 0 i h (omega arith) (omega (arith, n.inside)) in
    let hit = (same_iff (files i).name q).1 n.named in let used = n.used in cc

-- No name stands twice in the table.
abbrev pub IsUnique : (ℕ → RamFile) → Type 0
IsUnique files = (i j : ℕ) (q : List ℕ) → Named files i q → Named files j q → i ≡ j

pub ramfs_find-at :
    (files : ℕ → RamFile) (q : List ℕ) (i : ℕ)
    → IsUnique files
    → Named files i q
    → ramfs_find files q ≡ some i
ramfs_find-at files q i once n = elim (Option-cases (ramfs_find files q)) [
  | inl missing ↦ absurd (ramfs_find-none files q i missing n)
  | inr (j, found) ↦ found ∙ ap some (once j i q (ramfs_find-Named files q j found) n)
]

not_found :
    (f : RamFile) (q : List ℕ) → (f.used ≡ true → f.name ≢ q) → (f.used && same f.name q) ≡ false
not_found f q other = elim (Bool-cases (f.used && same f.name q)) [
  | inl hit ↦ let (used, named) = Named-test f q hit in absurd (other used named)
  | inr miss ↦ miss
]

-- A change of one entry that neither had the name `q` nor gets it does not change the search for
-- it.
pub ramfs_find-other :
    (files : ℕ → RamFile) (q : List ℕ) (i : ℕ) (f : RamFile)
    → ((files i).used ≡ true → (files i).name ≢ q)
    → (f.used ≡ true → f.name ≢ q)
    → ramfs_find (store_file i f files) q ≡ ramfs_find files q
unfolding ramfs_find store_file
ramfs_find-other files q i f before behind = first_index-same _ _ max_files 0 (λ j _ _.
    elim (Bool-cases (j == i)) [
      | inr other ↦ rw other refl
      | inl hit ↦
          let e : j ≡ i = ground arith in
          rw (hit, e) (not_found f q behind ∙ sym (not_found (files i) q before))
    ])

pub ramfs_find_free-unused :
    (files : ℕ → RamFile) (i : ℕ)
    → ramfs_find_free files ≡ some i
    → (i < max_files) × ((files i).used ≡ false)
unfolding ramfs_find_free
ramfs_find_free-unused files i h =
    let (p, below, hit, _) = first_index-some _ max_files 0 i h in (omega arith, ground arith)

-- What stands at an index after a change at `i`.
pub store_file-cases :
    (i : ℕ) (f : RamFile) (files : ℕ → RamFile) (j : ℕ)
    → ((j ≡ i) × (store_file i f files j ≡ f)) ⊎ ((j ≢ i) × (store_file i f files j ≡ files j))
unfolding store_file
store_file-cases i f files j = elim (Bool-cases (j == i)) [
  | inl hit ↦ inl (ground arith, rw hit refl)
  | inr miss ↦ inr (ground arith, rw miss refl)
]

pub store_file_self : (i : ℕ) (f : RamFile) (files : ℕ → RamFile) → store_file i f files i ≡ f
unfolding store_file
store_file_self i f files = ground arith

pub ramfs_find_free-none :
    (files : ℕ → RamFile)
    → ramfs_find_free files ≡ none
    → (i : ℕ) → i < max_files
    → (files i).used ≡ true
unfolding ramfs_find_free
ramfs_find_free-none files h i inside =
    let hit = first_index-none _ max_files 0 i h (omega arith) (omega arith) in ground arith
