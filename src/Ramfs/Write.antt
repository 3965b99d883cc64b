-- ===== src/Ramfs/Write.antt =====
-- `ramfs_write` of ramfs.c on the map from names to bytes.
use shad_os.Base.{
  ℕ, zero, suc, ◌+◌, ◌-◌, ◌*◌, ◌/◌, ◌≤◌, ◌<◌, ◌≡◌, ◌≢◌, ◌⊎◌, ◌∙◌, refl, sym, ap, inl, inr, Bool,
  true, false, none, some, List, [], ◌∷◌, length, take, leb, arith, word, Bool-cases, Option-cases,
}
use shad_os.Base.Copy.{read_bytes}
use shad_os.Heap.Layout.{Block}
use shad_os.Heap.Blocks.{has_room}
use shad_os.Ramfs.{
  RamFile, Ramfs, max_files, max_name, ramfs_find, ramfs_find_free, store_file, claim, open_file,
  ramfs_write,
}
use shad_os.Ramfs.Lookup.{
  Named, ramfs_find-Named, ramfs_find-none, ramfs_find-at, ramfs_find_free-unused,
  ramfs_find_free-none, store_file_self,
}
use shad_os.Ramfs.Store.{
  contents, contents-some, contents-none, contents-other, IsStore, IsStore-store_file, IsOutside,
  no_size,
}
use shad_os.Ramfs.Fill.{Filled, fill_file-Filled}

take-all : (n : ℕ) (s : List ℕ) → length s ≤ n → take n s ≡ s
take-all zero [] h = refl
take-all (suc n) [] h = refl
take-all zero (c ∷ s) h = absurd (omega arith)
take-all (suc n) (c ∷ s) h = ap (c ∷◌) (take-all n s (omega arith))

abbrev pub IsFull : Ramfs → Type 0
IsFull s = (i : ℕ) → i < max_files → (s.files i).used ≡ true

-- A refused write keeps the heap, memory and what the names hold, but for a new name, which may be
-- left in the table without data.
pub record Kept (name : List ℕ) (s : Ramfs) (bs : List Block) (u : Ramfs) : Type 0 where
  pub store : IsStore u bs
  pub heap : u.heap ≡ s.heap
  pub mem : u.mem ≡ s.mem
  pub ready : u.ready ≡ s.ready
  pub elsewhere : (q : List ℕ) → q ≢ name → contents u q ≡ contents s q
  pub here :
      (contents u name ≡ contents s name) ⊎ ((contents s name ≡ none) × (contents u name ≡ some []))

unchanged : (name : List ℕ) (s : Ramfs) (bs : List Block) → IsStore s bs → Kept name s bs s
unchanged name s bs ok = record {
  store = ok;
  heap = refl;
  mem = refl;
  ready = refl;
  elsewhere = λ q _. refl;
  here = inl refl;
}

-- An entry has been found or made for the name.
record Opened (name : List ℕ) (s : Ramfs) (bs : List Block) (i : ℕ) (t : Ramfs) : Type 0 where
  kept : Kept name s bs t
  named : Named t.files i name

module _ (name : List ℕ) (s : Ramfs) (bs : List Block) (ok : IsStore s bs) where
  claimed-Opened :
      (i : ℕ)
      → length name < max_name
      → ramfs_find s.files name ≡ none
      → i < max_files
      → (s.files i).used ≡ false
      → Opened name s bs i (record s { files = store_file i (claim (s.files i) name) s.files })
  claimed-Opened i short missing inside unused =
      let f : RamFile = claim (s.files i) name in
      let t : Ramfs = record s { files = store_file i f s.files } in
      let whole : take 31 name ≡ name = take-all 31 name (omega arith) in
      let no_data = ok.empty i inside unused in
      let at : store_file i f s.files i ≡ f = store_file_self i f s.files in
      let not_used : (s.files i).used ≡ true → ⊥ = λ h. cc in
      let t_ok : IsStore t bs = IsStore-store_file s bs i f s.mem s.heap bs ok (record {
        heap = ok.heap;
        held = ok.held i inside;
        others = λ j in_j _. ok.held j in_j;
        empty = λ h. cc;
        own = λ j in_j e some_data. absurd (some_data no_data);
        own' = λ j in_j e. ok.own j i in_j inside e;
        unique = λ j e _ n. ramfs_find-none s.files name j missing (rw whole at n);
      }) in
      let named : Named t.files i name = record {
        inside = inside;
        used = rw at refl;
        named = rw at whole;
      } in
      record {
        named = named;
        kept = record {
          store = t_ok;
          heap = refl;
          mem = refl;
          ready = refl;
          elsewhere = λ q other.
              contents-other s i f s.mem s.heap q (λ h. absurd (not_used h))
                (λ _ e. other (sym e ∙ whole)) (λ j _ _. refl);
          here = inr (
            contents-none s name missing,
            contents-some t name i (ramfs_find-at t.files name i t_ok.unique named)
                ∙ rw (at, no_size ok i inside no_data) refl,
          );
        };
      }

  open_file-Opened :
      length name < max_name
      → (open_file name s ≡ none) × (ramfs_find s.files name ≡ none) × IsFull s
        ⊎ ((i : ℕ) × (t : Ramfs) × (open_file name s ≡ some (i, t)) × Opened name s bs i t)
  unfolding open_file
  open_file-Opened short = elim (Option-cases (ramfs_find s.files name)) [
    | inr (i, found) ↦ inr (
      i,
      s,
      rw (found, open_file) refl,
      record { kept = unchanged name s bs ok; named = ramfs_find-Named s.files name i found },
    )
    | inl missing ↦ elim (Option-cases (ramfs_find_free s.files)) [
      | inl full ↦
          inl (rw (missing, full, open_file) refl, missing, ramfs_find_free-none s.files full)
      | inr (i, free) ↦
          let (inside, unused) = ramfs_find_free-unused s.files i free in
          inr
            (i, _, rw (missing, free, open_file) refl, claimed-Opened i short missing inside unused)
    ]
  ]

-- Why `ramfs_write` refuses: a long name, no entry left for a new one, or no room on the heap.
pub data Refusal (name : List ℕ) (n : ℕ) (s : Ramfs) (bs : List Block) : Type 0 where
  long_name : max_name ≤ length name → Refusal name n s bs
  full_table : ramfs_find s.files name ≡ none → IsFull s → Refusal name n s bs
  full_heap : has_room ((n + 7) / 8 * 8) bs ≡ false → Refusal name n s bs

pub data Written (name bytes : List ℕ) (n : ℕ) (s : Ramfs) (bs : List Block)
    : Bool → Ramfs → Type 0 where
  done : {u : Ramfs} → Filled s name bytes u → Written name bytes n s bs true u
  refused : {u : Ramfs} → Refusal name n s bs → Kept name s bs u → Written name bytes n s bs false u

Filled-Kept :
    {name bytes : List ℕ} {s t u : Ramfs} {bs : List Block}
    → Kept name s bs t
    → Filled t name bytes u
    → Filled s name bytes u
Filled-Kept o w = record {
  store = w.store;
  here = w.here;
  elsewhere = λ q other. w.elsewhere q other ∙ o.elsewhere q other;
  outside = λ x off. rw o.mem at (w.outside x (rw o.heap off));
  base = rw o.heap at w.base;
  ready = w.ready ∙ o.ready;
}

-- On a table in order, ready, with the source of `n` bytes outside the heap's zone and `n` up to
-- 2^32 - 8: `ramfs_write` ends. Either it succeeds, and the name then holds those bytes, every
-- other name what it held, and memory outside the zone is as it was; or it refuses for one of
-- three reasons, and then changes nothing, but that a new name may be left in the table without
-- data.
pub ramfs_write-Written :
    (name : List ℕ) (src n : ℕ) (s : Ramfs) (bs : List Block)
    → s.ready ≡ true
    → IsStore s bs
    → IsOutside s src n
    → n ≤ word - 8
    → (r : Bool) × (u : Ramfs) × (ramfs_write name src n s ≡ some (r, u))
      × Written name (read_bytes s.mem src n) n s bs r u
unfolding ramfs_write
ramfs_write-Written name src n s bs ready ok outside small =
    elim (Bool-cases (leb max_name (length name))) [
      | inl long ↦ (
        false,
        s,
        rw (long, ready) refl,
        refused (long_name (ground arith)) (unchanged name s bs ok),
      )
      | inr short ↦ elim (open_file-Opened name s bs ok (ground arith)) [
        | inl (none_left, missing, full) ↦ (
          false,
          s,
          rw (none_left, short, ready) refl,
          refused (full_table missing full) (unchanged name s bs ok),
        )
        | inr (i, t, opened, o) ↦
            elim (fill_file-Filled t bs o.kept.store name i o.named src n (rw o.kept.heap outside)
              small) [
                | inl (u, filled, w) ↦ (
                  true,
                  u,
                  rw (opened, filled, short, ready) refl,
                  done (rw o.kept.mem at (Filled-Kept o.kept w)),
                )
                | inr (stuck, no_room) ↦ (
                  false,
                  t,
                  rw (opened, stuck, short, ready) refl,
                  refused (full_heap no_room) o.kept,
                )
              ]
      ]
    ]
