-- ===== src/Ramfs/Delete.antt =====
-- `ramfs_init` and `ramfs_delete` of ramfs.c on the map from names to bytes.
use shad_os.Base.{
  ℕ, ◌<◌, ◌≡◌, ◌≢◌, ◌⊎◌, ◌∙◌, refl, sym, inl, inr, true, false, none, some, List, leb, arith,
  Option-cases,
}
use shad_os.Heap.{Heap, null}
use shad_os.Heap.Layout.{Block, Live, IsHeap}
use shad_os.Heap.Blocks.{Live-ne-null}
use shad_os.Heap.Client.{Freed}
use shad_os.Ramfs.{
  RamFile, Ramfs, max_files, blank, store_file, ramfs_find, ramfs_init, ramfs_delete,
}
use shad_os.Ramfs.Lookup.{Named, ramfs_find-Named}
use shad_os.Ramfs.Store.{
  contents, contents-some, contents-none, contents-other, Named-replaced, Holds, IsStore,
  IsStore-store_file,
}
use shad_os.Ramfs.Buffer.{free_buffer-Freed}

no_name-init : (s : Ramfs) (i : ℕ) (q : List ℕ) → Named (ramfs_init s).files i q → ⊥
unfolding ramfs_init
no_name-init s i q n =
    let inside = n.inside in
    let used = n.used in
    let small : leb max_files i ≡ false = ground arith in let gone = rw small at used in cc

-- On a well-formed heap `ramfs_init` leaves an empty table in order, which is ready: no name holds
-- anything.
pub ramfs_init-IsStore :
    (s : Ramfs) (bs : List Block)
    → IsHeap s.heap bs
    → IsStore (ramfs_init s) bs
      × ((ramfs_init s).ready ≡ true)
      × ((q : List ℕ) → contents (ramfs_init s) q ≡ none)
unfolding ramfs_init
ramfs_init-IsStore s bs i = (
  record {
    heap = i;
    held = λ j inside. inl (ground arith, ground arith);
    empty = λ j inside unused. ground arith;
    own = λ j k in_j in_k _ some_data. absurd (some_data (ground arith));
    unique = λ j k q n n'. absurd (no_name-init s j q n);
  },
  refl,
  λ q. elim (Option-cases (ramfs_find (ramfs_init s).files q)) [
    | inl missing ↦ contents-none (ramfs_init s) q missing
    | inr (j, found) ↦ absurd (no_name-init s j q (ramfs_find-Named (ramfs_init s).files q j found))
  ],
)

-- The name holds nothing, and all else is as it was.
pub record Deleted (name : List ℕ) (s u : Ramfs) : Type 0 where
  pub store : (r : List Block) × IsStore u r
  pub here : contents u name ≡ none
  pub elsewhere : (q : List ℕ) → q ≢ name → contents u q ≡ contents s q
  pub mem : u.mem ≡ s.mem
  pub base : u.heap.base ≡ s.heap.base
  pub ready : u.ready ≡ s.ready

module _ (s : Ramfs) (bs : List Block) (ok : IsStore s bs) (name : List ℕ) (i : ℕ)
    (named : Named s.files i name) (g : Heap) (r : List Block)
    (old : Freed s.heap.base (s.files i).data_at bs g r) where
  abbrev f : RamFile
  f = blank (s.files i)

  abbrev u : Ramfs
  u = record s { files = store_file i f s.files; heap = g }

  others_held : (j : ℕ) → j < max_files → j ≢ i → Holds s.heap.base r (s.files j)
  others_held j inside other = elim (ok.held j inside) [
    | inl no_data ↦ inl no_data
    | inr (k, live, room) ↦ inr (
      k,
      (old.left (s.files j).data_at k).1 (
        live,
        ok.own j i inside named.inside other
            (Live-ne-null s.heap.base bs (s.files j).data_at k live),
      ),
      room,
    )
  ]

  deleted-IsStore : IsStore u r
  deleted-IsStore = IsStore-store_file s bs i f s.mem g r ok (record {
    heap = old.heap;
    held = inl (refl, refl);
    others = rw old.base others_held;
    empty = λ _. refl;
    own = λ j inside _ some_data. absurd (some_data refl);
    own' = λ j inside _ some_data. some_data;
    unique = λ j _ used _. absurd (cc used);
  })

  gone : ramfs_find u.files name ≡ none
  gone = elim (Option-cases (ramfs_find u.files name)) [
    | inl missing ↦ missing
    | inr (j, found) ↦
        let n = ramfs_find-Named u.files name j found in
        elim (Named-replaced i f s.files j name n) [
          | inl (_, used, _) ↦ absurd (cc used)
          | inr (other, at) ↦ absurd (other (ok.unique j i name at named))
        ]
  ]

  blanked-Deleted : Deleted name s u
  blanked-Deleted = record {
    store = (r, deleted-IsStore);
    here = contents-none u name gone;
    elsewhere = λ q other.
        contents-other s i f s.mem g q (λ _ e. other (sym e ∙ named.named)) (λ h. absurd (cc h))
          (λ _ _ _. refl);
    mem = refl;
    base = old.base;
    ready = refl;
  }

-- On a table in order `ramfs_delete` ends. If the name holds anything it succeeds, and then the
-- name holds nothing and every other name what it held; else it fails and changes nothing.
pub ramfs_delete-Deleted :
    (name : List ℕ) (s : Ramfs) (bs : List Block)
    → IsStore s bs
    → ((u : Ramfs) × (ramfs_delete name s ≡ some (true, u))
        × (contents s name ≢ none)
        × Deleted name s u)
      ⊎ (ramfs_delete name s ≡ some (false, s)) × (contents s name ≡ none)
unfolding ramfs_delete
ramfs_delete-Deleted name s bs ok = elim (Option-cases (ramfs_find s.files name)) [
  | inl missing ↦ inr (rw (missing, ramfs_delete) refl, contents-none s name missing)
  | inr (i, found) ↦
      let named = ramfs_find-Named s.files name i found in
      let old_data : ((s.files i).data_at ≡ null)
          ⊎ ((k : ℕ) × Live s.heap.base bs (s.files i).data_at k) =
        elim (ok.held i named.inside) [
          | inl (is_null, _) ↦ inl is_null
          | inr (k, live, _) ↦ inr (k, live)
        ] in
      let (g, ends, (r, old)) =
        free_buffer-Freed s.heap.base (s.files i).data_at s.heap bs refl ok.heap old_data in
      inl (
        _,
        rw (found, ends, ramfs_delete) refl,
        λ e. cc (contents-some s name i found, e),
        blanked-Deleted s bs ok name i named g r old,
      )
]
