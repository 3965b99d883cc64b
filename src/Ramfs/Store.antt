-- ===== src/Ramfs/Store.antt =====
-- The abstract view of ramfs.c, a map from names to bytes, and what it means that the table, the
-- heap and the memory hold it.
use shad_os.Base.{
  ℕ, ◌+◌, ◌≤◌, ◌<◌, ◌≡◌, ◌≢◌, ◌⊎◌, ◌∙◌, refl, sym, ap, inl, inr, true, false, Option, none, some,
  List, arith, Option-cases,
}
use shad_os.Base.Copy.{read_bytes, read_bytes-same, Apart}
use shad_os.Heap.{Heap, heap_size, null}
use shad_os.Heap.Layout.{Block, Live, IsHeap}
use shad_os.Heap.Blocks.{Live-ne-null}
use shad_os.Heap.Client.{Live-zone}
use shad_os.Ramfs.{RamFile, Ramfs, max_files, ramfs_find, ramfs_read, store_file}
use shad_os.Ramfs.Lookup.{Named, IsUnique, store_file-cases, ramfs_find-other, ramfs_find-Named}

-- What a file of this name holds, read through the pointer that `ramfs_read` gives.
unfoldable pub contents : Ramfs → List ℕ → Option (List ℕ)
unfolding ramfs_read
contents s q = elim (ramfs_read q s) [ none ↦ none | some (p, n) ↦ some (read_bytes s.mem p n) ]

pub contents-some :
    (s : Ramfs) (q : List ℕ) (i : ℕ)
    → ramfs_find s.files q ≡ some i
    → contents s q ≡ some (read_bytes s.mem (s.files i).data_at (s.files i).size)
unfolding contents
contents-some s q i found = rw (found, contents, ramfs_read) refl

pub contents-none : (s : Ramfs) (q : List ℕ) → ramfs_find s.files q ≡ none → contents s q ≡ none
unfolding contents
contents-none s q missing = rw (missing, contents, ramfs_read) refl

-- A file without data, or one whose data stand in a block in use that has room for them.
abbrev pub Holds : ℕ → List Block → RamFile → Type 0
Holds base bs f =
    ((f.data_at ≡ null) × (f.size ≡ 0)) ⊎ ((k : ℕ) × Live base bs f.data_at k × (f.size ≤ k))

-- Every entry has its data, if any, in a block of its own; an unused one has none; no name stands
-- twice.
pub record IsStore (s : Ramfs) (bs : List Block) : Type 0 where
  pub heap : IsHeap s.heap bs
  pub held : (i : ℕ) → i < max_files → Holds s.heap.base bs (s.files i)
  pub empty : (i : ℕ) → i < max_files → (s.files i).used ≡ false → (s.files i).data_at ≡ null
  pub own :
      (i j : ℕ)
      → i < max_files
      → j < max_files
      → i ≢ j
      → (s.files i).data_at ≢ null
      → (s.files i).data_at ≢ (s.files j).data_at
  pub unique : IsUnique s.files

-- One entry changed, with the heap and the memory: what has to hold of the new entry `f`, and of
-- what the others have on the new heap.
pub record Replaces (s : Ramfs) (i : ℕ) (f : RamFile) (g : Heap) (r : List Block) : Type 0 where
  pub heap : IsHeap g r
  pub held : Holds g.base r f
  pub others : (j : ℕ) → j < max_files → j ≢ i → Holds g.base r (s.files j)
  pub empty : f.used ≡ false → f.data_at ≡ null
  pub own : (j : ℕ) → j < max_files → j ≢ i → f.data_at ≢ null → f.data_at ≢ (s.files j).data_at
  pub own' :
      (j : ℕ) → j < max_files → j ≢ i → (s.files j).data_at ≢ null → (s.files j).data_at ≢ f.data_at
  pub unique : (j : ℕ) → j ≢ i → f.used ≡ true → Named s.files j f.name → ⊥

pub Named-replaced :
    (i : ℕ) (f : RamFile) (files : ℕ → RamFile) (j : ℕ) (q : List ℕ)
    → Named (store_file i f files) j q
    → ((j ≡ i) × (f.used ≡ true) × (f.name ≡ q)) ⊎ ((j ≢ i) × Named files j q)
Named-replaced i f files j q n = elim (store_file-cases i f files j) [
  | inl (e, is) ↦ inl (e, rw is at n.used, rw is at n.named)
  | inr (e, is) ↦
      inr (e, record { inside = n.inside; used = rw is at n.used; named = rw is at n.named })
]

pub IsStore-store_file :
    (s : Ramfs) (bs : List Block) (i : ℕ) (f : RamFile) (m : ℕ → ℕ) (g : Heap) (r : List Block)
    → IsStore s bs
    → Replaces s i f g r
    → IsStore (record s { files = store_file i f s.files; mem = m; heap = g }) r
IsStore-store_file s bs i f m g r ok new = record {
  heap = new.heap;
  held = λ j inside. elim (store_file-cases i f s.files j) [
    | inl (e, is) ↦ rw is new.held
    | inr (e, is) ↦ rw is (new.others j inside e)
  ];
  empty = λ j inside. elim (store_file-cases i f s.files j) [
    | inl (e, is) ↦ rw is new.empty
    | inr (e, is) ↦ rw is (ok.empty j inside)
  ];
  own = λ j k in_j in_k apart. elim (store_file-cases i f s.files j) [
    | inl (e, is) ↦ elim (store_file-cases i f s.files k) [
      | inl (e', is') ↦ absurd (apart (e ∙ sym e'))
      | inr (e', is') ↦ rw (is, is') (new.own k in_k e')
    ]
    | inr (e, is) ↦ elim (store_file-cases i f s.files k) [
      | inl (e', is') ↦ rw (is, is') (new.own' j in_j e)
      | inr (e', is') ↦ rw (is, is') (ok.own j k in_j in_k apart)
    ]
  ];
  unique = λ j k q n n'. elim (Named-replaced i f s.files j q n) [
    | inl (e, used, named) ↦ elim (Named-replaced i f s.files k q n') [
      | inl (e', _, _) ↦ e ∙ sym e'
      | inr (e', at) ↦ absurd (new.unique k e' used (rw named at))
    ]
    | inr (e, at) ↦ elim (Named-replaced i f s.files k q n') [
      | inl (e', used, named) ↦ absurd (new.unique j e used (rw named at))
      | inr (e', at') ↦ ok.unique j k q at at'
    ]
  ];
}

-- A change of one entry, which neither had the name `q` nor gets it, and of memory in which the
-- data of that name are kept, keeps what `q` holds.
pub contents-other :
    (s : Ramfs) (i : ℕ) (f : RamFile) (m : ℕ → ℕ) (g : Heap) (q : List ℕ)
    → ((s.files i).used ≡ true → (s.files i).name ≢ q)
    → (f.used ≡ true → f.name ≢ q)
    → ((j : ℕ)
        → j ≢ i
        → Named s.files j q
        → read_bytes m (s.files j).data_at (s.files j).size
          ≡ read_bytes s.mem (s.files j).data_at (s.files j).size)
    → contents (record s { files = store_file i f s.files; mem = m; heap = g }) q ≡ contents s q
contents-other s i f m g q before behind kept =
    let t : Ramfs = record s { files = store_file i f s.files; mem = m; heap = g } in
    let same_place = ramfs_find-other s.files q i f before behind in
    elim (Option-cases (ramfs_find s.files q)) [
      | inl missing ↦ contents-none t q (same_place ∙ missing) ∙ sym (contents-none s q missing)
      | inr (j, found) ↦
          let n = ramfs_find-Named s.files q j found in
          elim (store_file-cases i f s.files j) [
            | inl (e, is) ↦ absurd (before (rw e at n.used) (rw e at n.named))
            | inr (e, is) ↦
                contents-some t q j (same_place ∙ found)
                ∙ rw is (ap some (kept j e n))
                ∙ sym (contents-some s q j found)
          ]
    ]

-- A range of memory outside the zone of the heap.
abbrev pub IsOutside : Ramfs → (p n : ℕ) → Type 0
IsOutside s p n = Apart p n s.heap.base heap_size

-- An entry without data has the size 0.
pub no_size :
    {s : Ramfs} {bs : List Block} (ok : IsStore s bs) (i : ℕ)
    → i < max_files
    → (s.files i).data_at ≡ null
    → (s.files i).size ≡ 0
no_size {s} {bs} ok i inside no_data = elim (ok.held i inside) [
  | inl (_, no_bytes) ↦ no_bytes
  | inr (k, live, _) ↦ absurd (Live-ne-null s.heap.base bs (s.files i).data_at k live no_data)
]

-- A memory that differs outside the heap's zone only.
abbrev pub SameZone : Ramfs → (m : ℕ → ℕ) → Type 0
SameZone s m = (x : ℕ) → s.heap.base ≤ x → x < s.heap.base + heap_size → m x ≡ s.mem x

pub IsStore-mem :
    (s : Ramfs) (bs : List Block) (m : ℕ → ℕ) → IsStore s bs → IsStore (record s { mem = m }) bs
IsStore-mem s bs m ok = record {
  heap = ok.heap;
  held = ok.held;
  empty = ok.empty;
  own = ok.own;
  unique = ok.unique;
}

-- What the names hold stands in the zone.
pub contents-mem :
    (s : Ramfs) (bs : List Block) (m : ℕ → ℕ) (q : List ℕ)
    → IsStore s bs
    → SameZone s m
    → contents (record s { mem = m }) q ≡ contents s q
contents-mem s bs m q ok same = elim (Option-cases (ramfs_find s.files q)) [
  | inl missing ↦ contents-none (record s { mem = m }) q missing ∙ sym (contents-none s q missing)
  | inr (i, found) ↦
      let n = ramfs_find-Named s.files q i found in
      let p : ℕ = (s.files i).data_at in
      let kept : read_bytes m p (s.files i).size ≡ read_bytes s.mem p (s.files i).size =
        elim (ok.held i n.inside) [
          | inl (_, no_bytes) ↦ rw no_bytes refl
          | inr (k, live, room) ↦
              let zone = Live-zone s.heap bs p k ok.heap live in
              read_bytes-same s.mem m p p (s.files i).size
                (λ j small. same (p + j) (omega (arith, zone)) (omega (arith, zone)))
        ] in
      contents-some (record s { mem = m }) q i found
      ∙ ap some kept
      ∙ sym (contents-some s q i found)
]
