-- ===== src/Ramfs/Fill.antt =====
-- The second half of `ramfs_write` of ramfs.c: the new data of an entry.
use shad_os.Base.{
  ℕ, ◌+◌, ◌-◌, ◌*◌, ◌/◌, ◌≤◌, ◌<◌, ◌≡◌, ◌≢◌, ◌⊎◌, ◌∙◌, refl, sym, ap, inl, inr, true, false, some,
  List, arith, word,
}
use shad_os.Base.Copy.{Apart, read_bytes, read_bytes-same, copy_bytes-other, copy_bytes-copied}
use shad_os.Heap.{Heap, null}
use shad_os.Heap.Layout.{Block, Live}
use shad_os.Heap.Blocks.{has_room, Live-ne-null}
use shad_os.Heap.Client.{Freed}
use shad_os.Ramfs.{RamFile, Ramfs, max_files, store_file, memcpy_ramfs, fill_file}
use shad_os.Ramfs.Lookup.{Named, ramfs_find-at, store_file_self}
use shad_os.Ramfs.Store.{
  contents, contents-some, contents-other, Holds, IsStore, IsStore-store_file, IsOutside,
}
use shad_os.Ramfs.Buffer.{Buffered, new_buffer-Buffered, free_buffer-Freed}

-- The data of the name `name` are `data`; what other names hold, memory outside the heap's zone and
-- the zone are as they were.
pub record Filled (s : Ramfs) (name bytes : List ℕ) (u : Ramfs) : Type 0 where
  pub store : (r : List Block) × IsStore u r
  pub here : contents u name ≡ some bytes
  pub elsewhere : (q : List ℕ) → q ≢ name → contents u q ≡ contents s q
  pub outside : (x : ℕ) → IsOutside s x 1 → u.mem x ≡ s.mem x
  pub base : u.heap.base ≡ s.heap.base
  pub ready : u.ready ≡ s.ready

module _ (s : Ramfs) (bs : List Block) (ok : IsStore s bs) (name : List ℕ) (i : ℕ)
    (named : Named s.files i name) (src n : ℕ) (outside : IsOutside s src n) where
  -- With a new buffer `p` on the heap `h`, and the old data given back, which leaves `g`.
  module _ (p : ℕ) (h : Heap) (r : List Block) (new : Buffered n s.heap bs p h r) (g : Heap)
      (l : List Block) (old : Freed s.heap.base (s.files i).data_at r g l) where
    abbrev f : RamFile
    f = record (s.files i) { data_at = p; size = n }

    abbrev m : ℕ → ℕ
    m = memcpy_ramfs p src n s.mem

    abbrev u : Ramfs
    u = record s { files = store_file i f s.files; mem = m; heap = g }

    -- What was live and is not the old data of the entry is live still.
    stays-Live :
        (q k : ℕ) → Live s.heap.base bs q k → q ≢ (s.files i).data_at → Live s.heap.base l q k
    stays-Live q k live other = (old.left q k).1 (new.kept q k live, other)

    old-ne-new : (k : ℕ) → Live s.heap.base r p k → p ≢ (s.files i).data_at
    old-ne-new k live e = elim (ok.held i named.inside) [
      | inl (is_null, _) ↦ Live-ne-null s.heap.base r p k live (e ∙ is_null)
      | inr (j, was_live, _) ↦ new.other (s.files i).data_at j was_live (sym e)
    ]

    new_held : Holds s.heap.base l f
    new_held = elim new.given [
      | inl none_asked ↦ inl none_asked
      | inr (k, live, room) ↦ inr (k, (old.left p k).1 (live, old-ne-new k live), room)
    ]

    others_held : (j : ℕ) → j < max_files → j ≢ i → Holds s.heap.base l (s.files j)
    others_held j inside other = elim (ok.held j inside) [
      | inl no_data ↦ inl no_data
      | inr (k, live, room) ↦ inr (
        k,
        stays-Live (s.files j).data_at k live (
            ok.own j i inside named.inside other
              (Live-ne-null s.heap.base bs (s.files j).data_at k live)),
        room,
      )
    ]

    new-ne : (j : ℕ) → j < max_files → (s.files j).data_at ≢ null → (s.files j).data_at ≢ p
    new-ne j inside some_data = elim (ok.held j inside) [
      | inl (is_null, _) ↦ absurd (some_data is_null)
      | inr (k, live, _) ↦ new.other (s.files j).data_at k live
    ]

    new-ne' : (j : ℕ) → j < max_files → p ≢ null → p ≢ (s.files j).data_at
    new-ne' j inside some_new = elim (ok.held j inside) [
      | inl (is_null, _) ↦ λ e. some_new (e ∙ is_null)
      | inr (k, live, _) ↦ λ e. new.other (s.files j).data_at k live (sym e)
    ]

    filled-IsStore : IsStore u l
    filled-IsStore = IsStore-store_file s bs i f m g l ok (record {
      heap = old.heap;
      held = rw old.base new_held;
      others = rw old.base others_held;
      empty = λ unused. absurd (cc (named.used, unused));
      own = λ j inside _ some_new. new-ne' j inside some_new;
      own' = λ j inside _ some_data. new-ne j inside some_data;
      unique = λ j other _ n'. other (ok.unique j i name (rw named.named at n') named);
    })

    source-Apart : Apart p n src n
    source-Apart = elim new.zone [ inl no_bytes ↦ omega arith | inr zone ↦ omega arith ]

    kept_at : (x : ℕ) → (x < p) ⊎ (p + n ≤ x) → m x ≡ s.mem x
    unfolding memcpy_ramfs
    kept_at x off = copy_bytes-other n p src s.mem x off

    away : (q k x : ℕ) → Live s.heap.base bs q k → q ≤ x → x < q + k → (x < p) ⊎ (p + n ≤ x)
    away q k x live low high = elim (new.clear q k live) [
      | inl no_bytes ↦ omega arith
      | inr apart ↦ omega arith
    ]

    data_kept :
        (j : ℕ)
        → j < max_files
        → read_bytes m (s.files j).data_at (s.files j).size
          ≡ read_bytes s.mem (s.files j).data_at (s.files j).size
    data_kept j inside = elim (ok.held j inside) [
      | inl (_, no_bytes) ↦ rw no_bytes refl
      | inr (k, live, room) ↦
          read_bytes-same s.mem m (s.files j).data_at (s.files j).data_at (s.files j).size
            (λ x small. kept_at ((s.files j).data_at + x) (
              away (s.files j).data_at k ((s.files j).data_at + x) live (omega arith)
                (omega arith)))
    ]

    filled_here : read_bytes m p n ≡ read_bytes s.mem src n
    unfolding memcpy_ramfs
    filled_here =
        read_bytes-same s.mem m src p n
          (λ x small. copy_bytes-copied n p src s.mem x source-Apart small)

    new_data-Filled : Filled s name (read_bytes s.mem src n) u
    new_data-Filled = record {
      store = (l, filled-IsStore);
      here =
          contents-some u name i (
            ramfs_find-at u.files name i filled-IsStore.unique (record {
              inside = named.inside;
              used = rw store_file_self named.used;
              named = rw store_file_self named.named;
            }))
          ∙ rw store_file_self (ap some filled_here);
      elsewhere = λ q other.
          contents-other s i f m g q (λ _ e. other (sym e ∙ named.named))
            (λ _ e. other (sym e ∙ named.named)) (λ j _ at. data_kept j at.inside);
      outside = λ x off.
          kept_at x (elim new.zone [ inl no_bytes ↦ omega arith | inr zone ↦ omega arith ]);
      base = old.base;
      ready = refl;
    }

  -- With bytes that fit in a word: either the heap is full and nothing changes, or the entry holds
  -- the bytes of the source.
  pub fill_file-Filled :
      n ≤ word - 8
      → ((u : Ramfs) × (fill_file i src n s ≡ some (true, u))
          × Filled s name (read_bytes s.mem src n) u)
        ⊎ (fill_file i src n s ≡ some (false, s)) × (has_room ((n + 7) / 8 * 8) bs ≡ false)
  unfolding fill_file
  fill_file-Filled small =
      let (p, h, ends, found) = new_buffer-Buffered n s.heap bs ok.heap small in
      elim found [
        | inl (full, (same_heap, no_room)) ↦
            inr (rw (ends, full, same_heap, fill_file) refl, no_room)
        | inr (there, (r, new)) ↦
            let old_data : ((s.files i).data_at ≡ null)
                ⊎ ((k : ℕ) × Live s.heap.base r (s.files i).data_at k) =
              elim (ok.held i named.inside) [
                | inl (is_null, _) ↦ inl is_null
                | inr (k, live, _) ↦ inr (k, new.kept (s.files i).data_at k live)
              ] in
            let (g, ends', (l, old)) =
              free_buffer-Freed s.heap.base (s.files i).data_at h r new.base new.heap old_data in
            inl (_, rw (ends, there, ends', fill_file) refl, new_data-Filled p h r new g l old)
      ]
