-- ===== src/Ramfs/Session.antt =====
-- Sessions of ramfs.c: the calls that have been made decide what the names hold.
use shad_os.Base.{
  ℕ, ◌≤◌, ◌-◌, ◌≡◌, ◌≢◌, ◌∙◌, sym, ap, inl, inr, Bool, true, false, Option, none, some, List, [],
  ◌∷◌, if◌then◌else◌, word, Bool-cases, eq_of_some, subst,
}
use shad_os.Base.Copy.{read_bytes}
use shad_os.Heap.Layout.{Block, IsHeap}
use shad_os.Ramfs.{Ramfs, same, ramfs_init, ramfs_write, ramfs_delete}
use shad_os.Ramfs.Lookup.{same_iff}
use shad_os.Ramfs.Store.{contents, contents-mem, IsStore, IsStore-mem, IsOutside, SameZone}
use shad_os.Ramfs.Write.{Written, done, refused, ramfs_write-Written}
use shad_os.Ramfs.Delete.{ramfs_init-IsStore, ramfs_delete-Deleted}

-- A call with its result.
pub data FileCall : Type 0 where
  write : (name bytes : List ℕ) → (ok : Bool) → FileCall
  delete : (name : List ℕ) → (ok : Bool) → FileCall

-- The states behind the calls since `ramfs_init`, the last one first. Between two calls, other code
-- may write to memory outside the heap's zone.
pub data Session (s : Ramfs) : List FileCall → Ramfs → Type 0 where
  started : Session s [] (ramfs_init s)
  stored :
      {l : List FileCall} {t : Ramfs} (m : ℕ → ℕ)
      → SameZone t m
      → Session s l t
      → Session s l (record t { mem = m })
  called_write :
      {l : List FileCall} {t u : Ramfs} (name : List ℕ) (src n : ℕ) (ok : Bool)
      → IsOutside t src n
      → n ≤ word - 8
      → ramfs_write name src n t ≡ some (ok, u)
      → Session s l t
      → Session s (write name (read_bytes t.mem src n) ok ∷ l) u
  called_delete :
      {l : List FileCall} {t u : Ramfs} (name : List ℕ) (ok : Bool)
      → ramfs_delete name t ≡ some (ok, u)
      → Session s l t
      → Session s (delete name ok ∷ l) u

abbrev pub View : Type 0
View = List ℕ → Option (List ℕ)

abbrev pub update : List ℕ → Option (List ℕ) → View → View
update name held v q = if same q name then held else v q

-- What the names may hold behind such calls: a write that fails may leave a new name empty.
pub data Spec : List FileCall → View → Type 0 where
  no_calls : Spec [] (λ _. none)
  put :
      {l : List FileCall} {v : View} (name bytes : List ℕ)
      → Spec l v
      → Spec (write name bytes true ∷ l) (update name (some bytes) v)
  not_put :
      {l : List FileCall} {v : View} (name bytes : List ℕ)
      → Spec l v
      → Spec (write name bytes false ∷ l) v
  left_empty :
      {l : List FileCall} {v : View} (name bytes : List ℕ)
      → v name ≡ none
      → Spec l v
      → Spec (write name bytes false ∷ l) (update name (some []) v)
  removed :
      {l : List FileCall} {v : View} (name : List ℕ)
      → v name ≢ none
      → Spec l v
      → Spec (delete name true ∷ l) (update name none v)
  not_there :
      {l : List FileCall} {v : View} (name : List ℕ)
      → v name ≡ none
      → Spec l v
      → Spec (delete name false ∷ l) v

-- The table holds what one of the views of the calls says.
pub record Meets (l : List FileCall) (t : Ramfs) : Type 0 where
  pub view : View
  pub allowed : Spec l view
  pub held : (q : List ℕ) → contents t q ≡ view q
  pub store : (r : List Block) × IsStore t r
  pub ready : t.ready ≡ true

updated :
    (t u : Ramfs) {v : View} (name : List ℕ) (x : Option (List ℕ))
    → ((q : List ℕ) → contents t q ≡ v q)
    → contents u name ≡ x
    → ((q : List ℕ) → q ≢ name → contents u q ≡ contents t q)
    → (q : List ℕ) → contents u q ≡ update name x v q
updated t u name x held here elsewhere q = elim (Bool-cases (same q name)) [
  | inl hit ↦ rw hit (ap (contents u) ((same_iff q name).0 hit) ∙ here)
  | inr miss ↦ rw miss (elsewhere q (λ e. absurd (cc (miss, (same_iff q name).1 e))) ∙ held q)
]

Written-Meets :
    {l : List FileCall} {name bytes : List ℕ} {n : ℕ} {bs : List Block} {ok : Bool} {t u : Ramfs}
    → Meets l t
    → Written name bytes n t bs ok u
    → Meets (write name bytes ok ∷ l) u
Written-Meets {name} {bytes} {t} {u} k (done f) = record {
  view = update name (some bytes) k.view;
  allowed = put name bytes k.allowed;
  held = updated t u name (some bytes) k.held f.here f.elsewhere;
  store = f.store;
  ready = f.ready ∙ k.ready;
}
Written-Meets {name} {bytes} {bs} {t} {u} k (refused why o) = elim o.here [
  | inl same_here ↦ record {
    view = k.view;
    allowed = not_put name bytes k.allowed;
    held = λ q. elim (Bool-cases (same q name)) [
      | inl hit ↦
          let e = (same_iff q name).0 hit in
          ap (contents u) e ∙ same_here ∙ ap (contents t) (sym e) ∙ k.held q
      | inr miss ↦ o.elsewhere q (λ e. absurd (cc (miss, (same_iff q name).1 e))) ∙ k.held q
    ];
    store = (bs, o.store);
    ready = o.ready ∙ k.ready;
  }
  | inr (none_before, left) ↦ record {
    view = update name (some []) k.view;
    allowed = left_empty name bytes (sym (k.held name) ∙ none_before) k.allowed;
    held = updated t u name (some []) k.held left o.elsewhere;
    store = (bs, o.store);
    ready = o.ready ∙ k.ready;
  }
]

write-Meets :
    {l : List FileCall} {t u : Ramfs} (name : List ℕ) (src n : ℕ) (ok : Bool)
    → IsOutside t src n
    → n ≤ word - 8
    → ramfs_write name src n t ≡ some (ok, u)
    → Meets l t
    → Meets (write name (read_bytes t.mem src n) ok ∷ l) u
write-Meets {l} {t} {u} name src n ok outside small called k =
    let (bs, store) = k.store in
    let (r, u', ends, w) = ramfs_write-Written name src n t bs k.ready store outside small in
    let e : (r, u') ≡ (ok, u) = eq_of_some (sym ends ∙ called) in
    Written-Meets k
      (subst (λ (x : Bool × Ramfs). Written name (read_bytes t.mem src n) n t bs x.0 x.1) e w)

delete-Meets :
    {l : List FileCall} {t u : Ramfs} (name : List ℕ) (ok : Bool)
    → ramfs_delete name t ≡ some (ok, u)
    → Meets l t
    → Meets (delete name ok ∷ l) u
delete-Meets {l} {t} {u} name ok called k =
    let (bs, store) = k.store in
    elim (ramfs_delete-Deleted name t bs store) [
      | inl (u', ends, there, d) ↦
          let e : (true, u') ≡ (ok, u) = eq_of_some (sym ends ∙ called) in
          subst (λ (x : Bool × Ramfs). Meets (delete name x.0 ∷ l) x.1) e
            (record {
              view = update name none k.view;
              allowed = removed name (λ h. there (k.held name ∙ h)) k.allowed;
              held = updated t u' name none k.held d.here d.elsewhere;
              store = d.store;
              ready = d.ready ∙ k.ready;
            })
      | inr (ends, none_there) ↦
          let e : (false, t) ≡ (ok, u) = eq_of_some (sym ends ∙ called) in
          subst (λ (x : Bool × Ramfs). Meets (delete name x.0 ∷ l) x.1) e
            (record {
              view = k.view;
              allowed = not_there name (sym (k.held name) ∙ none_there) k.allowed;
              held = k.held;
              store = k.store;
              ready = k.ready;
            })
    ]

-- From `ramfs_init` on a well-formed heap, through any sequence of writes, each of at most 2^32 - 8
-- bytes from outside the heap's zone, and deletions, with other stores outside the zone between
-- them: the table is in order and ready, and every name holds what the calls and their results say.
-- A write that succeeded put its bytes under its name, one that failed changed nothing or left a
-- new name empty, a deletion succeeded exactly for a name that held something, and took it away.
pub Session-Meets :
    (s : Ramfs) (bs : List Block) {l : List FileCall} {t : Ramfs}
    → IsHeap s.heap bs
    → Session s l t
    → Meets l t
Session-Meets s bs i started =
    let (store, ready, empty) = ramfs_init-IsStore s bs i in
    record {
      view = λ _. none;
      allowed = no_calls;
      held = empty;
      store = (bs, store);
      ready = ready;
    }
Session-Meets s bs i (stored {t} m zone session) =
    let k = Session-Meets s bs i session in
    let (r, store) = k.store in
    record {
      view = k.view;
      allowed = k.allowed;
      held = λ q. contents-mem t r m q store zone ∙ k.held q;
      store = (r, IsStore-mem t r m store);
      ready = k.ready;
    }
Session-Meets s bs i (called_write name src n ok outside small called session) =
    write-Meets name src n ok outside small called (Session-Meets s bs i session)
Session-Meets s bs i (called_delete name ok called session) =
    delete-Meets name ok called (Session-Meets s bs i session)
