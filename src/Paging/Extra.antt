-- ===== src/Paging/Extra.antt =====
-- A fresh table in the directory, which maps nothing yet.
use shad_os.Base.{
  ℕ, ◌+◌, ◌*◌, ◌/◌, ◌%◌, ◌^◌, ◌<◌, ◌≤◌, ◌≡◌, ◌≢◌, refl, ◌⊎◌, ◌∙◌, ap, sym, arith, Bool-cases, inl,
  inr, word, ◌==◌,
}
use shad_os.Paging.{Layout, Paging, store, fill, entry, num_extra_tables, add_table}
use shad_os.Paging.Walk.{walk, walk-empty}
use shad_os.Paging.Loops.{store_self, store_other, fill_inside, fill_outside, entry-page}
use shad_os.Paging.Init.{IsLayout}
use shad_os.Paging.Identity.{IsTable, IsIdentity, walk-same, walk-absent}
use shad_os.Paging.Page.{leads-Place}

module _ (y : Layout) (s : Paging) (ok : IsLayout y) (id : IsIdentity y s) (p : ℕ)
    (small : p < 2 ^ 20) (empty : s.words (y.directory + p / 1024 * 4) ≡ 0)
    (left : s.extra_used < num_extra_tables) where
  abbrev new : ℕ
  new = y.extra + s.extra_used * 4096

  abbrev t : Paging
  t = add_table y s (p * 4096)

  abbrev cell : ℕ
  cell = y.directory + p / 1024 * 4

  abbrev m : ℕ → ℕ
  m = store cell (new + 7) (fill 1024 new (λ i. 0) s.words)

  t-store : t ≡ record s { words = m; extra_used = s.extra_used + 1 }
  unfolding add_table
  t-store =
      let d : p * 4096 / 2 ^ 22 ≡ p / 1024 = omega arith in
      let e : entry new ≡ new + 7 =
        ap entry {x = new} {y = new / 4096 * 4096} (omega (arith, ok.extra_aligned))
        ∙ entry-page (new / 4096)
        ∙ omega (arith, ok.extra_aligned) in
      rw (d, e) refl

  m-cell : m cell ≡ new + 7
  m-cell = store_self cell (new + 7) (fill 1024 new (λ i. 0) s.words)

  m-new : (i : ℕ) → i < 1024 → m (new + i * 4) ≡ 0
  m-new i below =
      store_other cell (new + 7) (fill 1024 new (λ i. 0) s.words) (new + i * 4)
        (omega (arith, ok.directory_extra))
      ∙ fill_inside 1024 new (λ i. 0) s.words i below

  m-other : (x : ℕ) → x ≢ cell → (x < new) ⊎ (new + 4096 ≤ x) → m x ≡ s.words x
  m-other x other out =
      store_other cell (new + 7) (fill 1024 new (λ i. 0) s.words) x other
      ∙ fill_outside 1024 new (λ i. 0) s.words x (omega arith)

  m-directory :
      (d : ℕ) → d < 1024 → d ≢ p / 1024 → m (y.directory + d * 4) ≡ s.words (y.directory + d * 4)
  m-directory d below other =
      m-other (y.directory + d * 4) (omega arith) (omega (arith, ok.directory_extra))

  -- A table in use is not the new one.
  old-other :
      (table : ℕ) → IsTable y s.extra_used table → (table + 4096 ≤ new) ⊎ (new + 4096 ≤ table)
  old-other table (inl (k, few, at)) = omega (arith, ok.tables_extra)
  old-other table (inr (k, few, at)) = omega arith

  m-table :
      (d i table : ℕ)
      → d < 1024
      → i < 1024
      → s.words (y.directory + d * 4) ≡ table + 7
      → m (table + i * 4) ≡ s.words (table + i * 4)
  m-table d i table in_d in_i leads =
      let (there, place) = leads-Place y s d table ok id in_d leads in
      m-other (table + i * 4) (omega (arith, place.apart)) (omega (arith, old-other table there))

  -- An entry of the directory of `m` is the new one, or was there before.
  m-entry :
      (d table : ℕ)
      → d < 1024
      → m (y.directory + d * 4) ≡ table + 7
      → ((d ≡ p / 1024) × (table ≡ new))
        ⊎ ((d ≢ p / 1024) × (s.words (y.directory + d * 4) ≡ table + 7))
  m-entry d table below leads = elim (Bool-cases (d == p / 1024)) [
    | inl hit ↦
        let e : d ≡ p / 1024 = ground arith in
        let leads' : m cell ≡ table + 7 = rw e at leads in inl (e, omega (arith, leads', m-cell))
    | inr miss ↦
        let other : d ≢ p / 1024 = ground arith in
        inr (other, sym (m-directory d below other) ∙ leads)
  ]

  new-ne : (d : ℕ) → d < 1024 → s.words (y.directory + d * 4) ≢ new + 7
  new-ne d below leads = omega (arith, old-other new (leads-Place y s d new ok id below leads).0)

  wider : (table : ℕ) → IsTable y s.extra_used table → IsTable y (s.extra_used + 1) table
  wider table (inl first) = inl first
  wider table (inr (k, few, at)) = inr (k, omega arith, at)

  m-IsIdentity : IsIdentity y (record s { words = m; extra_used = s.extra_used + 1 })
  m-IsIdentity = record {
    cr3 = id.cr3;
    used = omega arith;
    entries = λ d below. elim (Bool-cases (d == p / 1024)) [
      | inl hit ↦
          let e : d ≡ p / 1024 = ground arith in
          inr (new, inr (s.extra_used, omega arith, refl), rw e m-cell)
      | inr miss ↦
          let same = m-directory d below (ground arith) in
          elim (id.entries d below) [
            | inl none_there ↦ inl (same ∙ none_there)
            | inr (table, there, leads) ↦ inr (table, wider table there, same ∙ leads)
          ]
    ];
    pages = λ d i table in_d in_i leads. elim (m-entry d table in_d leads) [
      | inl (e, at) ↦ inl (rw at (m-new i in_i))
      | inr (other, leads') ↦
          rw (m-table d i table in_d in_i leads') (id.pages d i table in_d in_i leads')
    ];
    own = λ d e table in_d in_e leads leads'. elim (m-entry d table in_d leads) [
      | inl (at, is_new) ↦ elim (m-entry e table in_e leads') [
        | inl (at', is_new') ↦ at ∙ sym at'
        | inr (other, old) ↦ absurd (new-ne e in_e (rw is_new at old))
      ]
      | inr (other, old) ↦ elim (m-entry e table in_e leads') [
        | inl (at', is_new') ↦ absurd (new-ne d in_d (rw is_new' at old))
        | inr (other', old') ↦ id.own d e table in_d in_e old old'
      ]
    ];
  }

  m-walk : (va : ℕ) → va < word → walk m s.cr3 va ≡ walk s.words s.cr3 va
  m-walk va in_word =
      let d : ℕ = va / 2 ^ 22 in
      let in_d : d < 1024 = omega arith in
      elim (Bool-cases (d == p / 1024)) [
        | inl hit ↦
            let e : d ≡ p / 1024 = ground arith in
            walk-absent m s.cr3 va new (omega (arith, ok.extra_aligned)) (rw (e, id.cr3) m-cell)
              (m-new (va / 2 ^ 12 % 1024) (omega arith))
            ∙ sym (walk-empty s.words s.cr3 va (rw (e, id.cr3) empty))
        | inr miss ↦
            let same : m (s.cr3 + d * 4) ≡ s.words (s.cr3 + d * 4) =
              rw id.cr3 (m-directory d in_d (ground arith)) in
            elim (id.entries d in_d) [
              | inl none_there ↦
                  let empty' : s.words (s.cr3 + d * 4) ≡ 0 = rw id.cr3 none_there in
                  walk-empty m s.cr3 va (same ∙ empty') ∙ sym (walk-empty s.words s.cr3 va empty')
              | inr (table, there, leads) ↦
                  let (_, place) = leads-Place y s d table ok id in_d leads in
                  let at_table : s.words (s.cr3 + d * 4) ≡ table + 7 = rw id.cr3 leads in
                  walk-same s.words m s.cr3 va table place.aligned at_table (same ∙ at_table)
                    (m-table d (va / 2 ^ 12 % 1024) table in_d (omega arith) leads)
            ]
      ]

  -- What `add_table` has done: the directory leads from the page to the new table, and every
  -- address is translated as before.
  pub extra-IsIdentity :
      IsIdentity y t
      × IsTable y t.extra_used new
      × (t.words (y.directory + p / 1024 * 4) ≡ new + 7)
      × ((va : ℕ) → va < word → walk t.words t.cr3 va ≡ walk s.words s.cr3 va)
  extra-IsIdentity =
      rw t-store (m-IsIdentity, inr (s.extra_used, omega arith, refl), m-cell, m-walk)
