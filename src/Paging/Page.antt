-- ===== src/Paging/Page.antt =====
-- One round of `paging_identity_map_region` on page tables that map no page but to itself.
use shad_os.Base.{
  ℕ, ◌+◌, ◌*◌, ◌/◌, ◌%◌, ◌^◌, ◌<◌, ◌≡◌, ◌∙◌, ap, sym, subst, true, some, arith, inl, inr,
}
use shad_os.Paging.{Layout, Paging, set_entry}
use shad_os.Paging.Walk.{walk, walk-page, walk-empty}
use shad_os.Paging.Loops.{store_self}
use shad_os.Paging.Init.{IsLayout}
use shad_os.Paging.Identity.{
  IsTable, IsIdentity, SameBut, Place, IsTable-Place, walk-same, place, g, set_entry-store,
  g-directory, g-table,
}

-- A table that the directory leads to.
pub leads-Place :
    (y : Layout) (s : Paging) (d table : ℕ)
    → IsLayout y
    → IsIdentity y s
    → d < 1024
    → s.words (y.directory + d * 4) ≡ table + 7
    → IsTable y s.extra_used table × Place y table
leads-Place y s d table ok id below leads = elim (id.entries d below) [
  | inl empty ↦ absurd (omega arith)
  | inr (other, there, e) ↦
      let same : other ≡ table = omega arith in
      let there' = subst (IsTable y s.extra_used) same there in
      (there', IsTable-Place y s.extra_used table ok id.used there')
]

-- What one page more does to the tables.
pub record Mapped (y : Layout) (s : Paging) (p : ℕ) (t : Paging) : Type 0 where
  pub identity : IsIdentity y t
  pub here : (va : ℕ) → va / 4096 ≡ p → walk t.words t.cr3 va ≡ some (va, true)
  pub elsewhere : SameBut p s t

module _ (y : Layout) (s : Paging) (ok : IsLayout y) (id : IsIdentity y s) (p table : ℕ)
    (small : p < 2 ^ 20) (there : IsTable y s.extra_used table)
    (leads : s.words (y.directory + p / 1024 * 4) ≡ table + 7) where
  abbrev h : ℕ → ℕ
  h = g y s ok id p table small there leads

  abbrev t : Paging
  t = record s { words = h }

  dir : (d : ℕ) → d < 1024 → h (y.directory + d * 4) ≡ s.words (y.directory + d * 4)
  dir = g-directory y s ok id p table small there leads

  t-IsIdentity : IsIdentity y t
  t-IsIdentity = record {
    cr3 = id.cr3;
    used = id.used;
    entries = λ d below. rw (dir d below) (id.entries d below);
    pages = λ d i other in_d in_i leads'.
        let leads'' : s.words (y.directory + d * 4) ≡ other + 7 = sym (dir d in_d) ∙ leads' in
        let aligned = (leads-Place y s d other ok id in_d leads'').1.aligned in
        elim (g-table y s ok id p table small there leads d i other in_d in_i leads'' aligned) [
          | inl (at_d, at_i, e) ↦ inr (
              ap h {x = other + i * 4} {y = table + p % 1024 * 4} (omega arith)
              ∙ store_self (table + p % 1024 * 4) (p * 4096 + 7) s.words
              ∙ omega arith)
          | inr same ↦ rw same (id.pages d i other in_d in_i leads'')
        ];
    own = λ d e other in_d in_e leads' leads''.
        id.own d e other in_d in_e (sym (dir d in_d) ∙ leads') (sym (dir e in_e) ∙ leads'');
  }

  t-here : (va : ℕ) → va / 4096 ≡ p → walk h s.cr3 va ≡ some (va, true)
  t-here va at =
      let place' = place y s ok id p table small there leads in
      let d : va / 2 ^ 22 ≡ p / 1024 = omega arith in
      let i : va / 2 ^ 12 % 1024 ≡ p % 1024 = omega arith in
      walk-page h s.cr3 va table p place'.aligned
        (rw (d, id.cr3) (dir (p / 1024) (omega arith) ∙ leads))
        (rw i (store_self (table + p % 1024 * 4) (p * 4096 + 7) s.words))
      ∙ ap (λ x. some (x, true)) (omega arith)

  t-elsewhere : SameBut p s t
  t-elsewhere va in_word other_page =
      let d : ℕ = va / 2 ^ 22 in
      let in_d : d < 1024 = omega arith in
      let dir' : h (s.cr3 + d * 4) ≡ s.words (s.cr3 + d * 4) = rw id.cr3 (dir d in_d) in
      elim (id.entries d in_d) [
        | inl empty ↦
            let empty' : s.words (s.cr3 + d * 4) ≡ 0 = rw id.cr3 empty in
            walk-empty h s.cr3 va (dir' ∙ empty') ∙ sym (walk-empty s.words s.cr3 va empty')
        | inr (other, there', leads') ↦
            let aligned = (leads-Place y s d other ok id in_d leads').1.aligned in
            let at_other : s.words (s.cr3 + d * 4) ≡ other + 7 = rw id.cr3 leads' in
            elim (g-table y s ok id p table small there leads d (va / 2 ^ 12 % 1024) other in_d
              (omega arith) leads' aligned) [
                | inl (at_d, at_i, e) ↦ absurd (other_page (omega arith))
                | inr same ↦
                    walk-same s.words h s.cr3 va other aligned at_other (dir' ∙ at_other) same
              ]
      ]

  pub set_entry-Mapped : Mapped y s p (set_entry y s (p * 4096))
  set_entry-Mapped =
      rw (set_entry-store y s ok id p table small there leads)
        (record { identity = t-IsIdentity; here = t-here; elsewhere = t-elsewhere })
