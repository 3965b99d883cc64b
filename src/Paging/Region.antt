-- ===== src/Paging/Region.antt =====
-- `paging_identity_map_region` of paging.c on a region inside the address space.
use shad_os.Base.{
  ℕ, zero, suc, ◌+◌, ◌*◌, ◌/◌, ◌%◌, ◌^◌, ◌<◌, ◌≤◌, ◌≡◌, refl, ◌⊎◌, ◌∙◌, ap, true, some, arith,
  Bool-cases, inl, inr, word, ◌==◌, leb, ltb, bit_and,
}
use shad_os.Base.Bits.{page_floor, bit_and-ones, pow2}
use shad_os.Paging.{
  Layout, Paging, next, stop, page_present, num_extra_tables, set_entry, add_table, map_page,
  map_loop, pages, paging_init, identity_map_region,
}
use shad_os.Paging.Walk.{walk}
use shad_os.Paging.Init.{IsLayout, pde-mapped, pde-empty, pte-mapped}
use shad_os.Paging.Identity.{IsIdentity}
use shad_os.Paging.Page.{Mapped, leads-Place, set_entry-Mapped}
use shad_os.Paging.Extra.{extra-IsIdentity}

-- `paging_init` leaves such tables.
pub paging_init-IsIdentity :
    (y : Layout) (s : Paging) → IsLayout y → s.extra_used ≡ 0 → IsIdentity y (paging_init y s)
unfolding paging_init
paging_init-IsIdentity y s ok none_used =
    let four = pde-mapped y s ok in
    let rest = pde-empty y s ok in
    let first : (d table : ℕ)
        → d < 1024
        → (paging_init y s).words (y.directory + d * 4) ≡ table + 7
        → (d < 4) × (table ≡ y.tables + d * 4096) =
      λ d table below leads. elim (Bool-cases (ltb d 4)) [
        | inl low ↦ (ground arith, omega (arith, leads, four d (ground arith)))
        | inr high ↦ absurd (omega (arith, leads, rest d (ground arith) below))
      ] in
    record {
      cr3 = refl;
      used = omega arith;
      entries = λ d below. elim (Bool-cases (ltb d 4)) [
        | inl low ↦ inr (y.tables + d * 4096, inl (d, ground arith, refl), four d (ground arith))
        | inr high ↦ inl (rest d (ground arith) below)
      ];
      pages = λ d i table in_d in_i leads.
          let (low, at) = first d table in_d leads in inr (rw at (pte-mapped y s ok d i low in_i));
      own = λ d e table in_d in_e leads leads'.
          omega (arith, first d table in_d leads, first e table in_e leads');
    }

-- There is no entry for the page's table, and no extra table is left.
abbrev pub NoTable : Layout → Paging → ℕ → Type 0
NoTable y s p = (s.extra_used ≡ num_extra_tables) × (s.words (y.directory + p / 1024 * 4) ≡ 0)

map_page-Mapped :
    (y : Layout) (s : Paging) (p : ℕ)
    → IsLayout y
    → IsIdentity y s
    → p < 2 ^ 20
    → ((t : Paging) × (map_page y s (p * 4096) ≡ next t) × Mapped y s p t)
      ⊎ (map_page y s (p * 4096) ≡ stop s) × NoTable y s p
unfolding map_page
map_page-Mapped y s p ok id small =
    let d : p * 4096 / 2 ^ 22 ≡ p / 1024 = omega arith in
    elim (id.entries (p / 1024) (omega arith)) [
      | inl empty ↦ elim (Bool-cases (leb num_extra_tables s.extra_used)) [
        | inl used_up ↦
            let all : s.extra_used ≡ num_extra_tables = ground (arith, id.used) in
            inr (rw (d, empty, used_up, map_page) refl, (all, empty))
        | inr left ↦
            let (id', there, leads, same) =
              extra-IsIdentity y s ok id p small empty (ground arith) in
            let t : Paging = add_table y s (p * 4096) in
            let k =
              set_entry-Mapped y t ok id' p (y.extra + s.extra_used * 4096) small there leads in
            inl (
              set_entry y t (p * 4096),
              rw (d, empty, left, map_page) refl,
              record {
                identity = k.identity;
                here = k.here;
                elsewhere = λ va in_word other. k.elsewhere va in_word other ∙ same va in_word;
              },
            )
      ]
      | inr (table, there, leads) ↦
          let place = (leads-Place y s (p / 1024) table ok id (omega arith) leads).1 in
          let present : bit_and (table + 7) page_present ≡ 1 =
            ap (λ x. bit_and x 1) {y = (table + 6) / 2 * pow2 1 + 1} (omega (arith, place.aligned))
            ∙ bit_and-ones 1 1 ((table + 6) / 2) (omega arith) in
          inl (
            set_entry y s (p * 4096),
            rw (d, leads, present, map_page) refl,
            set_entry-Mapped y s ok id p table small there leads,
          )
    ]

-- The pages from `a` on are mapped, up to the end or to one that has no table.
pub record Reached (y : Layout) (s : Paging) (a end : ℕ) (t : Paging) : Type 0 where
  pub identity : IsIdentity y t
  pub reach : ℕ
  pub above : a ≤ reach
  pub below : reach ≤ end
  pub inside :
      (va : ℕ) → a ≤ va / 4096 → va / 4096 < reach → walk t.words t.cr3 va ≡ some (va, true)
  pub elsewhere :
      (va : ℕ)
      → va < word
      → (va / 4096 < a) ⊎ (reach ≤ va / 4096)
      → walk t.words t.cr3 va ≡ walk s.words s.cr3 va
  pub whole : (reach ≡ end) ⊎ NoTable y t reach

nothing-Reached :
    (y : Layout) (s : Paging) (a end : ℕ)
    → IsIdentity y s
    → a ≤ end
    → (a ≡ end) ⊎ NoTable y s a
    → Reached y s a end s
nothing-Reached y s a end id le why = record {
  identity = id;
  reach = a;
  above = omega arith;
  below = le;
  inside = λ va low high. absurd (omega arith);
  elsewhere = λ va in_word _. refl;
  whole = why;
}

page-Reached :
    (y : Layout) (s t u : Paging) (a end : ℕ)
    → end < 2 ^ 20
    → Mapped y s a t
    → Reached y t (a + 1) end u
    → Reached y s a end u
page-Reached y s t u a end small k r = record {
  identity = r.identity;
  reach = r.reach;
  above = omega (arith, r.above);
  below = r.below;
  inside = λ va low high. elim (Bool-cases (va / 4096 == a)) [
    | inl first ↦
        r.elsewhere va (omega (arith, r.below)) (inl (ground arith)) ∙ k.here va (ground arith)
    | inr later ↦ r.inside va (ground arith) high
  ];
  elsewhere = λ va in_word out.
      r.elsewhere va in_word (omega arith) ∙ k.elsewhere va in_word (omega (arith, r.above));
  whole = r.whole;
}

map_loop-Reached :
    (fuel : ℕ) (y : Layout) (s : Paging) (a end : ℕ)
    → IsLayout y
    → IsIdentity y s
    → a ≤ end
    → end < 2 ^ 20
    → end < a + fuel
    → (t : Paging) × (map_loop fuel y s (a * 4096) (end * 4096) ≡ some t) × Reached y s a end t
unfolding map_loop
map_loop-Reached zero y s a end ok id le small enough = absurd (omega arith)
map_loop-Reached (suc fuel) y s a end ok id le small enough =
    elim (Bool-cases (ltb (a * 4096) (end * 4096))) [
      | inr over ↦ (s, rw over refl, nothing-Reached y s a end id le (inl (ground arith)))
      | inl more ↦
          let before : a < end = ground arith in
          elim (map_page-Mapped y s a ok id (omega arith)) [
            | inr (stuck, no_table) ↦
                (s, rw (more, stuck) refl, nothing-Reached y s a end id le (inr no_table))
            | inl (t, mapped, k) ↦
                let up : (a * 4096 + 0x1000) % word ≡ (a + 1) * 4096 = omega arith in
                let (u, rest, r) =
                  map_loop-Reached fuel y t (a + 1) end ok k.identity (omega arith) small
                    (omega arith) in
                let ends = ap (λ x. map_loop fuel y t x (end * 4096)) up ∙ rest in
                (u, rw (more, mapped) ends, page-Reached y s t u a end small k r)
          ]
    ]

-- On page tables that map no page but to itself, for a region that ends, with a page to spare,
-- inside the address space: `paging_identity_map_region` ends and leaves such tables. It maps the
-- pages of the region to themselves, open to ring 3, from the first on, and translates every other
-- address as before. It maps the whole region, or stops at a page that has no table when all four
-- extra tables are used.
pub identity_map_region-Reached :
    (y : Layout) (s : Paging) (phys_addr size : ℕ)
    → IsLayout y
    → IsIdentity y s
    → phys_addr + size + 0xfff < word
    → (t : Paging) × (identity_map_region y s phys_addr size ≡ some t)
      × Reached y s (phys_addr / 4096) ((phys_addr + size + 0xfff) / 4096) t
unfolding identity_map_region
identity_map_region-Reached y s phys_addr size ok id inside =
    let (t, ends, r) =
      map_loop-Reached pages y s (phys_addr / 4096) ((phys_addr + size + 0xfff) / 4096) ok id
        (omega arith) (omega arith) (omega arith) in
    let no_wrap : (phys_addr + size + 0xfff) % word ≡ phys_addr + size + 0xfff = omega arith in
    (
      t,
      rw (no_wrap, page_floor phys_addr (omega arith), page_floor (phys_addr + size + 0xfff) inside)
          ends,
      r,
    )
