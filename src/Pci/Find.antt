-- ===== src/Pci/Find.antt =====
-- `pci_find_device` of pci.c on a bus whose configuration space is stable.
use shad_os.Base.{
  ℕ, zero, suc, ◌+◌, ◌*◌, ◌/◌, ◌%◌, ◌^◌, ◌<◌, ◌≤◌, ◌≡◌, refl, ◌∙◌, ap, sym, subst, Bool, true,
  false, ◌&&◌, Option, none, some, ◌∷◌, inl, inr, arith, ==_iff, ◌==◌, if◌then◌else◌, Bool-cases,
  Option-cases, bit_and,
}
use mathlib.Core.Path.{subst₂}
use native.Mathlib.Decide.{dec_lt}
use shad_os.Io.{Io, Log, Device, out32, in32}
use shad_os.Pci.{
  Place, config_address, config_data, make_address, config_read32, vendor_id, device_id, matches,
  first_from, find_device,
}

-- The data port gives the register that the address port has selected, the same each time.
abbrev pub IsStable : Device → (register : ℕ → ℕ) → Type 0
IsStable dev register =
    (a : ℕ) (l : Log) → dev (out32 config_address a ∷ l) config_data ≡ register a

-- The two numbers that a place gives.
abbrev pub identity : (register : ℕ → ℕ) → Place → ℕ
identity register p = register (make_address p.bus p.slot p.func 0) % 2 ^ 32

unfoldable pub is_device : (register : ℕ → ℕ) (vendor device : ℕ) → Place → Bool
is_device register vendor device p =
    bit_and (identity register p) 0xffff == vendor
    && identity register p / 2 ^ 16 % 2 ^ 16 == device

abbrev or_else : Option Place → Option Place → Option Place
or_else (some p) later = some p
or_else none later = later

-- The first answer of `f` from `i` on.
unfoldable pub first_of : (f : ℕ → Option Place) → (left i : ℕ) → Option Place
first_of f zero i = none
first_of f (suc left) i = or_else (f i) (first_of f left (i + 1))

matches-is_device :
    (dev : Device) (register : ℕ → ℕ) (vendor device : ℕ) (p : Place) (l : Log)
    → IsStable dev register
    → (matches dev vendor device p l).0
      ≡ (if is_device register vendor device p then some p else none)
unfolding matches is_device vendor_id device_id config_read32
matches-is_device dev register vendor device p l st =
    let at = make_address p.bus p.slot p.func 0 in
    elim (Bool-cases (bit_and (identity register p) 0xffff == vendor)) [
      | inl right ↦
          rw (st at l, right)
            (ap (λ v. if v % 2 ^ 32 / 2 ^ 16 % 2 ^ 16 == device then some p else none)
              (st at (in32 config_data ∷ out32 config_address at ∷ l)))
      | inr wrong ↦ rw (st at l, wrong)
    ]

first_from-first_of :
    (body : ℕ → Io (Option Place)) (f : ℕ → Option Place) (left i : ℕ) (l : Log)
    → ((k : ℕ) (h : Log) → (body k h).0 ≡ f k)
    → (first_from body left i l).0 ≡ first_of f left i
unfolding first_from first_of
first_from-first_of body f zero i l same = refl
first_from-first_of body f (suc left) i l same = elim (Option-cases (f i)) [
  | inl nothing ↦ rw (same i l, nothing) (first_from-first_of body f left (i + 1) (body i l).1 same)
  | inr (p, found) ↦ rw (same i l, found)
]

-- The first answer stands at the least index that has one.
first_of-least :
    (f : ℕ → Option Place) (left i : ℕ) (p : Place)
    → first_of f left i ≡ some p
    → (j : ℕ) × (i ≤ j) × (j < i + left) × (f j ≡ some p) × ((k : ℕ) → i ≤ k → k < j → f k ≡ none)
unfolding first_of
first_of-least f zero i p h = cc
first_of-least f (suc left) i p h = elim (Option-cases (f i)) [
  | inl nothing ↦
      let (j, above, below, found, before) = first_of-least f left (i + 1) p (ground arith) in
      (
        j,
        omega arith,
        omega arith,
        found,
        λ k a b. elim (Bool-cases (k == i)) [
          | inl first ↦ rw ((==_iff k i).0 first) nothing
          | inr later ↦ before k (ground arith) b
        ],
      )
  | inr (q, found) ↦ (i, omega arith, omega arith, ground arith, λ k a b. absurd (omega arith))
]

first_of-none :
    (f : ℕ → Option Place) (left i k : ℕ)
    → first_of f left i ≡ none
    → i ≤ k
    → k < i + left
    → f k ≡ none
unfolding first_of
first_of-none f zero i k h a b = absurd (omega arith)
first_of-none f (suc left) i k h a b = elim (Bool-cases (k == i)) [
  | inl first ↦ rw ((==_iff k i).0 first) (ground arith)
  | inr later ↦ first_of-none f left (i + 1) k (ground arith) (ground arith) (ground arith)
]

abbrev place : ℕ → ℕ → ℕ → Place
place b s f = record { bus = b; slot = s; func = f }

-- The places that the three loops visit, and the order in which they do.
abbrev pub IsOnBus : Place → Type 0
IsOnBus p = (p.bus < 256) × (p.slot < 32) × (p.func < 8)

abbrev pub index : Place → ℕ
index p = (p.bus * 32 + p.slot) * 8 + p.func

module _ (is : Place → Bool) where
  probe : Place → Option Place
  probe p = if is p then some p else none

  in_slot : ℕ → ℕ → Option Place
  in_slot b s = first_of (λ f. probe (place b s f)) 8 0

  in_bus : ℕ → Option Place
  in_bus b = first_of (in_slot b) 32 0

  search_all : Option Place
  search_all = first_of in_bus 256 0

  probe-is : (p q : Place) → probe p ≡ some q → (q ≡ p) × (is p ≡ true)
  unfolding probe
  probe-is p q h = ground arith

  probe-not : (p : Place) → probe p ≡ none → is p ≡ false
  unfolding probe
  probe-not p h = ground arith

  in_slot-none : (p : Place) → in_slot p.bus p.slot ≡ none → p.func < 8 → is p ≡ false
  unfolding in_slot
  in_slot-none p h f =
      probe-not p (first_of-none (λ f. probe (place p.bus p.slot f)) 8 0 p.func h (omega arith) f)

  in_bus-none : (p : Place) → in_bus p.bus ≡ none → p.slot < 32 → p.func < 8 → is p ≡ false
  unfolding in_bus
  in_bus-none p h s f =
      in_slot-none p (first_of-none (in_slot p.bus) 32 0 p.slot h (omega arith) s) f

  search_all-none : (p : Place) → search_all ≡ none → IsOnBus p → is p ≡ false
  unfolding search_all
  search_all-none p h (b, s, f) =
      in_bus-none p (first_of-none in_bus 256 0 p.bus h (omega arith) b) s f

  search_all-some :
      (p : Place)
      → search_all ≡ some p
      → IsOnBus p × (is p ≡ true) × ((q : Place) → IsOnBus q → is q ≡ true → index p ≤ index q)
  unfolding search_all in_bus in_slot
  search_all-some p h =
      let (b, _, b_in, at_bus, bus_least) = first_of-least in_bus 256 0 p h in
      let (s, _, s_in, at_slot, slot_least) = first_of-least (in_slot b) 32 0 p at_bus in
      let (f, _, f_in, at_func, func_least) =
        first_of-least (λ f. probe (place b s f)) 8 0 p at_slot in
      let (here, found) = probe-is (place b s f) p at_func in
      rw here (
        (omega arith, omega arith, omega arith),
        found,
        λ q (qb, qs, qf) hit. elim (dec_lt q.bus b) [
          | yes earlier ↦ cc (in_bus-none q (bus_least q.bus (omega arith) earlier) qs qf)
          | no late ↦ elim (dec_lt (q.bus * 32 + q.slot) (b * 32 + s)) [
            | yes earlier ↦
                let none_here : in_slot q.bus q.slot ≡ none =
                  subst (λ x. in_slot x q.slot ≡ none) {x = b} {y = q.bus} (omega arith)
                    (slot_least q.slot (omega arith) (omega arith)) in
                cc (in_slot-none q none_here qf)
            | no late' ↦ elim (dec_lt q.func f) [
              | yes earlier ↦ elim (dec_lt (b * 32 + s) (q.bus * 32 + q.slot)) [
                | yes beyond ↦ omega arith
                | no same ↦
                    let none_here : probe (place q.bus q.slot q.func) ≡ none =
                      subst₂ (λ x z. probe (place x z q.func) ≡ none) {x = b} {y = q.bus} {u = s}
                        {v = q.slot} (omega arith) (omega arith)
                        (func_least q.func (omega arith) earlier) in
                    cc (probe-not q none_here)
              ]
              | no late'' ↦ omega arith
            ]
          ]
        ],
      )

-- The three loops of the source make this search.
find_device-search_all :
    (dev : Device) (register : ℕ → ℕ) (vendor device : ℕ) (l : Log)
    → IsStable dev register
    → (find_device dev vendor device l).0 ≡ search_all (is_device register vendor device)
unfolding find_device search_all in_bus in_slot probe
find_device-search_all dev register vendor device l st = first_from-first_of _ _ 256 0 l λ b h.
    first_from-first_of _ _ 32 0 h λ s h'.
      first_from-first_of _ _ 8 0 h'
        λ f h''. matches-is_device dev register vendor device (place b s f) h'' st

-- On a bus whose registers do not change `pci_find_device` finds the device exactly when one of
-- the places that it visits has the two numbers, and then at the first such place in the order of
-- its loops.
pub find_device-first :
    (dev : Device) (register : ℕ → ℕ) (vendor device : ℕ) (l : Log)
    → IsStable dev register
    → ((find_device dev vendor device l).0 ≡ none
        → (p : Place) → IsOnBus p
        → is_device register vendor device p ≡ false)
      × ((p : Place)
          → (find_device dev vendor device l).0 ≡ some p
          → IsOnBus p
            × (is_device register vendor device p ≡ true)
            × ((q : Place)
                → IsOnBus q
                → is_device register vendor device q ≡ true
                → index p ≤ index q))
find_device-first dev register vendor device l st =
    let same = find_device-search_all dev register vendor device l st in
    (
      λ h p on. search_all-none (is_device register vendor device) p (sym same ∙ h) on,
      λ p h. search_all-some (is_device register vendor device) p (sym same ∙ h),
    )
