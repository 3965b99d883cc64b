-- ===== src/Pci/Address.antt =====
-- The configuration address of pci.c: its fields do not overlap.
use shad_os.Base.{ℕ, ◌+◌, ◌*◌, ◌/◌, ◌%◌, ◌^◌, ◌<◌, ◌≡◌, refl, ap, ap₂, ◌∙◌, bit_and, bit_or, arith}
use shad_os.Base.Bits.{bit_or-high, bit_and-high, bit_and-ones_self, pow2}
use shad_os.Pci.{make_address}

bit_or-aligned : (k low x hi : ℕ) → x ≡ hi * pow2 k → low < pow2 k → bit_or x low ≡ x + low
bit_or-aligned k low x hi e h = rw e (bit_or-high k low hi h)

-- For a bus below 256, a slot below 32, a function below 8 and an offset below 256 the fields lie
-- side by side: the enable bit, the bus, the slot, the function, and the offset less its last two
-- bits.
pub make_address-fields :
    (bus slot func offset : ℕ)
    → bus < 256
    → slot < 32
    → func < 8
    → offset < 256
    → make_address bus slot func offset
      ≡ 2 ^ 31 + bus * 2 ^ 16 + slot * 2 ^ 11 + func * 2 ^ 8 + offset / 4 * 4
unfolding make_address
make_address-fields bus slot func offset b s f o =
    ap₂ bit_or
      (ap₂ bit_or (ap₂ bit_or (ap (bit_or (2 ^ 31)) (omega arith) ∙ at_bus) (omega arith) ∙ at_slot)
          (omega arith)
        ∙ at_func)
      low
    ∙ at_offset
  where
    low : bit_and offset 0xfc ≡ offset / 4 * 4
    low =
        ap (λ x. bit_and x 0xfc) {x = offset} {y = offset / 4 * 4 + offset % 4} (omega arith)
        ∙ bit_and-high 2 (offset % 4) (offset / 4) 63 (omega arith)
        ∙ ap (λ x. x * 4) (bit_and-ones_self 6 (offset / 4) (omega arith))

    at_bus : bit_or (2 ^ 31) (bus * 2 ^ 16) ≡ 2 ^ 31 + bus * 2 ^ 16
    at_bus = bit_or-aligned 24 (bus * 2 ^ 16) (2 ^ 31) (2 ^ 7) refl (omega arith)

    at_slot : bit_or (2 ^ 31 + bus * 2 ^ 16) (slot * 2 ^ 11) ≡ 2 ^ 31 + bus * 2 ^ 16 + slot * 2 ^ 11
    at_slot = bit_or-aligned 16 (slot * 2 ^ 11) _ (2 ^ 15 + bus) (omega arith) (omega arith)

    at_func :
        bit_or (2 ^ 31 + bus * 2 ^ 16 + slot * 2 ^ 11) (func * 2 ^ 8)
        ≡ 2 ^ 31 + bus * 2 ^ 16 + slot * 2 ^ 11 + func * 2 ^ 8
    at_func =
        bit_or-aligned 11 (func * 2 ^ 8) _ (2 ^ 20 + bus * 32 + slot) (omega arith) (omega arith)

    at_offset :
        bit_or (2 ^ 31 + bus * 2 ^ 16 + slot * 2 ^ 11 + func * 2 ^ 8) (offset / 4 * 4)
        ≡ 2 ^ 31 + bus * 2 ^ 16 + slot * 2 ^ 11 + func * 2 ^ 8 + offset / 4 * 4
    at_offset =
        bit_or-aligned 8 (offset / 4 * 4) _ (2 ^ 23 + bus * 256 + slot * 8 + func) (omega arith)
          (omega arith)
