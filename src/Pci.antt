-- ===== src/Pci.antt =====
-- pci.c: the configuration space of the PCI bus, through two ports.
pub mod Address
pub mod Find
mod Tests
use shad_os.Base.{
  ℕ, zero, suc, ◌+◌, ◌-◌, ◌*◌, ◌/◌, ◌%◌, ◌^◌, Bool, ◌&&◌, Option, none, some, bit_and, bit_or, ◌==◌,
  if◌then◌else◌,
}
use shad_os.Io.{Io, Log, Device, ◌>>=◌, ◌>>◌, pure, outl, inl}

abbrev pub config_address : ℕ
config_address = 0xcf8

abbrev pub config_data : ℕ
config_data = 0xcfc

unfoldable pub make_address : (bus slot func offset : ℕ) → ℕ
make_address bus slot func offset =
    bit_or
      (bit_or (bit_or (bit_or (2 ^ 31) (bus * 2 ^ 16 % 2 ^ 32)) (slot * 2 ^ 11 % 2 ^ 32))
        (func * 2 ^ 8 % 2 ^ 32))
      (bit_and offset 0xfc)

-- A function of a device on the bus.
pub record Place : Type 0 where
  pub bus : ℕ
  pub slot : ℕ
  pub func : ℕ

module _ (dev : Device) where
  unfoldable pub config_read32 : (bus slot func offset : ℕ) → Io ℕ
  config_read32 bus slot func offset = do
    outl config_address (make_address bus slot func offset)
    inl dev config_data

  unfoldable pub vendor_id : (bus slot func : ℕ) → Io ℕ
  vendor_id bus slot func = do v ← config_read32 bus slot func 0x00; pure (bit_and v 0xffff)

  unfoldable pub device_id : (bus slot func : ℕ) → Io ℕ
  device_id bus slot func = do v ← config_read32 bus slot func 0x00; pure (v / 2 ^ 16 % 2 ^ 16)

  unfoldable pub get_bar0 : (bus slot func : ℕ) → Io ℕ
  get_bar0 bus slot func = config_read32 bus slot func 0x10

  unfoldable pub get_interrupt_line : (bus slot func : ℕ) → Io ℕ
  get_interrupt_line bus slot func = do v ← config_read32 bus slot func 0x3c; pure (bit_and v 0xff)

unfoldable pub config_write32 : (bus slot func offset value : ℕ) → Io (Unit {0})
config_write32 bus slot func offset value = do
  outl config_address (make_address bus slot func offset)
  outl config_data value

unfoldable pub enable_bus_mastering : Device → (bus slot func : ℕ) → Io (Unit {0})
enable_bus_mastering dev bus slot func = do
  cmd ← config_read32 dev bus slot func 0x04
  config_write32 bus slot func 0x04 (bit_or (bit_or cmd (2 ^ 2)) (2 ^ 0))

-- The body of the three loops: the place, if its two numbers are those sought. The second number
-- is read only if the first is right.
unfoldable pub matches : Device → (vendor device : ℕ) → Place → Io (Option Place)
matches dev vendor device p = do
  v ← vendor_id dev p.bus p.slot p.func
  if v == vendor
      then (do d ← device_id dev p.bus p.slot p.func; pure (if d == device then some p else none))
      else pure none

-- `return 1` with the place stored, or on with the loop.
abbrev pub return_or : Option Place → Io (Option Place) → Io (Option Place)
return_or (some p) later = pure (some p)
return_or none later = later

-- `for (i = 0; i < n; i++)` around a body that returns from the function with a place: `left` is
-- `n - i`.
unfoldable pub first_from : (body : ℕ → Io (Option Place)) → (left i : ℕ) → Io (Option Place)
first_from body zero i = pure none
first_from body (suc left) i =
    let later = first_from body left (i + 1) in body i >>= λ r. return_or r later

-- `pci_find_device`: `none` is its 0, and `some p` its 1 with the place stored.
unfoldable pub find_device : Device → (vendor device : ℕ) → Io (Option Place)
find_device dev vendor device =
    first_from
      (λ bus.
        first_from
          (λ slot.
            first_from
              (λ func. matches dev vendor device (record { bus = bus; slot = slot; func = func })) 8
              0)
          32 0)
      256 0
