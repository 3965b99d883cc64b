-- ===== src/Pci/Tests.antt =====
-- The theorems about pci.c at concrete inputs.
use shad_os.Base.{ℕ, ◌≤◌, ◌≡◌, refl, true, false, none, some, [], ◌∷◌, ◌==◌, if◌then◌else◌}
use shad_os.Io.{Device, out8, out16, out32, in8, in16, in32}
use shad_os.Pci.{Place, find_device}
use shad_os.Pci.Find.{is_device, IsOnBus, index, find_device-first}

-- A bus with an RTL8139 as function 0 of slot 3 on bus 0, and nothing else.
abbrev register : ℕ → ℕ
register a = if a == 0x8000_1800 then 0x8139_10ec else 0xffff_ffff

-- The register that was selected last.
abbrev network : Device
network [] port = 0
network (out32 p v ∷ l) port = register v
network (out8 p v ∷ l) port = network l port
network (out16 p v ∷ l) port = network l port
network (in8 p ∷ l) port = network l port
network (in16 p ∷ l) port = network l port
network (in32 p ∷ l) port = network l port

find_device-first_example :
    ((find_device network 0x10ec 0x8139 []).0 ≡ none
      → (p : Place) → IsOnBus p
      → is_device register 0x10ec 0x8139 p ≡ false)
    × ((p : Place)
        → (find_device network 0x10ec 0x8139 []).0 ≡ some p
        → IsOnBus p
          × (is_device register 0x10ec 0x8139 p ≡ true)
          × ((q : Place)
              → IsOnBus q
              → is_device register 0x10ec 0x8139 q ≡ true
              → index p ≤ index q))
find_device-first_example = find_device-first network register 0x10ec 0x8139 [] (λ a l. refl)
