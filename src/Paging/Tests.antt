-- ===== src/Paging/Tests.antt =====
-- The theorems about paging.c at concrete inputs.
use shad_os.Base.{◌+◌, ◌/◌, ◌≡◌, refl, true, none, some, arith, ltb, if◌then◌else◌}
use shad_os.Paging.{Layout, Paging, paging_init, identity_map_region}
use shad_os.Paging.Walk.{walk}
use shad_os.Paging.Init.{IsLayout, walk-paging_init}
use shad_os.Paging.Region.{Reached, paging_init-IsIdentity, identity_map_region-Reached}
use shad_os.Paging.Wrap.{identity_map_region-wraps}

abbrev layout : Layout
layout = record { directory = 0x10_8000; tables = 0x10_9000; extra = 0x10_d000 }

layout-IsLayout : IsLayout layout
layout-IsLayout = omega arith

abbrev off : Paging
off = record { words = λ a. 0; extra_used = 0; cr3 = 0; cr0 = 0x11 }

walk-paging_init_example :
    walk (paging_init layout off).words (paging_init layout off).cr3 0xb_8123
    ≡ (if ltb 0xb_8123 0x100_0000 then some (0xb_8123, true) else none)
walk-paging_init_example = walk-paging_init layout off layout-IsLayout 0xb_8123 (omega arith)

-- The last 16 MiB of the address space.
identity_map_region-wraps_example : identity_map_region layout off 0xff00_0000 0x100_0000 ≡ some off
identity_map_region-wraps_example =
    identity_map_region-wraps layout off 0xff00_0000 0x100_0000 (omega arith) (omega arith)
      (omega arith)

-- A framebuffer of 3 MiB behind the first 16 MiB, on the tables of `paging_init`.
identity_map_region-Reached_example :
    (t : Paging) × (identity_map_region layout (paging_init layout off) 0xfd00_0000 0x30_0000
      ≡ some t)
    × Reached layout
        (paging_init layout off)
        (0xfd00_0000 / 4096)
        ((0xfd00_0000 + 0x30_0000 + 0xfff) / 4096)
        t
identity_map_region-Reached_example =
    identity_map_region-Reached layout (paging_init layout off) 0xfd00_0000 0x30_0000
      layout-IsLayout (paging_init-IsIdentity layout off layout-IsLayout refl) (omega arith)
