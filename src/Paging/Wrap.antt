-- ===== src/Paging/Wrap.antt =====
-- `paging_identity_map_region` of paging.c at the end of the address space.
use shad_os.Base.{ℕ, suc, ◌+◌, ◌-◌, ◌%◌, ◌<◌, ◌≤◌, ◌≡◌, false, some, arith, ltb, word}
use shad_os.Base.Bits.{page_floor}
use shad_os.Paging.{Layout, Paging, map_loop, identity_map_region}

-- A loop whose first address is at its end does nothing.
map_loop-done :
    (fuel : ℕ) (y : Layout) (s : Paging) (addr end : ℕ)
    → end ≤ addr
    → map_loop (suc fuel) y s addr end ≡ some s
unfolding map_loop
map_loop-done fuel y s addr end h = let done : ltb addr end ≡ false = ground arith in rw done

-- For an address and a size below the end of the address space, less a page for the size: where
-- the region's end, rounded up to a page, passes that end, the sum wraps and the function returns
-- without mapping a page.
pub identity_map_region-wraps :
    (y : Layout) (s : Paging) (phys_addr size : ℕ)
    → phys_addr < word
    → size ≤ word - 0x1000
    → word ≤ phys_addr + size + 0xfff
    → identity_map_region y s phys_addr size ≡ some s
unfolding identity_map_region
identity_map_region-wraps y s phys_addr size small fits wraps = map_loop-done 0x10_0000 y s _ _ (
    omega (
      arith,
      page_floor phys_addr small,
      page_floor ((phys_addr + size + 0xfff) % word) (omega arith),
    ))
