-- ===== src/MemoryMap/Tests.antt =====
-- The theorems on the memory map at one of three regions: one that spans the kernel, one that is
-- reserved and one above 4 GiB.
use bikeshed.Prelude.{ℕ, zero, suc, ◌<◌, ◌≤◌, ◌≡◌, ◌⊎◌, arith}
use bikeshed.MemoryMap.{MMapEntry, MMap, kernel_start, kernel_end, get_total_usable_ram}
use bikeshed.MemoryMap.Clip.{IsUsable, Fits, limit}
use bikeshed.MemoryMap.Scan.{usable_ram}
use bikeshed.MemoryMap.Result.{get_total_usable_ram-IsUsable}

abbrev region : ℕ → ℕ → ℕ → MMapEntry
region base length kind = record { base = base; length = length; kind = kind; acpi = 1 }

abbrev three_regions : MMap
three_regions zero = region 0 0x800000 1
three_regions (suc zero) = region 0x800000 0x100000 2
three_regions (suc (suc i)) = region 0x100000000 0x40000000 1

three_regions-Fits : (j : ℕ) → j < 3 → Fits (three_regions j)
three_regions-Fits zero h = omega arith
three_regions-Fits (suc zero) h = omega arith
three_regions-Fits (suc (suc j)) h = omega arith

get_total_usable_ram-IsUsable_example :
    let s = get_total_usable_ram three_regions 3 in
    (s.mmap_add_index ≡ 3)
    × (s.total_usable_ram ≡ usable_ram s.mmap_array 3)
    × ((i : ℕ)
        → i < 3
        → let e = s.mmap_array i in
          IsUsable e
          → ((limit e ≤ kernel_start) ⊎ (kernel_end ≤ e.base))
            × ((three_regions i).base ≤ e.base)
            × (limit e ≤ limit (three_regions i))
            × (limit e ≤ s.highest_address)
            × IsUsable (three_regions i))
get_total_usable_ram-IsUsable_example =
    get_total_usable_ram-IsUsable three_regions 3 three_regions-Fits
