-- ===== src/PhysAlloc/Tests.antt =====
-- The theorems on the physical allocator at a stack of one chunk, and at a map of two regions.
use bikeshed.Prelude.{
  ℕ, zero, suc, ◌+◌, ◌*◌, ◌<◌, ◌≤◌, ◌≡◌, ◌⊎◌, inl, List, [], ◌∷◌, All, length, arith,
}
use bikeshed.Machine.{Mem}
use bikeshed.Addresses.{mib2, kernel_base}
use bikeshed.MemoryMap.{MMap}
use bikeshed.MemoryMap.Clip.{IsUsable, limit}
use bikeshed.Stack.{stack}
use bikeshed.Stack.Refine.{IsStack}
use bikeshed.PhysAlloc.{Phys, setup_physical_allocator}
use bikeshed.PhysAlloc.Setup.{IsMemoryMap, InUsable, chunk_total, setup_physical_allocator-chunks}
use bikeshed.PhysAlloc.Setup.Carve.{Node, low_end}

abbrev zeros : Mem
zeros a = 0

abbrev one_chunk : Phys
one_chunk = record { stack_2mib = stack 1 (0x400000 + kernel_base); pool_4kib = 0; mem = zeros }

one_chunk-IsStack : IsStack zeros (stack 1 (0x400000 + kernel_base)) ((0x400000 + kernel_base) ∷ [])
one_chunk-IsStack = ground arith

-- 16 MiB from 4 MiB on, and a region too small for a chunk.
abbrev two_regions : MMap
two_regions zero = record { base = 0x400000; length = 0x1000000; kind = 1; acpi = 1 }
two_regions (suc i) = record { base = 0x1500000; length = 0x1000; kind = 1; acpi = 1 }

two_regions-IsMemoryMap : IsMemoryMap two_regions 2
two_regions-IsMemoryMap = record { low = low_regions; apart = disjoint; few = omega arith }
  where
    low_regions : (j : ℕ) → j < 2 → IsUsable (two_regions j) → limit (two_regions j) < low_end
    low_regions zero h u = omega arith
    low_regions (suc j) h u = omega arith

    disjoint :
        (i j : ℕ)
        → i < 2
        → j < i
        → IsUsable (two_regions i)
        → IsUsable (two_regions j)
        → (limit (two_regions j) ≤ (two_regions i).base)
          ⊎ (limit (two_regions i) ≤ (two_regions j).base)
    disjoint zero j h h' u u' = absurd (omega arith)
    disjoint (suc i) zero h h' u u' = inl (omega arith)
    disjoint (suc i) (suc j) h h' u u' = absurd (omega arith)

setup_physical_allocator-chunks_example :
    let s = setup_physical_allocator two_regions 2 zeros in
    (nodes : List ℕ) × IsStack s.phys.mem s.phys.stack_2mib nodes
    × All (Node (InUsable two_regions 2)) nodes
    × (length nodes ≡ chunk_total two_regions 2)
    × (s.allocatable_ram ≡ chunk_total two_regions 2 * mib2)
setup_physical_allocator-chunks_example =
    setup_physical_allocator-chunks two_regions 2 zeros two_regions-IsMemoryMap
