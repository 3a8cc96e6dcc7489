-- ===== src/DirectMap/Tests.antt =====
-- The theorems on the direct map at 4 GiB of memory, most of it in one region behind the kernel.
use bikeshed.Prelude.{ℕ, ◌+◌, ◌*◌, ◌<◌, ◌≡◌, refl, inl, arith}
use bikeshed.Machine.{Mem}
use bikeshed.Addresses.{kib4}
use bikeshed.MemoryMap.{MMap}
use bikeshed.DirectMap.{gib, PageStructInfo, create_paging_structures}
use bikeshed.DirectMap.Directory.{Apart}
use bikeshed.DirectMap.Entries.{MapsGib, create_paging_structures-maps}

abbrev zeros : Mem
zeros a = 0

-- One directory, at 4 MiB; the PDP table stands at 1 MiB.
abbrev one_directory : PageStructInfo
one_directory = record {
  base = 0x400000;
  length = 0x100000;
  num_pds = 1;
  num_pdpts = 0;
  space_needed = 0x1000;
}

create_paging_structures-maps_example :
    ((k : ℕ)
      → k < 1
      → MapsGib
          (0x100000 + 8 * (1 + k))
          (0x400000 + kib4 * k)
          (gib + gib * k)
          (create_paging_structures 0x100000 0x102000 one_directory zeros))
    × ((a : ℕ)
        → Apart a 0x400000 (kib4 * 1)
        → Apart a (0x100000 + 8) 4088
        → create_paging_structures 0x100000 0x102000 one_directory zeros a ≡ 0)
create_paging_structures-maps_example =
    create_paging_structures-maps 0x100000 0x102000 one_directory zeros (omega arith) refl
      (omega arith) (inl (omega arith))

abbrev one_region : MMap
one_region i = record { base = 0x400800; length = 0x80000000; kind = 1; acpi = 1 }

abbrev place : PageStructInfo
place = record {
  base = 0x401000;
  length = 0x7ffff800;
  num_pds = 3;
  num_pdpts = 0;
  space_needed = 0x3000;
}
