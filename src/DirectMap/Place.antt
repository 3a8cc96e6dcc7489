-- ===== src/DirectMap/Place.antt =====
-- kernel/src/arch/x86_64/virt_memory/physical.c: where phys_memory_init puts the paging structures.
use bikeshed.Prelude.{ℕ, ◌+◌, ◌*◌, ◌<◌, ◌≤◌, ◌≡◌, ◌≢◌}
use bikeshed.Machine.{Mem}
use bikeshed.Addresses.{kib4, align_4kib}
use bikeshed.MemoryMap.{MMapEntry, MMap, type_usable, kernel_end}
use bikeshed.DirectMap.Directory.{Apart}
use bikeshed.DirectMap.Entries.{MapsGib}
use bikeshed.DirectMap.{gib, aligned_length}

-- What the search asks of a region.
pub record IsPlace (e : MMapEntry) (space_needed : ℕ) : Type 0 where
  pub usable : e.kind ≡ type_usable
  pub pages : kib4 ≤ e.length
  pub behind : kernel_end ≤ align_4kib e.base
  pub low : align_4kib e.base < gib
  pub room : space_needed ≤ aligned_length e

-- Where the structures are put, and what is left of the map.
pub record Placed (a a' : MMap) (mmap_size space_needed i : ℕ) : Type 0 where
  pub index : i < mmap_size
  pub usable : (a i).kind ≡ type_usable
  pub within : (a i).base ≤ align_4kib (a i).base
  pub behind : kernel_end ≤ align_4kib (a i).base
  pub low : align_4kib (a i).base < gib
  pub rest_base : (a' i).base ≡ align_4kib (a i).base + space_needed
  pub rest_end : (a' i).base + (a' i).length ≡ (a i).base + (a i).length
  pub others : (j : ℕ) → j ≢ i → a' j ≡ a j

-- The structures of `n` directories at `base`, in a memory that was `m`: the directories are linked
-- in the boot code's PDP table from its entry 1 on, and map the memory from 1 GiB on.
pub record HasStructures (pdpte base n : ℕ) (m m' : Mem) : Type 0 where
  pub maps : (k : ℕ) → k < n → MapsGib (pdpte + 8 * (1 + k)) (base + kib4 * k) (gib + gib * k) m'
  pub spared : (a : ℕ) → Apart a base (kib4 * n) → Apart a (pdpte + 8) 4088 → m' a ≡ m a
