-- ===== src/DirectMap.antt =====
-- kernel/src/arch/x86_64/virt_memory/physical.c: phys_memory_init up to the call of
-- setup_physical_allocator, and create_paging_structures, which maps physical memory from 1 GiB on
-- with pages of 2 MiB. At this point addresses are physical ones. The addresses of the boot code's
-- tables, kernel_PDPTE and kernel_PML4, are parameters; printing and `invlpg` are left out.
pub mod Directory
pub mod Entries
pub mod Place
mod Tests
use bikeshed.Prelude.{
  ℕ, zero, suc, ◌+◌, ◌-◌, ◌*◌, ◌/◌, ◌%◌, bit_or, Bool, ◌&&◌, ◌||◌, ◌==◌, ltb, leb, not,
  if◌then◌else◌, Option, none, some,
}
use bikeshed.Machine.{Mem, store, word, Result, ok, panic}
use bikeshed.Addresses.{kib4, mib2, align_4kib}
use bikeshed.MemoryMap.{MMapEntry, MMap, update, type_usable, kernel_end}
use bikeshed.Klib.{memclr}

abbrev pub gib : ℕ
gib = 1073741824

abbrev pub mib512 : ℕ
mib512 = 536870912

pub record PageStructInfo : Type 0 where
  pub base : ℕ
  pub length : ℕ
  pub num_pds : ℕ
  pub num_pdpts : ℕ
  pub space_needed : ℕ

-- The locals of `create_paging_structures` and the memory.
pub record Build : Type 0 where
  pub mem : Mem
  pub alloc_ptr : ℕ
  pub phys_address : ℕ
  pub pds_left : ℕ
  pub pdpts_left : ℕ

abbrev pub table_entry : ℕ → ℕ
table_entry table = bit_or (bit_or table 2) 1

abbrev pub large_page : ℕ → ℕ
large_page phys = bit_or (bit_or (bit_or phys 0x80) 2) 1

-- The loop over the entries of a page directory.
unfoldable pub fill_directory : ℕ → ℕ → ℕ → ℕ → Mem → Mem
fill_directory zero j pd phys m = m
fill_directory (suc n) j pd phys m =
    fill_directory n (suc j) pd ((phys + mib2) % word) (store m (pd + 8 * j) (large_page phys))

-- One more directory, linked at the address of an entry.
unfoldable pub add_directory : ℕ → Build → Build
add_directory at b =
    let m1 = store (memclr b.alloc_ptr kib4 b.mem) at (table_entry b.alloc_ptr) in
    record b {
      mem = fill_directory 512 0 b.alloc_ptr b.phys_address m1;
      alloc_ptr = (b.alloc_ptr + kib4) % word;
      phys_address = (b.phys_address + 512 * mib2) % word;
      pds_left = b.pds_left - 1;
    }

-- The loop over the entries of a PDP table.
unfoldable pub directories : ℕ → ℕ → ℕ → Build → Build
directories zero i table b = b
directories (suc n) i table b =
    let rest = directories n (suc i) table (add_directory (table + 8 * i) b) in
    if b.pds_left == 0 then b else rest

-- One more PDP table, linked in the PML4.
unfoldable pub add_pdp_table : ℕ → Build → Build
add_pdp_table at b = directories 512 0 b.alloc_ptr (record b {
  mem = store (memclr b.alloc_ptr kib4 b.mem) at (table_entry b.alloc_ptr);
  alloc_ptr = (b.alloc_ptr + kib4) % word;
  pdpts_left = b.pdpts_left - 1;
})

unfoldable pub pdp_tables : ℕ → ℕ → ℕ → Build → Build
pdp_tables zero i pml4 b = b
pdp_tables (suc n) i pml4 b =
    let rest = pdp_tables n (suc i) pml4 (add_pdp_table (pml4 + 8 * i) b) in
    if b.pdpts_left == 0 || b.pds_left == 0 then b else rest

unfoldable pub create_paging_structures : (pdpte pml4 : ℕ) → PageStructInfo → Mem → Mem
create_paging_structures pdpte pml4 psi m =
    let started : Build = record {
      mem = m;
      alloc_ptr = psi.base;
      phys_address = gib;
      pds_left = psi.num_pds;
      pdpts_left = psi.num_pdpts;
    } in
    (pdp_tables 511 1 pml4 (directories 511 1 pdpte started)).mem

unfoldable pub count_pds : ℕ → ℕ
count_pds highest_address =
    let n = (highest_address + mib512) % word / gib in if leb 1 n then n - 1 else n

unfoldable pub count_pdpts : ℕ → ℕ
count_pdpts num_pds = let n = (num_pds + 1) / 512 in if leb 1 n then n - 1 else n

unfoldable pub space_for : ℕ → ℕ → ℕ
space_for num_pds num_pdpts = kib4 * num_pds + kib4 * num_pdpts

-- A region's base and length, cut to whole pages at its front.
abbrev pub aligned_length : MMapEntry → ℕ
aligned_length e = (e.length + word - (align_4kib e.base + word - e.base) % word) % word

-- The loop over the memory map: the first region with room behind the kernel. A region above the
-- first GiB ends the search.
unfoldable pub find_region : ℕ → ℕ → MMap → ℕ → Option ℕ
find_region zero i a space_needed = none
find_region (suc n) i a space_needed =
    let rest = find_region n (suc i) a space_needed in
    if not ((a i).kind == type_usable)
    then rest
    else if ltb (a i).length kib4
    then rest
    else if leb gib (align_4kib (a i).base)
    then none
    else if leb kernel_end (align_4kib (a i).base) && leb space_needed (aligned_length (a i))
    then some i
    else rest

-- What is left of the region behind the structures.
unfoldable pub shrink_region : MMap → ℕ → ℕ → MMap
shrink_region a i space_needed = update a i (record (a i) {
  base = (align_4kib (a i).base + space_needed) % word;
  length = aligned_length (a i) - space_needed;
})

abbrev pub or_panic {ℓ} : {A : Type ℓ} → Option ℕ → (ℕ → A) → Result A
or_panic none use_region = panic
or_panic (some i) use_region = ok (use_region i)

-- The structures are put at the front of the region, which loses that part.
unfoldable pub place_structures :
    (pdpte pml4 highest_address : ℕ) → MMap → ℕ → Mem → Result (MMap × Mem)
place_structures pdpte pml4 highest_address a mmap_size m =
    let num_pds = count_pds highest_address in
    let num_pdpts = count_pdpts num_pds in
    let space_needed = space_for num_pds num_pdpts in
    or_panic (find_region mmap_size 0 a space_needed) (λ i. (
      shrink_region a i space_needed,
      create_paging_structures pdpte pml4
          (record {
            base = align_4kib (a i).base;
            length = aligned_length (a i);
            num_pds = num_pds;
            num_pdpts = num_pdpts;
            space_needed = space_needed;
          })
          m,
    ))
