-- ===== src/MemoryMap.antt =====
-- kernel/src/arch/x86_64/virt_memory/physical.c and physical.h: the memory map that the BIOS
-- left at MMAP_ADDRESS, cut so that no usable region overlaps the kernel, and its totals.
-- The array is a function of the index; only its first `mmap_size` entries are the BIOS's.
pub mod Clip
pub mod Scan
pub mod Result
mod Tests
use bikeshed.Prelude.{
  ℕ, zero, suc, ◌+◌, ◌-◌, ◌*◌, ◌/◌, ◌%◌, ◌<◌, Bool, ◌&&◌, ◌==◌, ltb, leb, not, if◌then◌else◌,
}
use bikeshed.Machine.{word}

pub record MMapEntry : Type 0 where
  pub base : ℕ
  pub length : ℕ
  pub kind : ℕ
  pub acpi : ℕ

abbrev pub kernel_start : ℕ
kernel_start = 0x100000

abbrev pub kernel_end : ℕ
kernel_end = 0x400000

abbrev pub type_usable : ℕ
type_usable = 1

abbrev pub type_reserved : ℕ
type_reserved = 2

abbrev pub mmap_max_entries : ℕ
mmap_max_entries = (0x7c00 - 0x2d04) / 24

abbrev pub MMap : Type 0
MMap = ℕ → MMapEntry

abbrev pub update : MMap → ℕ → MMapEntry → MMap
update a i e j = if j == i then e else a j

pub record RamScan : Type 0 where
  pub mmap_array : MMap
  pub mmap_add_index : ℕ
  pub total_usable_ram : ℕ
  pub highest_address : ℕ

-- The part of a region below the kernel, and the part above it.
abbrev pub below_kernel : MMapEntry → MMapEntry
below_kernel e = record e { length = kernel_start - e.base }

abbrev pub above_kernel : MMapEntry → ℕ → MMapEntry
above_kernel e max_addr = record e { base = kernel_end; length = max_addr - kernel_end }

-- Case 4: the region is split in two, or its larger part is kept.
unfoldable pub split_region : RamScan → ℕ → MMapEntry → ℕ → RamScan
split_region s i e max_addr =
    if ltb s.mmap_add_index mmap_max_entries
    then record s {
      mmap_array =
          update (update s.mmap_array i (below_kernel e)) s.mmap_add_index
            (record (s.mmap_array s.mmap_add_index) {
              base = kernel_end;
              length = max_addr - kernel_end;
              kind = type_usable;
            });
      mmap_add_index = s.mmap_add_index + 1;
    }
    else if ltb (max_addr - kernel_end) (kernel_start - e.base)
    then record s { mmap_array = update s.mmap_array i (below_kernel e) }
    else record s { mmap_array = update s.mmap_array i (above_kernel e max_addr) }

-- The four cases of the overlap with the kernel, in the order of the source.
unfoldable pub adjust_region : RamScan → ℕ → RamScan
adjust_region s i =
    let e = s.mmap_array i in
    let max_addr = (e.base + e.length) % word in
    if ltb e.base kernel_start && ltb kernel_start max_addr
    then record s { mmap_array = update s.mmap_array i (below_kernel e) }
    else if ltb e.base kernel_end && ltb kernel_end max_addr
    then record s { mmap_array = update s.mmap_array i (above_kernel e max_addr) }
    else if leb kernel_start e.base && leb max_addr kernel_end
    then record s { mmap_array = update s.mmap_array i (record e { kind = type_reserved }) }
    else if ltb e.base kernel_start && ltb kernel_end max_addr
    then split_region s i e max_addr
    else s

-- Adds region `i` to the totals.
unfoldable pub tally_region : RamScan → ℕ → RamScan
tally_region s i =
    let e = s.mmap_array i in
    let address = (e.base + e.length) % word in
    record s {
      total_usable_ram = (s.total_usable_ram + e.length) % word;
      highest_address = if ltb s.highest_address address then address else s.highest_address;
    }

-- One round of the first loop.
unfoldable pub scan_region : RamScan → ℕ → RamScan
scan_region s i =
    if (s.mmap_array i).kind == type_usable
    then (let s' = adjust_region s i in
        if (s'.mmap_array i).kind == type_usable then tally_region s' i else s')
    else s

-- The first loop, with the rounds left and the index.
unfoldable pub scan_loop : ℕ → ℕ → RamScan → RamScan
scan_loop zero i s = s
scan_loop (suc n) i s = scan_loop n (suc i) (scan_region s i)

-- The loop over the entries that the first one added.
unfoldable pub extras_loop : ℕ → ℕ → RamScan → RamScan
extras_loop zero i s = s
extras_loop (suc n) i s = extras_loop n (suc i) (tally_region s i)

-- The final array, count (`mmap_add_index`) and totals.
unfoldable pub get_total_usable_ram : MMap → ℕ → RamScan
unfolding scan_loop extras_loop
get_total_usable_ram mmap_array mmap_size =
    let s = scan_loop mmap_size 0 (record {
      mmap_array = mmap_array;
      mmap_add_index = mmap_size;
      total_usable_ram = 0;
      highest_address = 0;
    }) in
    extras_loop (s.mmap_add_index - mmap_size) mmap_size s
