-- ===== src/Elf/Tests.antt =====
-- The theorem on the segments of the ELF loader at one of 16 KiB of which 4 KiB are in the file.
use bikeshed.Prelude.{
  ℕ, ◌+◌, ◌-◌, ◌≡◌, ap, ◌∙◌, inr, refl, true, ◌&&◌, ◌==◌, ltb, leb, if◌then◌else◌, arith,
}
use bikeshed.Machine.{Mem, Result, ok, ◌>>=◌, returned, returns, returns-ok}
use bikeshed.Addresses.{kernel_base, phys_to_virt, virt_to_phys, mask_4kib}
use bikeshed.Stack.{stack, stack_empty}
use bikeshed.Klib.Bytes.{load_byte}
use bikeshed.Klib
use bikeshed.Klib.{clear_words}
use bikeshed.PhysAlloc.{
  Phys, phys_alloc_4kib, phys_alloc_4kib_safe, ensure_pool, pool_alloc, pool_empty, drop_if_empty,
}
use bikeshed.Paging.{
  page_small, virt_map_phys, ensure_table, map_in_directory, map_in_table, alloc_page,
  virt_map_page,
}
use bikeshed.Elf.{Phdr, place_page, load_segment}
use bikeshed.Elf.Plan.{place_from, size_of, type_of, pages_of}
use bikeshed.Elf.Segment.{load_segment-pages}

-- The tables of the address 4 MiB, and a pool of pages at 2 MiB.
abbrev memory : Phys
memory = record {
  stack_2mib = stack 0 0;
  pool_4kib = kernel_base + 0x200000;
  mem = λ a.
      if a == kernel_base + 0x200010
      then kernel_base + 0x201000
      else if a == kernel_base + 0x200018
      then kernel_base + 0x400000
      else if a == kernel_base + 0x1000
      then 0x2003
      else if a == kernel_base + 0x2000
      then 0x3003
      else if a == kernel_base + 0x3010
      then 0x4003
      else 0;
}

-- A page from the file, and three more.
abbrev bss : Phdr
bss = record { p_type = 1; p_offset = 0x1000; p_vaddr = 0x400000; p_filesz = 4096; p_memsz = 16384 }

abbrev mapping : Result ((ℕ × ℕ) × Phys)
mapping = virt_map_page 0x1000 0x400000 6 page_small memory

abbrev mapped : (ℕ × ℕ) × Phys
mapped = returned mapping ((0, 0), memory)

maps : (returns mapping ≡ true) × (mapped.0 ≡ (1, 0x201000))
unfolding virt_map_page alloc_page virt_map_phys ensure_table map_in_directory map_in_table
    mask_4kib phys_alloc_4kib_safe phys_alloc_4kib ensure_pool pool_alloc pool_empty drop_if_empty
    stack_empty Klib.memclr clear_words phys_to_virt virt_to_phys
maps = (refl, refl)

load_segment-pages_example :
    let elf = kernel_base + 0x10000 in
    let q = mapped.1 in
    (load_segment 0x1000 elf bss memory ≡ (
      place_from
        (pages_of bss)
        0
        0x1000
        (size_of bss)
        (type_of bss)
        (elf + 0x1000)
        0x400000
        4096
        memory
      >>= λ p1. ok (0, p1)))
    × (m' : Mem) × (place_page 0x1000 4096 page_small 0x400000 (elf + 0x1000) 4096 memory
        ≡ ok (record q { mem = m' }))
    × ((b : ℕ)
        → let start = kernel_base + 0x201000 in
          load_byte m' b ≡ (
            if leb start b && ltb b (start + 4096)
            then (if ltb (b - start) 4096
                then load_byte q.mem (elf + 0x1000 + 0 + (b - start))
                else 0)
            else load_byte q.mem b))
load_segment-pages_example =
    load_segment-pages 0x1000 (kernel_base + 0x10000) bss memory 0 memory mapped.1 1 0x201000 refl
      (omega arith) (omega arith) (omega arith) refl
      (returns-ok mapping ((0, 0), memory) maps.0 ∙ ap (λ (r : ℕ × ℕ). ok (r, mapped.1)) maps.1)
      (omega arith) refl (omega arith) (inr (omega arith))
