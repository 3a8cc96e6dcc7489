-- ===== src/Elf/Segment.antt =====
-- kernel/src/kernel/elf/elf.c: the pages of a segment, their addresses and their contents.
use bikeshed.Prelude.{
  ℕ, ◌+◌, ◌-◌, ◌*◌, ◌%◌, ◌^◌, ◌<◌, ◌≤◌, ◌≡◌, ◌≢◌, ◌∙◌, ◌⊎◌, ◌&&◌, ltb, leb, inl, inr, if◌then◌else◌,
  Bool-cases, arith,
}
use bikeshed.Machine.{Mem, word, ok, ◌>>=◌}
use bikeshed.Addresses.{kernel_base, mib2}
use bikeshed.Klib.Bytes.{load_byte}
use bikeshed.PhysAlloc.{Phys}
use bikeshed.Paging.{virt_map_page}
use bikeshed.Elf.{Phdr, place_page, load_segment}
use bikeshed.Elf.Plan.{least, place_from, size_of, type_of, pages_of, load_segment-place_from}
use bikeshed.Elf.Filled.{place_page-filled}

multiple-aligned : (hdr : Phdr) (i : ℕ) → (i * size_of hdr) % 8 ≡ 0
multiple-aligned hdr i = elim (Bool-cases (leb mib2 hdr.p_memsz)) [
  | inl large ↦ rw large (omega arith)
  | inr small ↦ rw small (omega arith)
]

-- A loadable segment below the kernel, whose part in the file is no longer than its part in memory
-- and whose addresses do not wrap, takes memsz / size + 1 pages, large ones from 2 MiB on, one
-- round after the other. If the `i`-th round's virt_map_page, of the address min (i * size, filesz)
-- behind the segment's, gives a page at the physical address `page`, the round does not panic, and
-- the page holds what stands from that distance on in the file's part, as much as is left of it,
-- and zeros behind it, with every other byte as virt_map_page left it. The file's part is aligned to
-- 8 bytes and apart from the page, which is aligned too and in the memory that the kernel sees. So
-- all pages behind the file's part are to be mapped at one address, its end.
pub load_segment-pages :
    (table elf : ℕ) (hdr : Phdr) (p : Phys) (i : ℕ) (p1 q : Phys) (mapped page : ℕ)
    → hdr.p_type ≡ 1
    → hdr.p_vaddr + hdr.p_memsz < kernel_base
    → hdr.p_filesz ≤ hdr.p_memsz
    → elf + hdr.p_offset + hdr.p_filesz < word
    → (elf + hdr.p_offset) % 8 ≡ 0
    → virt_map_page table (hdr.p_vaddr + least (i * size_of hdr) hdr.p_filesz) 6 (type_of hdr) p1
      ≡ ok ((mapped, page), q)
    → mapped ≢ 0
    → page % 8 ≡ 0
    → page + size_of hdr < 2 ^ 47
    → (kernel_base + page + size_of hdr ≤ elf + hdr.p_offset)
      ⊎ (elf + hdr.p_offset + hdr.p_filesz ≤ kernel_base + page)
    → (load_segment table elf hdr p ≡ (
        place_from
          (pages_of hdr)
          0
          table
          (size_of hdr)
          (type_of hdr)
          (elf + hdr.p_offset)
          hdr.p_vaddr
          hdr.p_filesz
          p
        >>= λ p1. ok (0, p1)))
      × (m' : Mem) × (let at = least (i * size_of hdr) hdr.p_filesz in
          place_page table
            (size_of hdr)
            (type_of hdr)
            (hdr.p_vaddr + at)
            (elf + hdr.p_offset + at)
            (least (size_of hdr) (hdr.p_filesz - at))
            p1
          ≡ ok (record q { mem = m' }))
      × ((b : ℕ)
          → let start = kernel_base + page in
            let at = least (i * size_of hdr) hdr.p_filesz in
            load_byte m' b ≡ (
              if leb start b && ltb b (start + size_of hdr)
              then (if ltb (b - start) (hdr.p_filesz - at)
                  then load_byte q.mem (elf + hdr.p_offset + at + (b - start))
                  else 0)
              else load_byte q.mem b))
load_segment-pages table elf hdr p i p1 q mapped page is_load low whole inside aligned e some
      page_aligned page_low apart =
    let at = least (i * size_of hdr) hdr.p_filesz in
    let amount = least (size_of hdr) (hdr.p_filesz - at) in
    let from = elf + hdr.p_offset + at in
    let chain = (load_segment-place_from table elf hdr p is_load low whole inside).0 in
    let sized : size_of hdr % 8 ≡ 0 = ground arith in
    let multiple = multiple-aligned hdr i in
    let source : (amount ≡ 0)
        ⊎ ((from % 8 ≡ 0)
            × ((kernel_base + page + amount ≤ from) ⊎ (from + amount ≤ kernel_base + page))) =
      elim (Bool-cases (ltb (i * size_of hdr) hdr.p_filesz)) [
        | inl more ↦ inr (rw more (omega (arith, multiple, aligned)), ground arith)
        | inr done ↦ inl (rw done (ground arith))
      ] in
    let (m', done, bytes) =
      place_page-filled table (size_of hdr) (type_of hdr) (hdr.p_vaddr + at) from amount mapped page
        p1 q e some page_aligned sized page_low (ground arith) source in
    (chain, m', done, λ b. bytes b ∙ ground arith)
