-- ===== src/Elf/Plan.antt =====
-- kernel/src/kernel/elf/elf.c: where the pages of a segment are mapped, and what they are filled
-- with.
use mathlib.Core.Path.{fun_ext}
use native.Mathlib.Nat.{suc-mul, zero-mul}
use bikeshed.Prelude.{
  ℕ, zero, suc, ◌+◌, ◌-◌, ◌*◌, ◌/◌, ◌%◌, ◌<◌, ◌≤◌, ◌≡◌, refl, ap, ◌∙◌, ltb, leb, if◌then◌else◌,
  arith,
}
use bikeshed.Machine.{word, Result, ok, ◌>>=◌}
use bikeshed.Addresses.{kernel_base, kib4, mib2}
use bikeshed.PhysAlloc.{Phys}
use bikeshed.Paging.{page_small, page_large}
use bikeshed.Elf.{Phdr, place_page, load_pages, load_segment}

abbrev pub least : ℕ → ℕ → ℕ
least a b = if ltb a b then a else b

-- How far into the file's part of a segment its `i`-th page begins.
abbrev pub reached : (page_size filesz i : ℕ) → ℕ
reached page_size filesz i = least (i * page_size) filesz

-- `n` pages from the `i`-th on, one after the other: each is mapped and filled from the place that
-- has been reached, with as much of the file as is left for it.
unfoldable pub place_from :
    (n i table page_size page_type from vaddr filesz : ℕ) → Phys → Result Phys
place_from zero i table page_size page_type from vaddr filesz p = ok p
place_from (suc n) i table page_size page_type from vaddr filesz p =
    let at = reached page_size filesz i in
    place_page table page_size page_type (vaddr + at) (from + at) (least page_size (filesz - at)) p
    >>= λ p1. place_from n (suc i) table page_size page_type from vaddr filesz p1

reached_step :
    (page_size filesz i : ℕ)
    → let at = reached page_size filesz i in
      reached page_size filesz (suc i) ≡ at + least page_size (filesz - at)
reached_step page_size filesz i = ground (arith, suc-mul i page_size)

reached-le : (page_size filesz i : ℕ) → reached page_size filesz i ≤ filesz
reached-le page_size filesz i = ground arith

load_pages-place_from :
    (n i table page_size page_type elf offset vaddr filesz : ℕ) (p : Phys)
    → vaddr + filesz < word
    → elf + offset + filesz < word
    → let at = reached page_size filesz i in
      load_pages n table page_size page_type elf (offset + at) (filesz - at) (vaddr + at) p
      ≡ place_from n i table page_size page_type (elf + offset) vaddr filesz p
unfolding load_pages place_from
load_pages-place_from zero i table page_size page_type elf offset vaddr filesz p h k = refl
load_pages-place_from (suc n) i table page_size page_type elf offset vaddr filesz p h k =
    let at = reached page_size filesz i in
    let amount = least page_size (filesz - at) in
    let at' = reached page_size filesz (suc i) in
    let low = reached-le page_size filesz i in
    let low' = reached-le page_size filesz (suc i) in
    let step = reached_step page_size filesz i in
    let from_is : (elf + (offset + at)) % word ≡ elf + offset + at = omega (arith, low) in
    let offset_is : (offset + at + amount) % word ≡ offset + at' = omega (arith, low', step) in
    let left_is : filesz - at - amount ≡ filesz - at' = omega (arith, step) in
    let vaddr_is : (vaddr + at + amount) % word ≡ vaddr + at' = omega (arith, low', step) in
    (λ t. place_page table page_size page_type (vaddr + at) (from_is t) amount p >>= λ p1.
    load_pages n table page_size page_type elf (offset_is t) (left_is t) (vaddr_is t) p1)
    ∙ ap
        (λ (next : Phys → Result Phys).
          place_page table page_size page_type (vaddr + at) (elf + offset + at) amount p >>= next)
        (fun_ext (λ p1.
          load_pages-place_from n (suc i) table page_size page_type elf offset vaddr filesz p1 h k))

abbrev pub size_of : Phdr → ℕ
size_of hdr = if leb mib2 hdr.p_memsz then mib2 else kib4

abbrev pub type_of : Phdr → ℕ
type_of hdr = if leb mib2 hdr.p_memsz then page_large else page_small

abbrev pub pages_of : Phdr → ℕ
pages_of hdr = hdr.p_memsz / size_of hdr + 1

load_segment_loads :
    (table elf : ℕ) (hdr : Phdr) (p : Phys)
    → hdr.p_type ≡ 1
    → (hdr.p_vaddr + hdr.p_memsz) % word < kernel_base
    → load_segment table elf hdr p ≡ (
        load_pages
          (pages_of hdr)
          table
          (size_of hdr)
          (type_of hdr)
          elf
          hdr.p_offset
          hdr.p_filesz
          hdr.p_vaddr
          p
        >>= λ p1. ok (0, p1))
unfolding load_segment
load_segment_loads table elf hdr p is_load low = ground (arith)

-- The rounds of a segment, by the distance that each has reached, and that distance.
pub load_segment-place_from :
    (table elf : ℕ) (hdr : Phdr) (p : Phys)
    → hdr.p_type ≡ 1
    → hdr.p_vaddr + hdr.p_memsz < kernel_base
    → hdr.p_filesz ≤ hdr.p_memsz
    → elf + hdr.p_offset + hdr.p_filesz < word
    → (load_segment table elf hdr p ≡ (
        place_from
          (pages_of hdr)
          0
          table
          (size_of hdr)
          (type_of hdr)
          (elf + hdr.p_offset)
          hdr.p_vaddr
          hdr.p_filesz
          p
        >>= λ p1. ok (0, p1)))
      × ((i : ℕ)
          → i * size_of hdr ≤ hdr.p_filesz
          → reached (size_of hdr) hdr.p_filesz i ≡ i * size_of hdr)
      × ((i : ℕ)
          → hdr.p_filesz ≤ i * size_of hdr
          → reached (size_of hdr) hdr.p_filesz i ≡ hdr.p_filesz)
load_segment-place_from table elf hdr p is_load low whole inside =
    let first : reached (size_of hdr) hdr.p_filesz 0 ≡ 0 = ground (arith, zero-mul (size_of hdr)) in
    let loop =
      load_pages-place_from (pages_of hdr) 0 table (size_of hdr) (type_of hdr) elf hdr.p_offset
        hdr.p_vaddr hdr.p_filesz p (omega arith) inside in
    let at = reached (size_of hdr) hdr.p_filesz 0 in
    let offset_is : hdr.p_offset ≡ hdr.p_offset + at = omega (arith, first) in
    let left_is : hdr.p_filesz ≡ hdr.p_filesz - at = omega (arith, first) in
    let vaddr_is : hdr.p_vaddr ≡ hdr.p_vaddr + at = omega (arith, first) in
    let from_start : load_pages (pages_of hdr) table (size_of hdr) (type_of hdr) elf hdr.p_offset
          hdr.p_filesz hdr.p_vaddr p
        ≡ load_pages (pages_of hdr) table (size_of hdr) (type_of hdr) elf (hdr.p_offset + at)
            (hdr.p_filesz - at) (hdr.p_vaddr + at) p =
      λ t.
        load_pages (pages_of hdr) table (size_of hdr) (type_of hdr) elf (offset_is t) (left_is t)
          (vaddr_is t) p in
    (
      load_segment_loads table elf hdr p is_load (omega arith)
          ∙ ap (λ (r : Result Phys). r >>= λ p1. ok (0, p1)) (from_start ∙ loop),
      λ i h. ground arith,
      λ i h. ground arith,
    )
