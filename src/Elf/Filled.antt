-- ===== src/Elf/Filled.antt =====
-- kernel/src/kernel/elf/elf.c: what one page of a segment holds, byte by byte.
use bikeshed.Prelude.{
  ℕ, ◌+◌, ◌-◌, ◌%◌, ◌^◌, ◌<◌, ◌≤◌, ◌≡◌, ◌≢◌, ◌⊎◌, refl, ◌∙◌, ◌==◌, ◌&&◌, ltb, leb, inl, inr, false,
  if◌then◌else◌, Bool-cases, arith,
}
use bikeshed.Machine.{Mem, word, ok}
use bikeshed.Addresses.{kernel_base, phys_to_virt}
use bikeshed.Klib.Bytes.{load_byte, head, memcpy}
use bikeshed.Klib.Fill.{within, memset-byte}
use bikeshed.Klib.Copy.{Disjoint, memcpy-byte}
use bikeshed.PhysAlloc.{Phys}
use bikeshed.Paging.{virt_map_page}
use bikeshed.Elf.{fill_page, place_page}

-- Byte `b` of the memory when `amount` bytes from `from` on and zeros fill the page at `at`.
abbrev pub filled_byte : (at page_size from amount : ℕ) → Mem → ℕ → ℕ
filled_byte at page_size from amount m b =
    if within at page_size b
    then (if ltb (b - at) amount then load_byte m (from + (b - at)) else 0)
    else load_byte m b

fill_page-byte :
    (page from amount page_size : ℕ) (m : Mem) (b : ℕ)
    → page % 8 ≡ 0
    → page_size % 8 ≡ 0
    → page + page_size < 2 ^ 47
    → amount ≤ page_size
    → (amount ≡ 0) ⊎ ((from % 8 ≡ 0) × Disjoint (kernel_base + page) from amount)
    → load_byte (fill_page page from amount page_size m) b
      ≡ filled_byte (kernel_base + page) page_size from amount m b
unfolding fill_page phys_to_virt head
fill_page-byte page from amount page_size m b aligned whole low le apart =
    let at = kernel_base + page in
    let start : (page + kernel_base) % word ≡ at = omega arith in
    let middle : (page + amount + kernel_base) % word ≡ at + amount = omega arith in
    let none = (memset-byte at 0 page_size m b (omega arith) (omega arith) (omega arith)).1 in
    elim (Bool-cases (ltb 0 amount)) [
      | inl some ↦ elim apart [
        | inl empty ↦ absurd (ground arith)
        | inr (aligned', off) ↦
            let copied = memcpy-byte at from amount m b (omega arith) aligned' (omega arith) off in
            let cleared =
              (memset-byte (at + amount) 0 (page_size - amount) (memcpy at from amount m) b
                (omega arith) (omega arith) (omega arith)).1 in
            rw (some, start, middle) (cleared ∙ ground (arith, copied))
      ]
      | inr zeros ↦ rw (zeros, start) (none ∙ ground arith)
    ]

-- What a round of the loader's loop over the pages does, if virt_map_page maps the address of the
-- page for user programs, to be written, and gives the physical address `page`: it does not panic,
-- and the page holds `amount` bytes of the file from `from` on and zeros behind them, every other
-- byte is as virt_map_page left it, and so is the allocator. The page and, if any of it is copied, the
-- place in the file are aligned and do not overlap, and the page is in the memory that the kernel
-- sees.
pub place_page-filled :
    (table page_size page_type vaddr from amount mapped page : ℕ) (p q : Phys)
    → virt_map_page table vaddr 6 page_type p ≡ ok ((mapped, page), q)
    → mapped ≢ 0
    → page % 8 ≡ 0
    → page_size % 8 ≡ 0
    → page + page_size < 2 ^ 47
    → amount ≤ page_size
    → (amount ≡ 0) ⊎ ((from % 8 ≡ 0) × Disjoint (kernel_base + page) from amount)
    → (m' : Mem) × (place_page table page_size page_type vaddr from amount p
        ≡ ok (record q { mem = m' }))
      × ((b : ℕ)
          → load_byte m' b ≡ (
              if leb (kernel_base + page) b && ltb b (kernel_base + page + page_size)
              then (if ltb (b - (kernel_base + page)) amount
                  then load_byte q.mem (from + (b - (kernel_base + page)))
                  else 0)
              else load_byte q.mem b))
unfolding place_page
place_page-filled table page_size page_type vaddr from amount mapped page p q e some aligned whole
      low le apart =
    let there : (mapped == 0) ≡ false = ground arith in
    (
      fill_page page from amount page_size q.mem,
      rw (e, there) refl,
      λ b. fill_page-byte page from amount page_size q.mem b aligned whole low le apart,
    )
