-- ===== src/Paging.antt =====
-- kernel/src/arch/x86_64/virt_memory/paging.c: the four levels of page tables. A table is 512
-- entries of one word each in the kernel's memory, at the virtual address of its page; the
-- physical allocator's state carries that memory. The TLB (`invlpg`) is not modelled.
pub mod Entries
pub mod Lookup
pub mod Range
pub mod Shared
mod Tests
pub mod Cleanup
pub mod Clone
use bikeshed.Prelude.{
  ℕ, zero, suc, ◌+◌, ◌-◌, ◌*◌, ◌/◌, ◌%◌, ◌^◌, bit_and, bit_or, Bool, true, false, ◌&&◌, ◌||◌, ◌==◌,
  ltb, not, if◌then◌else◌, Option, none, some,
}
use bikeshed.Machine.{Mem, store, word, Result, ok, panic, assert, ◌>>=◌, ◌>>◌}
use bikeshed.Addresses.{kib4, mib2, phys_to_virt, virt_to_phys, mask_2mib, mask_4kib}
use bikeshed.Klib.{memclr, memcpy}
use bikeshed.PhysAlloc.{
  Phys, phys_alloc_2mib, phys_alloc_2mib_safe, phys_alloc_4kib, phys_alloc_4kib_safe,
  phys_free_2mib, phys_free_4kib,
}

abbrev pub page_small : ℕ
page_small = 1

abbrev pub page_large : ℕ
page_large = 2

-- PG_FLAG_RW, _USER, _PWT, _PCD and _XD.
abbrev pub pg_safe_flags : ℕ
pg_safe_flags = 0x800000000000001e

abbrev pub page_copy_flags : ℕ
page_copy_flags = 0x800000000000001f

abbrev pub pml4_index : ℕ → ℕ
pml4_index v = bit_and (v / 2 ^ 39) 0x1ff

abbrev pub pdpt_index : ℕ → ℕ
pdpt_index v = bit_and (v / 2 ^ 30) 0x1ff

abbrev pub pdt_index : ℕ → ℕ
pdt_index v = bit_and (v / 2 ^ 21) 0x1ff

abbrev pub pt_index : ℕ → ℕ
pt_index v = bit_and (v / 2 ^ 12) 0x1ff

abbrev pub entry_to_addr : ℕ → ℕ
entry_to_addr e = bit_and e 0x7ffffffffffff000

-- The table that an entry points to, as the kernel reaches it.
abbrev pub table_of : ℕ → ℕ
table_of e = phys_to_virt (bit_and e 0x7ffffff000)

abbrev pub is_present : ℕ → Bool
is_present e = ltb 0 (bit_and e 1)

abbrev pub is_large : ℕ → Bool
is_large e = ltb 0 (bit_and e 0x80)

-- The address of an entry.
abbrev pub slot : ℕ → ℕ → ℕ
slot table i = table + 8 * i

-- Makes the entry at `at` point to a table; false where the source returns 0.
unfoldable pub ensure_table : ℕ → ℕ → Phys → Result (Bool × Phys)
ensure_table at safe_flags p = if is_present (p.mem at) then ok (true, p) else (do
  (page, p1) ← phys_alloc_4kib p
  let t = phys_to_virt page
  let entry = bit_or (bit_or (virt_to_phys t) 3) safe_flags
  ok (
      if t == 0
      then (false, p1)
      else (true, record p1 { mem = store (memclr t kib4 p1.mem) at entry })))

abbrev pub after_table : ℕ → (ℕ → Phys → Result (ℕ × Phys)) → Bool × Phys → Result (ℕ × Phys)
after_table at below (false, p) = ok (0, p)
after_table at below (true, p) = below (table_of (p.mem at)) p

unfoldable pub map_in_table : ℕ → ℕ → ℕ → ℕ → Phys → Result (ℕ × Phys)
map_in_table virt_addr phys_addr safe_flags pt p =
    let at = slot pt (pt_index virt_addr) in
    let entry = bit_or (bit_or (mask_4kib phys_addr) 1) safe_flags in
    if is_present (p.mem at) then panic else ok (1, record p { mem = store p.mem at entry })

unfoldable pub map_in_directory : ℕ → ℕ → ℕ → ℕ → ℕ → Phys → Result (ℕ × Phys)
map_in_directory virt_addr phys_addr safe_flags page_size pd p =
    let at = slot pd (pdt_index virt_addr) in
    let entry = bit_or (bit_or (bit_or (mask_2mib phys_addr) 0x80) 1) safe_flags in
    if is_large (p.mem at) && is_present (p.mem at)
    then panic
    else if page_size == page_large
    then ok (1, record p { mem = store p.mem at (bit_or entry safe_flags) })
    else if page_size == page_small
    then ensure_table at safe_flags p
      >>= after_table at (map_in_table virt_addr phys_addr safe_flags)
    else panic

-- The result is 1, or 0 where no table could be had.
unfoldable pub virt_map_phys : ℕ → ℕ → ℕ → ℕ → ℕ → Phys → Result (ℕ × Phys)
virt_map_phys table virt_addr phys_addr flags page_size p =
    let safe_flags = bit_and flags pg_safe_flags in
    let at4 = slot (phys_to_virt table) (pml4_index virt_addr) in
    ensure_table at4 safe_flags p
    >>= after_table at4 (λ pdp p1.
      let at3 = slot pdp (pdpt_index virt_addr) in
      ensure_table at3 safe_flags p1
      >>= after_table at3 (map_in_directory virt_addr phys_addr safe_flags page_size))

-- A page of the wanted size (0 if there is none).
unfoldable pub alloc_page : ℕ → Phys → Result (ℕ × Phys)
alloc_page page_size p =
    if page_size == page_large
    then ok (phys_alloc_2mib p)
    else if page_size == page_small
    then phys_alloc_4kib p
    else panic

-- The result and the address of the page.
unfoldable pub virt_map_page : ℕ → ℕ → ℕ → ℕ → Phys → Result ((ℕ × ℕ) × Phys)
virt_map_page table virt_addr flags page_size p =
    let map_it = λ (addr : ℕ) (p1 : Phys).
      if addr == 0
      then ok ((0, addr), p1)
      else (virt_map_phys table virt_addr addr flags page_size p1 >>= λ r. ok ((r.0, addr), r.1)) in
    alloc_page page_size p >>= λ a. map_it a.0 a.1

-- The loop over the pages; the result is 0 both when a mapping fails and at the end.
unfoldable pub map_range : ℕ → ℕ → ℕ → ℕ → ℕ → ℕ → Phys → Result (ℕ × Phys)
map_range zero table v a flags page_size p = ok (0, p)
map_range (suc n) table v a flags page_size p =
    let addr_inc = if page_size == page_large then mib2 else kib4 in
    virt_map_phys table v a flags page_size p >>= λ r.
    if r.0 == 0
    then ok r
    else map_range n table ((v + addr_inc) % word) ((a + addr_inc) % word) flags page_size r.1

unfoldable pub virt_map_phys_range : ℕ → ℕ → ℕ → ℕ → ℕ → ℕ → Phys → Result (ℕ × Phys)
virt_map_phys_range table virt_addr phys_addr flags page_size num_pages p =
    assert (page_size == page_large || page_size == page_small)
    >> map_range num_pages table virt_addr phys_addr flags page_size p

-- Frees the page of an entry of a page table, and clears it.
unfoldable pub unmap_in_table : ℕ → Phys → Result Phys
unmap_in_table at p =
    if is_present (p.mem at)
    then (phys_free_4kib (entry_to_addr (p.mem at)) p >>= λ q.
        ok (record q { mem = store q.mem at 0 }))
    else panic

unfoldable pub unmap_in_directory : ℕ → ℕ → Phys → Result Phys
unmap_in_directory virt_addr at p =
    let q = phys_free_2mib (entry_to_addr (p.mem at)) p in
    if is_present (p.mem at)
    then (if is_large (p.mem at)
        then ok (record q { mem = store q.mem at 0 })
        else unmap_in_table (slot (table_of (p.mem at)) (pt_index virt_addr)) p)
    else panic

unfoldable pub virt_unmap_page : ℕ → ℕ → Phys → Result Phys
virt_unmap_page table virt_addr p =
    let at4 = slot (phys_to_virt table) (pml4_index virt_addr) in
    let at3 = slot (table_of (p.mem at4)) (pdpt_index virt_addr) in
    let at2 = slot (table_of (p.mem at3)) (pdt_index virt_addr) in
    if is_present (p.mem at4)
    then (if is_present (p.mem at3) then unmap_in_directory virt_addr at2 p else panic)
    else panic

-- What an entry of a page directory says of an address.
unfoldable pub lookup_in_directory : Mem → ℕ → ℕ → ℕ
lookup_in_directory m pdt_entry virt_addr =
    let pt_entry = m (slot (table_of pdt_entry) (pt_index virt_addr)) in
    let offset = bit_and virt_addr 0xfff in
    if is_large pdt_entry
    then (entry_to_addr pdt_entry + offset) % word
    else if is_present pt_entry
    then (entry_to_addr pt_entry + offset) % word
    else 0

-- `none` is the result 0; an address is what stands in `out_phys` with the result 1.
unfoldable pub virt_lookup_phys : ℕ → ℕ → Mem → Option ℕ
virt_lookup_phys table virt_addr m =
    let pml4_entry = m (slot (phys_to_virt table) (pml4_index virt_addr)) in
    let pdpt_entry = m (slot (table_of pml4_entry) (pdpt_index virt_addr)) in
    let pdt_entry = m (slot (table_of pdpt_entry) (pdt_index virt_addr)) in
    if is_present pml4_entry
    then (if is_present pdpt_entry
        then (if is_present pdt_entry
            then some (lookup_in_directory m pdt_entry virt_addr)
            else none)
        else none)
    else none
