-- ===== src/Paging/Lookup.antt =====
-- kernel/src/arch/x86_64/virt_memory/paging.c: virt_map_phys and virt_lookup_phys on one address,
-- where the tables above the entry are there.
use bikeshed.Prelude.{
  ℕ, ◌+◌, ◌*◌, ◌/◌, ◌%◌, ◌^◌, ◌<◌, ◌≡◌, ◌≢◌, refl, ◌∙◌, ap, true, false, some, bit_and, bit_or,
  arith,
}
use bikeshed.Prelude.Bits.{bit_and_low}
use bikeshed.Machine.{Mem, store, word, ok, panic}
use bikeshed.Addresses.{mask_4kib, mask_4kib_lem, phys_to_virt}
use bikeshed.PhysAlloc.{Phys}
use bikeshed.Paging.{
  page_small, pg_safe_flags, pml4_index, pdpt_index, pdt_index, pt_index, table_of, is_present,
  is_large, slot, ensure_table, map_in_table, map_in_directory, virt_map_phys, lookup_in_directory,
  virt_lookup_phys, entry_to_addr,
}
use bikeshed.Paging.Entries.{entry_to_addr-page_entry, page_entry-is_present}

-- The addresses of the entries that an address goes through.
abbrev pub pml4_at : ℕ → ℕ → ℕ
pml4_at table v = slot (phys_to_virt table) (pml4_index v)

abbrev pub pdpt_at : ℕ → ℕ → Mem → ℕ
pdpt_at table v m = slot (table_of (m (pml4_at table v))) (pdpt_index v)

abbrev pub pdt_at : ℕ → ℕ → Mem → ℕ
pdt_at table v m = slot (table_of (m (pdpt_at table v m))) (pdt_index v)

abbrev pub pt_at : ℕ → ℕ → Mem → ℕ
pt_at table v m = slot (table_of (m (pdt_at table v m))) (pt_index v)

-- The page table of an address is there, and its entry is none of the entries above it.
pub record HasTables (table v : ℕ) (m : Mem) : Type 0 where
  pub at_pml4 : is_present (m (pml4_at table v)) ≡ true
  pub at_pdpt : is_present (m (pdpt_at table v m)) ≡ true
  pub at_pdt : is_present (m (pdt_at table v m)) ≡ true
  pub small : is_large (m (pdt_at table v m)) ≡ false
  pub off_pml4 : pt_at table v m ≢ pml4_at table v
  pub off_pdpt : pt_at table v m ≢ pdpt_at table v m
  pub off_pdt : pt_at table v m ≢ pdt_at table v m

-- The entry of a 4 KiB page.
abbrev pub page_entry : ℕ → ℕ → ℕ
page_entry phys_addr flags = bit_or (bit_or (mask_4kib phys_addr) 1) (bit_and flags pg_safe_flags)

ensure_table-present :
    (at flags : ℕ) (p : Phys)
    → is_present (p.mem at) ≡ true
    → ensure_table at flags p ≡ ok (true, p)
unfolding ensure_table
ensure_table-present at flags p h = rw h refl

map_small :
    (table v phys_addr flags : ℕ) (p : Phys)
    → HasTables table v p.mem
    → is_present (p.mem (pt_at table v p.mem)) ≡ false
    → virt_map_phys table v phys_addr flags page_small p
      ≡ ok (1, record p { mem = store p.mem (pt_at table v p.mem) (page_entry phys_addr flags) })
unfolding virt_map_phys map_in_directory map_in_table
map_small table v phys_addr flags p h free =
    let safe_flags = bit_and flags pg_safe_flags in
    rw
      (
        ensure_table-present (pml4_at table v) safe_flags p h.at_pml4,
        ensure_table-present (pdpt_at table v p.mem) safe_flags p h.at_pdpt,
        h.small,
        ensure_table-present (pdt_at table v p.mem) safe_flags p h.at_pdt,
        free,
      )
      refl

map_mapped :
    (table v phys_addr flags : ℕ) (p : Phys)
    → HasTables table v p.mem
    → is_present (p.mem (pt_at table v p.mem)) ≡ true
    → virt_map_phys table v phys_addr flags page_small p ≡ panic
unfolding virt_map_phys map_in_directory map_in_table
map_mapped table v phys_addr flags p h used =
    let safe_flags = bit_and flags pg_safe_flags in
    rw
      (
        ensure_table-present (pml4_at table v) safe_flags p h.at_pml4,
        ensure_table-present (pdpt_at table v p.mem) safe_flags p h.at_pdpt,
        h.small,
        ensure_table-present (pdt_at table v p.mem) safe_flags p h.at_pdt,
        used,
      )
      refl

lookup_small :
    (table v : ℕ) (m : Mem)
    → HasTables table v m
    → is_present (m (pt_at table v m)) ≡ true
    → virt_lookup_phys table v m
      ≡ some ((entry_to_addr (m (pt_at table v m)) + bit_and v 0xfff) % word)
unfolding virt_lookup_phys lookup_in_directory
lookup_small table v m h used = rw (h.at_pml4, h.at_pdpt, h.at_pdt, h.small, used) refl

-- Two addresses of one page go through the same entries.
same_page :
    (v w : ℕ)
    → w / 4096 ≡ v / 4096
    → (pml4_index w ≡ pml4_index v)
      × (pdpt_index w ≡ pdpt_index v)
      × (pdt_index w ≡ pdt_index v)
      × (pt_index w ≡ pt_index v)
same_page v w h = (
  ap (λ (i : ℕ). bit_and i 0x1ff) (omega arith),
  ap (λ (i : ℕ). bit_and i 0x1ff) (omega arith),
  ap (λ (i : ℕ). bit_and i 0x1ff) (omega arith),
  ap (λ (i : ℕ). bit_and i 0x1ff) (omega arith),
)

lookup-same_page :
    (table v w : ℕ) (m : Mem)
    → w / 4096 ≡ v / 4096
    → HasTables table v m
    → is_present (m (pt_at table v m)) ≡ true
    → virt_lookup_phys table w m
      ≡ some ((entry_to_addr (m (pt_at table v m)) + bit_and w 0xfff) % word)
unfolding virt_lookup_phys lookup_in_directory
lookup-same_page table v w m same h used =
    let (e4, e3, e2, e1) = same_page v w same in
    rw (e4, e3, e2, e1, h.at_pml4, h.at_pdpt, h.at_pdt, h.small, used) refl

store_other : (m : Mem) (a x b : ℕ) → a ≢ b → store m a x b ≡ m b
store_other m a x b h = ground arith

store_same : (m : Mem) (a x : ℕ) → store m a x a ≡ x
store_same m a x = ground arith

-- Writing the page's entry leaves the tables above it.
HasTables-store :
    (table v x : ℕ) (m : Mem)
    → HasTables table v m
    → let m' = store m (pt_at table v m) x in
      HasTables table v m' × (pt_at table v m' ≡ pt_at table v m)
HasTables-store table v x m h =
    let a = pt_at table v m in
    let e4 = store_other m a x (pml4_at table v) h.off_pml4 in
    let e3 = store_other m a x (pdpt_at table v m) h.off_pdpt in
    let e2 = store_other m a x (pdt_at table v m) h.off_pdt in
    rw (e4, e3, e2)
      (
        record {
          at_pml4 = rw e4 h.at_pml4;
          at_pdpt = rw (e4, e3) h.at_pdpt;
          at_pdt = rw (e4, e3, e2) h.at_pdt;
          small = rw (e4, e3, e2) h.small;
          off_pml4 = rw (e4, e3, e2) h.off_pml4;
          off_pdpt = rw (e4, e3, e2) h.off_pdpt;
          off_pdt = rw (e4, e3, e2) h.off_pdt;
        },
        refl,
      )

page_entry-addr :
    (phys_addr flags : ℕ)
    → phys_addr < 2 ^ 63
    → entry_to_addr (page_entry phys_addr flags) ≡ phys_addr / 4096 * 4096
page_entry-addr phys_addr flags h =
    rw (mask_4kib_lem phys_addr (omega arith))
      (entry_to_addr-page_entry (phys_addr / 4096) flags (omega arith))

-- Where the tables of an address are there, the entry of its page is free and is none of the
-- entries above it, `virt_map_phys` of a 4 KiB page below 2 ^ 63 returns 1, and then `virt_lookup_phys` of any address of the page returns the physical page's
-- start plus the address's offset, and a second mapping of the page panics.
pub map-lookup :
    (table v w phys_addr flags : ℕ) (p : Phys)
    → HasTables table v p.mem
    → is_present (p.mem (pt_at table v p.mem)) ≡ false
    → w / 4096 ≡ v / 4096
    → phys_addr < 2 ^ 63
    → (q : Phys) × (virt_map_phys table v phys_addr flags page_small p ≡ ok (1, q))
      × (virt_lookup_phys table w q.mem ≡ some (phys_addr / 4096 * 4096 + w % 4096))
      × ((a f : ℕ) → virt_map_phys table v a f page_small q ≡ panic)
map-lookup table v w phys_addr flags p h free same low =
    let a = pt_at table v p.mem in
    let e = page_entry phys_addr flags in
    let q = record p { mem = store p.mem a e } in
    let (h', there) = HasTables-store table v e p.mem h in
    let entry : q.mem (pt_at table v q.mem) ≡ e = ap q.mem there ∙ store_same p.mem a e in
    let used : is_present (q.mem (pt_at table v q.mem)) ≡ true =
      ap (λ (x : ℕ). is_present x) entry
      ∙ page_entry-is_present (mask_4kib phys_addr) (bit_and flags pg_safe_flags) in
    let addr : entry_to_addr (q.mem (pt_at table v q.mem)) ≡ phys_addr / 4096 * 4096 =
      ap (λ (x : ℕ). entry_to_addr x) entry ∙ page_entry-addr phys_addr flags low in
    (
      q,
      map_small table v phys_addr flags p h free,
      lookup-same_page table v w q.mem same h' used
          ∙ ap some (omega (arith, addr, bit_and_low 12 w)),
      λ a' f. map_mapped table v a' f q h' used,
    )
