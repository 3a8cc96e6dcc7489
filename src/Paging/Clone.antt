-- ===== src/Paging/Clone.antt =====
-- kernel/src/arch/x86_64/virt_memory/paging.c: virt_clone_mapping, which copies the lower half
-- of an address space page by page and shares the kernel's half.
use bikeshed.Prelude.{ℕ, zero, suc, bit_and, bit_or, if◌then◌else◌}
use bikeshed.Machine.{Mem, store, Result, ok, ◌>>=◌}
use bikeshed.Addresses.{kib4, mib2, phys_to_virt, virt_to_phys}
use bikeshed.Klib.{memclr, memcpy}
use bikeshed.PhysAlloc.{Phys, phys_alloc_2mib_safe, phys_alloc_4kib_safe}
use bikeshed.Paging.{page_copy_flags, entry_to_addr, table_of, is_present, is_large, slot}
use bikeshed.Paging.Cleanup.{for_entries}

abbrev copy_flags : ℕ → ℕ
copy_flags e = bit_and e page_copy_flags

-- The new entry of a table is the clone of an old one that is present, and 0 otherwise.
unfoldable pub clone_entry :
    (ℕ → Phys → Result (ℕ × Phys)) → (new_table old : ℕ) → ℕ → Phys → Result Phys
clone_entry clone new_table old i p =
    let entry = p.mem (slot old i) in
    let put = λ (e : ℕ) (q : Phys). record q { mem = store q.mem (slot new_table i) e } in
    if is_present entry then (clone entry p >>= λ r. ok (put r.0 r.1)) else ok (put 0 p)

-- A new table whose entries are filled by the loop; the result carries the copied flags.
unfoldable pub clone_table : (ℕ → Phys → Result (ℕ × Phys)) → ℕ → Phys → Result (ℕ × Phys)
clone_table clone old p = do
  (page, p1) ← phys_alloc_4kib_safe p
  let new_table = phys_to_virt page
  p2 ← for_entries (clone_entry clone new_table old) 512 0 p1
  ok (bit_or (virt_to_phys new_table) (copy_flags (virt_to_phys old)), p2)

unfoldable pub clone_small_page : ℕ → Phys → Result (ℕ × Phys)
clone_small_page entry p = do
  (page, p1) ← phys_alloc_4kib_safe p
  let dst = phys_to_virt page
  let src = phys_to_virt (entry_to_addr entry)
  ok (bit_or (virt_to_phys dst) (copy_flags entry), record p1 { mem = memcpy dst src kib4 p1.mem })

unfoldable pub clone_page_table : ℕ → Phys → Result (ℕ × Phys)
clone_page_table p_table p = clone_table clone_small_page p_table p

unfoldable pub clone_large_page : ℕ → Phys → Result (ℕ × Phys)
clone_large_page entry p = do
  (page, p1) ← phys_alloc_2mib_safe p
  let dst = phys_to_virt page
  let src = phys_to_virt (entry_to_addr entry)
  ok (
    bit_or (bit_or (virt_to_phys dst) (copy_flags entry)) 0x80,
    record p1 { mem = memcpy dst src mib2 p1.mem },
  )

-- An entry that points to a table: the clone of the table with the entry's flags.
unfoldable pub clone_below : (ℕ → Phys → Result (ℕ × Phys)) → ℕ → Phys → Result (ℕ × Phys)
clone_below clone entry p =
    clone (table_of entry) p >>= λ r. ok (bit_or r.0 (copy_flags entry), r.1)

unfoldable pub clone_directory_entry : ℕ → Phys → Result (ℕ × Phys)
clone_directory_entry entry p =
    if is_large entry then clone_large_page entry p else clone_below clone_page_table entry p

unfoldable pub clone_page_directory : ℕ → Phys → Result (ℕ × Phys)
clone_page_directory pd_table p = clone_table clone_directory_entry pd_table p

unfoldable pub clone_page_directory_pointer : ℕ → Phys → Result (ℕ × Phys)
clone_page_directory_pointer pdp_table p =
    clone_table (clone_below clone_page_directory) pdp_table p

-- The entries of the kernel's half.
unfoldable pub share_entries : ℕ → ℕ → ℕ → ℕ → Mem → Mem
share_entries zero new_table old i m = m
share_entries (suc n) new_table old i m =
    share_entries n new_table old (suc i) (store m (slot new_table i) (m (slot old i)))

unfoldable pub virt_clone_mapping : ℕ → Phys → Result (ℕ × Phys)
virt_clone_mapping other p = do
  (page, p1) ← phys_alloc_4kib_safe p
  let old = phys_to_virt other
  let new_table = phys_to_virt page
  let p2 = record p1 { mem = memclr new_table kib4 p1.mem }
  p3 ← for_entries (clone_entry (clone_below clone_page_directory_pointer) new_table old) 256 0 p2
  ok (virt_to_phys new_table, record p3 { mem = share_entries 256 new_table old 256 p3.mem })
