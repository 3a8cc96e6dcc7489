-- ===== src/Paging/Cleanup.antt =====
-- kernel/src/arch/x86_64/virt_memory/paging.c: giving back the pages and tables of an address
-- space (virt_cleanup_table, virt_reset_table). Every loop reads its entries from the memory as
-- the frees before have left it.
use bikeshed.Prelude.{ℕ, zero, suc, ◌==◌, if◌then◌else◌}
use bikeshed.Machine.{store, Result, ok, panic, ◌>>=◌}
use bikeshed.Addresses.{phys_to_virt, virt_to_phys}
use bikeshed.PhysAlloc.{Phys, phys_free_2mib, phys_free_4kib}
use bikeshed.Paging.{entry_to_addr, table_of, is_present, is_large, slot}

-- The loop over `n` entries from the `i`-th on.
unfoldable pub for_entries : (ℕ → Phys → Result Phys) → ℕ → ℕ → Phys → Result Phys
for_entries body zero i p = ok p
for_entries body (suc n) i p = body i p >>= λ q. for_entries body n (suc i) q

-- Does its work on an entry that is present.
abbrev pub if_present : ℕ → (ℕ → Phys → Result Phys) → Phys → Result Phys
if_present at work p = if is_present (p.mem at) then work (p.mem at) p else ok p

unfoldable pub cleanup_page_table : ℕ → Phys → Result Phys
cleanup_page_table pt p =
    for_entries (λ i. if_present (slot pt i) (λ e. phys_free_4kib (entry_to_addr e))) 512 0 p
    >>= phys_free_4kib (virt_to_phys pt)

unfoldable pub cleanup_directory_entry : ℕ → Phys → Result Phys
cleanup_directory_entry e p =
    if is_large e
    then ok (phys_free_2mib (entry_to_addr e) p)
    else cleanup_page_table (table_of e) p

unfoldable pub cleanup_page_directory_table : ℕ → Phys → Result Phys
cleanup_page_directory_table pd p =
    for_entries (λ i. if_present (slot pd i) cleanup_directory_entry) 512 0 p
    >>= phys_free_4kib (virt_to_phys pd)

unfoldable pub cleanup_page_directory_pointer_table : ℕ → Phys → Result Phys
cleanup_page_directory_pointer_table pdp p =
    for_entries (λ i. if_present (slot pdp i) (λ e. cleanup_page_directory_table (table_of e))) 512
      0 p
    >>= phys_free_4kib (virt_to_phys pdp)

unfoldable pub virt_cleanup_table : ℕ → Phys → Result Phys
virt_cleanup_table table p =
    let pml4 = phys_to_virt table in
    for_entries
      (λ i. if_present (slot pml4 i) (λ e. cleanup_page_directory_pointer_table (table_of e))) 256 0
      p
    >>= phys_free_4kib table

unfoldable pub reset_entry : ℕ → ℕ → Phys → Result Phys
reset_entry pml4 i p =
    if_present (slot pml4 i) (λ e. cleanup_page_directory_pointer_table (table_of e)) p >>= λ q.
    ok (record q { mem = store q.mem (slot pml4 i) 0 })

unfoldable pub virt_reset_table : (kernel_table table : ℕ) → Phys → Result Phys
virt_reset_table kernel_table table p =
    if table == kernel_table then panic else for_entries (reset_entry (phys_to_virt table)) 256 0 p
