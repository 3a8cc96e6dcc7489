-- ===== src/Paging/Tests.antt =====
-- The theorems on page tables at tables of one entry each, at the physical pages 0x1000 to
-- 0x4000.
use bikeshed.Prelude.{
  ◌≤◌, ◌⊎◌, inr, ◌==◌, if◌then◌else◌, ℕ, ◌+◌, ◌*◌, ◌/◌, ◌%◌, ◌≡◌, refl, some, false, arith,
}
use bikeshed.Machine.{Mem, store, Result, ok, panic}
use bikeshed.Addresses.{kernel_base, phys_to_virt, virt_to_phys}
use bikeshed.Stack.{stack, stack_empty}
use bikeshed.Klib.{memclr, clear_words}
use bikeshed.Paging.Cleanup.{for_entries}
use bikeshed.Paging.Clone.{clone_entry, virt_clone_mapping}
use bikeshed.Paging.Shared.{virt_clone_mapping-upper_half}
use bikeshed.PhysAlloc.{
  Phys, phys_alloc_4kib_safe, phys_alloc_4kib, ensure_pool, pool_alloc, pool_empty, drop_if_empty,
}
use bikeshed.Paging.{slot, page_small, is_present, virt_map_phys, virt_lookup_phys}
use bikeshed.Paging.Lookup.{HasTables, pt_at, map-lookup}

-- The first entry of every table leads to the next one; the page table is empty.
abbrev tables_mem : Mem
tables_mem =
    store (store (store (λ a. 0) (kernel_base + 0x1000) 0x2003) (kernel_base + 0x2000) 0x3003)
      (kernel_base + 0x3000) 0x4003

abbrev tables : Phys
tables = record { stack_2mib = stack 0 0; pool_4kib = 0; mem = tables_mem }

tables-HasTables : HasTables 0x1000 0x5000 tables_mem
unfolding phys_to_virt
tables-HasTables = record {
  at_pml4 = refl;
  at_pdpt = refl;
  at_pdt = refl;
  small = refl;
  off_pml4 = omega arith;
  off_pdpt = omega arith;
  off_pdt = omega arith;
}

page_free : is_present (tables_mem (pt_at 0x1000 0x5000 tables_mem)) ≡ false
unfolding phys_to_virt
page_free = refl

map-lookup_example :
    (q : Phys) × (virt_map_phys 0x1000 0x5000 0x7000 6 page_small tables ≡ ok (1, q))
    × (virt_lookup_phys 0x1000 0x5123 q.mem ≡ some (0x7000 / 4096 * 4096 + 0x5123 % 4096))
    × ((a f : ℕ) → virt_map_phys 0x1000 0x5000 a f page_small q ≡ panic)
map-lookup_example =
    map-lookup 0x1000 0x5000 0x5123 0x7000 6 tables tables-HasTables page_free refl (omega arith)

-- A pool of pages at the physical address 0x200000, from which none is handed out yet.
abbrev pooled : Phys
pooled = record {
  stack_2mib = stack 0 0;
  pool_4kib = kernel_base + 0x200000;
  mem = λ a.
      if a == kernel_base + 0x200010
      then kernel_base + 0x201000
      else if a == kernel_base + 0x200018
      then kernel_base + 0x400000
      else if a == kernel_base + 0x1ff8
      then 0x5003
      else 0;
}

abbrev clone_outcome : Result (ℕ × Phys) → Phys
clone_outcome (ok (a, p)) = p
clone_outcome panic = pooled

cloned :
    virt_clone_mapping 0x1000 pooled
    ≡ ok (0x201000, clone_outcome (virt_clone_mapping 0x1000 pooled))
unfolding virt_clone_mapping phys_alloc_4kib_safe phys_alloc_4kib ensure_pool pool_alloc pool_empty
    stack_empty drop_if_empty memclr clear_words for_entries clone_entry phys_to_virt virt_to_phys
cloned = refl

tables_apart :
    (phys_to_virt 0x201000 + 4096 ≤ phys_to_virt 0x1000)
    ⊎ (phys_to_virt 0x1000 + 4096 ≤ phys_to_virt 0x201000)
unfolding phys_to_virt
tables_apart = inr (omega arith)

virt_clone_mapping-upper_half_example :
    let q = clone_outcome (virt_clone_mapping 0x1000 pooled) in
    q.mem (slot (phys_to_virt 0x201000) (256 + 255))
    ≡ q.mem (slot (phys_to_virt 0x1000) (256 + 255))
virt_clone_mapping-upper_half_example =
    virt_clone_mapping-upper_half 0x1000 0x201000 pooled
      (clone_outcome (virt_clone_mapping 0x1000 pooled)) 255 cloned tables_apart (omega arith)
