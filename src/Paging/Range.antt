-- ===== src/Paging/Range.antt =====
-- kernel/src/arch/x86_64/virt_memory/paging.c: the result of virt_map_phys_range.
use bikeshed.Prelude.{ℕ, zero, suc, ◌+◌, ◌%◌, ◌≡◌, ◌==◌, arith, if◌then◌else◌}
use bikeshed.Machine.{word, Result, ok, bind-ok}
use bikeshed.Addresses.{kib4, mib2}
use bikeshed.PhysAlloc.{Phys}
use bikeshed.Paging.{page_large, virt_map_phys, map_range, virt_map_phys_range}

range_step :
    (again : Phys → Result (ℕ × Phys)) (r : ℕ × Phys) (n : ℕ) (q : Phys)
    → ((u : Phys) → again u ≡ ok (n, q) → n ≡ 0)
    → (if r.0 == 0 then ok r else again r.1) ≡ ok (n, q)
    → n ≡ 0
range_step again r n q ih e = ground (arith, ih r.1)

map_range-zero :
    (k table v a flags page_size : ℕ) (p q : Phys) (n : ℕ)
    → map_range k table v a flags page_size p ≡ ok (n, q)
    → n ≡ 0
unfolding map_range
map_range-zero zero table v a flags page_size p q n e = ground arith
map_range-zero (suc k) table v a flags page_size p q n e =
    let inc = if page_size == page_large then mib2 else kib4 in
    let again =
      λ (u : Phys). map_range k table ((v + inc) % word) ((a + inc) % word) flags page_size u in
    let (r, e1, e2) =
      bind-ok (virt_map_phys table v a flags page_size p)
        (λ r. if r.0 == 0 then ok r else again r.1) e in
    range_step again r n q
      (λ u e'.
        map_range-zero k table ((v + inc) % word) ((a + inc) % word) flags page_size u q n e')
      e2

-- Whenever `virt_map_phys_range` returns, it returns 0, whether every page was mapped or one
-- could not be.
virt_map_phys_range-zero :
    (table v a flags page_size num_pages : ℕ) (p q : Phys) (n : ℕ)
    → virt_map_phys_range table v a flags page_size num_pages p ≡ ok (n, q)
    → n ≡ 0
unfolding virt_map_phys_range
virt_map_phys_range-zero table v a flags page_size num_pages p q n e =
    ground (arith, map_range-zero num_pages table v a flags page_size p q n)
