-- ===== src/PhysAlloc.antt =====
-- kernel/src/arch/x86_64/virt_memory/phys_alloc.c: the allocator of physical memory in 2 MiB
-- chunks, which wait on a stack, and in 4 KiB pages, cut from pools of one chunk each.
-- A pool's record stands in its own first page, so it is read and written through the memory:
-- free_stack.size, free_stack.top, implicit_next, max_address, next, prev, on_list.
pub mod Setup
pub mod Chunks
mod Tests
use bikeshed.Prelude.{
  ℕ, zero, suc, ◌+◌, ◌-◌, ◌*◌, ◌/◌, ◌%◌, Bool, ◌&&◌, ◌||◌, ◌==◌, ltb, leb, not, if◌then◌else◌,
}
use bikeshed.Machine.{Mem, store, word, Result, ok, panic, assert, ◌>>=◌, ◌>>◌}
use bikeshed.Addresses.{
  kib4, mib2, phys_to_virt, virt_to_phys, mask_2mib, mask_4kib, align_2mib, kernel_base,
}
use bikeshed.MemoryMap.{MMapEntry, MMap, type_usable}
use bikeshed.Stack.{Stack, stack, stack_init, stack_empty, stack_push, stack_pop}

-- `stack_2MIB`, `pool_4KIB` and the memory.
pub record Phys : Type 0 where
  pub stack_2mib : Stack
  pub pool_4kib : ℕ
  pub mem : Mem

-- The locals of `setup_physical_allocator` beside the allocator.
pub record Setting : Type 0 where
  pub phys : Phys
  pub wasted_ram : ℕ
  pub allocatable_ram : ℕ
  pub usable : ℕ

unfoldable pub push_2mib : Phys → ℕ → Phys
push_2mib p node =
    let (s, m) = stack_push p.stack_2mib node p.mem in record p { stack_2mib = s; mem = m }

-- The do-while loop over one region; the result has the length that is left. The fuel is the
-- number of whole chunks of the region.
unfoldable pub carve : ℕ → (base length : ℕ) → Setting → ℕ × Setting
unfolding push_2mib
carve zero base length s = (length, s)
carve (suc fuel) base length s =
    let s' = record s {
      phys = push_2mib s.phys ((base + kernel_base) % word);
      allocatable_ram = (s.allocatable_ram + mib2) % word;
    } in
    let left = length - mib2 in
    let rest = carve fuel ((base + mib2) % word) left s' in
    if leb mib2 left then rest else (left, s')

-- One round of the loop over the memory map.
unfoldable pub place_region : MMapEntry → Setting → Setting
place_region e s =
    let base = align_2mib e.base in
    let length = (e.length + word - (base + word - e.base) % word) % word in
    if not (e.kind == type_usable)
    then s
    else if ltb e.length mib2
    then record s { wasted_ram = (s.wasted_ram + e.length) % word }
    else if ltb length mib2
    then record s { wasted_ram = (s.wasted_ram + e.length) % word }
    else (let (left, s') = carve (length / mib2) base length s in
        record s' { usable = s'.usable + 1; wasted_ram = (s'.wasted_ram + left) % word })

unfoldable pub place_loop : MMap → ℕ → ℕ → Setting → Setting
place_loop a zero i s = s
place_loop a (suc n) i s = place_loop a n (suc i) (place_region (a i) s)

unfoldable pub setup_physical_allocator : MMap → ℕ → Mem → Setting
unfolding place_loop stack_init
setup_physical_allocator mmap_array mmap_size m = place_loop mmap_array mmap_size 0 (record {
  phys = record { stack_2mib = stack_init; pool_4kib = 0; mem = m };
  wasted_ram = 0;
  allocatable_ram = 0;
  usable = 0;
})

unfoldable pub phys_alloc_2mib : Phys → ℕ × Phys
phys_alloc_2mib p =
    let (ret_val, s) = stack_pop p.stack_2mib p.mem in
    (if ret_val == 0 then 0 else virt_to_phys ret_val, record p { stack_2mib = s })

unfoldable pub phys_alloc_2mib_safe : Phys → Result (ℕ × Phys)
phys_alloc_2mib_safe p =
    let (alloc_ptr, p') = phys_alloc_2mib p in if alloc_ptr == 0 then panic else ok (alloc_ptr, p')

unfoldable pub phys_free_2mib : ℕ → Phys → Phys
unfolding push_2mib
phys_free_2mib ptr p = push_2mib p (mask_2mib (phys_to_virt ptr))

-- The fields of the pool at an address.
abbrev pub implicit_next_at : ℕ → ℕ
implicit_next_at pool = pool + 16

abbrev pub max_address_at : ℕ → ℕ
max_address_at pool = pool + 24

abbrev pub next_at : ℕ → ℕ
next_at pool = pool + 32

abbrev pub prev_at : ℕ → ℕ
prev_at pool = pool + 40

abbrev pub on_list_at : ℕ → ℕ
on_list_at pool = pool + 48

abbrev pub free_stack_of : Mem → ℕ → Stack
free_stack_of m pool = stack (m pool) (m (pool + 8))

abbrev pub set_free_stack : Mem → ℕ → Stack → Mem
set_free_stack m pool s = store (store m pool s.size) (pool + 8) s.top

unfoldable pub pool_init : ℕ → Mem → Mem
unfolding stack_init
pool_init pool m =
    let m = set_free_stack m pool stack_init in
    let m = store m (implicit_next_at pool) ((pool + kib4) % word) in
    let m = store m (max_address_at pool) ((pool + mib2) % word) in
    let m = store m (next_at pool) 0 in
    let m = store m (prev_at pool) 0 in store m (on_list_at pool) 0

unfoldable pub pool_empty : ℕ → Mem → Bool
unfolding stack_empty
pool_empty pool m =
    stack_empty (free_stack_of m pool) && leb (m (max_address_at pool)) (m (implicit_next_at pool))

-- Panics if all pages but the first are on the free stack and some were never handed out.
unfoldable pub pool_full : ℕ → Mem → Result Bool
pool_full pool m =
    if m pool == 511
    then (do assert (leb (m (max_address_at pool)) (m (implicit_next_at pool))); ok (m pool == 511))
    else ok (m pool == 511)

unfoldable pub pool_free : ℕ → ℕ → Mem → Result Mem
pool_free pool ptr m =
    if leb ptr pool || leb (m (max_address_at pool)) ptr
    then panic
    else (let (s, m') = stack_push (free_stack_of m pool) (mask_4kib ptr) m in
        ok (set_free_stack m' pool s))

unfoldable pub pool_alloc : ℕ → Mem → Result (ℕ × Mem)
unfolding pool_empty stack_empty
pool_alloc pool m =
    if pool_empty pool m
    then panic
    else if not (stack_empty (free_stack_of m pool))
    then (let (p, s) = stack_pop (free_stack_of m pool) m in ok (p, set_free_stack m pool s))
    else ok (
      m (implicit_next_at pool),
      store m (implicit_next_at pool) ((m (implicit_next_at pool) + kib4) % word),
    )

-- The first step of `phys_alloc_4KIB`: a new pool if there is none.
unfoldable pub ensure_pool : Phys → Result Phys
unfolding pool_init
ensure_pool p =
    if p.pool_4kib == 0
    then (let (chunk, p') = phys_alloc_2mib p in
        let pool = phys_to_virt chunk in
        do
          assert (not (chunk == 0))
          ok (record p' {
            pool_4kib = pool;
            mem = store (pool_init pool p'.mem) (on_list_at pool) 1;
          }))
    else ok p

-- Its last step: an empty pool leaves the list.
unfoldable pub drop_if_empty : Phys → Phys
unfolding pool_empty
drop_if_empty p =
    let pool = p.pool_4kib in
    let m = store (store (store p.mem (on_list_at pool) 0) (next_at pool) 0) (prev_at pool) 0 in
    if pool_empty pool p.mem then record p { pool_4kib = p.mem (next_at pool); mem = m } else p

unfoldable pub phys_alloc_4kib : Phys → Result (ℕ × Phys)
unfolding ensure_pool pool_alloc drop_if_empty
phys_alloc_4kib p = do
  p1 ← ensure_pool p
  (ret_val, m) ← pool_alloc p1.pool_4kib p1.mem
  ok (virt_to_phys ret_val, drop_if_empty (record p1 { mem = m }))

unfoldable pub phys_alloc_4kib_safe : Phys → Result (ℕ × Phys)
unfolding phys_alloc_4kib
phys_alloc_4kib_safe p = do
  (alloc_ptr, p') ← phys_alloc_4kib p
  if alloc_ptr == 0 then panic else ok (alloc_ptr, p')

-- Takes a full pool out of the list.
unfoldable pub unlink_pool : ℕ → Phys → Phys
unlink_pool pool p =
    let p_next = p.mem (next_at pool) in
    let p_prev = p.mem (prev_at pool) in
    if p.pool_4kib == pool
    then record p {
      pool_4kib = p_next;
      mem = if p_next == 0 then p.mem else store p.mem (prev_at p_next) 0;
    }
    else (let m = if p_next == 0 then p.mem else store p.mem (prev_at p_next) p_prev in
        record p { mem = if p_prev == 0 then m else store m (next_at p_prev) p_next })

-- Puts a pool with a free page at the head of the list.
unfoldable pub link_pool : ℕ → Phys → Phys
link_pool pool p =
    let m = store p.mem (prev_at p.pool_4kib) pool in
    let m = store m (next_at pool) p.pool_4kib in
    let m = store m (prev_at pool) 0 in
    record p { pool_4kib = pool; mem = store m (on_list_at pool) 1 }

-- Takes the pool out of the list, resets it and gives its chunk back.
unfoldable pub release_pool : ℕ → Phys → Phys
unfolding unlink_pool pool_init phys_free_2mib
release_pool pool p =
    let p1 = unlink_pool pool p in phys_free_2mib pool (record p1 { mem = pool_init pool p1.mem })

-- What `phys_free_4KIB` does with the pool of the page that came back.
unfoldable pub settle_pool : ℕ → Phys → Result Phys
unfolding pool_full link_pool release_pool
settle_pool pool p =
    if p.mem (on_list_at pool) == 0
    then ok (link_pool pool p)
    else pool_full pool p.mem >>= λ full. ok (if full then release_pool pool p else p)

unfoldable pub phys_free_4kib : ℕ → Phys → Result Phys
unfolding pool_free settle_pool
phys_free_4kib ptr p =
    let address = phys_to_virt ptr in
    let pool = mask_2mib address in
    do
      m ← pool_free pool address p.mem
      assert (not (p.pool_4kib == 0))
      settle_pool pool (record p { mem = m })
