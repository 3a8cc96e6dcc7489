-- ===== src/BlockAllocator/Invariant.antt =====
-- The representation invariant of a block allocator, with the blocks in use as a ghost list.
use bikeshed.Prelude.{ℕ, ◌+◌, ◌*◌, ◌<◌, ◌≤◌, ◌≡◌, List, length, Distinct, Apart, All}
use bikeshed.Machine.{Mem, word}
use bikeshed.Stack.Refine.{IsStack}
use bikeshed.BlockAllocator.{BlockAllocator, sizeof_block_allocator, sizeof_stack_node}

-- `a` is one of the first `k` blocks.
abbrev pub IsBlock : BlockAllocator → ℕ → ℕ → Type 0
IsBlock ba k a = (i : ℕ) × (i < k) × (a ≡ ba.base + i * ba.block_size)

-- Of `total` blocks the first `used` have been handed out; of those `free` came back and
-- `live` are in use, none twice.
pub record IsValid (m : Mem) (ba : BlockAllocator) (used total : ℕ) (free live : List ℕ)
    : Type 0 where
  pub stack : IsStack m ba.free_stack free
  pub after_header : sizeof_block_allocator ≤ ba.base
  pub room : sizeof_stack_node ≤ ba.block_size
  pub next : ba.implicit_next ≡ ba.base + used * ba.block_size
  pub end : ba.max_address ≡ ba.base + total * ba.block_size
  pub in_word : ba.base + total * ba.block_size < word
  pub within : used ≤ total
  pub counted : length free + length live ≡ used
  pub free_distinct : Distinct free
  pub live_distinct : Distinct live
  pub apart : Apart free live
  pub free_blocks : All (IsBlock ba used) free
  pub live_blocks : All (IsBlock ba used) live
