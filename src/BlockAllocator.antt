-- ===== src/BlockAllocator.antt =====
-- kernel/src/kernel/data_structures/block.c and block.h: blocks of one size cut from a region.
-- Freed blocks go to a stack that lives in the blocks; the others are handed out in order.
-- Pointers are addresses; the object itself stands at `this`, and its fields are the record.
pub mod Invariant
pub mod Ops
mod Tests
use bikeshed.Prelude.{ℕ, ◌+◌, ◌-◌, ◌*◌, ◌/◌, ◌%◌, Bool, ◌&&◌, ◌||◌, ltb, leb, not, if◌then◌else◌}
use bikeshed.Machine.{Mem, word, Result, ok, panic, assert, ◌>>=◌, ◌>>◌}
use bikeshed.Stack.{Stack, stack_init, stack_empty, stack_push, stack_pop}

pub record BlockAllocator : Type 0 where
  pub base : ℕ
  pub max_address : ℕ
  pub implicit_next : ℕ
  pub block_size : ℕ
  pub free_stack : Stack

-- sizeof(BlockAllocator) and sizeof(StackNode).
abbrev pub sizeof_block_allocator : ℕ
sizeof_block_allocator = 48

abbrev pub sizeof_stack_node : ℕ
sizeof_stack_node = 8

unfoldable pub block_init : (address length block_size : ℕ) → Result BlockAllocator
unfolding stack_init
block_init address length block_size =
    let base = (address + sizeof_block_allocator) % word in
    let max_blocks = (length - sizeof_block_allocator) / block_size in
    if ltb length sizeof_block_allocator || ltb block_size sizeof_stack_node
    then panic
    else ok (record {
      base = base;
      max_address = (base + max_blocks * block_size) % word;
      implicit_next = base;
      block_size = block_size;
      free_stack = stack_init;
    })

-- The block (0 if there is none) and the allocator that is left.
unfoldable pub block_alloc : BlockAllocator → Mem → ℕ × BlockAllocator
unfolding stack_empty
block_alloc ba m =
    if not (stack_empty ba.free_stack)
    then (let (p, s) = stack_pop ba.free_stack m in (p, record ba { free_stack = s }))
    else if ltb ba.implicit_next ba.max_address
    then (ba.implicit_next, record ba { implicit_next = (ba.implicit_next + ba.block_size) % word })
    else (0, ba)

unfoldable pub block_free : (this : ℕ) → BlockAllocator → ℕ → Mem → Result (BlockAllocator × Mem)
block_free this ba ptr m = do
  assert (leb ((this + sizeof_block_allocator) % word) ptr && ltb ptr ba.max_address)
  let (s, m') = stack_push ba.free_stack ptr m
  ok (record ba { free_stack = s }, m')
