-- ===== src/Stack.antt =====
-- kernel/src/kernel/data_structures/stack.c and stack.h: a stack whose nodes are the free
-- blocks themselves. A node's first word is its `next` pointer; NULL is 0.
pub mod Refine
pub mod Runs
mod Tests
use bikeshed.Prelude.{ℕ, ◌+◌, ◌-◌, ◌%◌, Bool, ◌==◌, if◌then◌else◌}
use bikeshed.Machine.{Mem, store, word}

pub record Stack : Type 0 where
  pub size : ℕ
  pub top : ℕ

abbrev pub stack : ℕ → ℕ → Stack
stack n p = record { size = n; top = p }

unfoldable pub stack_init : Stack
stack_init = stack 0 0

unfoldable pub stack_empty : Stack → Bool
stack_empty s = s.size == 0

unfoldable pub stack_push : Stack → ℕ → Mem → Stack × Mem
unfolding stack_empty
stack_push s node m =
    if stack_empty s
    then (stack 1 node, store m node 0)
    else (stack ((s.size + 1) % word) node, store m node s.top)

-- The popped node (0 if there is none) and the stack that is left.
unfoldable pub stack_pop : Stack → Mem → ℕ × Stack
unfolding stack_empty
stack_pop s m = if stack_empty s then (0, s) else (s.top, stack (s.size - 1) (m s.top))
