-- ===== src/Queue/Tests.antt =====
-- The theorems on queues at a concrete queue of two nodes.
use bikeshed.Prelude.{ℕ, ◌≡◌, refl, Bool, ltb, List, [], ◌∷◌, arith}
use bikeshed.Machine.{Mem, store}
use bikeshed.Stack.Refine.{Linked}
use bikeshed.Queue.{Queue, queue_enqueue_prio}
use bikeshed.Queue.Refine.{IsQueue}
use bikeshed.Stack.Runs.{Op, put, take}
use bikeshed.Queue.Runs.{AllFree, run, run_list, run-fifo}
use bikeshed.Queue.Prio.{prio_split, placed, queue_enqueue_prio-placed}

-- The node at 64 (data 10) leads to the one at 128 (data 20); the node at 192 has data 15.
abbrev linked_mem : Mem
linked_mem = store (store (store (store (store (λ a. 0) 64 128) 72 10) 128 0) 136 20) 200 15

abbrev two_nodes : Queue
two_nodes = record { size = 2; head = 64; tail = 128 }

-- Past smaller data.
abbrev past_smaller : ℕ → ℕ → ℕ → Bool × ℕ
past_smaller a b calls = (ltb b a, calls)

two_nodes-IsQueue : IsQueue linked_mem two_nodes (64 ∷ 128 ∷ [])
two_nodes-IsQueue = ground arith

-- A dequeue, two enqueues, and one dequeue more than there are nodes. The node at 64 comes again.
abbrev puts_and_takes : List Op
puts_and_takes = take ∷ put 192 ∷ put 64 ∷ take ∷ take ∷ take ∷ take ∷ []

puts_and_takes-AllFree : AllFree puts_and_takes (64 ∷ 128 ∷ [])
unfolding AllFree
puts_and_takes-AllFree = (
  record { not_null = omega arith; out = refl; small = omega arith },
  (record { not_null = omega arith; out = refl; small = omega arith }, tt),
)

run-fifo_example :
    let out = run puts_and_takes two_nodes linked_mem in
    (out.0 ≡ 64 ∷ 128 ∷ 192 ∷ 64 ∷ 0 ∷ []) × IsQueue out.1.1 out.1.0 []
unfolding run_list
run-fifo_example =
    run-fifo puts_and_takes linked_mem two_nodes (64 ∷ 128 ∷ []) two_nodes-IsQueue
      puts_and_takes-AllFree

-- The node with data 15 comes behind the one with data 20.
queue_enqueue_prio-placed_example :
    let split = prio_split past_smaller linked_mem 15 (64 ∷ 128 ∷ []) 0 in
    let out = queue_enqueue_prio past_smaller two_nodes 192 linked_mem 0 in
    Linked out.0.1 out.0.0.head (placed split.0.0 split.0.1 192)
    × (out.0.0.size ≡ 3)
    × (out.1 ≡ split.1)
queue_enqueue_prio-placed_example =
    queue_enqueue_prio-placed past_smaller linked_mem two_nodes (64 ∷ 128 ∷ []) 192 0
      two_nodes-IsQueue (omega arith) refl (omega arith)
