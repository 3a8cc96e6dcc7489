-- ===== src/Queue.antt =====
-- kernel/src/kernel/data_structures/queue.c and queue.h: a queue of linked nodes. A node's first
-- word is its `next` pointer and its second its data; NULL is 0.
pub mod Refine
pub mod Runs
mod Tests
pub mod Prio
use bikeshed.Prelude.{ℕ, zero, suc, ◌+◌, ◌-◌, ◌%◌, Bool, true, false, ◌==◌, if◌then◌else◌}
use bikeshed.Machine.{Mem, store, word}

pub record Queue : Type 0 where
  pub size : ℕ
  pub head : ℕ
  pub tail : ℕ

abbrev pub data_at : ℕ → ℕ
data_at node = node + 8

unfoldable pub queue_init : Queue
queue_init = record { size = 0; head = 0; tail = 0 }

unfoldable pub queue_enqueue : Queue → ℕ → Mem → Queue × Mem
queue_enqueue q node m =
    let m1 = store m node 0 in
    if q.size == 0
    then (record { size = (q.size + 1) % word; head = node; tail = node }, m1)
    else (record q { size = (q.size + 1) % word; tail = node }, store m1 q.tail node)

-- The walk of `queue_enqueue_prio`: past every node whose data compares smaller. The comparison
-- may change a state `S`; its result is "greater than 0". The fuel bounds the nodes passed.
unfoldable pub prio_walk : {S : Type 0} (cmp : ℕ → ℕ → S → Bool × S) → Mem → ℕ → ℕ → ℕ → S → ℕ × S
prio_walk cmp m zero node_data other s = (other, s)
prio_walk cmp m (suc fuel) node_data other s =
    let (greater, s') = cmp node_data (m (data_at other)) s in
    let rest = prio_walk cmp m fuel node_data (m other) s' in
    if other == 0 then (other, s) else if greater then rest else (other, s')

-- Where the node goes when the walk has stopped at `other`.
unfoldable pub prio_link : Queue → ℕ → ℕ → Mem → Queue × Mem
prio_link q node other m =
    let size = (q.size + 1) % word in
    if other == 0
    then (record q { size = size; tail = node }, store (store m node 0) q.tail node)
    else if other == q.head
    then (record q { size = size; head = node }, store m node q.head)
    else (record q { size = size }, (let m1 = store m node (m other) in store m1 other node))

-- The size is fuel enough: the chain from the head has that many nodes.
unfoldable pub queue_enqueue_prio :
    {S : Type 0} (cmp : ℕ → ℕ → S → Bool × S) → Queue → ℕ → Mem → S → (Queue × Mem) × S
queue_enqueue_prio cmp q node m s =
    let (other, s') = prio_walk cmp m q.size (m (data_at node)) q.head s in
    if q.size == 0 then (queue_enqueue q node m, s) else (prio_link q node other m, s')

-- The dequeued node (0 if there is none) and the queue that is left.
unfoldable pub queue_dequeue : Queue → Mem → ℕ × Queue
queue_dequeue q m =
    if q.size == 0 then (0, q) else (q.head, record q { size = q.size - 1; head = m q.head })

unfoldable pub queue_empty : Queue → Bool
queue_empty q = q.size == 0

unfoldable pub queue_size : Queue → ℕ
queue_size q = q.size

unfoldable pub queue_peek : Queue → ℕ
queue_peek q = if q.size == 0 then 0 else q.head
