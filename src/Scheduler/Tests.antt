-- ===== src/Scheduler/Tests.antt =====
-- The theorems on the scheduler at one ready process behind a process whose quantum has ended, at
-- two sleepers, and at a start from a mark of which nothing has to be mapped.
use bikeshed.Prelude.{
  ◌∷◌, ℕ, zero, suc, ◌+◌, ◌-◌, ◌<◌, ◌≤◌, ◌≡◌, refl, true, false, ◌==◌, if◌then◌else◌, [], arith,
}
use bikeshed.Machine.{store, Result, ok, panic}
use bikeshed.Stack.{stack, stack_empty, stack_push, stack_pop}
use bikeshed.BlockAllocator.{BlockAllocator, block_alloc, block_free}
use bikeshed.Queue.Prio.{prio_split}
use bikeshed.Queue.{
  Queue, queue_init, queue_enqueue, queue_enqueue_prio, queue_dequeue, queue_empty, queue_peek,
}
use bikeshed.Scheduler.{
  Pcbs, ready, sleeping, sleep_insert, Sched, new_node, enqueue_ready, schedule, get_next_sleep,
  take_next, run_pcb, pick_from, pick, retire, spend_quantum, resume_or_pick, dispatch,
}
use bikeshed.Scheduler.Dispatch.{Armed, dispatch-Armed}
use bikeshed.Scheduler.Sleep.{delta_sum, before, sleep_insert-walk}
use bikeshed.Scheduler.Late.{queue_enqueue_prio-late}
use bikeshed.Stack.Refine.{Linked}
use bikeshed.Queue.Refine.{IsQueue}
use bikeshed.Scheduler.Ready.{front, pick-front}
use bikeshed.Scheduler.Init.{Region, Started}
use bikeshed.WaterMark.{WaterMark}
use bikeshed.PhysAlloc.{Phys}
use bikeshed.WaterMark.Blocks

-- Eight nodes of 24 bytes from 2048 on; the first holds the process at 8192.
abbrev nodes : BlockAllocator
nodes = record {
  base = 2048;
  max_address = 2240;
  implicit_next = 2072;
  block_size = 24;
  free_stack = stack 0 0;
}

abbrev waiting : Queue
waiting = record { size = 1; head = 2048; tail = 2048 }

abbrev process : Pcbs
process p = record {
  context = 0;
  page_table = p;
  sleep_time = 0;
  pid = 1;
  ppid = 0;
  state = ready;
  priority = 1;
}

-- The process at 4096 runs and has 3 ms left.
abbrev busy : Sched
busy = record {
  mem = store (λ a. 0) 2056 8192;
  pcbs = process;
  pcbs_at = 4096;
  ba_pcbs = nodes;
  qnodes_at = 2000;
  ba_qnodes = nodes;
  queues = λ i. if i == 1 then waiting else queue_init;
  sleep_queue = queue_init;
  current_pcb = 4096;
  kernel_table = 0;
  prev_ticks = 10;
  quantum_left = 3;
  one_ms = 1;
  events = [];
}

abbrev outcome : Result Sched → Sched
outcome (ok s) = s
outcome panic = busy

dispatched : dispatch 3 busy ≡ ok (outcome (dispatch 3 busy))
unfolding dispatch retire spend_quantum schedule new_node enqueue_ready get_next_sleep
    resume_or_pick pick pick_from take_next run_pcb block_alloc block_free stack_empty stack_push
    stack_pop queue_init queue_enqueue queue_dequeue queue_empty queue_peek
dispatched = refl

dispatch-Armed_example :
    let t = outcome (dispatch 3 busy) in
    Armed t.prev_ticks t × (0 < t.prev_ticks) × (t.prev_ticks ≤ 10)
dispatch-Armed_example = dispatch-Armed 3 busy (outcome (dispatch 3 busy)) (omega arith) dispatched

picked : pick 4 0 busy ≡ ok (outcome (pick 4 0 busy))
unfolding pick pick_from take_next run_pcb block_free stack_empty stack_push queue_init
    queue_dequeue queue_empty
picked = refl

first_queue_empty : (x : ℕ) → 0 ≤ x → x < 0 + 1 → queue_empty (busy.queues x) ≡ true
unfolding queue_empty queue_init
first_queue_empty zero h h' = refl
first_queue_empty (suc x) h h' = absurd (omega arith)

second_queue_waits : queue_empty (busy.queues (0 + 1)) ≡ false
unfolding queue_empty
second_queue_waits = refl

pick-front_example : (outcome (pick 4 0 busy)).current_pcb ≡ front 1 busy
pick-front_example =
    pick-front 4 0 1 busy (outcome (pick 4 0 busy)) first_queue_empty second_queue_waits refl picked

-- The processes at 4096 and 8192 sleep 10 ms and 30 ms, and the one at 12288 is to sleep 20 ms.
abbrev sleepers : Pcbs
sleepers p = record (process p) { state = sleeping; sleep_time = if p == 4096 then 10 else 20 }

abbrev sleeper_nodes : ℕ → ℕ
sleeper_nodes = store (store (store (λ a. 0) 2056 4096) 2080 8192) 2104 12288

sleep_insert-walk_example :
    let ((passed, rest), t') =
      prio_split sleep_insert sleeper_nodes 12288 (2048 ∷ 2072 ∷ []) sleepers in
    (delta_sum sleeper_nodes t' passed + (t' 12288).sleep_time ≡ 20)
    × (delta_sum sleeper_nodes t' passed ≡ delta_sum sleeper_nodes sleepers passed)
    × (delta_sum sleeper_nodes t' rest + before rest (t' 12288).sleep_time
        ≡ delta_sum sleeper_nodes sleepers rest)
sleep_insert-walk_example =
    sleep_insert-walk sleeper_nodes 12288 (2048 ∷ 2072 ∷ []) sleepers refl (refl, (refl, tt))

-- The queue of the two sleepers' nodes.
abbrev sleeper_links : ℕ → ℕ
sleeper_links = store sleeper_nodes 2048 2072

abbrev sleeper_queue : Queue
sleeper_queue = record { size = 2; head = 2048; tail = 2072 }

sleeper_queue-IsQueue : IsQueue sleeper_links sleeper_queue (2048 ∷ 2072 ∷ [])
sleeper_queue-IsQueue = ground arith

stopped :
    (prio_split sleep_insert sleeper_links 12288 (2048 ∷ 2072 ∷ []) sleepers).0
    ≡ (2048 ∷ [], 2072 ∷ [])
unfolding prio_split sleep_insert
stopped = refl

queue_enqueue_prio-late_example :
    let ((q', m'), t') =
      queue_enqueue_prio sleep_insert sleeper_queue 2096 sleeper_links sleepers in
    Linked m' q'.head (2048 ∷ 2072 ∷ 2096 ∷ [])
    × (delta_sum sleeper_links t' (2048 ∷ 2072 ∷ 2096 ∷ []) ≡ 20 + (t' 8192).sleep_time)
queue_enqueue_prio-late_example =
    queue_enqueue_prio-late sleeper_links sleeper_queue 2096 2048 2072 [] [] (2048 ∷ 2072 ∷ [])
      sleepers sleeper_queue-IsQueue (omega arith) refl (omega arith) refl (refl, (refl, tt))
      stopped

abbrev mark : WaterMark
mark = record {
  page_address = 0x200000;
  current_address = 0x3ff000;
  current_size = 0x1000;
  max_size = 0x200000;
}

abbrev no_memory : Phys
no_memory = record { stack_2mib = stack 0 0; pool_4kib = 0; mem = λ a. 0 }

-- The blocks of size `block_size` from `at` to `end`, and the mark there.
abbrev region_at : (at end block_size : ℕ) → Region
region_at at end block_size = record {
  at = at;
  blocks = record {
    base = at + 48;
    max_address = end;
    implicit_next = at + 48;
    block_size = block_size;
    free_stack = stack 0 0;
  };
  water_mark = record {
    page_address = 0x200000;
    current_address = at;
    current_size = 0x400000 - at;
    max_size = 0x200000;
  };
  phys = no_memory;
}

abbrev started : Started
started = record {
  pcbs = region_at 4149200 4190208 40;
  qnodes = region_at 4116416 4149200 16;
  queues = λ i. queue_init;
  sleep_queue = queue_init;
}
