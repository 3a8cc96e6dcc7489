-- ===== src/Scheduler.antt =====
-- kernel/src/kernel/scheduler/scheduler.c and pcb.h: the ready queues, the sleep queue and the
-- dispatcher. Queue nodes live in the word memory; PCBs are records at their addresses. What the
-- scheduler does to the timer and to the page tables is a list of events, newest first.
pub mod Start
pub mod Ready
pub mod Sleep
pub mod Late
pub mod Init
pub mod Dispatch
mod Tests
use bikeshed.Prelude.{
  ℕ, zero, suc, ◌+◌, ◌-◌, ◌*◌, ◌/◌, ◌%◌, ◌^◌, Bool, true, false, ◌&&◌, ◌||◌, ◌==◌, ltb, leb, not,
  if◌then◌else◌, List, [], ◌∷◌,
}
use bikeshed.Machine.{Mem, store, word, Result, ok, panic, assert, ◌>>=◌, ◌>>◌}
use bikeshed.Queue.{
  Queue, data_at, queue_init, queue_enqueue, queue_enqueue_prio, queue_dequeue, queue_empty,
  queue_peek,
}
use bikeshed.BlockAllocator.{BlockAllocator, block_alloc, block_free}

pub data State : Type 0 where
  ready running sleeping killed : State

pub record Pcb : Type 0 where
  pub context : ℕ
  pub page_table : ℕ
  pub sleep_time : ℕ
  pub pid : ℕ
  pub ppid : ℕ
  pub state : State
  pub priority : ℕ

pub data Event : Type 0 where
  switch_page_table : ℕ → Event
  cleanup_table : ℕ → Event
  set_delay : ℕ → Event
  start_timer : Event

abbrev pub num_queues : ℕ
num_queues = 4

abbrev pub normal : ℕ
normal = 1

abbrev pub Pcbs : Type 0
Pcbs = ℕ → Pcb

abbrev pub set_pcb : Pcbs → ℕ → Pcb → Pcbs
set_pcb t p x q = if q == p then x else t q

-- `pcbs_at` and `qnodes_at` are the addresses of the two allocators.
pub record Sched : Type 0 where
  pub mem : Mem
  pub pcbs : Pcbs
  pub pcbs_at : ℕ
  pub ba_pcbs : BlockAllocator
  pub qnodes_at : ℕ
  pub ba_qnodes : BlockAllocator
  pub queues : ℕ → Queue
  pub sleep_queue : Queue
  pub current_pcb : ℕ
  pub kernel_table : ℕ
  pub prev_ticks : ℕ
  pub quantum_left : ℕ
  pub one_ms : ℕ
  pub events : List Event

abbrev pub set_queue : (ℕ → Queue) → ℕ → Queue → ℕ → Queue
set_queue f i q j = if j == i then q else f j

unfoldable pub alloc_pcb : Sched → Result (ℕ × Sched)
alloc_pcb s =
    let (pcb, ba) = block_alloc s.ba_pcbs s.mem in
    if pcb == 0
    then panic
    else ok (
      pcb,
      record s {
        ba_pcbs = ba;
        pcbs = set_pcb s.pcbs pcb (record (s.pcbs pcb) { state = ready; priority = normal });
      },
    )

unfoldable pub free_pcb : ℕ → Sched → Result Sched
free_pcb pcb s = do
  (ba, m) ← block_free s.pcbs_at s.ba_pcbs pcb s.mem
  ok (record s { ba_pcbs = ba; mem = m })

unfoldable pub cleanup_pcb : ℕ → Sched → Sched
cleanup_pcb pcb s = record s {
  events = cleanup_table (s.pcbs pcb).page_table ∷ switch_page_table s.kernel_table ∷ s.events;
  pcbs = set_pcb s.pcbs pcb (record (s.pcbs pcb) { state = killed });
}

-- The comparison of the sleep queue: the times of sleepers are stored as differences, and the
-- comparison adjusts them.
unfoldable pub sleep_insert : ℕ → ℕ → Pcbs → Bool × Pcbs
sleep_insert p1 p2 t =
    if leb (t p1).sleep_time (t p2).sleep_time
    then (
      false,
      set_pcb t p2 (record (t p2) { sleep_time = (t p2).sleep_time - (t p1).sleep_time }),
    )
    else (true, set_pcb t p1 (record (t p1) { sleep_time = (t p1).sleep_time - (t p2).sleep_time }))

-- A queue node that holds `pcb`.
unfoldable pub new_node : ℕ → Sched → Result (ℕ × Sched)
new_node pcb s =
    let (node, ba) = block_alloc s.ba_qnodes s.mem in
    if node == 0
    then panic
    else ok (node, record s { ba_qnodes = ba; mem = store s.mem (data_at node) pcb })

unfoldable pub enqueue_ready : ℕ → ℕ → Sched → Sched
enqueue_ready pcb node s =
    let i = (s.pcbs pcb).priority in
    let (q, m) = queue_enqueue (s.queues i) node s.mem in
    record s { queues = set_queue s.queues i q; mem = m }

unfoldable pub enqueue_sleeping : ℕ → Sched → Sched
enqueue_sleeping node s =
    let ((q, m), t) = queue_enqueue_prio sleep_insert s.sleep_queue node s.mem s.pcbs in
    record s { sleep_queue = q; mem = m; pcbs = t }

unfoldable pub schedule : ℕ → Sched → Result Sched
schedule pcb s = elim ((s.pcbs pcb).state) [
  | ready ↦ do
    (node, s') ← new_node pcb s
    assert (ltb (s.pcbs pcb).priority num_queues)
    ok (enqueue_ready pcb node s')
  | sleeping ↦ do (node, s') ← new_node pcb s; ok (enqueue_sleeping node s')
  | _ ↦ panic
]

-- `uint32_t` truncation.
abbrev pub u32 : ℕ → ℕ
u32 x = x % 2 ^ 32

unfoldable pub drop_sleeper : Sched → Result Sched
drop_sleeper s = do
  let (node, q) = queue_dequeue s.sleep_queue s.mem
  (ba, m) ← block_free s.qnodes_at s.ba_qnodes node s.mem
  ok (record s { sleep_queue = q; ba_qnodes = ba; mem = m })

unfoldable pub first_sleeper : Sched → ℕ
first_sleeper s = s.mem (data_at (queue_peek s.sleep_queue))

-- The time to the next wake-up (0 if nobody sleeps).
unfoldable pub get_next_sleep : ℕ → Sched → Result (ℕ × Sched)
get_next_sleep tick_span s =
    let pcb = first_sleeper s in
    let p = s.pcbs pcb in
    let woken = record s {
      pcbs = set_pcb s.pcbs pcb (record p { state = ready; sleep_time = 0 });
    } in
    let later = p.sleep_time - tick_span in
    if queue_empty s.sleep_queue
    then ok (0, s)
    else if leb p.sleep_time tick_span
    then (do
      s1 ← schedule pcb woken
      s2 ← drop_sleeper s1
      ok (
        if queue_empty s2.sleep_queue then 0 else u32 (s2.pcbs (first_sleeper s2)).sleep_time,
        s2,
      ))
    else ok (u32 later, record s { pcbs = set_pcb s.pcbs pcb (record p { sleep_time = later }) })

abbrev pub emit : List Event → Sched → Sched
emit es s = record s { events = es }

-- The process at the front of a ready queue gets the processor.
unfoldable pub run_pcb : ℕ → Sched → Sched
run_pcb next s = record s {
  current_pcb = next;
  events =
      start_timer
      ∷ set_delay (u32 (s.prev_ticks * s.one_ms))
      ∷ switch_page_table (s.pcbs next).page_table
      ∷ s.events;
}

-- What one round of the inner loop of the choice found.
pub data Choice : Type 0 where
  none_left chosen freed : Choice

unfoldable pub take_next : ℕ → Sched → Result (Choice × Sched)
take_next i s =
    let (node, q) = queue_dequeue (s.queues i) s.mem in
    let next = s.mem (data_at node) in
    if queue_empty (s.queues i) then ok (none_left, s) else (do
      assert (not (node == 0))
      (ba, m) ← block_free s.qnodes_at s.ba_qnodes node s.mem
      let s' = record s { queues = set_queue s.queues i q; ba_qnodes = ba; mem = m }
      elim ((s.pcbs next).state) [
        | killed ↦ free_pcb next s' >>= λ t. ok (freed, t)
        | ready ↦ ok (chosen, run_pcb next s')
        | _ ↦ panic
      ])

abbrev pub after_round : (Sched → Result (Bool × Sched)) → Choice × Sched → Result (Bool × Sched)
after_round again (none_left, t) = ok (false, t)
after_round again (chosen, t) = ok (true, t)
after_round again (freed, t) = again t

-- The inner loop, with the queue's size for fuel: killed processes are freed, a ready one is
-- run; false if the queue ran empty.
unfoldable pub pick_from : ℕ → ℕ → Sched → Result (Bool × Sched)
pick_from zero i s = ok (false, s)
pick_from (suc fuel) i s = take_next i s >>= after_round (λ t. pick_from fuel i t)

abbrev pub after_queue : (Sched → Result Sched) → Bool × Sched → Result Sched
after_queue again (true, t) = ok t
after_queue again (false, t) = again t

-- The loop over the queues, from `i` on.
unfoldable pub pick : ℕ → ℕ → Sched → Result Sched
pick zero i s = panic
pick (suc n) i s = pick_from (s.queues i).size i s >>= after_queue (λ t. pick n (suc i) t)

-- The process that ran is cleaned up, put in a queue, or goes on.
unfoldable pub retire : Sched → Result Sched
retire s =
    let away = λ (t : Sched). record t { current_pcb = 0; quantum_left = 10 } in
    let requeued = schedule s.current_pcb s >>= λ t. ok (away t) in
    elim ((s.pcbs s.current_pcb).state) [
      | killed ↦ ok (away (cleanup_pcb s.current_pcb s))
      | sleeping ↦ requeued
      | _ ↦ if s.quantum_left == 0 then requeued else ok s
    ]

unfoldable pub spend_quantum : ℕ → Sched → Sched
spend_quantum tick_span s = record s {
  quantum_left = if ltb s.quantum_left tick_span then 0 else s.quantum_left - tick_span;
}

-- Goes on with the current process, or chooses another.
unfoldable pub resume_or_pick : Sched → Result Sched
resume_or_pick s =
    if s.current_pcb == 0 then assert (ltb 0 s.prev_ticks) >> pick num_queues 0 s else (do
      assert (not (s.quantum_left == 0))
      ok (emit (start_timer ∷ set_delay (u32 (s.prev_ticks * s.one_ms)) ∷ s.events) s))

-- `elapsed` is what `timer_get_elapsed` returns.
unfoldable pub dispatch : ℕ → Sched → Result Sched
dispatch elapsed s = do
  let tick_span = u32 (elapsed / s.one_ms)
  s1 ← retire (spend_quantum tick_span s)
  let s2 = record s1 { prev_ticks = s1.quantum_left }
  (next_wakeup, s3) ← get_next_sleep tick_span s2
  let sooner = ltb 0 next_wakeup && ltb next_wakeup s3.quantum_left
  resume_or_pick (record s3 { prev_ticks = if sooner then next_wakeup else s3.prev_ticks })

unfoldable pub sleep_pcb : ℕ → ℕ → ℕ → Sched → Result Sched
sleep_pcb pcb time elapsed s =
    if time == 0
    then dispatch elapsed s
    else dispatch elapsed (record s {
      pcbs = set_pcb s.pcbs pcb (record (s.pcbs pcb) { state = sleeping; sleep_time = time });
    })

unfoldable pub timer_interrupt : ℕ → Sched → Result Sched
timer_interrupt elapsed s = dispatch elapsed s
