-- ===== src/Scheduler/Start/Tests.antt =====
-- The theorem on create_init_process at a program without segments.
use bikeshed.Prelude.{ℕ, ◌+◌, ◌*◌, ◌==◌, if◌then◌else◌, []}
use bikeshed.Machine.{Result}
use bikeshed.Addresses.{kernel_base}
use bikeshed.Stack.{stack}
use bikeshed.BlockAllocator.{BlockAllocator}
use bikeshed.Queue.{queue_init}
use bikeshed.Klib
use bikeshed.Klib.Bytes
use bikeshed.PhysAlloc.{Phys}
use bikeshed.Interrupts.{Tss}
use bikeshed.Scheduler.{ready, Sched}
use bikeshed.Scheduler.Start.{create_init_process}

abbrev blocks : (at block_size : ℕ) → BlockAllocator
blocks at block_size = record {
  base = at;
  max_address = at + 8 * block_size;
  implicit_next = at;
  block_size = block_size;
  free_stack = stack 0 0;
}

abbrev before : Sched
before = record {
  mem = λ a. 0;
  pcbs = λ q. record {
    context = 0;
    page_table = 0;
    sleep_time = 0;
    pid = 0;
    ppid = 0;
    state = ready;
    priority = 0;
  };
  pcbs_at = 1000;
  ba_pcbs = blocks 1048 40;
  qnodes_at = 2000;
  ba_qnodes = blocks 2048 16;
  queues = λ i. queue_init;
  sleep_queue = queue_init;
  current_pcb = 0;
  kernel_table = 0x1000;
  prev_ticks = 0;
  quantum_left = 0;
  one_ms = 0;
  events = [];
}

-- A pool of pages at 0x200000, and behind the kernel an executable with its entry at 0x400000.
abbrev memory : Phys
memory = record {
  stack_2mib = stack 0 0;
  pool_4kib = kernel_base + 0x200000;
  mem = λ a.
      if a == kernel_base + 0x200010
      then kernel_base + 0x201000
      else if a == kernel_base + 0x200018
      then kernel_base + 0x400000
      else if a == kernel_base + 0x10000
      then 0x00010102464c457f
      else if a == kernel_base + 0x10010
      then 0x00000001003e0002
      else if a == kernel_base + 0x10018
      then 0x400000
      else 0;
}

abbrev task : Tss
task = record { io_map_base = 104; rsp0 = 0xffff800000100000; ist0 = 0xffff800000100000 }

abbrev start : Result (Sched × Tss × Phys)
start = create_init_process (kernel_base + 0x10000) 1000 before task memory
