-- ===== src/Syscalls/Tests.antt =====
-- The theorems on the system calls at a kernel with one running and one ready process.
use bikeshed.Prelude.{ℕ, ◌+◌, ◌≤◌, ◌≡◌, ◌≢◌, refl, ◌==◌, if◌then◌else◌, [], ◌∷◌, arith}
use bikeshed.Machine.{Mem, store, ok, panic}
use bikeshed.Addresses.{phys_to_virt}
use bikeshed.Stack.{stack, stack_empty, stack_push, stack_pop}
use bikeshed.BlockAllocator.{BlockAllocator, block_free}
use bikeshed.Queue.{queue_init, queue_dequeue, queue_empty, queue_peek}
use bikeshed.Paging.{virt_lookup_phys, lookup_in_directory}
use bikeshed.Scheduler.{
  Pcbs, ready, Sched, cleanup_pcb, get_next_sleep, take_next, run_pcb, pick_from, pick, retire,
  spend_quantum, resume_or_pick, dispatch,
}
use bikeshed.Keyboard.{Keyboard}
use bikeshed.Keyboard.Ring.{Slots, IsRing}
use bikeshed.Syscalls.{Kernel, rax_at, exit, syscall_interrupt}
use bikeshed.Syscalls.Served.{Calls, syscall_interrupt-key}
use bikeshed.Syscalls.Exit.{cleanups, exit-cleanups}

-- Eight nodes of 24 bytes from 2048 on; the first holds the process at 8192.
abbrev nodes : BlockAllocator
nodes = record {
  base = 2048;
  max_address = 2240;
  implicit_next = 2072;
  block_size = 24;
  free_stack = stack 0 0;
}

-- Every process has its page table at its own address and its context at 0.
abbrev processes : Pcbs
processes p = record {
  context = 0;
  page_table = p;
  sleep_time = 0;
  pid = 1;
  ppid = 0;
  state = ready;
  priority = 1;
}

abbrev scheduler : Sched
scheduler = record {
  mem = store (λ a. 0) 2056 8192;
  pcbs = processes;
  pcbs_at = 4096;
  ba_pcbs = nodes;
  qnodes_at = 2000;
  ba_qnodes = nodes;
  queues = λ i. if i == 1 then record { size = 1; head = 2048; tail = 2048 } else queue_init;
  sleep_queue = queue_init;
  current_pcb = 4096;
  kernel_table = 0;
  prev_ticks = 10;
  quantum_left = 3;
  one_ms = 1;
  events = [];
}

-- The four tables of the process at 4096, which map its context at 0 to 0x9000; r10 there is the
-- number of the call.
abbrev memory : ℕ → Mem
memory number =
    store
      (store
        (store (store (store (λ a. 0) (phys_to_virt 0x1000) 0x2003) (phys_to_virt 0x2000) 0x3003)
          (phys_to_virt 0x3000) 0x4003)
        (phys_to_virt 0x4000) 0x9003)
      (phys_to_virt 0x9000 + 72) number

abbrev one_key : Keyboard
one_key = record {
  buffer = λ i. b'k';
  next_index = 1;
  last_index = 0;
  buffer_size = 1;
  shiftdown = 0;
  ctrl_mask = 0xff;
  console = record {
    text = λ i. 0;
    page_offset = 0;
    video = λ i. (0, 0);
    write_x = 0;
    write_y = 0;
  };
}

abbrev calling : ℕ → Kernel
calling number = record {
  sched = scheduler;
  phys = record { stack_2mib = stack 0 0; pool_4kib = 0; mem = memory number };
  keyboard = one_key;
}

calling-key : Calls 6 0x9000 (calling 6)
unfolding virt_lookup_phys lookup_in_directory phys_to_virt
calling-key = record { runs = refl; mapped = refl; number_here = refl }

one_key-IsRing : IsRing one_key (b'k' ∷ [])
unfolding Slots
one_key-IsRing = record {
  size = refl;
  fits = omega arith;
  last = omega arith;
  next = refl;
  slots = (refl, tt);
}

syscall_interrupt-key_example :
    (k' : Kernel) × (syscall_interrupt 0 (calling 6) ≡ ok k')
    × IsRing k'.keyboard []
    × (k'.phys.mem (phys_to_virt 0x9000 + rax_at) ≡ b'k')
    × ((a : ℕ) → a ≢ phys_to_virt 0x9000 + rax_at → k'.phys.mem a ≡ memory 6 a)
    × (k'.sched ≡ scheduler)
syscall_interrupt-key_example =
    syscall_interrupt-key 0x9000 0 b'k' [] (calling 6) calling-key one_key-IsRing

abbrev exited : Kernel
exited = elim (exit 0 (calling 2)) [ panic ↦ calling 2 | ok k ↦ k ]

exits : exit 0 (calling 2) ≡ ok exited
unfolding exit cleanup_pcb dispatch retire spend_quantum get_next_sleep resume_or_pick pick
    pick_from take_next run_pcb block_free stack_empty stack_push stack_pop queue_init queue_dequeue
    queue_empty queue_peek
exits = refl

exit-cleanups_example : cleanups 4096 scheduler.events + 2 ≤ cleanups 4096 exited.sched.events
exit-cleanups_example = exit-cleanups 0 (calling 2) exited exits
