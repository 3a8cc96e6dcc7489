-- ===== src/Scheduler/Init.antt =====
-- kernel/src/kernel/scheduler/scheduler.c: scheduler_init, which takes the blocks of the processes
-- and of the queue nodes from the kernel's water mark allocator.
use bikeshed.Prelude.{ℕ, ◌+◌, ◌*◌, ◌≤◌, ◌≡◌, []}
use bikeshed.Machine.{Mem, Result, ok, ◌>>=◌}
use bikeshed.PhysAlloc.{Phys}
use bikeshed.BlockAllocator.{BlockAllocator, sizeof_block_allocator, block_init}
use bikeshed.BlockAllocator.Invariant.{IsValid}
use bikeshed.Queue.{Queue, queue_init}
use bikeshed.Queue.Refine.{IsQueue}
use bikeshed.WaterMark.{WaterMark, water_mark_alloc}
use bikeshed.WaterMark.Blocks.{IsBlock}

-- sizeof(PCB) and sizeof(QueueNode).
abbrev pub sizeof_pcb : ℕ
sizeof_pcb = 40

abbrev pub sizeof_queue_node : ℕ
sizeof_queue_node = 16

abbrev pub max_pcbs : ℕ
max_pcbs = 1024

abbrev pub max_queue_nodes : ℕ
max_queue_nodes = 2048

abbrev pub pcb_size_needed : ℕ
pcb_size_needed = sizeof_pcb * max_pcbs + sizeof_block_allocator

abbrev pub queue_node_size_needed : ℕ
queue_node_size_needed = sizeof_queue_node * max_queue_nodes + sizeof_queue_node

-- An allocator of blocks, where it stands, and what is left of the memory.
pub record Region : Type 0 where
  pub at : ℕ
  pub blocks : BlockAllocator
  pub water_mark : WaterMark
  pub phys : Phys

unfoldable pub make_blocks : (kernel_table size block_size : ℕ) → WaterMark → Phys → Result Region
make_blocks kernel_table size block_size wma p = water_mark_alloc kernel_table size wma p >>= λ r.
    block_init r.0.0 size block_size >>= λ ba.
    ok (record { at = r.0.0; blocks = ba; water_mark = r.0.1; phys = r.1 })

pub record Started : Type 0 where
  pub pcbs : Region
  pub qnodes : Region
  pub queues : ℕ → Queue
  pub sleep_queue : Queue

unfoldable pub scheduler_init : (kernel_table : ℕ) → WaterMark → Phys → Result Started
scheduler_init kernel_table wma p =
    make_blocks kernel_table pcb_size_needed sizeof_pcb wma p >>= λ pcbs.
    make_blocks kernel_table queue_node_size_needed sizeof_queue_node pcbs.water_mark pcbs.phys
    >>= λ qnodes. ok (record {
      pcbs = pcbs;
      qnodes = qnodes;
      queues = λ i. queue_init;
      sleep_queue = queue_init;
    })

-- A region of blocks below a water mark, with no block in use.
pub record IsRegion (location size total : ℕ) (wma : WaterMark) (r : Region) : Type 0 where
  pub mark : bikeshed.WaterMark.Blocks.IsValid location r.water_mark
  pub current : r.water_mark.current_address ≡ r.at
  pub below : r.at + size ≤ wma.current_address
  pub free : (m : Mem) → IsValid m r.blocks 0 total [] []

-- The state after scheduler_init from a water mark below `location`. The processes have 1024 free
-- blocks and the queue nodes 2046; the memory of the nodes ends at or below that of the processes,
-- and the queues are empty.
pub record IsStarted (location : ℕ) (wma : WaterMark) (s : Started) : Type 0 where
  pub pcbs_region : IsRegion location pcb_size_needed 1024 wma s.pcbs
  pub qnodes_region : IsRegion location queue_node_size_needed 2046 s.pcbs.water_mark s.qnodes
  pub apart : s.qnodes.at + queue_node_size_needed ≤ s.pcbs.at
  pub queues_empty : (m : Mem) (i : ℕ) → IsQueue m (s.queues i) []
  pub sleep_queue_empty : (m : Mem) → IsQueue m s.sleep_queue []
