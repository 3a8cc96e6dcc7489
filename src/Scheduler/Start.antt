-- ===== src/Scheduler/Start.antt =====
-- kernel/src/kernel/scheduler/scheduler.c: create_init_process, up to the jump to the process.
-- `init_location` is where the kernel's image ends, and `one_ms` what timer_one_ms returns.
mod Tests
use bikeshed.Prelude.{ℕ, ◌*◌, ◌+◌, ◌^◌, ◌≡◌, ◌≢◌, ◌==◌, if◌then◌else◌, take, [], ◌∷◌}
use bikeshed.Machine.{Result, ok, panic, assert, ◌>>=◌, ◌>>◌}
use bikeshed.PhysAlloc.{Phys}
use bikeshed.Paging.Clone.{virt_clone_mapping}
use bikeshed.Scheduler.{
  Pcb, ready, switch_page_table, set_delay, start_timer, set_pcb, Sched, alloc_pcb, u32,
}
use bikeshed.Scheduler.Dispatch.{Armed}
use bikeshed.Addresses.{kib4}
use bikeshed.Interrupts.{Tss, tss_set_context_stack}
use bikeshed.Elf.{e_entry, elf_create_process, context_stack_location}
use bikeshed.Elf.Header.{IsExecutable}
use bikeshed.Elf.Loaded.{Loaded, HasContext}

-- The state when the process begins to run.
abbrev pub running : (pcb one_ms : ℕ) → Pcb → Sched → Sched
running pcb one_ms process s = record s {
  pcbs = set_pcb s.pcbs pcb process;
  current_pcb = pcb;
  one_ms = one_ms;
  prev_ticks = 10;
  quantum_left = 10;
  events =
      start_timer ∷ set_delay (u32 (10 * one_ms)) ∷ switch_page_table process.page_table ∷ s.events;
}

unfoldable pub create_init_process :
    (init_location one_ms : ℕ) → Sched → Tss → Phys → Result (Sched × Tss × Phys)
create_init_process init_location one_ms s tss p = do
  (pcb, s1) ← alloc_pcb s
  (new_page_table, p1) ← virt_clone_mapping s.kernel_table p
  let process = record (s1.pcbs pcb) { page_table = new_page_table; state = ready }
  r ← elf_create_process s.kernel_table process init_location new_page_table p1
  assert (r.0 == 0)
  ok (running pcb one_ms r.1 s1, tss_set_context_stack (context_stack_location + kib4) tss, r.2)

-- What runs first: the file at `init_location` is an executable with an entry point once the
-- kernel's address space is cloned, the current process has the clone, and at 0x2001f50, in a page
-- mapped in that address space, the context of a user program that begins at the entry point; it is
-- ready, interrupts find the stack above the context, and the timer is armed for a whole quantum of
-- 10 ms.
pub record IsStarted (init_location one_ms : ℕ) (s s' : Sched) (t t' : Tss) (p p' : Phys)
    : Type 0 where
  pub cloned : Phys
  pub clone : virt_clone_mapping s.kernel_table p ≡ ok ((s'.pcbs s'.current_pcb).page_table, cloned)
  pub executable : IsExecutable init_location cloned.mem
  pub entry : e_entry cloned.mem init_location ≢ 0
  pub context : (s'.pcbs s'.current_pcb).context ≡ 0x2001f50
  pub state : (s'.pcbs s'.current_pcb).state ≡ ready
  pub registers : HasContext (s'.pcbs s'.current_pcb).page_table init_location p'.mem
  pub kernel_stack : t' ≡ record t { rsp0 = 0x2002000 }
  pub quantum : s'.quantum_left ≡ 10
  pub clock : s'.one_ms ≡ one_ms
  pub armed : Armed 10 s'
