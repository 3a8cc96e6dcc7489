-- ===== src/Syscalls/Served.antt =====
-- kernel/src/kernel/syscalls/syscalls.c: the calls that answer at once, from the interrupt on.
use bikeshed.Prelude.{ℕ, ◌+◌, ◌<◌, ◌≡◌, ◌≢◌, ◌↔◌, refl, false, ◌==◌, arith, List, ◌∷◌, some}
use bikeshed.Machine.{ok, panic}
use bikeshed.Addresses.{phys_to_virt}
use bikeshed.Paging.{virt_lookup_phys}
use bikeshed.Keyboard.Ring.{IsRing, keyboard_get_char-IsRing}
use bikeshed.Syscalls.{
  Kernel, rdi_at, rax_at, r10_at, find_user, pcb_of, call, set_priority, get_key, syscall_interrupt,
}

-- A process runs, its context is mapped at a physical address, and r10 has the number of a call.
pub record Calls (number addr : ℕ) (k : Kernel) : Type 0 where
  pub runs : (k.sched.current_pcb == 0) ≡ false
  pub mapped : virt_lookup_phys (pcb_of k).page_table (pcb_of k).context k.phys.mem ≡ some addr
  pub number_here : k.phys.mem (phys_to_virt addr + r10_at) ≡ number

syscall_interrupt-call :
    (number addr elapsed : ℕ) (k : Kernel)
    → Calls number addr k
    → syscall_interrupt elapsed k ≡ call number (phys_to_virt addr) elapsed k
unfolding syscall_interrupt find_user
syscall_interrupt-call number addr elapsed k c = rw (c.runs, c.mapped, c.number_here) refl

-- Where a process runs, its context is mapped, r10 there is the number of the call for a key and a
-- character waits, the interrupt puts the character that has waited longest into rax and takes it
-- off the ring; nothing else of the memory changes, and nothing of the scheduler.
pub syscall_interrupt-key :
    (addr elapsed c : ℕ) (cs : List ℕ) (k : Kernel)
    → Calls 6 addr k
    → IsRing k.keyboard (c ∷ cs)
    → (k' : Kernel) × (syscall_interrupt elapsed k ≡ ok k')
      × IsRing k'.keyboard cs
      × (k'.phys.mem (phys_to_virt addr + rax_at) ≡ c)
      × ((a : ℕ) → a ≢ phys_to_virt addr + rax_at → k'.phys.mem a ≡ k.phys.mem a)
      × (k'.sched ≡ k.sched)
unfolding call get_key
syscall_interrupt-key addr elapsed c cs k calls r =
    let (same, left) = keyboard_get_char-IsRing k.keyboard c cs r in
    (
      _,
      syscall_interrupt-call 6 addr elapsed k calls,
      left,
      ground arith,
      λ a h. ground arith,
      refl,
    )

-- The call that sets the priority panics exactly if rdi is no priority; a process can do that to the
-- kernel.
syscall_interrupt-priority :
    (addr elapsed : ℕ) (k : Kernel)
    → Calls 4 addr k
    → (syscall_interrupt elapsed k ≡ panic) ↔ (3 < k.phys.mem (phys_to_virt addr + rdi_at))
unfolding call set_priority
syscall_interrupt-priority addr elapsed k calls =
    rw (syscall_interrupt-call 4 addr elapsed k calls) (λ e. ground arith, λ h. ground arith)
