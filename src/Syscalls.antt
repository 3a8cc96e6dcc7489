-- ===== src/Syscalls.antt =====
-- kernel/src/kernel/syscalls/syscalls.c: the system calls, on the scheduler, the page tables and the
-- keyboard. A process's registers stand in its own memory, where its page table has its context; the
-- kernel reaches them through the direct map. The scheduler's blocks and that memory are kept
-- apart. A page that is not mapped counts as a panic. `elapsed` is what `timer_get_elapsed` returns;
-- stopping the timer and acknowledging the interrupt are left out.
pub mod Served
pub mod Exit
mod Tests
use bikeshed.Prelude.{
  ℕ, ◌+◌, ◌-◌, ◌*◌, ◌/◌, ◌%◌, ◌^◌, Bool, true, ◌==◌, ltb, leb, not, if◌then◌else◌, Option, none,
  some,
}
use bikeshed.Machine.{Mem, store, Result, ok, panic, assert, ◌>>=◌, ◌>>◌}
use bikeshed.Addresses.{phys_to_virt}
use bikeshed.PhysAlloc.{Phys}
use bikeshed.Paging.{virt_lookup_phys}
use bikeshed.Paging.Clone.{virt_clone_mapping}
use bikeshed.Scheduler.{
  Pcb, set_pcb, Sched, alloc_pcb, cleanup_pcb, schedule, dispatch, sleep_pcb, u32,
}
use bikeshed.Keyboard.{Keyboard, keyboard_char_available, keyboard_get_char}

pub record Kernel : Type 0 where
  pub sched : Sched
  pub phys : Phys
  pub keyboard : Keyboard

-- The offsets of the registers in a context.
abbrev pub rdi_at : ℕ
rdi_at = 0

abbrev pub rax_at : ℕ
rax_at = 40

abbrev pub r10_at : ℕ
r10_at = 72

abbrev pub idle : ℕ
idle = 3

abbrev pub success : ℕ
success = 0

abbrev pub failure : ℕ
failure = 1

abbrev pub mapped_at : Option ℕ → Result ℕ
mapped_at none = panic
mapped_at (some addr) = ok (phys_to_virt addr)

-- Where the kernel finds an address of a process.
unfoldable pub find_user : ℕ → ℕ → Phys → Result ℕ
find_user table virt_addr p = mapped_at (virt_lookup_phys table virt_addr p.mem)

abbrev pub pcb_of : Kernel → Pcb
pcb_of k = k.sched.pcbs k.sched.current_pcb

abbrev pub find_context : Kernel → Result ℕ
find_context k = find_user (pcb_of k).page_table (pcb_of k).context k.phys

abbrev pub write : ℕ → ℕ → Phys → Phys
write at v p = record p { mem = store p.mem at v }

-- A 32-bit write to a word's lower or upper half.
abbrev pub write_pid : ℕ → ℕ → Phys → Phys
write_pid at v p =
    let word_at = at / 8 * 8 in
    let w = p.mem word_at in
    if at % 8 == 0
    then write word_at (w / 2 ^ 32 * 2 ^ 32 + v) p
    else write word_at (v * 2 ^ 32 + w % 2 ^ 32) p

-- The child's PCB is a copy; the registers and the address for the pid are written in both address
-- spaces.
unfoldable pub start_child : (new_pcb context elapsed : ℕ) → Sched → Kernel → Result Kernel
start_child new_pcb context elapsed s1 k = do
  let pcb = s1.pcbs s1.current_pcb
  (new_table, p1) ← virt_clone_mapping pcb.page_table k.phys
  let child = record pcb { page_table = new_table }
  new_context ← find_user new_table child.context p1
  let p2 = write (context + rax_at) success p1
  pid_at ← find_user pcb.page_table (p2.mem (context + rdi_at)) p2
  let p3 = write (new_context + rax_at) success (write_pid pid_at 0 p2)
  new_pid_at ← find_user new_table (p3.mem (new_context + rdi_at)) p3
  s2 ← schedule new_pcb (record s1 { pcbs = set_pcb s1.pcbs new_pcb child })
  s3 ← dispatch elapsed s2
  ok (record k { sched = s3; phys = write_pid new_pid_at 1 p3 })

unfoldable pub fork : (context elapsed : ℕ) → Kernel → Result Kernel
fork context elapsed k = alloc_pcb k.sched >>= λ r.
    if r.0 == 0
    then ok (record k { sched = r.1; phys = write (context + rax_at) failure k.phys })
    else start_child r.0 context elapsed r.1 k

unfoldable pub exec : Kernel → Result Kernel
exec k = ok k

unfoldable pub exit : ℕ → Kernel → Result Kernel
exit elapsed k = do
  s ← dispatch elapsed (cleanup_pcb k.sched.current_pcb k.sched)
  ok (record k { sched = s })

unfoldable pub msleep : ℕ → ℕ → Kernel → Result Kernel
msleep context elapsed k = do
  let sleep_time = u32 (k.phys.mem (context + rdi_at))
  s ← sleep_pcb k.sched.current_pcb sleep_time elapsed k.sched
  ok (record k { sched = s })

unfoldable pub set_priority : ℕ → Kernel → Result Kernel
set_priority context k =
    let pcb = k.sched.current_pcb in
    let priority = k.phys.mem (context + rdi_at) in
    assert (leb priority idle)
    >> ok (record k {
      sched = record k.sched {
        pcbs = set_pcb k.sched.pcbs pcb (record (pcb_of k) { priority = priority });
      };
    })

unfoldable pub key_avail : ℕ → Kernel → Result Kernel
key_avail context k =
    let available = if keyboard_char_available k.keyboard then 1 else 0 in
    ok (record k { phys = write (context + rax_at) available k.phys })

unfoldable pub get_key : ℕ → Kernel → Result Kernel
get_key context k =
    let (key, keyboard') = keyboard_get_char k.keyboard in
    ok (record k { phys = write (context + rax_at) key k.phys; keyboard = keyboard' })

-- `syscall_functions`, and the number that is none of them.
unfoldable pub call : (number context elapsed : ℕ) → Kernel → Result Kernel
call number context elapsed k =
    if number == 0
    then fork context elapsed k
    else if number == 1
    then exec k
    else if number == 2
    then exit elapsed k
    else if number == 3
    then msleep context elapsed k
    else if number == 4
    then set_priority context k
    else if number == 5
    then key_avail context k
    else if number == 6
    then get_key context k
    else exit elapsed k

unfoldable pub syscall_interrupt : ℕ → Kernel → Result Kernel
syscall_interrupt elapsed k =
    assert (not (k.sched.current_pcb == 0))
    >> (find_context k >>= λ context. call (k.phys.mem (context + r10_at)) context elapsed k)
