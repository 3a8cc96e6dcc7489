-- ===== src/Elf/Loaded.antt =====
-- kernel/src/kernel/elf/elf.c: what a successful load leaves.
use mathlib.Core.Path.{subst}
use bikeshed.Prelude.{ℕ, ◌+◌, ◌-◌, ◌%◌, ◌≡◌, ◌≢◌, refl, ap, ◌==◌, Bool-cases, inl, inr, arith}
use bikeshed.Machine.{Mem, word, ok, panic, bind-ok, from_ok}
use bikeshed.Addresses.{kib4, phys_to_virt}
use bikeshed.PhysAlloc.{Phys}
use bikeshed.Paging.{virt_map_page, page_small}
use bikeshed.Paging.Cleanup.{virt_reset_table}
use bikeshed.Scheduler.{Pcb}
use bikeshed.Elf.{
  e_entry, e_phnum, e_phoff, check_header, load_segments, map_stack, write_context, make_context,
  load_program, elf_create_process, kernel_flags, context_stack_location, sizeof_context,
  user_stack_location, user_stack_size,
}
use bikeshed.Elf.Header.{IsExecutable, check_header-accepts}

-- The registers of a context: a user program's entry point, segments and stack, and interrupts on.
pub record IsUserContext (context entry : ℕ) (m : Mem) : Type 0 where
  pub rip : m (context + 136) ≡ entry
  pub cs : m (context + 144) ≡ 0x33
  pub rflags : m (context + 152) ≡ 0x202
  pub rsp : m (context + 160) ≡ 0x2000000
  pub rbp : m (context + 48) ≡ 0x2000000
  pub ss : m (context + 168) ≡ 0x43

write_context-IsUserContext :
    (context entry : ℕ) (m : Mem) → IsUserContext context entry (write_context context entry m)
unfolding write_context
write_context-IsUserContext context entry m = ground arith

-- The memory holds a context at the end of the page that was mapped at 0x2001000 through the table,
-- for the kernel only, and its rip is the entry point that the file's header had once it was mapped.
pub record HasContext (table elf : ℕ) (m : Mem) : Type 0 where
  pub before : Phys
  pub after : Phys
  pub mapped : ℕ
  pub page : ℕ
  pub maps : virt_map_page table 0x2001000 2 page_small before ≡ ok ((mapped, page), after)
  pub registers : IsUserContext (phys_to_virt (page + 4096 - 176)) (e_entry after.mem elf) m

-- What has become of the process: it has its context at the end of that page.
abbrev pub Loaded : (table elf : ℕ) → Pcb → ℕ × Pcb × Phys → Type 0
Loaded table elf pcb r =
    (r.1 ≡ record pcb { context = 0x2001000 + 4096 - 176 }) × HasContext table elf r.2.mem

make_context-Loaded :
    (elf table : ℕ) (pcb : Pcb) (p : Phys) (r : ℕ × Pcb × Phys)
    → make_context elf table pcb p ≡ ok r
    → Loaded table elf pcb r
unfolding make_context
make_context-Loaded elf table pcb p r e =
    let (q, e1, e2) =
      bind-ok (virt_map_page table context_stack_location kernel_flags page_small p) _ e in
    let context = phys_to_virt (q.0.1 + kib4 - sizeof_context) in
    subst (Loaded table elf pcb) (from_ok _ r e2) (
      refl,
      record {
        before = p;
        after = q.1;
        mapped = q.0.0;
        page = q.0.1;
        maps = e1;
        registers = write_context-IsUserContext context (e_entry q.1.mem elf) q.1.mem;
      },
    )

load_program-Loaded :
    (kernel_table elf table : ℕ) (pcb : Pcb) (p : Phys) (r : ℕ × Pcb × Phys)
    → load_program kernel_table elf table pcb p ≡ ok r
    → r.0 ≡ 0
    → Loaded table elf pcb r
unfolding load_program
load_program-Loaded kernel_table elf table pcb p r e z =
    let (p1, e1, e2) = bind-ok (virt_reset_table kernel_table table p) _ e in
    let (q, e3, e4) =
      bind-ok (load_segments (e_phnum p1.mem elf) table elf ((elf + e_phoff p1.mem elf) % word) p1)
        _ e2 in
    elim (Bool-cases (q.0 == 0)) [
      | inl good ↦
          let (p2, e5, e6) =
            bind-ok (map_stack 4 table (user_stack_location - user_stack_size) q.1) _
              (rw good at e4) in
          make_context-Loaded elf table pcb p2 r e6
      | inr bad ↦
          let code : q.0 ≡ r.0 =
            ap (λ (t : ℕ × Pcb × Phys). t.0) (from_ok (q.0, pcb, q.1) r (rw bad at e4)) in
          absurd (ground arith)
    ]

-- Only an executable with an entry point is loaded with the code 0. The process then differs by its
-- context's address alone, and the context in the page there has the entry point, the segments of
-- user programs, their stack for rsp and rbp, and the interrupts enabled.
pub elf_create_process-Loaded :
    (kernel_table : ℕ) (pcb : Pcb) (elf table : ℕ) (p : Phys) (r : ℕ × Pcb × Phys)
    → elf_create_process kernel_table pcb elf table p ≡ ok r
    → r.0 ≡ 0
    → IsExecutable elf p.mem × (e_entry p.mem elf ≢ 0) × Loaded table elf pcb r
unfolding elf_create_process
elf_create_process-Loaded kernel_table pcb elf table p r e z =
    elim (Bool-cases (check_header elf p.mem == 0)) [
      | inr bad ↦
          let code : check_header elf p.mem ≡ r.0 =
            ap (λ (t : ℕ × Pcb × Phys). t.0)
              (from_ok (check_header elf p.mem, pcb, p) r (rw bad at e)) in
          absurd (ground arith)
      | inl good ↦
          let after = rw good at e in
          elim (Bool-cases (e_entry p.mem elf == 0)) [
            | inl none ↦ let stopped : panic ≡ ok r = rw none at after in absurd (cc)
            | inr entry ↦ (
              check_header-accepts elf p.mem (ground arith),
              ground arith,
              load_program-Loaded kernel_table elf table pcb p r (rw entry at after) z,
            )
          ]
    ]
