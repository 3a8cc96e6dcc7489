-- ===== src/Elf/Header.antt =====
-- kernel/src/kernel/elf/elf.c: which files are taken.
use bikeshed.Prelude.{ℕ, ◌+◌, ◌≤◌, ◌≡◌, refl, ◌==◌, if◌then◌else◌, Bool-cases, inl, inr, arith}
use bikeshed.Machine.{Mem, ok, panic}
use bikeshed.Klib.Bytes.{load_byte}
use bikeshed.PhysAlloc.{Phys}
use bikeshed.Scheduler.{Pcb}
use bikeshed.Elf.{
  e_type, e_machine, e_version, e_entry, check_header, load_program, elf_create_process,
}

-- The header of an executable for x86-64, of 64 bits, little-endian, System V.
pub record IsExecutable (elf : ℕ) (m : Mem) : Type 0 where
  pub mag0 : load_byte m elf ≡ 0x7f
  pub mag1 : load_byte m (elf + 1) ≡ b'E'
  pub mag2 : load_byte m (elf + 2) ≡ b'L'
  pub mag3 : load_byte m (elf + 3) ≡ b'F'
  pub class : load_byte m (elf + 4) ≡ 2
  pub encoding : load_byte m (elf + 5) ≡ 1
  pub osabi : load_byte m (elf + 7) ≡ 0
  pub kind : e_type m elf ≡ 2
  pub machine : e_machine m elf ≡ 62
  pub version : e_version m elf ≡ 1

pub check_header-accepts : (elf : ℕ) (m : Mem) → check_header elf m ≡ 0 → IsExecutable elf m
unfolding check_header
check_header-accepts elf m h = ground arith

check_header-IsExecutable : (elf : ℕ) (m : Mem) → IsExecutable elf m → check_header elf m ≡ 0
unfolding check_header
check_header-IsExecutable elf m v = ground arith

check_header-le : (elf : ℕ) (m : Mem) → check_header elf m ≤ 7
unfolding check_header
check_header-le elf m = ground arith

-- A file that is not an executable of this kind is refused: the result is one of the seven error
-- codes, the process and all of the memory, its page table too, are as before.
elf_create_process-refuses :
    (kernel_table : ℕ) (pcb : Pcb) (elf table : ℕ) (p : Phys)
    → ¬ IsExecutable elf p.mem
    → (code : ℕ) × (elf_create_process kernel_table pcb elf table p ≡ ok (code, pcb, p))
      × (1 ≤ code)
      × (code ≤ 7)
unfolding elf_create_process
elf_create_process-refuses kernel_table pcb elf table p bad =
    elim (Bool-cases (check_header elf p.mem == 0)) [
      | inl good ↦ absurd (bad (check_header-accepts elf p.mem (ground arith)))
      | inr e ↦ (check_header elf p.mem, rw e refl, ground arith, check_header-le elf p.mem)
    ]

-- Of an executable of this kind, one without an entry point panics, and any other is loaded.
elf_create_process-takes :
    (kernel_table : ℕ) (pcb : Pcb) (elf table : ℕ) (p : Phys)
    → IsExecutable elf p.mem
    → elf_create_process kernel_table pcb elf table p
      ≡ (if e_entry p.mem elf == 0 then panic else load_program kernel_table elf table pcb p)
unfolding elf_create_process
elf_create_process-takes kernel_table pcb elf table p good =
    rw (check_header-IsExecutable elf p.mem good) refl
