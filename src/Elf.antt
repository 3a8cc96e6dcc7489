-- ===== src/Elf.antt =====
-- kernel/src/kernel/elf/elf.c: loading a program. The file and the pages of the new process stand in
-- the kernel's memory; the pages are mapped through Paging and filled through Klib.Bytes.
pub mod Header
pub mod Plan
pub mod Filled
pub mod Segment
pub mod Loaded
mod Tests
use bikeshed.Prelude.{
  ℕ, zero, suc, ◌+◌, ◌-◌, ◌*◌, ◌/◌, ◌%◌, ◌^◌, Bool, true, false, ◌&&◌, ◌||◌, not, ◌==◌, ltb, leb,
  if◌then◌else◌,
}
use bikeshed.Machine.{Mem, store, word, Result, ok, panic, assert, ◌>>=◌, ◌>>◌}
use bikeshed.Addresses.{kernel_base, kib4, mib2, phys_to_virt}
use bikeshed.Klib.Bytes.{load_byte, memcpy, memclr}
use bikeshed.PhysAlloc.{Phys}
use bikeshed.Paging.{virt_map_page, page_small, page_large}
use bikeshed.Paging.Cleanup.{virt_reset_table}
use bikeshed.Scheduler.{Pcb}

-- Numbers of two, four and eight bytes.
abbrev pub read16 : Mem → ℕ → ℕ
read16 m a = load_byte m a + 2 ^ 8 * load_byte m (a + 1)

abbrev pub read32 : Mem → ℕ → ℕ
read32 m a = read16 m a + 2 ^ 16 * read16 m (a + 2)

abbrev pub read64 : Mem → ℕ → ℕ
read64 m a = read32 m a + 2 ^ 32 * read32 m (a + 4)

-- The fields of ELF64_Ehdr and ELF64_Phdr that are read, by their offsets.
abbrev pub e_type : Mem → ℕ → ℕ
e_type m elf = read16 m (elf + 16)

abbrev pub e_machine : Mem → ℕ → ℕ
e_machine m elf = read16 m (elf + 18)

abbrev pub e_version : Mem → ℕ → ℕ
e_version m elf = read32 m (elf + 20)

abbrev pub e_entry : Mem → ℕ → ℕ
e_entry m elf = read64 m (elf + 24)

abbrev pub e_phoff : Mem → ℕ → ℕ
e_phoff m elf = read64 m (elf + 32)

abbrev pub e_phnum : Mem → ℕ → ℕ
e_phnum m elf = read16 m (elf + 56)

abbrev pub sizeof_phdr : ℕ
sizeof_phdr = 56

-- A program header, read when its round begins.
pub record Phdr : Type 0 where
  pub p_type : ℕ
  pub p_offset : ℕ
  pub p_vaddr : ℕ
  pub p_filesz : ℕ
  pub p_memsz : ℕ

abbrev pub phdr_at : Mem → ℕ → Phdr
phdr_at m a = record {
  p_type = read32 m a;
  p_offset = read64 m (a + 8);
  p_vaddr = read64 m (a + 16);
  p_filesz = read64 m (a + 32);
  p_memsz = read64 m (a + 40);
}

-- The constant checks: ELF_NO_ERROR or the code of the first that fails.
unfoldable pub check_header : (elf : ℕ) → Mem → ℕ
check_header elf m =
    if not (load_byte m elf == 0x7f)
      || not (load_byte m (elf + 1) == b'E')
      || not (load_byte m (elf + 2) == b'L')
      || not (load_byte m (elf + 3) == b'F')
    then 1
    else if not (load_byte m (elf + 4) == 2)
    then 2
    else if not (load_byte m (elf + 5) == 1)
    then 3
    else if not (load_byte m (elf + 7) == 0)
    then 4
    else if not (e_type m elf == 2)
    then 5
    else if not (e_machine m elf == 62)
    then 6
    else if not (e_version m elf == 1)
    then 7
    else 0

-- PG_FLAG_RW | PG_FLAG_USER, and PG_FLAG_RW.
abbrev pub user_flags : ℕ
user_flags = 6

abbrev pub kernel_flags : ℕ
kernel_flags = 2

-- The page of a round: `amount` bytes from the file, and zeros.
unfoldable pub fill_page : (page from amount page_size : ℕ) → Mem → Mem
fill_page page from amount page_size m =
    if ltb 0 amount
    then memclr (phys_to_virt (page + amount)) (page_size - amount)
        (memcpy (phys_to_virt page) from amount m)
    else memclr (phys_to_virt page) page_size m

unfoldable pub place_page : (table page_size page_type vaddr from amount : ℕ) → Phys → Result Phys
place_page table page_size page_type vaddr from amount p =
    virt_map_page table vaddr user_flags page_type p >>= λ r.
    assert (not (r.0.0 == 0))
    >> ok (record r.1 { mem = fill_page r.0.1 from amount page_size r.1.mem })

-- The loop over the pages of a segment.
unfoldable pub load_pages :
    (n table page_size page_type elf load_offset amount_left vaddr : ℕ) → Phys → Result Phys
load_pages zero table page_size page_type elf load_offset amount_left vaddr p = ok p
load_pages (suc n) table page_size page_type elf load_offset amount_left vaddr p =
    let copy_amount = if ltb page_size amount_left then page_size else amount_left in
    place_page table page_size page_type vaddr ((elf + load_offset) % word) copy_amount p >>= λ p1.
    load_pages n table page_size page_type elf ((load_offset + copy_amount) % word)
      (amount_left - copy_amount) ((vaddr + copy_amount) % word) p1

-- One program header: an error code and what is left of the memory.
unfoldable pub load_segment : (table elf : ℕ) → Phdr → Phys → Result (ℕ × Phys)
load_segment table elf hdr p =
    let large = leb mib2 hdr.p_memsz in
    let page_size = if large then mib2 else kib4 in
    let page_type = if large then page_large else page_small in
    let pages = hdr.p_memsz / page_size + 1 in
    let loaded =
      load_pages pages table page_size page_type elf hdr.p_offset hdr.p_filesz hdr.p_vaddr p in
    if not (hdr.p_type == 1)
    then ok (0, p)
    else if leb kernel_base ((hdr.p_vaddr + hdr.p_memsz) % word)
    then ok (8, p)
    else (loaded >>= λ p1. ok (0, p1))

unfoldable pub load_segments : (n table elf at : ℕ) → Phys → Result (ℕ × Phys)
load_segments zero table elf at p = ok (0, p)
load_segments (suc n) table elf at p = load_segment table elf (phdr_at p.mem at) p >>= λ r.
    elim (r.0 == 0) [
      | true ↦ load_segments n table elf ((at + sizeof_phdr) % word) r.1
      | false ↦ ok r
    ]

abbrev pub user_stack_location : ℕ
user_stack_location = 0x2000000

abbrev pub user_stack_size : ℕ
user_stack_size = 0x4000

abbrev pub context_stack_location : ℕ
context_stack_location = 0x2001000

abbrev pub sizeof_context : ℕ
sizeof_context = 176

-- The pages of the user's stack.
unfoldable pub map_stack : (n table address : ℕ) → Phys → Result Phys
map_stack zero table address p = ok p
map_stack (suc n) table address p = virt_map_page table address user_flags page_small p >>= λ r.
    assert (not (r.0.0 == 0))
    >> map_stack n table (address + kib4)
        (record r.1 { mem = memclr (phys_to_virt r.0.1) kib4 r.1.mem })

-- rip, rsp, rbp, rflags, cs and ss.
unfoldable pub write_context : (context entry : ℕ) → Mem → Mem
write_context context entry m =
    let m1 = store m (context + 136) entry in
    let m2 = store m1 (context + 160) user_stack_location in
    let m3 = store m2 (context + 48) user_stack_location in
    let m4 = store m3 (context + 152) 0x202 in
    let m5 = store m4 (context + 144) (0x30 + 3) in store m5 (context + 168) (0x40 + 3)

-- The page of the context; whether it could be mapped is not asked.
unfoldable pub make_context : (elf table : ℕ) → Pcb → Phys → Result (ℕ × Pcb × Phys)
make_context elf table pcb p =
    virt_map_page table context_stack_location kernel_flags page_small p >>= λ r.
    let context = phys_to_virt (r.0.1 + kib4 - sizeof_context) in
    ok (
      0,
      record pcb { context = context_stack_location + kib4 - sizeof_context },
      record r.1 { mem = write_context context (e_entry r.1.mem elf) r.1.mem },
    )

-- What follows the checks.
unfoldable pub load_program : (kernel_table elf table : ℕ) → Pcb → Phys → Result (ℕ × Pcb × Phys)
load_program kernel_table elf table pcb p = virt_reset_table kernel_table table p >>= λ p1.
    load_segments (e_phnum p1.mem elf) table elf ((elf + e_phoff p1.mem elf) % word) p1 >>= λ r.
    let finished =
      map_stack 4 table (user_stack_location - user_stack_size) r.1
      >>= make_context elf table pcb in
    if r.0 == 0 then finished else ok (r.0, pcb, r.1)

unfoldable pub elf_create_process :
    (kernel_table : ℕ) → Pcb → (elf table : ℕ) → Phys → Result (ℕ × Pcb × Phys)
elf_create_process kernel_table pcb elf table p =
    let code = check_header elf p.mem in
    if not (code == 0)
    then ok (code, pcb, p)
    else if e_entry p.mem elf == 0
    then panic
    else load_program kernel_table elf table pcb p
