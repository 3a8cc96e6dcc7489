-- ===== src/Interrupts.antt =====
-- kernel/src/arch/x86_64/interrupts/interrupts.c and tss.c: the gates of the interrupt table, the
-- table of handlers, and the descriptor of the task state. A function of the source is its address.
pub mod Table
mod Tests
use bikeshed.Prelude.{
  ℕ, zero, suc, ◌+◌, ◌*◌, ◌/◌, ◌%◌, ◌^◌, bit_and, ◌&&◌, ◌==◌, ltb, leb, if◌then◌else◌, List, [],
  ◌∷◌,
}
use bikeshed.Machine.{Result, ok, panic, ◌>>=◌}
use bikeshed.PhysAlloc.{Phys}
use bikeshed.Timer.Setup.{Write, Readings, apic_init}

pub record Gate : Type 0 where
  pub offset_l : ℕ
  pub segment_selector : ℕ
  pub ist : ℕ
  pub flags : ℕ
  pub offset_h : ℕ
  pub offset_hh : ℕ
  pub reserved : ℕ

-- The gate of a handler, which has the level of user programs for system calls only.
unfoldable pub gate_of : (index fn_loc : ℕ) → Gate
gate_of index fn_loc = record {
  offset_l = bit_and fn_loc 0xffff;
  segment_selector = 0x10;
  ist = 0;
  flags = if index == 0x80 then 0xee else 0x8e;
  offset_h = bit_and (fn_loc / 2 ^ 16) 0xffff;
  offset_hh = bit_and (fn_loc / 2 ^ 32) 0xffffffff;
  reserved = 0;
}

abbrev pub set_entry {ℓ} : {A : Type ℓ} (table : ℕ → A) (index : ℕ) (entry : A) → ℕ → A
set_entry table index entry i = if i == index then entry else table i

unfoldable pub set_idt_entry : (index fn_ih : ℕ) → (ℕ → Gate) → Result (ℕ → Gate)
unfolding gate_of
set_idt_entry index fn_ih idt =
    if ltb 255 index then panic else ok (set_entry idt index (gate_of index fn_ih))

-- The functions that interrupts_init and apic_init install.
pub data Handler : Type 0 where
  default_handler : Handler
  serial_handler : Handler
  spurious_handler : Handler
  timer_handler : Handler
  installed : (address : ℕ) → Handler

unfoldable pub interrupts_install_isr : (index : ℕ) → Handler → (ℕ → Handler) → ℕ → Handler
interrupts_install_isr index handler isr_table = set_entry isr_table index handler

pub record Tables : Type 0 where
  pub idt : ℕ → Gate
  pub isr_table : ℕ → Handler

-- The loop of interrupts_init.
unfoldable pub install_all : (n i : ℕ) → (isr_stub_table : ℕ → ℕ) → Tables → Result Tables
unfolding set_idt_entry interrupts_install_isr
install_all zero i isr_stub_table t = ok t
install_all (suc n) i isr_stub_table t = set_idt_entry i (isr_stub_table i) t.idt >>= λ idt.
    install_all n (suc i) isr_stub_table
      (record { idt = idt; isr_table = interrupts_install_isr i default_handler t.isr_table })

-- What interrupts_init leaves: the tables, the writes of apic_init to the devices, the ticks of the
-- timer, and the memory with the page of the APIC.
pub record Initialised : Type 0 where
  pub tables : Tables
  pub writes : List Write
  pub tsc_per_sec : ℕ
  pub phys : Phys

-- interrupts_init from the loop on. apic_init installs the handler of the timer at its end.
unfoldable pub interrupts_init :
    (kernel_table : ℕ) → Readings → (isr_stub_table : ℕ → ℕ) → Tables → Phys → Result Initialised
unfolding interrupts_install_isr
interrupts_init kernel_table r isr_stub_table t p = install_all 256 0 isr_stub_table t >>= λ t1.
    let isr_table =
      interrupts_install_isr 39 spurious_handler
        (interrupts_install_isr 36 serial_handler t1.isr_table) in
    apic_init kernel_table r p >>= λ (apic : List Write × ℕ × Phys). ok (record {
      tables = record t1 { isr_table = interrupts_install_isr 32 timer_handler isr_table };
      writes = apic.0;
      tsc_per_sec = apic.1;
      phys = apic.2;
    })

-- The writes of pic_acknowledge: ports and values.
unfoldable pub pic_acknowledge : (vector : ℕ) → List (ℕ × ℕ)
pic_acknowledge vector =
    if leb 0x20 vector && ltb vector 0x30
    then (0x20, 0x20) ∷ (if ltb 0x28 vector then (0xa0, 0x20) ∷ [] else [])
    else []

-- TSS_Descriptor, and the task state, by the fields that are not cleared.
pub record TssDescriptor : Type 0 where
  pub limit : ℕ
  pub base1 : ℕ
  pub base2 : ℕ
  pub flags : ℕ
  pub limit2 : ℕ
  pub base3 : ℕ
  pub base4 : ℕ
  pub reserved : ℕ

pub record Tss : Type 0 where
  pub io_map_base : ℕ
  pub rsp0 : ℕ
  pub ist0 : ℕ

abbrev pub sizeof_tss : ℕ
sizeof_tss = 104

unfoldable pub setup_kernel_tss : (tss_base kernel_stack_location : ℕ) → TssDescriptor × Tss
setup_kernel_tss tss_base kernel_stack_location = (
  record {
    limit = bit_and sizeof_tss 0xff;
    base1 = bit_and tss_base 0xffff;
    base2 = bit_and tss_base 0xff0000 / 2 ^ 16;
    flags = 0x89;
    limit2 = bit_and sizeof_tss 0xf0000 / 2 ^ 16;
    base3 = bit_and tss_base 0xff000000 / 2 ^ 24;
    base4 = bit_and tss_base 0xffffffff00000000 / 2 ^ 32;
    reserved = 0;
  },
  record { io_map_base = 104; rsp0 = kernel_stack_location; ist0 = kernel_stack_location },
)

unfoldable pub tss_set_context_stack : (location : ℕ) → Tss → Tss
tss_set_context_stack location t = record t { rsp0 = location }
