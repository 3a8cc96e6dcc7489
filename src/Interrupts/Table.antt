-- ===== src/Interrupts/Table.antt =====
-- kernel/src/arch/x86_64/interrupts/interrupts.c and tss.c: what the processor reads back from the
-- tables.
use bikeshed.Prelude.{
  ℕ, zero, suc, ◌+◌, ◌*◌, ◌/◌, ◌%◌, ◌^◌, ◌<◌, ◌≤◌, ◌≡◌, refl, ◌∙◌, ◌⊎◌, inl, inr, ◌==◌,
  if◌then◌else◌, arith, List,
}
use bikeshed.Prelude.Bits.{bit_and_field, bit_and_low}
use bikeshed.Machine.{ok, ◌>>=◌}
use bikeshed.PhysAlloc.{Phys}
use bikeshed.Timer.Setup.{Write, Readings, apic_init}
use bikeshed.Interrupts.{
  Gate, gate_of, set_entry, set_idt_entry, default_handler, serial_handler, spurious_handler,
  timer_handler, interrupts_install_isr, Tables, install_all, interrupts_init, TssDescriptor,
  setup_kernel_tss,
}

-- The address that the processor jumps to through a gate, and the level that may use it.
abbrev pub target : Gate → ℕ
target g = g.offset_l + 2 ^ 16 * g.offset_h + 2 ^ 32 * g.offset_hh

abbrev pub level : Gate → ℕ
level g = g.flags / 2 ^ 5 % 2 ^ 2

abbrev pub present : Gate → ℕ
present g = g.flags / 2 ^ 7 % 2

gate_of-target : (i fn : ℕ) → fn < 2 ^ 64 → target (gate_of i fn) ≡ fn
unfolding gate_of
gate_of-target i fn h =
    omega (arith, bit_and_low 16 fn, bit_and_low 16 (fn / 2 ^ 16), bit_and_low 32 (fn / 2 ^ 32))

gate_of-level : (i fn : ℕ) → level (gate_of i fn) ≡ (if i == 0x80 then 3 else 0)
unfolding gate_of
gate_of-level i fn = ground arith

gate_of-present : (i fn : ℕ) → present (gate_of i fn) ≡ 1
unfolding gate_of
gate_of-present i fn = ground arith

-- The tables after a loop over the indices from `i` on, below 256.
install_all-entries :
    (n i : ℕ) (stubs : ℕ → ℕ) (t : Tables)
    → i + n ≤ 256
    → (t' : Tables) × (install_all n i stubs t ≡ ok t')
      × ((j : ℕ) → i ≤ j → j < i + n → t'.idt j ≡ gate_of j (stubs j))
      × ((j : ℕ) → i ≤ j → j < i + n → t'.isr_table j ≡ default_handler)
      × ((j : ℕ) → j < i → (t'.idt j ≡ t.idt j) × (t'.isr_table j ≡ t.isr_table j))
unfolding install_all set_idt_entry interrupts_install_isr
install_all-entries zero i stubs t h =
    (t, refl, λ j a b. absurd (omega arith), λ j a b. absurd (omega arith), λ j a. (refl, refl))
install_all-entries (suc n) i stubs t h =
    let t1 : Tables = record {
      idt = set_entry t.idt i (gate_of i (stubs i));
      isr_table = set_entry t.isr_table i default_handler;
    } in
    let (t', e, gates, handlers, kept) = install_all-entries n (suc i) stubs t1 (omega arith) in
    let here = kept i (omega arith) in
    let gates' = λ (j : ℕ) (a : i ≤ j) (b : j < i + suc n).
      let case : (j ≡ i) ⊎ (suc i ≤ j) = ground arith in
      let same : t'.idt j ≡ gate_of j (stubs j) = elim case [
        | inl at ↦ rw at (here.0 ∙ ground arith)
        | inr above ↦ gates j above (omega arith)
      ] in
      same in
    let handlers' = λ (j : ℕ) (a : i ≤ j) (b : j < i + suc n).
      let case : (j ≡ i) ⊎ (suc i ≤ j) = ground arith in
      let same : t'.isr_table j ≡ default_handler = elim case [
        | inl at ↦ rw at (here.1 ∙ ground arith)
        | inr above ↦ handlers j above (omega arith)
      ] in
      same in
    let in_range : set_idt_entry i (stubs i) t.idt ≡ ok t1.idt = ground arith in
    (t', rw in_range e, gates', handlers', λ j a. ground (arith, kept j))

-- interrupts_init panics or comes back as apic_init does, which it calls last, and hands on what that
-- writes and measures; nothing before it panics. When it comes back, each of the 256 gates is present
-- and leads to the stub of its number, for stubs below 2 ^ 64; only the gate of the system calls may
-- be used by user programs (level 3); and the handlers are the default one but for those of the timer
-- (32), the serial line (36) and the spurious interrupt (39).
pub interrupts_init-gates :
    (kernel_table : ℕ) (r : Readings) (stubs : ℕ → ℕ) (t : Tables) (p : Phys)
    → ((i : ℕ) → stubs i < 2 ^ 64)
    → (t' : Tables) × (interrupts_init kernel_table r stubs t p ≡ (
        apic_init kernel_table r p >>= λ (apic : List Write × ℕ × Phys).
        ok (record { tables = t'; writes = apic.0; tsc_per_sec = apic.1; phys = apic.2 })))
      × ((i : ℕ)
          → i < 256
          → (target (t'.idt i) ≡ stubs i)
            × (present (t'.idt i) ≡ 1)
            × (level (t'.idt i) ≡ (if i == 0x80 then 3 else 0))
            × (t'.isr_table i ≡ (
                if i == 32
                then timer_handler
                else if i == 39
                then spurious_handler
                else if i == 36
                then serial_handler
                else default_handler)))
unfolding interrupts_init interrupts_install_isr
interrupts_init-gates kernel_table r stubs t p small =
    let (t1, e, gates, handlers, kept) = install_all-entries 256 0 stubs t (omega arith) in
    let t2 : Tables = record t1 {
      isr_table =
          set_entry (set_entry (set_entry t1.isr_table 36 serial_handler) 39 spurious_handler) 32
            timer_handler;
    } in
    (
      t2,
      rw e refl,
      λ i h.
          let gate = gates i (omega arith) (omega arith) in
          let handler = handlers i (omega arith) (omega arith) in
          rw gate (
            gate_of-target i (stubs i) (small i),
            gate_of-present i (stubs i),
            gate_of-level i (stubs i),
            ground (arith, handler),
          ),
    )

-- The address and the limit that the processor puts together from the descriptor.
abbrev pub base_of : TssDescriptor → ℕ
base_of d = d.base1 + 2 ^ 16 * d.base2 + 2 ^ 24 * d.base3 + 2 ^ 32 * d.base4

abbrev pub limit_of : TssDescriptor → ℕ
limit_of d = d.limit + 2 ^ 16 * d.limit2

-- The descriptor of the task state has its address, for one below 2 ^ 64, as limit the size of the
-- structure (its last byte is one below), and both stacks of the task state are the kernel's.
setup_kernel_tss-base :
    (tss_base kernel_stack : ℕ)
    → tss_base < 2 ^ 64
    → let (d, t) = setup_kernel_tss tss_base kernel_stack in
      (base_of d ≡ tss_base)
      × (limit_of d ≡ 104)
      × (t.rsp0 ≡ kernel_stack)
      × (t.ist0 ≡ kernel_stack)
unfolding setup_kernel_tss
setup_kernel_tss-base tss_base kernel_stack h = (
  omega (
    arith,
    bit_and_low 16 tss_base,
    bit_and_field 8 16 tss_base,
    bit_and_field 8 24 tss_base,
    bit_and_field 32 32 tss_base,
  ),
  refl,
  refl,
  refl,
)
