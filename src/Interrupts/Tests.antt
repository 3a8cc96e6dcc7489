-- ===== src/Interrupts/Tests.antt =====
-- The theorems on the interrupt tables at 256 stubs of 16 bytes.
use bikeshed.Prelude.{ℕ, ◌+◌, ◌-◌, true, refl, List, ◌*◌, ◌%◌, ◌<◌, ◌≡◌, ◌==◌, if◌then◌else◌, arith}
use bikeshed.Machine.{ok, ◌>>=◌, returns}
use bikeshed.Addresses.{kernel_base, phys_to_virt, mask_4kib}
use bikeshed.Stack.{stack}
use bikeshed.PhysAlloc.{Phys}
use bikeshed.Paging.{virt_map_phys, ensure_table, map_in_directory, map_in_table}
use bikeshed.Timer.Setup.{Write, Readings, check_apic, apic_base_address, apic_init}
use bikeshed.Interrupts.{
  gate_of, timer_handler, spurious_handler, serial_handler, default_handler, Tables,
  interrupts_init,
}
use bikeshed.Interrupts.Table.{target, present, level, interrupts_init-gates}

abbrev stubs : ℕ → ℕ
stubs i = 0xffff800000100000 + i % 256 * 16

stubs-small : (i : ℕ) → stubs i < 18446744073709551616
stubs-small i = omega arith

abbrev blank : Tables
blank = record { idt = gate_of 0; isr_table = λ i. default_handler }

-- Tables for the last page of the address space, whose entry is free.
abbrev memory : Phys
memory = record {
  stack_2mib = stack 0 0;
  pool_4kib = 0;
  mem = λ a.
      if a == kernel_base + 4088
      then 0x1003
      else if a == kernel_base + 0x1ff8
      then 0x2003
      else if a == kernel_base + 0x2ff8
      then 0x3003
      else 0;
}

-- A processor with a local APIC, whose timer makes 100000 counts in 10 ms.
abbrev readings : Readings
readings = record {
  cpuid_edx = 0x300;
  msr_eax = 0xfee00900;
  msr_edx = 0;
  speaker = 0;
  speaker_later = 0;
  count = 0xffffffff - 100000;
}

-- apic_init comes back there.
apic_initialises : returns (apic_init 0 readings memory) ≡ true
unfolding apic_init check_apic apic_base_address virt_map_phys ensure_table map_in_directory
    map_in_table phys_to_virt mask_4kib
apic_initialises = refl

interrupts_init-gates_example :
    (t' : Tables) × (interrupts_init 0 readings stubs blank memory ≡ (
      apic_init 0 readings memory >>= λ (apic : List Write × ℕ × Phys).
      ok (record { tables = t'; writes = apic.0; tsc_per_sec = apic.1; phys = apic.2 })))
    × ((i : ℕ)
        → i < 256
        → (target (t'.idt i) ≡ stubs i)
          × (present (t'.idt i) ≡ 1)
          × (level (t'.idt i) ≡ (if i == 0x80 then 3 else 0))
          × (t'.isr_table i ≡ (
              if i == 32
              then timer_handler
              else if i == 39
              then spurious_handler
              else if i == 36
              then serial_handler
              else default_handler)))
interrupts_init-gates_example = interrupts_init-gates 0 readings stubs blank memory stubs-small
