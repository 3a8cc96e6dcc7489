-- ===== src/Timer/Setup.antt =====
-- kernel/src/arch/x86_64/interrupts/apic.c: pic_init and apic_init, as the writes that they make, in
-- order. What they read of the processor and its ports is the argument `Readings`; the loop that
-- waits for the timer chip only reads. The module Elapsed has the timer that is measured here.
use bikeshed.Prelude.{
  ℕ, ◌-◌, ◌*◌, ◌/◌, ◌%◌, ◌^◌, ◌<◌, ◌≤◌, ◌≡◌, ap, bit_and, bit_or, Bool, ltb, not, ◌==◌, List, [],
  ◌∷◌, ◌++◌, arith,
}
use bikeshed.Prelude.Bits.{bit_and_field}
use bikeshed.Machine.{Result, ok, panic, assert, bind-ok, from_ok, ◌>>=◌, ◌>>◌}
use bikeshed.PhysAlloc.{Phys}
use bikeshed.Paging.{virt_map_phys, page_small}
use bikeshed.Timer.{Lapic, timer_one_ms, timer_init_reg}

-- _outb, a write of a register of the local APIC, and `writemsr` of its base register.
pub data Write : Type 0 where
  port : (number value : ℕ) → Write
  register : (offset value : ℕ) → Write
  base_msr : (eax edx : ℕ) → Write

-- What `cpuid` gives in edx, `readmsr` in eax and edx, port 0x61 both times, and the count of the
-- timer when the 10 ms are over.
pub record Readings : Type 0 where
  pub cpuid_edx : ℕ
  pub msr_eax : ℕ
  pub msr_edx : ℕ
  pub speaker : ℕ
  pub speaker_later : ℕ
  pub count : ℕ

unfoldable pub check_apic : Readings → Bool
check_apic r = ltb 0 (bit_and r.cpuid_edx 0x100)

unfoldable pub enable_apic : Readings → List Write
enable_apic r = base_msr (bit_or r.msr_eax 0x800) r.msr_edx ∷ []

unfoldable pub apic_base_address : Readings → ℕ
apic_base_address r = bit_and r.msr_eax 0xfffff000

-- The ports of the two interrupt controllers.
abbrev pub pic_init : List Write
pic_init =
    port 0x20 (bit_or 0x10 0x01)
    ∷ port 0xa0 (bit_or 0x10 0x01)
    ∷ port 0x21 0x20
    ∷ port 0xa1 0x28
    ∷ port 0x21 0x04
    ∷ port 0xa1 0x02
    ∷ port 0x21 0x1
    ∷ port 0xa1 0x1
    ∷ port 0x21 0x0
    ∷ port 0xa1 0x0
    ∷ []

abbrev pub apic_virt_loc : ℕ
apic_virt_loc = 0xfffffffffffff000

abbrev pub apic_disable : ℕ
apic_disable = 0x10000

-- The registers before the APIC is enabled, and those after.
unfoldable pub setup_registers : Readings → List Write
setup_registers r =
    register 0x320 apic_disable
    ∷ register 0x340 0x400
    ∷ register 0x350 apic_disable
    ∷ register 0x360 apic_disable
    ∷ register 0x80 0
    ∷ (enable_apic r
        ++ register 0xf0 (bit_or 39 0x100) ∷ register 0x320 32 ∷ register 0x3e0 0xa ∷ [])

-- The timer chip is given 11932 counts, and the timer of the APIC is read when they are over.
unfoldable pub measure : Readings → List Write
measure r =
    let tmp = bit_and r.speaker_later 0xfe in
    port 0x61 (bit_or (bit_and r.speaker 0xfd) 1)
    ∷ port 0x43 (bit_or (bit_or 0x80 0x2) (0x3 * 2 ^ 4))
    ∷ port 0x42 0x9c
    ∷ port 0x42 0x2e
    ∷ port 0x61 tmp
    ∷ port 0x61 (bit_or tmp 1)
    ∷ register timer_init_reg 0xffffffff
    ∷ register timer_init_reg 0
    ∷ []

-- The PIC off but for the keyboard, and the line of external interrupts.
abbrev pub finish : List Write
finish = port 0xa1 0xff ∷ port 0x21 0xfd ∷ register 0x350 0x8700 ∷ []

unfoldable pub ticks_per_second : (count : ℕ) → ℕ
ticks_per_second count = (0xffffffff - count) * 100 * 128 % 2 ^ 32

-- The writes, `tsc_per_sec`, and the page tables with the page of the APIC.
unfoldable pub apic_init : (kernel_table : ℕ) → Readings → Phys → Result (List Write × ℕ × Phys)
apic_init kernel_table r p = do
  assert (check_apic r)
  assert (not (apic_base_address r == 0))
  mapped ← virt_map_phys kernel_table apic_virt_loc (apic_base_address r) 0x1a page_small p
  assert (not (mapped.0 == 0))
  ok (pic_init ++ setup_registers r ++ measure r ++ finish, ticks_per_second r.count, mapped.1)

-- Whatever the other bits of `cpuid` are, bit 9, the one for a local APIC, too: if bit 8 is not
-- set, apic_init panics.
apic_init-panics :
    (kernel_table : ℕ) (r : Readings) (p : Phys)
    → r.cpuid_edx / 2 ^ 8 % 2 ≡ 0
    → apic_init kernel_table r p ≡ panic
unfolding apic_init check_apic
apic_init-panics kernel_table r p h = ground (arith, bit_and_field 1 8 r.cpuid_edx)

-- When apic_init comes back, and the timer has made so few counts in the 10 ms that a second of
-- undivided ones fits 32 bits, timer_one_ms is a tenth of these counts, rounded down.
apic_init-one_ms :
    (kernel_table : ℕ) (r : Readings) (p p' : Phys) (writes : List Write) (tsc : ℕ) (lapic : Lapic)
    (s : lapic.State)
    → apic_init kernel_table r p ≡ ok (writes, tsc, p')
    → r.count ≤ 0xffffffff
    → (0xffffffff - r.count) * 12800 < 2 ^ 32
    → timer_one_ms lapic (record { tsc_per_sec = tsc; timer_delay = 0; registers = s })
      ≡ (0xffffffff - r.count) / 10
unfolding apic_init timer_one_ms ticks_per_second
apic_init-one_ms kernel_table r p p' writes tsc lapic s e h k =
    let (u1, c1, e1) = bind-ok (assert (check_apic r)) _ e in
    let (u2, c2, e2) = bind-ok (assert (not (apic_base_address r == 0))) _ e1 in
    let (mapped, c3, e3) =
      bind-ok (virt_map_phys kernel_table apic_virt_loc (apic_base_address r) 0x1a page_small p) _
        e2 in
    let (u4, c4, e4) = bind-ok (assert (not (mapped.0 == 0))) _ e3 in
    let tsc_is : (0xffffffff - r.count) * 100 * 128 % 2 ^ 32 ≡ tsc =
      ap (λ (t : List Write × ℕ × Phys). t.1) (from_ok _ (writes, tsc, p') e4) in
    omega arith
