-- ===== src/Timer.antt =====
-- kernel/src/arch/x86_64/interrupts/apic.c: the timer of the local APIC. Its registers are the
-- parameter `Lapic`; the rest of apic_init is in the module Setup.
pub mod Setup
pub mod Elapsed
mod Tests
use bikeshed.Prelude.{ℕ, zero, suc, ◌+◌, ◌-◌, ◌*◌, ◌/◌, ◌%◌, ◌^◌, ◌<◌, ◌≡◌, leb, List, [], ◌∷◌}
use bikeshed.Machine.{Result, ok, assert, ◌>>=◌, ◌>>◌}

-- The registers of the local APIC, by their offset, and a count of its timer.
pub record Lapic : Type 1 where
  pub State : Type 0
  pub write : (register value : ℕ) → State → State
  pub read : (register : ℕ) → State → ℕ
  pub tick : State → State

abbrev pub timer_init_reg : ℕ
timer_init_reg = 0x380

abbrev pub timer_cur_cnt : ℕ
timer_cur_cnt = 0x390

abbrev pub eoi_reg : ℕ
eoi_reg = 0xb0

module _ (lapic : Lapic) where
  pub record Timer : Type 0 where
    pub tsc_per_sec : ℕ
    pub timer_delay : ℕ
    pub registers : lapic.State

  abbrev set_register : (register value : ℕ) → Timer → Timer
  set_register register value t = record t { registers = lapic.write register value t.registers }

  unfoldable pub timer_one_ms : Timer → ℕ
  timer_one_ms t = t.tsc_per_sec / 1000 / 128

  unfoldable pub timer_set_delay : (delay : ℕ) → Timer → Timer
  timer_set_delay delay t = record t { timer_delay = delay }

  unfoldable pub timer_get_count : Timer → ℕ
  timer_get_count t = lapic.read timer_cur_cnt t.registers

  -- Panics if the count is above the delay.
  unfoldable pub timer_get_elapsed : Timer → Result ℕ
  timer_get_elapsed t =
      let count = lapic.read timer_cur_cnt t.registers in
      assert (leb count t.timer_delay) >> ok (t.timer_delay - count)

  unfoldable pub timer_start : Timer → Timer
  timer_start t = set_register timer_init_reg t.timer_delay t

  unfoldable pub timer_resume : Timer → Timer
  timer_resume t = set_register timer_init_reg (lapic.read timer_cur_cnt t.registers) t

  unfoldable pub timer_stop : Timer → Timer
  timer_stop t = set_register timer_init_reg 0 t

  unfoldable pub apic_eoi : Timer → Timer
  apic_eoi t = set_register eoi_reg 0 t
