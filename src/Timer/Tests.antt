-- ===== src/Timer/Tests.antt =====
-- The theorems on the timer at one that counts down a number.
use bikeshed.Prelude.{ℕ, ◌-◌, ◌≡◌, refl, ◌==◌, if◌then◌else◌, List, [], ◌∷◌}
use bikeshed.Machine.{ok}
use bikeshed.Timer.{
  Lapic, Timer, timer_set_delay, timer_get_count, timer_get_elapsed, timer_start, timer_stop,
}
use bikeshed.Timer.Elapsed.{
  IsTimer, Happens, tick, resume, acknowledge, run, timer_get_elapsed-run, timer_stop-run,
}

abbrev counter : Lapic
counter = record {
  State = ℕ;
  write = λ register value s. if register == 0x380 then value else s;
  read = λ register s. s;
  tick = λ s. s - 1;
}

counter-IsTimer : IsTimer counter
counter-IsTimer = record { starts = λ v s. refl; counts = λ s. refl; eoi = λ v s. refl }

abbrev timer : Timer counter
timer = record { tsc_per_sec = 12800000; timer_delay = 100; registers = 40 }

abbrev history : List Happens
history = tick ∷ tick ∷ acknowledge ∷ resume ∷ tick ∷ []

timer_get_elapsed-run_example :
    timer_get_elapsed counter
      (run counter history (timer_start counter (timer_set_delay counter 7 timer)))
    ≡ ok 3
timer_get_elapsed-run_example = timer_get_elapsed-run counter counter-IsTimer 7 timer history

timer_stop-run_example :
    let stopped = run counter history (timer_stop counter timer) in
    (timer_get_count counter stopped ≡ 0) × (timer_get_elapsed counter stopped ≡ ok 100)
timer_stop-run_example = timer_stop-run counter counter-IsTimer timer history
