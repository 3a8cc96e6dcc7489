-- ===== src/Timer/Elapsed.antt =====
-- kernel/src/arch/x86_64/interrupts/apic.c: the time that timer_get_elapsed measures.
use mathlib.Core.Path.{subst}
use bikeshed.Prelude.{
  ℕ, suc, ◌-◌, ◌≤◌, ◌≡◌, refl, ap, ◌∙◌, ltb, if◌then◌else◌, List, [], ◌∷◌, arith,
}
use bikeshed.Machine.{ok}
use bikeshed.Timer.{
  Lapic, Timer, timer_set_delay, timer_get_count, timer_get_elapsed, timer_start, timer_resume,
  timer_stop, apic_eoi,
}

-- What the kernel relies on of the timer: a write of the initial count starts the current count
-- there, every tick takes one off until it is 0, and acknowledging an interrupt leaves it alone.
pub record IsTimer (lapic : Lapic) : Type 0 where
  pub starts : (v : ℕ) (s : lapic.State) → lapic.read 0x390 (lapic.write 0x380 v s) ≡ v
  pub counts : (s : lapic.State) → lapic.read 0x390 (lapic.tick s) ≡ lapic.read 0x390 s - 1
  pub eoi : (v : ℕ) (s : lapic.State) → lapic.read 0x390 (lapic.write 0xb0 v s) ≡ lapic.read 0x390 s

-- What happens to a timer that runs.
pub data Happens : Type 0 where
  tick : Happens
  resume : Happens
  acknowledge : Happens

abbrev pub ticks : List Happens → ℕ
ticks [] = 0
ticks (tick ∷ hs) = suc (ticks hs)
ticks (resume ∷ hs) = ticks hs
ticks (acknowledge ∷ hs) = ticks hs

ticks_both :
    (h : Happens) (hs : List Happens) (left : ℕ)
    → left - ticks (h ∷ []) - ticks hs ≡ left - ticks (h ∷ hs)
ticks_both tick hs left = omega arith
ticks_both resume hs left = omega arith
ticks_both acknowledge hs left = omega arith

module _ (lapic : Lapic) where
  abbrev pub happen : Happens → Timer lapic → Timer lapic
  happen tick t = record t { registers = lapic.tick t.registers }
  happen resume t = timer_resume lapic t
  happen acknowledge t = apic_eoi lapic t

  abbrev pub run : List Happens → Timer lapic → Timer lapic
  run [] t = t
  run (h ∷ hs) t = run hs (happen h t)

  module _ (law : IsTimer lapic) where
    -- A count of `left` under a delay.
    Counting : (delay left : ℕ) → Timer lapic → Type 0
    Counting delay left t =
        (t.timer_delay ≡ delay) × (lapic.read 0x390 t.registers ≡ left) × (left ≤ delay)

    happen-Counting :
        (h : Happens) (delay left : ℕ) (t : Timer lapic)
        → Counting delay left t
        → Counting delay (left - ticks (h ∷ [])) (happen h t)
    unfolding Counting timer_resume apic_eoi
    happen-Counting tick delay left t c = ground (arith, law.counts t.registers)
    happen-Counting resume delay left t c =
        ground (arith, law.starts (lapic.read 0x390 t.registers) t.registers)
    happen-Counting acknowledge delay left t c = ground (arith, law.eoi 0 t.registers)

    ap_left :
        (delay : ℕ) {left left' : ℕ}
        → left ≡ left'
        → (t : Timer lapic) → Counting delay left t
        → Counting delay left' t
    ap_left delay e t c = subst (λ x. Counting delay x t) e c

    run-Counting :
        (hs : List Happens) (delay left : ℕ) (t : Timer lapic)
        → Counting delay left t
        → Counting delay (left - ticks hs) (run hs t)
    run-Counting [] delay left t c = ap_left delay (omega arith) t c
    run-Counting (h ∷ hs) delay left t c =
        ap_left delay (ticks_both h hs left) (run hs (happen h t)) (
          run-Counting hs delay (left - ticks (h ∷ [])) (happen h t)
            (happen-Counting h delay left t c))

    elapsed-Counting :
        (delay left : ℕ) (t : Timer lapic)
        → Counting delay left t
        → timer_get_elapsed lapic t ≡ ok (delay - left)
    unfolding Counting timer_get_elapsed
    elapsed-Counting delay left t c = ground arith

    start-Counting :
        (delay : ℕ) (t : Timer lapic)
        → Counting delay delay (timer_start lapic (timer_set_delay lapic delay t))
    unfolding Counting timer_start timer_set_delay
    start-Counting delay t = (refl, law.starts delay t.registers, omega arith)

    stop-Counting : (t : Timer lapic) → Counting t.timer_delay 0 (timer_stop lapic t)
    unfolding Counting timer_stop
    stop-Counting t = (refl, law.starts 0 t.registers, omega arith)

    count-Counting :
        (delay left : ℕ) (t : Timer lapic) → Counting delay left t → timer_get_count lapic t ≡ left
    unfolding Counting timer_get_count
    count-Counting delay left t c = c.1

-- A timer that was started with a delay measures the ticks since then, and the delay from its end
-- on, whatever number of resumptions and acknowledged interrupts come between; the check that the
-- count is not above the delay never fails.
pub timer_get_elapsed-run :
    (lapic : Lapic)
    → IsTimer lapic
    → (delay : ℕ) (t : Timer lapic) (hs : List Happens)
    → timer_get_elapsed lapic (run lapic hs (timer_start lapic (timer_set_delay lapic delay t)))
      ≡ ok (if ltb (ticks hs) delay then ticks hs else delay)
timer_get_elapsed-run lapic law delay t hs =
    let began = start-Counting lapic law delay t in
    elapsed-Counting lapic law delay (delay - ticks hs) _
      (run-Counting lapic law hs delay delay _ began)
    ∙ ap (λ (n : ℕ). ok n) (ground arith)

-- After timer_stop, nothing but a new start makes the timer count again: the count stays 0,
-- and timer_get_elapsed gives the whole delay however little of it had passed.
pub timer_stop-run :
    (lapic : Lapic)
    → IsTimer lapic
    → (t : Timer lapic) (hs : List Happens)
    → let stopped = run lapic hs (timer_stop lapic t) in
      (timer_get_count lapic stopped ≡ 0) × (timer_get_elapsed lapic stopped ≡ ok t.timer_delay)
timer_stop-run lapic law t hs =
    let c =
      run-Counting lapic law hs t.timer_delay 0 (timer_stop lapic t) (stop-Counting lapic law t) in
    (
      count-Counting lapic law t.timer_delay (0 - ticks hs) (run lapic hs (timer_stop lapic t)) c
          ∙ omega arith,
      elapsed-Counting lapic law t.timer_delay (0 - ticks hs) _ c
          ∙ ap (λ (n : ℕ). ok n) (omega arith),
    )
