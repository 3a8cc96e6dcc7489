-- ===== src/Syscalls/Exit.antt =====
-- kernel/src/kernel/syscalls/syscalls.c: exit, and what the dispatcher does to the process again.
use bikeshed.Prelude.{
  ℕ, zero, suc, ◌+◌, ◌≤◌, ◌≡◌, ◌/◌, refl, ap, Bool, true, false, ◌==◌, arith, List, [], ◌∷◌,
  if◌then◌else◌,
}
use mathlib.Core.Path.{subst}
use bikeshed.Machine.{Result, ok, panic, bind-ok, ◌>>=◌}
use bikeshed.Scheduler.{
  Event, switch_page_table, cleanup_table, set_delay, start_timer, num_queues, killed, Sched,
  free_pcb, Choice, none_left, chosen, freed, take_next, after_round, after_queue, cleanup_pcb,
  schedule, u32, drop_sleeper, get_next_sleep, run_pcb, pick_from, pick, retire, spend_quantum,
  resume_or_pick, dispatch, enqueue_ready, enqueue_sleeping, new_node,
}
use bikeshed.Syscalls.{Kernel, pcb_of, exit}

-- How often a page table was cleaned up.
pub cleanups : ℕ → List Event → ℕ
cleanups table [] = 0
cleanups table (cleanup_table t ∷ es) = (if t == table then 1 else 0) + cleanups table es
cleanups table (switch_page_table t ∷ es) = cleanups table es
cleanups table (set_delay d ∷ es) = cleanups table es
cleanups table (start_timer ∷ es) = cleanups table es

-- No clean-up is taken back.
abbrev Grows : ℕ → Sched → Sched → Type 0
Grows table s t = cleanups table s.events ≤ cleanups table t.events

free_pcb-events : (p : ℕ) (s t : Sched) → free_pcb p s ≡ ok t → t.events ≡ s.events
unfolding free_pcb
free_pcb-events p s t e = ground arith

drop_sleeper-events : (s t : Sched) → drop_sleeper s ≡ ok t → t.events ≡ s.events
unfolding drop_sleeper
drop_sleeper-events s t e = ground arith

schedule-events : (p : ℕ) (s t : Sched) → schedule p s ≡ ok t → t.events ≡ s.events
unfolding schedule new_node enqueue_ready enqueue_sleeping
schedule-events p s t e = ground arith

get_next_sleep-events :
    (k : ℕ) (s t : Sched) (n : ℕ) → get_next_sleep k s ≡ ok (n, t) → t.events ≡ s.events
unfolding get_next_sleep
get_next_sleep-events k s t n e = grind (arith, schedule-events, drop_sleeper-events)

take_next-Grows :
    (table i : ℕ) (s : Sched) (c : Choice) (t : Sched) → take_next i s ≡ ok (c, t) → Grows table s t
unfolding take_next run_pcb cleanups
take_next-Grows table i s none_left t e = ground arith
take_next-Grows table i s chosen t e = ground arith
take_next-Grows table i s freed t e = grind (arith, free_pcb-events)

round-Grows :
    (table i : ℕ) (s : Sched) (again : Sched → Result (Bool × Sched)) (found : Bool) (t : Sched)
    → ((u : Sched) → again u ≡ ok (found, t) → Grows table u t)
    → (r : Result (Choice × Sched)) → take_next i s ≡ r
    → (r >>= after_round again) ≡ ok (found, t)
    → Grows table s t
round-Grows table i s again found t ih panic e e' = absurd (cc)
round-Grows table i s again found t ih (ok (none_left, u)) e e' =
    ground (arith, take_next-Grows table i s none_left u e)
round-Grows table i s again found t ih (ok (chosen, u)) e e' =
    ground (arith, take_next-Grows table i s chosen u e)
round-Grows table i s again found t ih (ok (freed, u)) e e' =
    ground (arith, take_next-Grows table i s freed u e, ih u e')

pick_from-Grows :
    (table fuel i : ℕ) (s : Sched) (found : Bool) (t : Sched)
    → pick_from fuel i s ≡ ok (found, t)
    → Grows table s t
unfolding pick_from
pick_from-Grows table zero i s found t e = ground arith
pick_from-Grows table (suc fuel) i s found t e =
    round-Grows table i s (λ u. pick_from fuel i u) found t
      (λ u e'. pick_from-Grows table fuel i u found t e') (take_next i s) refl e

queue-Grows :
    (table : ℕ) (s : Sched) (again : Sched → Result Sched) (t : Sched)
    → ((u : Sched) → again u ≡ ok t → Grows table u t)
    → (r : Result (Bool × Sched))
    → ((found : Bool) (u : Sched) → r ≡ ok (found, u) → Grows table s u)
    → (r >>= after_queue again) ≡ ok t
    → Grows table s t
queue-Grows table s again t ih panic h e = absurd (cc)
queue-Grows table s again t ih (ok (true, u)) h e = ground (arith, h true u refl)
queue-Grows table s again t ih (ok (false, u)) h e = omega (arith, h false u refl, ih u e)

pick-Grows : (table n i : ℕ) (s t : Sched) → pick n i s ≡ ok t → Grows table s t
unfolding pick
pick-Grows table zero i s t e = absurd (cc)
pick-Grows table (suc n) i s t e =
    queue-Grows table s (λ u. pick n (suc i) u) t (λ u e'. pick-Grows table n (suc i) u t e')
      (pick_from (s.queues i).size i s)
      (λ found u e'. pick_from-Grows table (s.queues i).size i s found u e') e

resume_or_pick-Grows : (table : ℕ) (s t : Sched) → resume_or_pick s ≡ ok t → Grows table s t
unfolding resume_or_pick cleanups
resume_or_pick-Grows table s t e = grind (arith, pick-Grows table num_queues 0 s t)

-- A killed process is cleaned up once when it is retired.
retire-cleanups :
    (s t : Sched)
    → (s.pcbs s.current_pcb).state ≡ killed
    → retire s ≡ ok t
    → cleanups (s.pcbs s.current_pcb).page_table t.events
      ≡ suc (cleanups (s.pcbs s.current_pcb).page_table s.events)
unfolding retire cleanup_pcb cleanups
retire-cleanups s t h e = ground arith

dispatch-cleanups :
    (elapsed : ℕ) (s t : Sched)
    → (s.pcbs s.current_pcb).state ≡ killed
    → dispatch elapsed s ≡ ok t
    → suc (cleanups (s.pcbs s.current_pcb).page_table s.events)
      ≤ cleanups (s.pcbs s.current_pcb).page_table t.events
unfolding dispatch spend_quantum
dispatch-cleanups elapsed s t h e =
    let table = (s.pcbs s.current_pcb).page_table in
    let span = u32 (elapsed / s.one_ms) in
    let (s1, e1, r1) = bind-ok (retire (spend_quantum span s)) _ e in
    let s2 = record s1 { prev_ticks = s1.quantum_left } in
    let ((n, s3), e2, r2) = bind-ok (get_next_sleep span s2) _ r1 in
    let once : cleanups table s1.events ≡ suc (cleanups table s.events) =
      retire-cleanups (spend_quantum span s) s1 h e1 in
    let kept : cleanups table s3.events ≡ cleanups table s1.events =
      ap (cleanups table) (get_next_sleep-events span s2 s3 n e2) in
    omega (arith, once, kept, resume_or_pick-Grows table _ t r2)

-- `cleanup_pcb` kills the process and cleans its page table up.
cleanup_pcb-killed :
    (pcb : ℕ) (s : Sched)
    → (((cleanup_pcb pcb s).pcbs pcb).state ≡ killed)
      × (((cleanup_pcb pcb s).pcbs pcb).page_table ≡ (s.pcbs pcb).page_table)
      × (cleanups (s.pcbs pcb).page_table (cleanup_pcb pcb s).events
          ≡ suc (cleanups (s.pcbs pcb).page_table s.events))
unfolding cleanup_pcb cleanups
cleanup_pcb-killed pcb s = (ground arith, ground arith, ground arith)

-- Whenever `exit` returns, the page table of the process that called it was cleaned up at least
-- twice: by `exit` itself, and again by the dispatcher, which finds the process killed.
pub exit-cleanups :
    (elapsed : ℕ) (k k' : Kernel)
    → exit elapsed k ≡ ok k'
    → cleanups (pcb_of k).page_table k.sched.events + 2
      ≤ cleanups (pcb_of k).page_table k'.sched.events
unfolding exit cleanup_pcb
exit-cleanups elapsed k k' e =
    let killed_sched = cleanup_pcb k.sched.current_pcb k.sched in
    let (s, e1, e2) = bind-ok (dispatch elapsed killed_sched) _ e in
    let same : s ≡ k'.sched =
      ap (λ (r : Result Kernel). elim r [ panic ↦ s | ok x ↦ x.sched ]) e2 in
    let (dead, table, first) = cleanup_pcb-killed k.sched.current_pcb k.sched in
    let again =
      subst (λ t. suc (cleanups t killed_sched.events) ≤ cleanups t s.events) table
        (dispatch-cleanups elapsed killed_sched s dead e1) in
    rw⁻¹ same (omega (arith, first, again))
