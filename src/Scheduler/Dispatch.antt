-- ===== src/Scheduler/Dispatch.antt =====
-- The dispatcher: whoever runs next, the timer is armed for at most the rest of a quantum.
use bikeshed.Prelude.{
  ℕ, zero, suc, ◌*◌, ◌/◌, ◌<◌, ◌≤◌, ◌≡◌, refl, Bool, true, false, arith, ◌⊎◌, take, [], ◌∷◌,
}
use bikeshed.Machine.{Result, ok, panic, ◌>>=◌, bind-ok}
use bikeshed.Scheduler.{
  set_delay, start_timer, num_queues, Sched, free_pcb, Choice, none_left, chosen, freed, take_next,
  after_round, after_queue, cleanup_pcb, schedule, u32, drop_sleeper, get_next_sleep, run_pcb,
  pick_from, pick, retire, spend_quantum, resume_or_pick, dispatch, enqueue_ready, enqueue_sleeping,
  new_node,
}

-- The parts of the state that fix the next timer delay.
abbrev SameClock : Sched → Sched → Type 0
SameClock s t =
    (t.prev_ticks ≡ s.prev_ticks) × (t.one_ms ≡ s.one_ms) × (t.quantum_left ≡ s.quantum_left)

-- The last two events arm the timer for `ticks` milliseconds.
abbrev pub Armed : ℕ → Sched → Type 0
Armed ticks t = take 2 t.events ≡ start_timer ∷ set_delay (u32 (ticks * t.one_ms)) ∷ []

-- What a successful choice from a queue, or from all of them, leaves.
abbrev Chosen : Sched → Bool → Sched → Type 0
Chosen s true t = SameClock s t × Armed s.prev_ticks t
Chosen s false t = SameClock s t × (t.current_pcb ≡ s.current_pcb)

abbrev Kept : Sched → Sched → Type 0
Kept s t = SameClock s t × (t.current_pcb ≡ s.current_pcb)

free_pcb-Kept : (p : ℕ) (s t : Sched) → free_pcb p s ≡ ok t → Kept s t
unfolding free_pcb
free_pcb-Kept p s t e = ground arith

drop_sleeper-Kept : (s t : Sched) → drop_sleeper s ≡ ok t → Kept s t
unfolding drop_sleeper
drop_sleeper-Kept s t e = ground arith

schedule-Kept : (p : ℕ) (s t : Sched) → schedule p s ≡ ok t → Kept s t
unfolding schedule new_node enqueue_ready enqueue_sleeping
schedule-Kept p s t e = ground arith

get_next_sleep-Kept : (k : ℕ) (s t : Sched) (n : ℕ) → get_next_sleep k s ≡ ok (n, t) → Kept s t
unfolding get_next_sleep
get_next_sleep-Kept k s t n e = grind (arith, schedule-Kept, drop_sleeper-Kept)

-- What a round, and then the loop, leaves of the clock and of the timer.
abbrev Round : Sched → Choice → Sched → Type 0
Round s chosen t = SameClock s t × Armed s.prev_ticks t
Round s _ t = Kept s t

take_next-Round :
    (i : ℕ) (s : Sched) (c : Choice) (t : Sched) → take_next i s ≡ ok (c, t) → Round s c t
unfolding take_next run_pcb
take_next-Round i s none_left t e = ground arith
take_next-Round i s chosen t e = ground arith
take_next-Round i s freed t e = grind (arith, free_pcb-Kept)

-- A round is followed by the end of the loop, or by a rest `again` that does what the loop does.
round-Chosen :
    (i : ℕ) (s : Sched) (again : Sched → Result (Bool × Sched)) (found : Bool) (t : Sched)
    → ((u : Sched) → again u ≡ ok (found, t) → Chosen u found t)
    → (r : Result (Choice × Sched)) → take_next i s ≡ r
    → (r >>= after_round again) ≡ ok (found, t)
    → Chosen s found t
round-Chosen i s again found t ih panic e e' = absurd (cc)
round-Chosen i s again true t ih (ok (none_left, u)) e e' = absurd (cc)
round-Chosen i s again false t ih (ok (none_left, u)) e e' =
    ground (arith, take_next-Round i s none_left u e)
round-Chosen i s again true t ih (ok (chosen, u)) e e' =
    ground (arith, take_next-Round i s chosen u e)
round-Chosen i s again false t ih (ok (chosen, u)) e e' = absurd (cc)
round-Chosen i s again true t ih (ok (freed, u)) e e' =
    ground (arith, take_next-Round i s freed u e, ih u e')
round-Chosen i s again false t ih (ok (freed, u)) e e' =
    ground (arith, take_next-Round i s freed u e, ih u e')

pick_from-Chosen :
    (fuel i : ℕ) (s : Sched) (found : Bool) (t : Sched)
    → pick_from fuel i s ≡ ok (found, t)
    → Chosen s found t
unfolding pick_from
pick_from-Chosen zero i s true t e = absurd (cc)
pick_from-Chosen zero i s false t e = ground arith
pick_from-Chosen (suc fuel) i s found t e =
    round-Chosen i s (λ u. pick_from fuel i u) found t
      (λ u e'. pick_from-Chosen fuel i u found t e') (take_next i s) refl e

queue-Chosen :
    (i : ℕ) (s : Sched) (again : Sched → Result Sched) (out : Bool × Sched) (t : Sched)
    → pick_from (s.queues i).size i s ≡ ok out
    → ((u : Sched) → again u ≡ ok t → Chosen u true t)
    → after_queue again out ≡ ok t
    → Chosen s true t
queue-Chosen i s again (true, u) t e ih e' =
    ground (arith, pick_from-Chosen (s.queues i).size i s true u e)
queue-Chosen i s again (false, u) t e ih e' =
    ground (arith, pick_from-Chosen (s.queues i).size i s false u e, ih u e')

pick-Chosen : (n i : ℕ) (s t : Sched) → pick n i s ≡ ok t → Chosen s true t
unfolding pick
pick-Chosen zero i s t e = absurd (cc)
pick-Chosen (suc n) i s t e =
    let (out, e1, e2) =
      bind-ok (pick_from (s.queues i).size i s) (after_queue (λ t. pick n (suc i) t)) e in
    queue-Chosen i s (λ t. pick n (suc i) t) out t e1 (λ u e'. pick-Chosen n (suc i) u t e') e2

retire_quantum :
    (s t : Sched)
    → s.quantum_left ≤ 10
    → retire s ≡ ok t
    → (t.quantum_left ≤ 10) × (t.one_ms ≡ s.one_ms)
unfolding retire cleanup_pcb
retire_quantum s t h e = grind (arith, schedule-Kept)

resume_or_pick-Armed :
    (s t : Sched)
    → s.quantum_left ≤ 10
    → (s.prev_ticks ≡ s.quantum_left) ⊎ (0 < s.prev_ticks) × (s.prev_ticks < s.quantum_left)
    → resume_or_pick s ≡ ok t
    → Armed t.prev_ticks t × (0 < t.prev_ticks) × (t.prev_ticks ≤ 10)
unfolding resume_or_pick
resume_or_pick-Armed s t h p e = ground (arith, pick-Chosen num_queues 0 s t)

-- Whenever `dispatch` returns, with at most 10 ms of the quantum left before it, the last things it did are to set the timer's delay and to start
-- it; the delay is that of `prev_ticks`, which is then between 1 and the 10 ms of a quantum.
pub dispatch-Armed :
    (elapsed : ℕ) (s t : Sched)
    → s.quantum_left ≤ 10
    → dispatch elapsed s ≡ ok t
    → Armed t.prev_ticks t × (0 < t.prev_ticks) × (t.prev_ticks ≤ 10)
unfolding dispatch spend_quantum
dispatch-Armed elapsed s t h e =
    let span = u32 (elapsed / s.one_ms) in
    let (s1, e1, r1) = bind-ok (retire (spend_quantum span s)) _ e in
    let s2 = record s1 { prev_ticks = s1.quantum_left } in
    let ((n, s3), e2, r2) = bind-ok (get_next_sleep span s2) _ r1 in
    let kept = get_next_sleep-Kept span s2 s3 n e2 in
    let small = retire_quantum (spend_quantum span s) s1 (ground arith) e1 in
    resume_or_pick-Armed _ t (ground arith) (ground arith) r2
