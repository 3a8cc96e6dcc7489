-- ===== src/Scheduler/Ready.antt =====
-- The choice among the ready queues: the front of the first queue that is not empty.
use bikeshed.Prelude.{
  ℕ, zero, suc, ◌+◌, ◌<◌, ◌≤◌, ◌≡◌, refl, sym, Bool, true, false, arith, ap, ◌∙◌,
}
use mathlib.Core.Path.{subst}
use bikeshed.Machine.{Result, ok, panic, ◌>>=◌, bind-ok}
use bikeshed.Queue.{data_at, queue_dequeue, queue_empty}
use bikeshed.Scheduler.{
  ready, Sched, run_pcb, take_next, after_round, after_queue, pick_from, pick, Choice, chosen,
  none_left,
}

take_next_empty :
    (i : ℕ) (s : Sched) → queue_empty (s.queues i) ≡ true → take_next i s ≡ ok (none_left, s)
unfolding take_next
take_next_empty i s e = rw e refl

pick_from_empty :
    (fuel i : ℕ) (s : Sched) → queue_empty (s.queues i) ≡ true → pick_from fuel i s ≡ ok (false, s)
unfolding pick_from
pick_from_empty zero i s e = refl
pick_from_empty (suc fuel) i s e = rw (take_next_empty i s e) refl

-- The process whose node stands at the front of queue `i`.
abbrev pub front : ℕ → Sched → ℕ
front i s = s.mem (data_at (s.queues i).head)

take_next-front :
    (i : ℕ) (s : Sched) (c : Choice) (t : Sched)
    → queue_empty (s.queues i) ≡ false
    → (s.pcbs (front i s)).state ≡ ready
    → take_next i s ≡ ok (c, t)
    → (c ≡ chosen) × (t.current_pcb ≡ front i s)
unfolding take_next queue_dequeue queue_empty run_pcb
take_next-front i s c t some r e = ground arith

round_front :
    (i : ℕ) (s t : Sched) (again : Sched → Result (Bool × Sched)) (found : Bool)
    → queue_empty (s.queues i) ≡ false
    → (s.pcbs (front i s)).state ≡ ready
    → (r : Result (Choice × Sched)) → take_next i s ≡ r
    → (r >>= after_round again) ≡ ok (found, t)
    → (found ≡ true) × (t.current_pcb ≡ front i s)
round_front i s t again found some r panic e e' = absurd (cc)
round_front i s t again found some r (ok (c, u)) e e' =
    let (same, cur) = take_next-front i s c u some r e in
    let h : after_round again (chosen, u) ≡ ok (found, t) =
      subst (λ (x : Choice). after_round again (x, u) ≡ ok (found, t)) same e' in
    ground arith

pick_from-front :
    (fuel i : ℕ) (s t : Sched) (found : Bool)
    → queue_empty (s.queues i) ≡ false
    → (s.pcbs (front i s)).state ≡ ready
    → 0 < fuel
    → pick_from fuel i s ≡ ok (found, t)
    → (found ≡ true) × (t.current_pcb ≡ front i s)
unfolding pick_from
pick_from-front zero i s t found some r h e = absurd (omega arith)
pick_from-front (suc fuel) i s t found some r h e =
    round_front i s t (λ u. pick_from fuel i u) found some r (take_next i s) refl e

queue_front :
    (i : ℕ) (s t : Sched) (again : Sched → Result Sched)
    → queue_empty (s.queues i) ≡ false
    → (s.pcbs (front i s)).state ≡ ready
    → (out : Bool × Sched) → pick_from (s.queues i).size i s ≡ ok out
    → after_queue again out ≡ ok t
    → t.current_pcb ≡ front i s
unfolding queue_empty
queue_front i s t again some r (true, u) e e' =
    ground (arith, pick_from-front (s.queues i).size i s u true)
queue_front i s t again some r (false, u) e e' =
    ground (arith, pick_from-front (s.queues i).size i s u false)

-- If the queues before the `k`-th are empty and its front process is ready, a choice that
-- returns gives the processor to that process.
pub pick-front :
    (n i j : ℕ) (s t : Sched)
    → ((x : ℕ) → i ≤ x → x < i + j → queue_empty (s.queues x) ≡ true)
    → queue_empty (s.queues (i + j)) ≡ false
    → (s.pcbs (front (i + j) s)).state ≡ ready
    → pick n i s ≡ ok t
    → t.current_pcb ≡ front (i + j) s
unfolding pick
pick-front zero i j s t below some r e = absurd (cc)
pick-front (suc n) i zero s t below some r e =
    let z : i + 0 ≡ i = omega arith in
    let some' = subst (λ (x : ℕ). queue_empty (s.queues x) ≡ false) z some in
    let r' = subst (λ (x : ℕ). (s.pcbs (front x s)).state ≡ ready) z r in
    let (out, e1, e2) =
      bind-ok (pick_from (s.queues i).size i s) (after_queue (λ u. pick n (suc i) u)) e in
    queue_front i s t (λ u. pick n (suc i) u) some' r' out e1 e2 ∙ ap (λ (x : ℕ). front x s) (sym z)
pick-front (suc n) i (suc j) s t below some r e =
    let z : i + suc j ≡ suc i + j = omega arith in
    let rest : pick n (suc i) s ≡ ok t =
      subst (λ (x : Result (Bool × Sched)). (x >>= after_queue (λ u. pick n (suc i) u)) ≡ ok t)
        (pick_from_empty (s.queues i).size i s (below i (omega arith) (omega arith))) e in
    pick-front n (suc i) j s t (λ x h h'. below x (omega arith) (omega arith))
      (subst (λ (x : ℕ). queue_empty (s.queues x) ≡ false) z some)
      (subst (λ (x : ℕ). (s.pcbs (front x s)).state ≡ ready) z r) rest
    ∙ ap (λ (x : ℕ). front x s) (sym z)
