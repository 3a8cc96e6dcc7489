-- ===== src/Scheduler/Late.antt =====
-- kernel/src/kernel/scheduler/scheduler.c and data_structures/queue.c: when a process wakes that is
-- put on the sleep queue between two others.
use mathlib.Core.Path.{subst}
use mathlib.Core.List.{append_assoc}
use bikeshed.Prelude.{
  ℕ, suc, ◌+◌, ◌<◌, ◌≡◌, ◌≢◌, false, arith, ap, ◌∙◌, sym, List, [], ◌∷◌, ◌++◌, has, Distinct,
  length,
}
use bikeshed.Machine.{Mem, word}
use bikeshed.Stack.Refine.{Linked}
use bikeshed.Queue.{Queue, data_at, queue_enqueue_prio}
use bikeshed.Queue.Refine.{IsQueue}
use bikeshed.Queue.Prio.{prio_split, placed, queue_enqueue_prio-placed}
use bikeshed.Scheduler.{Pcbs, sleep_insert}
use bikeshed.Scheduler.Sleep.{pcbs_of, delta_sum, sleep_insert-walk}

delta_sum-append :
    (m : Mem) (t : Pcbs) (xs ys : List ℕ)
    → delta_sum m t (xs ++ ys) ≡ delta_sum m t xs + delta_sum m t ys
unfolding delta_sum
delta_sum-append m t [] ys = omega arith
delta_sum-append m t (x ∷ xs) ys = omega (arith, delta_sum-append m t xs ys)

-- The differences up to the new sleeper, if it stands behind the node at which the walk stopped.
late_sum :
    (m : Mem) (node r : ℕ) (ps : List ℕ) (t : Pcbs)
    → delta_sum m t (ps ++ r ∷ node ∷ [])
      ≡ delta_sum m t ps + (t (m (data_at node))).sleep_time + (t (m (data_at r))).sleep_time
unfolding delta_sum
late_sum m node r ps t = omega (arith, delta_sum-append m t ps (r ∷ node ∷ []))

-- Let the sleep queue be well formed, with distinct sleepers, and the new one, whose node is not
-- NULL, not among them; and let the walk of `sleep_insert` pass the nodes from `p` on and stop at a
-- later node `r`. Then `queue_enqueue_prio` links the new node behind `r`, and the differences that
-- it leaves up to the new node add up to the new sleeper's time and what is left to `r`: it wakes
-- that much late.
pub queue_enqueue_prio-late :
    (m : Mem) (q : Queue) (node p r : ℕ) (ps rs xs : List ℕ) (t : Pcbs)
    → IsQueue m q xs
    → node ≢ 0
    → has node xs ≡ false
    → suc (length xs) < word
    → has (m (data_at node)) (pcbs_of m xs) ≡ false
    → Distinct (pcbs_of m xs)
    → (prio_split sleep_insert m (m (data_at node)) xs t).0 ≡ (p ∷ ps, r ∷ rs)
    → let ((q', m'), t') = queue_enqueue_prio sleep_insert q node m t in
      Linked m' q'.head ((p ∷ ps ++ r ∷ node ∷ []) ++ rs)
      × (delta_sum m t' (p ∷ ps ++ r ∷ node ∷ [])
          ≡ (t (m (data_at node))).sleep_time + (t' (m (data_at r))).sleep_time)
queue_enqueue_prio-late m q node p r ps rs xs t is ne out small fresh d e =
    let pcb = m (data_at node) in
    let split = prio_split sleep_insert m pcb xs t in
    let after = queue_enqueue_prio sleep_insert q node m t in
    let (linked, size, same) =
      queue_enqueue_prio-placed sleep_insert m q xs node t is ne out small in
    let own : delta_sum m split.1 (p ∷ ps) + (split.1 pcb).sleep_time ≡ (t pcb).sleep_time =
      ap (λ (o : List ℕ × List ℕ). delta_sum m split.1 o.0 + (split.1 pcb).sleep_time) (sym e)
      ∙ (sleep_insert-walk m pcb xs t fresh d).0 in
    let order : placed split.0.0 split.0.1 node ≡ (p ∷ ps ++ r ∷ node ∷ []) ++ rs =
      ap (λ (o : List ℕ × List ℕ). placed o.0 o.1 node) e
      ∙ ap (λ (l : List ℕ). p ∷ l) (sym (append_assoc ps (r ∷ node ∷ []) rs)) in
    (
      subst (Linked after.0.1 after.0.0.head) order linked,
      subst
          (λ (u : Pcbs).
            delta_sum m u (p ∷ ps ++ r ∷ node ∷ [])
            ≡ (t pcb).sleep_time + (u (m (data_at r))).sleep_time)
          (sym same) (late_sum m node r (p ∷ ps) split.1 ∙ omega (arith, own)),
    )
