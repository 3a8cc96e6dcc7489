-- ===== src/Queue/Runs.antt =====
-- Sequences of enqueues and dequeues. What is dequeued is what a list gives that is lengthened at
-- its end and shortened at its front.
use bikeshed.Prelude.{ℕ, ◌≡◌, ap₂, refl, List, [], ◌∷◌, ◌++◌}
use bikeshed.Machine.{Mem}
use bikeshed.Stack.Refine.{first_or_null, rest}
use bikeshed.Stack.Runs.{Op, put, take, IsFree}
use bikeshed.Queue.{Queue, queue_enqueue, queue_dequeue}
use bikeshed.Queue.Refine.{IsQueue, queue_enqueue-snoc, queue_dequeue-rest}

-- The operations on the queue in memory, with the nodes that the dequeues return.
unfoldable pub run : List Op → Queue → Mem → List ℕ × (Queue × Mem)
run [] q m = ([], (q, m))
run (put node ∷ ops) q m = let (q', m') = queue_enqueue q node m in run ops q' m'
run (take ∷ ops) q m =
    let (p, q') = queue_dequeue q m in let later = run ops q' m in (p ∷ later.0, later.1)

-- The same operations on a list.
unfoldable pub run_list : List Op → List ℕ → List ℕ × List ℕ
run_list [] xs = ([], xs)
run_list (put node ∷ ops) xs = run_list ops (xs ++ node ∷ [])
run_list (take ∷ ops) xs = let out = run_list ops (rest xs) in (first_or_null xs ∷ out.0, out.1)

-- Every node that is put in is free at its time.
unfoldable pub AllFree : List Op → List ℕ → Type 0
AllFree [] xs = Unit
AllFree (put node ∷ ops) xs = IsFree node xs × AllFree ops (xs ++ node ∷ [])
AllFree (take ∷ ops) xs = AllFree ops (rest xs)

-- Any sequence of enqueues and dequeues on a well-formed queue returns what the same operations
-- on the list of its nodes return, first in, first out, and leaves a well-formed queue of the
-- nodes that the list is left with, if every node that is enqueued is not NULL and not in the
-- queue at that time, and the size stays below 2 ^ 64.
pub run-fifo :
    (ops : List Op) (m : Mem) (q : Queue) (xs : List ℕ)
    → IsQueue m q xs
    → AllFree ops xs
    → let out = run ops q m in
      let spec = run_list ops xs in (out.0 ≡ spec.0) × IsQueue out.1.1 out.1.0 spec.1
unfolding run run_list AllFree
run-fifo [] m q xs is free = (refl, is)
run-fifo (put node ∷ ops) m q xs is free =
    let enqueued = queue_enqueue-snoc m q xs node is free.0.not_null free.0.out free.0.small in
    let (q', m') = queue_enqueue q node m in run-fifo ops m' q' (xs ++ node ∷ []) enqueued free.1
run-fifo (take ∷ ops) m q xs is free =
    let dequeued = queue_dequeue-rest m q xs is in
    let later = run-fifo ops m (queue_dequeue q m).1 (rest xs) dequeued.1 free in
    (ap₂ (λ p ps. p ∷ ps) dequeued.0 later.0, later.1)
