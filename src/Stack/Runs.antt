-- ===== src/Stack/Runs.antt =====
-- Sequences of pushes and pops. What is popped does not depend on the chain in memory: it is what
-- the list of the nodes gives.
use bikeshed.Prelude.{ℕ, suc, ◌<◌, ◌≡◌, ◌≢◌, ap₂, refl, false, List, [], ◌∷◌, length, has}
use bikeshed.Machine.{Mem, word}
use bikeshed.Stack.{Stack, stack_push, stack_pop}
use bikeshed.Stack.Refine.{IsStack, first_or_null, rest, stack_push-cons, stack_pop-rest}

pub data Op : Type 0 where
  put : ℕ → Op
  take : Op

-- A node that is put in is not NULL and is not there, and the size stays below 2 ^ 64.
pub record IsFree (node : ℕ) (xs : List ℕ) : Type 0 where
  pub not_null : node ≢ 0
  pub out : has node xs ≡ false
  pub small : suc (length xs) < word

-- The operations on the stack in memory, with the nodes that the pops return.
unfoldable pub run : List Op → Stack → Mem → List ℕ × (Stack × Mem)
run [] s m = ([], (s, m))
run (put node ∷ ops) s m = let (s', m') = stack_push s node m in run ops s' m'
run (take ∷ ops) s m =
    let (p, s') = stack_pop s m in let later = run ops s' m in (p ∷ later.0, later.1)

-- The same operations on a list.
unfoldable pub run_list : List Op → List ℕ → List ℕ × List ℕ
run_list [] xs = ([], xs)
run_list (put node ∷ ops) xs = run_list ops (node ∷ xs)
run_list (take ∷ ops) xs = let out = run_list ops (rest xs) in (first_or_null xs ∷ out.0, out.1)

-- Every node that is put in is free at its time.
unfoldable pub AllFree : List Op → List ℕ → Type 0
AllFree [] xs = Unit
AllFree (put node ∷ ops) xs = IsFree node xs × AllFree ops (node ∷ xs)
AllFree (take ∷ ops) xs = AllFree ops (rest xs)

-- Any sequence of pushes and pops on a well-formed stack returns what the same operations on the
-- list of its nodes return, and leaves a well-formed stack of the nodes that the list is left
-- with, if every node that is pushed is not NULL and not on the stack at that time, and the size
-- stays below 2 ^ 64.
pub run-lifo :
    (ops : List Op) (m : Mem) (s : Stack) (xs : List ℕ)
    → IsStack m s xs
    → AllFree ops xs
    → let out = run ops s m in
      let spec = run_list ops xs in (out.0 ≡ spec.0) × IsStack out.1.1 out.1.0 spec.1
unfolding run run_list AllFree
run-lifo [] m s xs is free = (refl, is)
run-lifo (put node ∷ ops) m s xs is free =
    let pushed = stack_push-cons m s xs node is free.0.not_null free.0.out free.0.small in
    let (s', m') = stack_push s node m in run-lifo ops m' s' (node ∷ xs) pushed.0 free.1
run-lifo (take ∷ ops) m s xs is free =
    let popped = stack_pop-rest m s xs is in
    let later = run-lifo ops m (stack_pop s m).1 (rest xs) popped.1 free in
    (ap₂ (λ p ps. p ∷ ps) popped.0 later.0, later.1)
