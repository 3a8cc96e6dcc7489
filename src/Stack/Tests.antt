-- ===== src/Stack/Tests.antt =====
-- The theorems on stacks at a concrete stack of two nodes.
use bikeshed.Prelude.{◌≡◌, refl, List, [], ◌∷◌, arith}
use bikeshed.Machine.{Mem, store}
use bikeshed.Stack.{Stack, stack}
use bikeshed.Stack.Refine.{IsStack}
use bikeshed.Stack.Runs.{Op, put, take, AllFree, run, run_list, run-lifo}

-- The node at 64 leads to the one at 128.
abbrev linked_mem : Mem
linked_mem = store (store (λ a. 0) 64 128) 128 0

abbrev two_nodes : Stack
two_nodes = stack 2 64

two_nodes-IsStack : IsStack linked_mem two_nodes (64 ∷ 128 ∷ [])
two_nodes-IsStack = ground arith

-- Two pushes, then one pop more than there are nodes.
abbrev pushes_and_pops : List Op
pushes_and_pops = put 192 ∷ take ∷ put 256 ∷ take ∷ take ∷ take ∷ take ∷ []

pushes_and_pops-AllFree : AllFree pushes_and_pops (64 ∷ 128 ∷ [])
unfolding AllFree
pushes_and_pops-AllFree = (
  record { not_null = omega arith; out = refl; small = omega arith },
  (record { not_null = omega arith; out = refl; small = omega arith }, tt),
)

run-lifo_example :
    let out = run pushes_and_pops two_nodes linked_mem in
    (out.0 ≡ 192 ∷ 256 ∷ 64 ∷ 128 ∷ 0 ∷ []) × IsStack out.1.1 out.1.0 []
unfolding run_list
run-lifo_example =
    run-lifo pushes_and_pops linked_mem two_nodes (64 ∷ 128 ∷ []) two_nodes-IsStack
      pushes_and_pops-AllFree
