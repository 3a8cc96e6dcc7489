-- ===== src/Stack/Refine.antt =====
-- A stack stands for the list of its nodes, top first; push and pop are cons and uncons.
use bikeshed.Prelude.{ℕ, suc, ◌<◌, ◌≡◌, ap, ◌≢◌, true, false, List, [], ◌∷◌, arith, length, has}
use bikeshed.Machine.{Mem, store, word}
use bikeshed.Stack.{Stack, stack_init, stack_push, stack_pop}

-- From `p` the `next` words lead through the distinct nodes `xs` to NULL.
abbrev pub Linked : Mem → ℕ → List ℕ → Type 0
Linked m p [] = p ≡ 0
Linked m p (x ∷ xs) = (p ≡ x) × (x ≢ 0) × (has x xs ≡ false) × Linked m (m x) xs

pub record IsStack (m : Mem) (s : Stack) (xs : List ℕ) : Type 0 where
  pub linked : Linked m s.top xs
  pub size : s.size ≡ length xs
  pub small : length xs < word

abbrev pub first_or_null : List ℕ → ℕ
first_or_null [] = 0
first_or_null (x ∷ xs) = x

abbrev pub rest : List ℕ → List ℕ
rest [] = []
rest (x ∷ xs) = xs

-- A chain survives any change of memory that spares the words of its nodes.
pub Linked-frame :
    (m g : Mem) (p : ℕ) (xs : List ℕ)
    → ((a : ℕ) → has a xs ≡ true → g a ≡ m a)
    → Linked m p xs
    → Linked g p xs
Linked-frame m g p [] same h = h
Linked-frame m g p (x ∷ xs) same h = (
  h.0,
  h.1,
  h.2,
  rw (same x (ground arith)) (Linked-frame m g (m x) xs (λ a i. same a (ground arith)) h.3),
)

pub IsStack-frame :
    (m g : Mem) {s : Stack} {xs : List ℕ}
    → ((a : ℕ) → has a xs ≡ true → g a ≡ m a)
    → IsStack m s xs
    → IsStack g s xs
IsStack-frame m g {s} {xs} same is = record {
  linked = Linked-frame m g s.top xs same is.linked;
  size = is.size;
  small = is.small;
}

pub stack_init-IsStack : (m : Mem) → IsStack m stack_init []
unfolding stack_init
stack_init-IsStack m = omega arith

-- `stack_push` puts a node other than NULL that is not on the stack in front, if the size stays
-- below 2 ^ 64, and writes only that node's word.
pub stack_push-cons :
    (m : Mem) (s : Stack) (xs : List ℕ) (node : ℕ)
    → IsStack m s xs
    → node ≢ 0
    → has node xs ≡ false
    → suc (length xs) < word
    → let (s', m') = stack_push s node m in
      IsStack m' s' (node ∷ xs) × ((a : ℕ) → a ≢ node → m' a ≡ m a)
unfolding stack_push
stack_push-cons m s [] node is ne out small =
    ground (arith, Linked-frame m (store m node s.top) s.top [])
stack_push-cons m s (x ∷ xs) node is ne out small =
    ground (arith, Linked-frame m (store m node s.top) s.top (x ∷ xs) (ground arith) is.linked)

-- `stack_pop` returns the first node, or NULL of an empty stack, and leaves the other nodes.
pub stack_pop-rest :
    (m : Mem) (s : Stack) (xs : List ℕ)
    → IsStack m s xs
    → let (p, s') = stack_pop s m in (p ≡ first_or_null xs) × IsStack m s' (rest xs)
unfolding stack_pop
stack_pop-rest m s [] is = ground arith
stack_pop-rest m s (x ∷ xs) is = let e : m s.top ≡ m x = ap m is.linked.0 in ground arith

-- Popping what was pushed on a well-formed stack gives back the node and the stack, if the size
-- stays below 2 ^ 64.
stack_pop-push :
    (m : Mem) (s : Stack) (xs : List ℕ) (node : ℕ)
    → IsStack m s xs
    → suc (length xs) < word
    → let (s', m') = stack_push s node m in stack_pop s' m' ≡ (node, s)
unfolding stack_push stack_pop
stack_pop-push m s [] node is small = ground arith
stack_pop-push m s (x ∷ xs) node is small = ground arith
