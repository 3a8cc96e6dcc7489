-- ===== src/Queue/Refine.antt =====
-- A queue stands for the list of its nodes, front first.
use bikeshed.Prelude.{
  ℕ, suc, ◌<◌, ◌≡◌, refl, ap, sym, ◌||◌, ◌≢◌, true, false, List, [], ◌∷◌, ◌++◌, arith, length,
  length-append, has, ◌==◌,
}
use bikeshed.Machine.{Mem, store, word}
use bikeshed.Stack.Refine.{Linked, first_or_null, rest}
use bikeshed.Queue.{Queue, queue_init, queue_enqueue, queue_dequeue}

-- The last node behind a first one.
abbrev pub last : ℕ → List ℕ → ℕ
last x [] = x
last x (y ∷ ys) = last y ys

abbrev pub TailIs : ℕ → List ℕ → Type 0
TailIs t [] = Unit
TailIs t (x ∷ xs) = t ≡ last x xs

pub record IsQueue (m : Mem) (q : Queue) (xs : List ℕ) : Type 0 where
  pub linked : Linked m q.head xs
  pub size : q.size ≡ length xs
  pub tail : TailIs q.tail xs
  pub small : length xs < word

pub queue_init-IsQueue : (m : Mem) → IsQueue m queue_init []
unfolding queue_init
queue_init-IsQueue m = record { linked = refl; size = refl; tail = tt; small = omega arith }

pub last-append : (x node : ℕ) (xs : List ℕ) → last x (xs ++ node ∷ []) ≡ node
last-append x node [] = refl
last-append x node (y ∷ ys) = last-append y node ys

has-last : (x : ℕ) (xs : List ℕ) → has (last x xs) (x ∷ xs) ≡ true
has-last x [] = ground arith
has-last x (y ∷ ys) = ground (arith, has-last y ys)

pub has-snoc : (a b : ℕ) (xs : List ℕ) → has a (xs ++ b ∷ []) ≡ (has a xs || (a == b))
has-snoc a b [] = ground arith
has-snoc a b (x ∷ xs) = ground (arith, has-snoc a b xs)

-- Writing `node` into the last node's word lengthens the chain by it.
pub Linked-snoc :
    (m : Mem) (p x node : ℕ) (xs : List ℕ)
    → node ≢ 0
    → has node (x ∷ xs) ≡ false
    → Linked m p (x ∷ xs)
    → Linked (store (store m node 0) (last x xs) node) p (x ∷ xs ++ node ∷ [])
Linked-snoc m p x node [] ne out h = ground arith
Linked-snoc m p x node (y ∷ ys) ne out h =
    let m' = store (store m node 0) (last y ys) node in
    let spared : m' x ≡ m x = ground (arith, has-last y ys) in
    let fresh : has x (y ∷ ys ++ node ∷ []) ≡ false = ground (arith, has-snoc x node (y ∷ ys)) in
    let tail = Linked-snoc m (m x) y node ys ne (ground arith) h.3 in
    (h.0, h.1, fresh, rw spared tail)

-- `queue_enqueue` puts a node other than NULL that is not in the queue at its back, if the size
-- stays below 2 ^ 64.
pub queue_enqueue-snoc :
    (m : Mem) (q : Queue) (xs : List ℕ) (node : ℕ)
    → IsQueue m q xs
    → node ≢ 0
    → has node xs ≡ false
    → suc (length xs) < word
    → let (q', m') = queue_enqueue q node m in IsQueue m' q' (xs ++ node ∷ [])
unfolding queue_enqueue
queue_enqueue-snoc m q [] node is ne out small = ground arith
queue_enqueue-snoc m q (x ∷ xs) node is ne out small =
    let some : (q.size == 0) ≡ false = ground arith in
    rw (some, is.tail)
      (record {
        linked = Linked-snoc m q.head x node xs ne out is.linked;
        size = omega (arith, length-append {0} xs (node ∷ []));
        tail = sym (last-append x node xs);
        small = omega (arith, length-append {0} xs (node ∷ []));
      })

-- `queue_dequeue` returns the front node, or NULL of an empty queue, and leaves the others.
pub queue_dequeue-rest :
    (m : Mem) (q : Queue) (xs : List ℕ)
    → IsQueue m q xs
    → let (p, q') = queue_dequeue q m in (p ≡ first_or_null xs) × IsQueue m q' (rest xs)
unfolding queue_dequeue
queue_dequeue-rest m q [] is = ground arith
queue_dequeue-rest m q (x ∷ []) is = let e : m q.head ≡ m x = ap m is.linked.0 in ground arith
queue_dequeue-rest m q (x ∷ y ∷ ys) is =
    let e : m q.head ≡ m x = ap m is.linked.0 in
    let some : (q.size == 0) ≡ false = ground arith in
    rw some (
      is.linked.0,
      record { linked = rw e is.linked.3; size = omega arith; tail = is.tail; small = omega arith },
    )
