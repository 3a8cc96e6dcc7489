-- ===== src/Queue/Prio.antt =====
-- `queue_enqueue_prio` on the list of nodes that a queue stands for.
use bikeshed.Prelude.{
  ℕ, zero, suc, ◌+◌, ◌<◌, ◌≡◌, refl, ap, sym, ◌||◌, ◌≢◌, Bool, true, false, List, [], ◌∷◌, ◌++◌,
  arith, length, length-append, has, ◌==◌, if◌then◌else◌, Bool-cases, inl, inr, ◌∙◌, ◌%◌,
}
use mathlib.Core.List.{append-nil}
use mathlib.Core.Path.{subst}
use bikeshed.Machine.{Mem, store, word}
use bikeshed.Stack.Refine.{Linked, Linked-frame, first_or_null}
use bikeshed.Queue.{Queue, data_at, prio_walk, prio_link, queue_enqueue_prio}
use bikeshed.Queue.Refine.{last, IsQueue, Linked-snoc, queue_enqueue-snoc}

-- The nodes that the walk passes, those from where it stops on, and the state it leaves.
unfoldable pub prio_split :
    {S : Type 0} (cmp : ℕ → ℕ → S → Bool × S) → Mem → ℕ → List ℕ → S → (List ℕ × List ℕ) × S
prio_split cmp m d [] s = (([], []), s)
prio_split cmp m d (x ∷ xs) s =
    let (greater, s') = cmp d (m (data_at x)) s in
    let ((ps, rs), t) = prio_split cmp m d xs s' in
    if greater then ((x ∷ ps, rs), t) else (([], x ∷ xs), s')

-- Where the code puts the node: before the first node of the queue, at the back, or behind the
-- node at which the walk stopped.
abbrev pub placed : List ℕ → List ℕ → ℕ → List ℕ
placed [] rs node = node ∷ rs
placed (p ∷ ps) [] node = p ∷ ps ++ node ∷ []
placed (p ∷ ps) (r ∷ rs) node = p ∷ ps ++ r ∷ node ∷ rs

module _ {S : Type 0} (cmp : ℕ → ℕ → S → Bool × S) (m : Mem) (d : ℕ) where
  append-split :
      (xs : List ℕ) (s : S) → (prio_split cmp m d xs s).0.0 ++ (prio_split cmp m d xs s).0.1 ≡ xs
  unfolding prio_split
  append-split [] s = refl
  append-split (x ∷ xs) s = elim (Bool-cases ((cmp d (m (data_at x)) s).0)) [
    | inl more ↦ rw more (ap (λ l. x ∷ l) (append-split xs (cmp d (m (data_at x)) s).1))
    | inr stop ↦ rw stop refl
  ]

  -- The walk over the chain stops at the first node of the second part, or at NULL.
  prio_walk-split :
      (fuel p : ℕ) (xs : List ℕ) (s : S)
      → Linked m p xs
      → fuel ≡ length xs
      → prio_walk cmp m fuel d p s
        ≡ (first_or_null (prio_split cmp m d xs s).0.1, (prio_split cmp m d xs s).1)
  unfolding prio_walk prio_split
  prio_walk-split zero p [] s h e = rw h refl
  prio_walk-split (suc fuel) p [] s h e = absurd (omega arith)
  prio_walk-split zero p (x ∷ xs) s h e = absurd (omega arith)
  prio_walk-split (suc fuel) p (x ∷ xs) s h e =
      let node : (x == 0) ≡ false = ground (arith, h.1) in
      rw (h.0, node)
        (elim (Bool-cases ((cmp d (m (data_at x)) s).0)) [
          | inl more ↦
              rw more (prio_walk-split fuel (m x) xs (cmp d (m (data_at x)) s).1 h.3 (omega arith))
          | inr stop ↦ rw stop refl
        ])

has-insert :
    (a r node : ℕ) (ps rs : List ℕ)
    → has a (ps ++ r ∷ node ∷ rs) ≡ (has a (ps ++ r ∷ rs) || (a == node))
has-insert a r node [] rs = ground arith
has-insert a r node (x ∷ ps) rs = ground (arith, has-insert a r node ps rs)

has-middle : (r : ℕ) (ps rs : List ℕ) → has r (ps ++ r ∷ rs) ≡ true
has-middle r [] rs = ground arith
has-middle r (x ∷ ps) rs = ground (arith, has-middle r ps rs)

-- Writing a node in behind `r`.
Linked-insert :
    (m : Mem) (p r node : ℕ) (ps rs : List ℕ)
    → node ≢ 0
    → has node (ps ++ r ∷ rs) ≡ false
    → Linked m p (ps ++ r ∷ rs)
    → Linked (store (store m node (m r)) r node) p (ps ++ r ∷ node ∷ rs)
Linked-insert m p r node [] rs ne out h =
    let m' = store (store m node (m r)) r node in
    let here : m' r ≡ node = ground arith in
    let there : m' node ≡ m r = ground arith in
    let spared : (a : ℕ) → has a rs ≡ true → m' a ≡ m a = λ a i. ground arith in
    (
      h.0,
      h.1,
      ground arith,
      (here, ne, ground arith, rw there (Linked-frame m m' (m r) rs spared h.3)),
    )
Linked-insert m p r node (x ∷ ps) rs ne out h =
    let m' = store (store m node (m r)) r node in
    let spared : m' x ≡ m x = ground (arith, has-middle r ps rs) in
    (
      h.0,
      h.1,
      ground (arith, has-insert x r node ps rs),
      rw spared (Linked-insert m (m x) r node ps rs ne (ground arith) h.3),
    )

Linked-ne_zero : (m : Mem) (p r : ℕ) (ps rs : List ℕ) → Linked m p (ps ++ r ∷ rs) → r ≢ 0
Linked-ne_zero m p r [] rs h = h.1
Linked-ne_zero m p r (x ∷ ps) rs h = Linked-ne_zero m (m x) r ps rs h.3

length-placed : (ps rs : List ℕ) (node : ℕ) → length (placed ps rs node) ≡ suc (length (ps ++ rs))
length-placed [] rs node = refl
length-placed (p ∷ ps) [] node =
    omega (arith, length-append {0} ps (node ∷ []), length-append {0} ps [])
length-placed (p ∷ ps) (r ∷ rs) node =
    omega (arith, length-append {0} ps (r ∷ node ∷ rs), length-append {0} ps (r ∷ rs))

-- A chain of `ps` then `rs` with the node linked in, and counted.
Linking : Mem → Queue → List ℕ → List ℕ → ℕ → Queue × Mem → Type 0
Linking m q ps rs node (q', m') =
    Linked m' q'.head (placed ps rs node) × (q'.size ≡ length (placed ps rs node))

prio_link_middle :
    (q : Queue) (node r : ℕ) (m : Mem)
    → (r == 0) ≡ false
    → (r == q.head) ≡ false
    → prio_link q node r m
      ≡ (record q { size = (q.size + 1) % word }, store (store m node (m r)) r node)
unfolding prio_link
prio_link_middle q node r m h h' = rw (h, h') refl

prio_link_middle-placed :
    (m : Mem) (q : Queue) (p : ℕ) (ps : List ℕ) (r : ℕ) (rs : List ℕ) (node : ℕ)
    → IsQueue m q (p ∷ ps ++ r ∷ rs)
    → node ≢ 0
    → has node (p ∷ ps ++ r ∷ rs) ≡ false
    → suc (length (p ∷ ps ++ r ∷ rs)) < word
    → Linking m q (p ∷ ps) (r ∷ rs) node (prio_link q node r m)
unfolding Linking
prio_link_middle-placed m q p ps r rs node is ne out small =
    let not_null : (r == 0) ≡ false =
      ground (arith, Linked-ne_zero m q.head r (p ∷ ps) rs is.linked) in
    let not_head : (r == q.head) ≡ false = ground (arith, is.linked, has-middle r ps rs) in
    subst (Linking m q (p ∷ ps) (r ∷ rs) node) (sym (prio_link_middle q node r m not_null not_head))
      (
        Linked-insert m q.head r node (p ∷ ps) rs ne out is.linked,
        omega (
          arith,
          is.size,
          is.small,
          length-append {0} ps (r ∷ node ∷ rs),
          length-append {0} ps (r ∷ rs),
        ),
      )

prio_link-placed :
    (m : Mem) (q : Queue) (ps rs : List ℕ) (node : ℕ)
    → IsQueue m q (ps ++ rs)
    → 0 < length (ps ++ rs)
    → node ≢ 0
    → has node (ps ++ rs) ≡ false
    → suc (length (ps ++ rs)) < word
    → Linking m q ps rs node (prio_link q node (first_or_null rs) m)
unfolding Linking prio_link
prio_link-placed m q [] [] node is some ne out small = absurd (omega arith)
prio_link-placed m q [] (r ∷ rs) node is some ne out small =
    ground (arith, Linked-frame m (store m node q.head) q.head (r ∷ rs) (ground arith) is.linked)
prio_link-placed m q (p ∷ ps) [] node is some ne out small =
    let e = append-nil ps in
    let link : Linked m q.head (p ∷ ps) = rw e at is.linked in
    let tail : q.tail ≡ last p ps = rw e at is.tail in
    let size : q.size ≡ suc (length ps) = rw e at is.size in
    let out' : has node (p ∷ ps) ≡ false = rw e at out in
    let small' : suc (suc (length ps)) < word = rw e at small in
    let linked : Linked (store (store m node 0) q.tail node) q.head (p ∷ ps ++ node ∷ []) =
      subst (λ t. Linked (store (store m node 0) t node) q.head (p ∷ ps ++ node ∷ [])) (sym tail)
        (Linked-snoc m q.head p node ps ne out' link) in
    (linked, omega (arith, length-append {0} ps (node ∷ [])))
prio_link-placed m q (p ∷ ps) (r ∷ rs) node is some ne out small =
    prio_link_middle-placed m q p ps r rs node is ne out small

-- `queue_enqueue_prio` walks past the nodes whose data compares smaller, and then links the node
-- in: before the whole queue, at its back, or behind the node at which the walk stopped. No node
-- is lost from the chain, and the size counts the new one.
pub queue_enqueue_prio-placed :
    {S : Type 0} (cmp : ℕ → ℕ → S → Bool × S) (m : Mem) (q : Queue) (xs : List ℕ) (node : ℕ) (s : S)
    → IsQueue m q xs
    → node ≢ 0
    → has node xs ≡ false
    → suc (length xs) < word
    → let split = prio_split cmp m (m (data_at node)) xs s in
      let out = queue_enqueue_prio cmp q node m s in
      Linked out.0.1 out.0.0.head (placed split.0.0 split.0.1 node)
      × (out.0.0.size ≡ suc (length xs))
      × (out.1 ≡ split.1)
unfolding queue_enqueue_prio prio_split Linking
queue_enqueue_prio-placed cmp m q [] node s is ne out small =
    let none : (q.size == 0) ≡ true = ground arith in
    let queued = queue_enqueue-snoc m q [] node is ne out small in
    rw none (queued.linked, queued.size, refl)
queue_enqueue_prio-placed cmp m q (x ∷ xs) node s is ne out small =
    let d = m (data_at node) in
    let some : (q.size == 0) ≡ false = ground arith in
    let ps = (prio_split cmp m d (x ∷ xs) s).0.0 in
    let rs = (prio_split cmp m d (x ∷ xs) s).0.1 in
    let e : ps ++ rs ≡ x ∷ xs = append-split cmp m d (x ∷ xs) s in
    let walk = prio_walk-split cmp m d q.size q.head (x ∷ xs) s is.linked is.size in
    let link =
      prio_link-placed m q ps rs node (rw e is) (rw e (omega arith)) ne (rw e out) (rw e small) in
    let counted : length (placed ps rs node) ≡ suc (suc (length xs)) =
      length-placed ps rs node ∙ ap (λ l. suc (length l)) e in
    rw (some, walk) (link.0, link.1 ∙ counted, refl)
