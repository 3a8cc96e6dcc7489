-- ===== src/Scheduler/Sleep.antt =====
-- kernel/src/kernel/scheduler/scheduler.c: sleep_insert, which the walk of `queue_enqueue_prio`
-- compares with. The sleep queue keeps differences: a sleeper's time is the sum of the
-- differences up to its own, and the walk turns the new sleeper's time into one.
use bikeshed.Prelude.{
  ℕ, ◌+◌, ◌-◌, ◌<◌, ◌≤◌, ◌≡◌, ◌≢◌, refl, true, false, arith, ap, ◌∙◌, List, [], ◌∷◌, has, Distinct,
  Bool-cases, inl, inr, leb,
}
use bikeshed.Machine.{Mem}
use bikeshed.Queue.{data_at}
use bikeshed.Queue.Prio.{prio_split}
use bikeshed.Scheduler.{Pcb, Pcbs, set_pcb, sleep_insert}

-- The processes of a list of nodes.
abbrev pub pcbs_of : Mem → List ℕ → List ℕ
pcbs_of m [] = []
pcbs_of m (x ∷ xs) = m (data_at x) ∷ pcbs_of m xs

-- The sum of their differences.
unfoldable pub delta_sum : Mem → Pcbs → List ℕ → ℕ
delta_sum m t [] = 0
delta_sum m t (x ∷ xs) = (t (m (data_at x))).sleep_time + delta_sum m t xs

delta_sum-congr :
    (m : Mem) (t u : Pcbs) (xs : List ℕ)
    → ((p : ℕ) → has p (pcbs_of m xs) ≡ true → (t p).sleep_time ≡ (u p).sleep_time)
    → delta_sum m t xs ≡ delta_sum m u xs
unfolding delta_sum
delta_sum-congr m t u [] h = refl
delta_sum-congr m t u (x ∷ xs) h =
    omega (
      arith,
      h (m (data_at x)) (ground arith),
      delta_sum-congr m t u xs (λ p i. h p (ground arith)),
    )

-- What stands before the nodes `rest` counts for them only if there are any.
abbrev pub before : List ℕ → ℕ → ℕ
before [] n = 0
before (x ∷ xs) n = n

-- The time of `p` less that of `q`.
abbrev shortened : Pcbs → ℕ → ℕ → Pcbs
shortened t p q = set_pcb t p (record (t p) { sleep_time = (t p).sleep_time - (t q).sleep_time })

-- The walk leaves every process that is neither the new sleeper nor on the way.
walk_other :
    (m : Mem) (pcb a : ℕ) (xs : List ℕ) (t : Pcbs)
    → a ≢ pcb
    → has a (pcbs_of m xs) ≡ false
    → (prio_split sleep_insert m pcb xs t).1 a ≡ t a
unfolding prio_split sleep_insert
walk_other m pcb a [] t ne out = refl
walk_other m pcb a (x ∷ xs) t ne out =
    let q = m (data_at x) in
    elim (Bool-cases (leb (t pcb).sleep_time (t q).sleep_time)) [
      | inl stop ↦ rw stop (ground arith)
      | inr past ↦
          let t1 = shortened t pcb q in
          rw past (walk_other m pcb a xs t1 ne (ground arith) ∙ ground arith)
    ]

record Walked (m : Mem) (pcb : ℕ) (t : Pcbs) (out : (List ℕ × List ℕ) × Pcbs) : Type 0 where
  own : delta_sum m out.1 out.0.0 + (out.1 pcb).sleep_time ≡ (t pcb).sleep_time
  passed : delta_sum m out.1 out.0.0 ≡ delta_sum m t out.0.0
  later : delta_sum m out.1 out.0.1 + before out.0.1 (out.1 pcb).sleep_time ≡ delta_sum m t out.0.1

stop_walk :
    (m : Mem) (pcb x : ℕ) (xs : List ℕ) (t : Pcbs)
    → has pcb (pcbs_of m (x ∷ xs)) ≡ false
    → Distinct (pcbs_of m (x ∷ xs))
    → (t pcb).sleep_time ≤ (t (m (data_at x))).sleep_time
    → let q = m (data_at x) in let t1 = shortened t q pcb in Walked m pcb t (([], x ∷ xs), t1)
unfolding delta_sum
stop_walk m pcb x xs t out d le =
    let q = m (data_at x) in
    let t1 = shortened t q pcb in
    let same : delta_sum m t1 xs ≡ delta_sum m t xs =
      delta_sum-congr m t1 t xs (λ p i. ground arith) in
    record { own = ground arith; passed = refl; later = ground (arith, same) }

past_walk :
    (m : Mem) (pcb x : ℕ) (t : Pcbs) (out : (List ℕ × List ℕ) × Pcbs)
    → (t (m (data_at x))).sleep_time < (t pcb).sleep_time
    → (m (data_at x)) ≢ pcb
    → has pcb (pcbs_of m out.0.0) ≡ false
    → has pcb (pcbs_of m out.0.1) ≡ false
    → let q = m (data_at x) in
      let t1 = shortened t pcb q in
      out.1 q ≡ t1 q → Walked m pcb t1 out → Walked m pcb t ((x ∷ out.0.0, out.0.1), out.1)
unfolding delta_sum
past_walk m pcb x t out lt ne here there kept w =
    let q = m (data_at x) in
    let t1 = shortened t pcb q in
    let same : (ys : List ℕ)
        → has pcb (pcbs_of m ys) ≡ false
        → delta_sum m t1 ys ≡ delta_sum m t ys =
      λ ys h. delta_sum-congr m t1 t ys (λ p i. ground arith) in
    let first : (out.1 q).sleep_time ≡ (t q).sleep_time =
      ap (λ (p : Pcb). p.sleep_time) kept ∙ ground arith in
    let own : (t1 pcb).sleep_time ≡ (t pcb).sleep_time - (t q).sleep_time = ground arith in
    record {
      own = omega (arith, w.own, first, own);
      passed = omega (arith, w.passed, first, same out.0.0 here);
      later = omega (arith, w.later, same out.0.1 there);
    }

-- The processes of both parts are among those of the whole.
split_out :
    (m : Mem) (pcb a : ℕ) (xs : List ℕ) (t : Pcbs)
    → has a (pcbs_of m xs) ≡ false
    → let split = prio_split sleep_insert m pcb xs t in
      (has a (pcbs_of m split.0.0) ≡ false) × (has a (pcbs_of m split.0.1) ≡ false)
unfolding prio_split sleep_insert
split_out m pcb a [] t out = (refl, refl)
split_out m pcb a (x ∷ xs) t out =
    let q = m (data_at x) in
    elim (Bool-cases (leb (t pcb).sleep_time (t q).sleep_time)) [
      | inl stop ↦ rw stop (refl, out)
      | inr past ↦
          let t1 = shortened t pcb q in
          let rest = split_out m pcb a xs t1 (ground arith) in
          rw past (ground (arith, rest), rest.1)
    ]

prio_split-Walked :
    (m : Mem) (pcb : ℕ) (xs : List ℕ) (t : Pcbs)
    → has pcb (pcbs_of m xs) ≡ false
    → Distinct (pcbs_of m xs)
    → Walked m pcb t (prio_split sleep_insert m pcb xs t)
unfolding prio_split sleep_insert delta_sum
prio_split-Walked m pcb [] t out d = record {
  own = omega arith;
  passed = refl;
  later = omega arith;
}
prio_split-Walked m pcb (x ∷ xs) t out d =
    let q = m (data_at x) in
    elim (Bool-cases (leb (t pcb).sleep_time (t q).sleep_time)) [
      | inl stop ↦ rw stop (stop_walk m pcb x xs t out d (ground arith))
      | inr past ↦
          let t1 = shortened t pcb q in
          let apart = split_out m pcb pcb xs t1 (ground arith) in
          rw past (
            past_walk m pcb x t (prio_split sleep_insert m pcb xs t1) (ground arith) (ground arith)
              apart.0 apart.1 (walk_other m pcb q xs t1 (ground arith) (ground arith))
              (prio_split-Walked m pcb xs t1 (ground arith) (ground arith)))
    ]

-- The walk of `sleep_insert` over a queue of distinct sleepers, the new one not among them,
-- leaves the differences that fit a place before the node at which it stops: the differences of
-- the passed nodes are unchanged and with the new sleeper's add up to its time, and with the new
-- sleeper's difference before them the other nodes add up to what they did.
pub sleep_insert-walk :
    (m : Mem) (pcb : ℕ) (xs : List ℕ) (t : Pcbs)
    → has pcb (pcbs_of m xs) ≡ false
    → Distinct (pcbs_of m xs)
    → let ((passed, rest), t') = prio_split sleep_insert m pcb xs t in
      (delta_sum m t' passed + (t' pcb).sleep_time ≡ (t pcb).sleep_time)
      × (delta_sum m t' passed ≡ delta_sum m t passed)
      × (delta_sum m t' rest + before rest (t' pcb).sleep_time ≡ delta_sum m t rest)
sleep_insert-walk m pcb xs t out d =
    let w = prio_split-Walked m pcb xs t out d in (w.own, w.passed, w.later)
