-- ===== src/PhysAlloc/Setup.antt =====
-- `setup_physical_allocator`: the stack holds every whole aligned chunk of the usable regions.
pub mod Carve
use bikeshed.Prelude.{
  ℕ, zero, suc, ◌+◌, ◌-◌, ◌*◌, ◌/◌, ◌%◌, ◌<◌, ◌≤◌, ◌≡◌, ◌∙◌, refl, ap, ◌≢◌, ◌⊎◌, inl, inr, true,
  false, List, [], ◌∷◌, arith, All, All-map, Bool-cases, ==_iff, ◌==◌, ltb, leb, length, has,
  if◌then◌else◌,
}
use bikeshed.Machine.{Mem, store, word}
use bikeshed.Addresses.{mib2, kernel_base, align_2mib, align_2mib_lem}
use bikeshed.MemoryMap.{MMapEntry, MMap, type_usable, mmap_max_entries}
use bikeshed.MemoryMap.Clip.{limit, IsUsable}
use bikeshed.Stack.{stack_init}
use bikeshed.Stack.Refine.{IsStack, stack_init-IsStack}
use bikeshed.PhysAlloc.{Phys, Setting, place_region, place_loop, setup_physical_allocator, carve}
use Carve.{low_end, Node, Upto, Carved, carve-Carved}

abbrev pub round_up : ℕ → ℕ
round_up x = (x + (mib2 - 1)) / mib2 * mib2

-- The whole aligned chunks of a usable region.
unfoldable pub whole_chunks : MMapEntry → ℕ
whole_chunks e = if e.kind == type_usable then (limit e - round_up e.base) / mib2 else 0

unfoldable pub chunk_total : MMap → ℕ → ℕ
chunk_total a zero = 0
chunk_total a (suc n) = chunk_total a n + whole_chunks (a n)

-- `p` is the place of a chunk inside a usable region below `n`.
abbrev pub InUsable : MMap → ℕ → ℕ → Type 0
InUsable a n p = (j : ℕ) × (j < n) × IsUsable (a j) × ((a j).base ≤ p) × (p + mib2 ≤ limit (a j))

-- What the allocator asks of the memory map: usable regions lie in the lower half of the
-- address space and do not overlap.
pub record IsMemoryMap (a : MMap) (n : ℕ) : Type 0 where
  pub low : (j : ℕ) → j < n → IsUsable (a j) → limit (a j) < low_end
  pub apart :
      (i j : ℕ)
      → i < n
      → j < i
      → IsUsable (a i)
      → IsUsable (a j)
      → (limit (a j) ≤ (a i).base) ⊎ (limit (a i) ≤ (a j).base)
  pub few : n ≤ mmap_max_entries

record Placed (a : MMap) (i : ℕ) (s : Setting) : Type 0 where
  nodes : List ℕ
  stack : IsStack s.phys.mem s.phys.stack_2mib nodes
  placed : All (Node (InUsable a i)) nodes
  count : length nodes ≡ chunk_total a i
  ram : s.allocatable_ram ≡ (chunk_total a i * mib2) % word

chunk_total-le :
    (a : MMap) (n : ℕ) → IsMemoryMap a n → (i : ℕ) → i ≤ n → chunk_total a i ≤ i * 0x4000000
unfolding chunk_total whole_chunks
chunk_total-le a n v zero h = omega arith
chunk_total-le a n v (suc i) h = ground (arith, chunk_total-le a n v i (omega arith), v.low i)

Node-later : (a : MMap) (i x : ℕ) → Node (InUsable a i) x → Node (InUsable a (suc i)) x
Node-later a i x (p, at, al, (j, lt, u, lo, hi)) = (p, at, al, (j, omega arith, u, lo, hi))

Node-region :
    (a : MMap) (i : ℕ)
    → IsUsable (a i)
    → (x : ℕ) → Node (Upto (InUsable a i) (a i) (limit (a i))) x
    → Node (InUsable a (suc i)) x
Node-region a i u x (p, at, al, inl (j, lt, u', lo, hi)) = (p, at, al, (j, omega arith, u', lo, hi))
Node-region a i u x (p, at, al, inr (lo, hi)) = (p, at, al, (i, omega arith, u, lo, hi))

-- The effect of a round on the allocator and its count.
abbrev SameRam : Setting → Setting → Type 0
SameRam s t = (s.phys ≡ t.phys) × (s.allocatable_ram ≡ t.allocatable_ram)

place_region_skipped :
    (e : MMapEntry) (s : Setting)
    → (IsUsable e → limit e < low_end)
    → whole_chunks e ≡ 0
    → SameRam (place_region e s) s
unfolding place_region whole_chunks
place_region_skipped e s low none = elim (Bool-cases (e.kind == type_usable)) [
  | inl u ↦ let fits = low (ground arith) in ground (arith, align_2mib_lem e.base)
  | inr reserved ↦ rw reserved (refl, refl)
]

place_region_carved :
    (e : MMapEntry) (s : Setting) (fuel : ℕ)
    → (IsUsable e → limit e < low_end)
    → whole_chunks e ≡ suc fuel
    → IsUsable e
      × ((limit e - round_up e.base) / mib2 ≡ suc fuel)
      × SameRam
          (place_region e s)
          (carve (suc fuel) (round_up e.base) (limit e - round_up e.base) s).1
unfolding place_region whole_chunks
place_region_carved e s fuel low some = elim (Bool-cases (e.kind == type_usable)) [
  | inl u ↦
      let fits = low (ground arith) in
      let here : (limit e - round_up e.base) / mib2 ≡ suc fuel = ground arith in
      let up = align_2mib_lem e.base (omega arith) in
      let len : (e.length + word - (round_up e.base + word - e.base) % word) % word
          ≡ limit e - round_up e.base =
        omega arith in
      let t1 : ltb e.length mib2 ≡ false = ground arith in
      let t2 : ltb (limit e - round_up e.base) mib2 ≡ false = ground arith in
      (ground arith, here, rw (u, t1, up, len, t2, here) (refl, refl))
  | inr reserved ↦ absurd (ground arith)
]

Placed-carved :
    (a : MMap) (n i fuel : ℕ) (s t : Setting)
    → IsMemoryMap a n
    → i < n
    → Placed a i s
    → whole_chunks (a i) ≡ suc fuel
    → IsUsable (a i)
    → (limit (a i) - round_up (a i).base) / mib2 ≡ suc fuel
    → SameRam t (carve (suc fuel) (round_up (a i).base) (limit (a i) - round_up (a i).base) s).1
    → Placed a (suc i) t
unfolding chunk_total
Placed-carved a n i fuel s t v h p some u fits same =
    let e = a i in
    let apart = λ (q : ℕ) (r : InUsable a i q). between q r in
    let low = v.low i h u in
    let bound = chunk_total-le a n v (suc i) h in
    let c =
      carve-Carved (InUsable a i) e apart low fuel (round_up e.base) (limit e - round_up e.base) s
        p.nodes (omega arith) (omega arith) (omega arith) fits
        (omega (arith, p.count, bound, v.few)) p.stack
        (All-map (Node (InUsable a i)) (Node (Upto (InUsable a i) e (round_up e.base)))
          (λ x (q, at, al, r). (q, at, al, inl r)) p.nodes p.placed) in
    record {
      nodes = c.nodes;
      stack = rw (same.0) c.stack;
      placed =
          All-map (Node (Upto (InUsable a i) e (limit e))) (Node (InUsable a (suc i)))
            (Node-region a i u) c.nodes c.placed;
      count = omega (arith, c.count, p.count);
      ram = same.1 ∙ c.ram ∙ omega (arith, p.ram);
    }
  where
    between : (q : ℕ) → InUsable a i q → (q + mib2 ≤ (a i).base) ⊎ (limit (a i) ≤ q)
    between q (j, lt, u', lo, hi) = ground (arith, v.apart i j h lt u u')

place_region-Placed :
    (a : MMap) (n i : ℕ) (s : Setting)
    → IsMemoryMap a n
    → i < n
    → Placed a i s
    → Placed a (suc i) (place_region (a i) s)
unfolding chunk_total
place_region-Placed a n i s v h p = go (whole_chunks (a i)) refl
  where
    go : (k : ℕ) → whole_chunks (a i) ≡ k → Placed a (suc i) (place_region (a i) s)
    go zero none =
        let same = place_region_skipped (a i) s (v.low i h) none in
        record {
          nodes = p.nodes;
          stack = rw (same.0) p.stack;
          placed =
              All-map (Node (InUsable a i)) (Node (InUsable a (suc i))) (Node-later a i) p.nodes
                p.placed;
          count = omega (arith, p.count);
          ram = same.1 ∙ p.ram ∙ omega arith;
        }
    go (suc fuel) some =
        let c = place_region_carved (a i) s fuel (v.low i h) some in
        Placed-carved a n i fuel s (place_region (a i) s) v h p some c.0 c.1 c.2

place_loop-Placed :
    (a : MMap) (n k i : ℕ) (s : Setting)
    → IsMemoryMap a n
    → i + k ≡ n
    → Placed a i s
    → Placed a n (place_loop a k i s)
unfolding place_loop
place_loop-Placed a n zero i s v e p = let e' : i ≡ n = omega arith in rw (← e') p
place_loop-Placed a n (suc k) i s v e p =
    place_loop-Placed a n k (suc i) (place_region (a i) s) v (omega arith)
      (place_region-Placed a n i s v (omega arith) p)

-- On a memory map whose usable regions lie low and do not overlap, `setup_physical_allocator`
-- leaves a well-formed stack of distinct nodes, each the virtual address of an aligned chunk
-- inside a usable region. They are as many as the whole aligned chunks of the usable regions,
-- and `allocatable_ram` is their size.
pub setup_physical_allocator-chunks :
    (a : MMap) (n : ℕ) (m : Mem)
    → IsMemoryMap a n
    → let s = setup_physical_allocator a n m in
      (nodes : List ℕ) × IsStack s.phys.mem s.phys.stack_2mib nodes
      × All (Node (InUsable a n)) nodes
      × (length nodes ≡ chunk_total a n)
      × (s.allocatable_ram ≡ chunk_total a n * mib2)
unfolding setup_physical_allocator chunk_total
setup_physical_allocator-chunks a n m v =
    let p =
      place_loop-Placed a n n 0
        (record {
          phys = record { stack_2mib = stack_init; pool_4kib = 0; mem = m };
          wasted_ram = 0;
          allocatable_ram = 0;
          usable = 0;
        })
        v (omega arith)
        (record {
          nodes = [];
          stack = stack_init-IsStack m;
          placed = tt;
          count = refl;
          ram = refl;
        }) in
    let bound = chunk_total-le a n v n (omega arith) in
    (p.nodes, p.stack, p.placed, p.count, p.ram ∙ omega (arith, bound, v.few))
