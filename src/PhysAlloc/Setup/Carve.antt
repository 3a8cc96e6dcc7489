-- ===== src/PhysAlloc/Setup/Carve.antt =====
-- The loop that cuts one region into chunks.
use bikeshed.Prelude.{
  ℕ, zero, suc, ◌+◌, ◌-◌, ◌*◌, ◌/◌, ◌%◌, ◌<◌, ◌≤◌, ◌≡◌, refl, ◌∙◌, ◌⊎◌, inl, inr, true, false, List,
  [], ◌∷◌, arith, All, All-map, leb, length, has,
}
use bikeshed.Machine.{word}
use bikeshed.Addresses.{mib2, kernel_base}
use bikeshed.MemoryMap.{MMapEntry}
use bikeshed.MemoryMap.Clip.{limit}
use bikeshed.Stack.Refine.{IsStack, stack_push-cons}
use bikeshed.PhysAlloc.{Setting, push_2mib, carve}

-- Physical memory ends below the kernel's half of the address space.
abbrev pub low_end : ℕ
low_end = 0x800000000000

-- A node of the stack is the virtual address of an aligned chunk at a place that `P` allows.
abbrev pub Node : (ℕ → Type 0) → ℕ → Type 0
Node P x = (p : ℕ) × (x ≡ p + kernel_base) × (p % mib2 ≡ 0) × P p

-- The places allowed so far, when region `e` has been cut up to `b`.
abbrev pub Upto : (ℕ → Type 0) → MMapEntry → ℕ → ℕ → Type 0
Upto P e b p = P p ⊎ (e.base ≤ p) × (p + mib2 ≤ b)

Node-suc :
    (P : ℕ → Type 0) (e : MMapEntry) (b x : ℕ) → Node (Upto P e b) x → Node (Upto P e (b + mib2)) x
Node-suc P e b x (p, at, al, inl old) = (p, at, al, inl old)
Node-suc P e b x (p, at, al, inr here) = (p, at, al, inr (here.0, omega arith))

module _ (P : ℕ → Type 0) (e : MMapEntry)
    (apart : (p : ℕ) → P p → (p + mib2 ≤ e.base) ⊎ (limit e ≤ p)) (low : limit e < low_end) where
  not-placed :
      (b : ℕ) (xs : List ℕ)
      → e.base ≤ b
      → b + mib2 ≤ limit e
      → All (Node (Upto P e b)) xs
      → has (b + kernel_base) xs ≡ false
  not-placed b [] h h' all = refl
  not-placed b (x ∷ xs) h h' ((p, at, al, inl old), all) =
      ground (arith, not-placed b xs h h' all, apart p old)
  not-placed b (x ∷ xs) h h' ((p, at, al, inr here), all) = ground (arith, not-placed b xs h h' all)

  wrap_node : (b : ℕ) → b < low_end → (b + kernel_base) % word ≡ b + kernel_base
  wrap_node b h = omega arith

  Node-limit :
      (b : ℕ)
      → b + mib2 ≤ limit e
      → (x : ℕ) → Node (Upto P e (b + mib2)) x
      → Node (Upto P e (limit e)) x
  Node-limit b h x (p, at, al, inl old) = (p, at, al, inl old)
  Node-limit b h x (p, at, al, inr here) = (p, at, al, inr (here.0, omega arith))

  -- One push.
  pushed :
      (b len : ℕ) (s : Setting) (xs : List ℕ)
      → e.base ≤ b
      → b + len ≡ limit e
      → IsStack s.phys.mem s.phys.stack_2mib xs
      → mib2 ≤ len
      → All (Node (Upto P e b)) xs
      → suc (length xs) < word
      → b % mib2 ≡ 0
      → let p = push_2mib s.phys (b + kernel_base) in
        IsStack p.mem p.stack_2mib ((b + kernel_base) ∷ xs)
        × All (Node (Upto P e (b + mib2))) ((b + kernel_base) ∷ xs)
  unfolding push_2mib
  pushed b len s xs lo at is room all small al =
      let out = not-placed b xs lo (omega arith) all in
      (
        (stack_push-cons s.phys.mem s.phys.stack_2mib xs (b + kernel_base) is (omega arith) out
            small).0,
        (
          (b, refl, al, inr (lo, omega arith)),
          All-map (Node (Upto P e b)) (Node (Upto P e (b + mib2))) (Node-suc P e b) xs all,
        ),
      )

  -- What the loop has done when it stops at `s'` with `left` bytes of the region left.
  pub record Carved (xs : List ℕ) (s : Setting) (fuel len : ℕ) (out : ℕ × Setting) : Type 0 where
    pub nodes : List ℕ
    pub stack : IsStack out.1.phys.mem out.1.phys.stack_2mib nodes
    pub placed : All (Node (Upto P e (limit e))) nodes
    pub count : length nodes ≡ length xs + fuel
    pub left : out.0 ≡ len % mib2
    pub ram : out.1.allocatable_ram ≡ (s.allocatable_ram + fuel * mib2) % word

  pub carve-Carved :
      (fuel b len : ℕ) (s : Setting) (xs : List ℕ)
      → b % mib2 ≡ 0
      → e.base ≤ b
      → b + len ≡ limit e
      → len / mib2 ≡ suc fuel
      → length xs + suc fuel < word
      → IsStack s.phys.mem s.phys.stack_2mib xs
      → All (Node (Upto P e b)) xs
      → Carved xs s (suc fuel) len (carve (suc fuel) b len s)
  unfolding carve
  carve-Carved zero b len s xs al lo at fits small is all =
      let last : leb mib2 (len - mib2) ≡ false = ground arith in
      let push = pushed b len s xs lo at is (omega arith) all (omega arith) al in
      rw (last, wrap_node b (omega arith))
        (record {
          nodes = (b + kernel_base) ∷ xs;
          stack = push.0;
          placed =
              All-map (Node (Upto P e (b + mib2))) (Node (Upto P e (limit e)))
                (Node-limit b (omega arith)) ((b + kernel_base) ∷ xs) push.1;
          count = omega arith;
          left = omega arith;
          ram = omega arith;
        })
  carve-Carved (suc fuel) b len s xs al lo at fits small is all =
      let more : leb mib2 (len - mib2) ≡ true = ground arith in
      let push = pushed b len s xs lo at is (omega arith) all (omega arith) al in
      let next : (b + mib2) % word ≡ b + mib2 = omega arith in
      rw (more, wrap_node b (omega arith), next)
        (let tail =
            carve-Carved fuel (b + mib2) (len - mib2)
              (record s {
                phys = push_2mib s.phys (b + kernel_base);
                allocatable_ram = (s.allocatable_ram + mib2) % word;
              })
              ((b + kernel_base) ∷ xs) (omega arith) (omega arith) (omega arith) (omega arith)
              (omega arith) push.0 push.1 in
          record {
            nodes = tail.nodes;
            stack = tail.stack;
            placed = tail.placed;
            count = omega (arith, tail.count);
            left = omega (arith, tail.left);
            ram = tail.ram ∙ omega arith;
          })
