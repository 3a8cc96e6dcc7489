-- ===== src/PhysAlloc/Chunks.antt =====
-- 2 MiB chunks are handed out and taken back through the stack.
use bikeshed.Prelude.{
  ℕ, suc, ◌+◌, ◌%◌, ◌<◌, ◌≡◌, refl, ◌∙◌, ◌≢◌, false, List, ◌∷◌, arith, length, has,
}
use bikeshed.Machine.{word}
use bikeshed.Addresses.{
  mib2, kernel_base, phys_to_virt, mask_2mib, phys_to_virt_lem, virt_to_phys-phys_to_virt,
  mask_2mib_lem,
}
use bikeshed.Stack.{stack_push}
use bikeshed.Stack.Refine.{IsStack, stack_pop-rest, stack_push-cons}
use bikeshed.PhysAlloc.{Phys, push_2mib, phys_alloc_2mib, phys_free_2mib}

-- The physical address of a chunk: aligned, and in the lower half.
pub record IsChunk (x : ℕ) : Type 0 where
  pub aligned : x % mib2 ≡ 0
  pub low : x < 0x800000000000

mask_of_chunk : (x : ℕ) → IsChunk x → mask_2mib (phys_to_virt x) ≡ x + kernel_base
mask_of_chunk x c =
    let v = phys_to_virt_lem x c.low in
    mask_2mib_lem (phys_to_virt x) (omega arith) ∙ omega (arith, c.aligned)

-- Freeing a chunk that is not on the stack puts it on top, where the next allocation takes it
-- from: the address comes back, and the stack is the one before.
phys_alloc_2mib-free :
    (p : Phys) (xs : List ℕ) (x : ℕ)
    → IsStack p.mem p.stack_2mib xs
    → IsChunk x
    → has (x + kernel_base) xs ≡ false
    → suc (length xs) < word
    → let (y, q) = phys_alloc_2mib (phys_free_2mib x p) in
      (y ≡ x) × IsStack q.mem q.stack_2mib xs × (q.pool_4kib ≡ p.pool_4kib)
unfolding phys_alloc_2mib phys_free_2mib push_2mib
phys_alloc_2mib-free p xs x is c out small =
    let node = mask_of_chunk x c in
    let pushed =
      stack_push-cons p.mem p.stack_2mib xs (x + kernel_base) is (omega arith) out small in
    let (s, m) = stack_push p.stack_2mib (x + kernel_base) p.mem in
    let popped = stack_pop-rest m s ((x + kernel_base) ∷ xs) pushed.0 in
    rw node (
      ground (arith, popped, phys_to_virt_lem x c.low, virt_to_phys-phys_to_virt x c.low),
      popped.1,
      refl,
    )

-- The address of a pool is already a virtual one: giving it to `phys_free_2mib`, as
-- `phys_free_4KIB` does, puts another address on the stack.
phys_free_2mib_of_virtual :
    (p : Phys) (x : ℕ)
    → IsChunk x
    → (phys_free_2mib (phys_to_virt x) p).stack_2mib.top ≢ phys_to_virt x
unfolding phys_free_2mib push_2mib stack_push phys_to_virt
phys_free_2mib_of_virtual p x c =
    let twice : phys_to_virt (phys_to_virt x) < word = omega arith in
    ground (arith, mask_2mib_lem (phys_to_virt (phys_to_virt x)) twice)
