-- ===== src/BlockAllocator/Tests.antt =====
-- The theorems on block allocators at a region of four blocks of 16 bytes, two of them handed
-- out and one of these freed.
use bikeshed.Prelude.{ℕ, ◌<◌, ◌≡◌, ◌≢◌, ◌⊎◌, refl, false, List, [], ◌∷◌, length, has, arith}
use bikeshed.Machine.{Mem, ok}
use bikeshed.Stack.{stack}
use bikeshed.BlockAllocator.{BlockAllocator, block_alloc, block_free}
use bikeshed.BlockAllocator.Invariant.{IsBlock, IsValid}
use bikeshed.BlockAllocator.Ops.{block_alloc-fresh, block_free-IsValid}

abbrev zeros : Mem
zeros a = 0

abbrev one_freed : BlockAllocator
one_freed = record {
  base = 1048;
  max_address = 1112;
  implicit_next = 1080;
  block_size = 16;
  free_stack = stack 1 1048;
}

abbrev in_use : List ℕ
in_use = 1064 ∷ []

one_freed-IsValid : IsValid zeros one_freed 2 4 (1048 ∷ []) (1064 ∷ [])
one_freed-IsValid = record {
  stack = ground arith;
  after_header = omega arith;
  room = omega arith;
  next = refl;
  end = refl;
  in_word = omega arith;
  within = omega arith;
  counted = refl;
  free_distinct = (refl, tt);
  live_distinct = (refl, tt);
  apart = λ a h. ground arith;
  free_blocks = ((0, omega arith, refl), tt);
  live_blocks = ((1, omega arith, refl), tt);
}

block_alloc-fresh_example :
    let (p, ba') = block_alloc one_freed zeros in
    ((p ≡ 0) × (ba' ≡ one_freed) × (length in_use ≡ 4))
    ⊎ ((p ≢ 0)
        × (length in_use < 4)
        × IsBlock one_freed 4 p
        × (has p (1064 ∷ []) ≡ false)
        × IsValid zeros ba' 2 4 [] (p ∷ 1064 ∷ []))
block_alloc-fresh_example =
    block_alloc-fresh zeros one_freed 2 4 (1048 ∷ []) (1064 ∷ []) one_freed-IsValid

block_free-IsValid_example :
    (ba' : BlockAllocator) × (m' : Mem) × (block_free 1000 one_freed 1064 zeros ≡ ok (ba', m'))
    × IsValid m' ba' 2 4 (1064 ∷ 1048 ∷ []) []
    × ((a : ℕ) → a ≢ 1064 → m' a ≡ zeros a)
block_free-IsValid_example =
    block_free-IsValid zeros 1000 one_freed 2 4 (1048 ∷ []) (1064 ∷ []) 1064 one_freed-IsValid refl
      refl
