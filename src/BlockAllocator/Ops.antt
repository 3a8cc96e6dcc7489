-- ===== src/BlockAllocator/Ops.antt =====
-- Each operation of the block allocator keeps its invariant and does what block.h says.
use bikeshed.Prelude.{
  ℕ, suc, ◌+◌, ◌-◌, ◌*◌, ◌/◌, ◌%◌, ◌<◌, ◌≤◌, ◌≡◌, refl, ap, ◌∙◌, ◌≢◌, ◌⊎◌, inl, inr, true, false,
  List, [], ◌∷◌, arith, length, has, erase, All, All-map, All-has, All-erase, length-erase,
  has-erase_out, has-erase_self, Distinct-erase, ◌==◌, ltb,
}
use native.Mathlib.Decide.{dec_lt}
use bikeshed.Machine.{Mem, store, word, ok}
use bikeshed.Stack.Refine.{
  IsStack, IsStack-frame, stack_push-cons, stack_pop-rest, stack_init-IsStack, rest,
}
use bikeshed.Stack.{stack_init, stack_pop, stack_push}
use bikeshed.BlockAllocator.{
  BlockAllocator, block_init, block_alloc, block_free, sizeof_block_allocator, sizeof_stack_node,
}
use bikeshed.BlockAllocator.Invariant.{IsBlock, IsValid}

-- A region of `length` bytes, with room for the header, that does not reach the end of the
-- address space, and blocks of at least a stack node, make an allocator of as many whole blocks as fit behind the
-- header, none in use.
pub block_init-IsValid :
    (m : Mem) (address length block_size : ℕ)
    → sizeof_block_allocator ≤ length
    → sizeof_stack_node ≤ block_size
    → address + length < word
    → (ba : BlockAllocator) × (block_init address length block_size ≡ ok ba)
      × IsValid m ba 0 ((length - sizeof_block_allocator) / block_size) [] []
unfolding block_init
block_init-IsValid m address length block_size hl hb hw = (
  record {
    base = address + sizeof_block_allocator;
    max_address = address + sizeof_block_allocator + blocks * block_size;
    implicit_next = address + sizeof_block_allocator;
    block_size = block_size;
    free_stack = stack_init;
  },
  ground (arith, fits),
  record {
    stack = stack_init-IsStack m;
    after_header = omega arith;
    room = hb;
    next = omega arith;
    end = refl;
    in_word = omega (arith, fits);
    within = omega arith;
    counted = refl;
    free_distinct = tt;
    live_distinct = tt;
    apart = λ a h. refl;
    free_blocks = tt;
    live_blocks = tt;
  },
)
  where
    blocks : ℕ
    blocks = (length - sizeof_block_allocator) / block_size

    fits : blocks * block_size ≤ length - sizeof_block_allocator
    fits = grind arith

module _ (ba : BlockAllocator) where
  below-next : (used i : ℕ) → i < used → i * ba.block_size + ba.block_size ≤ used * ba.block_size
  below-next used i h = grind arith

  -- The next block to hand out is none of the earlier ones.
  next-not-handed :
      (used : ℕ) (xs : List ℕ)
      → 0 < ba.block_size
      → All (IsBlock ba used) xs
      → has (ba.base + used * ba.block_size) xs ≡ false
  next-not-handed used [] pos h = refl
  next-not-handed used (x ∷ xs) pos h =
      ground (arith, below-next used h.0.0, next-not-handed used xs)

  block_index_unique :
      (i j offset : ℕ)
      → offset < ba.block_size
      → i * ba.block_size + offset ≡ j * ba.block_size
      → i ≡ j
  block_index_unique i j offset h e = elim (dec_lt i j) [
    | yes lt ↦ absurd (omega (arith, below-next j i lt))
    | no ge ↦ elim (dec_lt j i) [
      | yes gt ↦ absurd (omega (arith, below-next i j gt))
      | no le ↦ omega arith
    ]
  ]

  IsBlock-suc : (used a : ℕ) → IsBlock ba used a → IsBlock ba (suc used) a
  IsBlock-suc used a h = (h.0, omega arith, h.2)

module _ (m : Mem) (ba : BlockAllocator) (used total : ℕ) (live : List ℕ) where
  -- A freed block is handed out again, last freed first.
  block_alloc_recycled :
      (x : ℕ) (xs : List ℕ)
      → IsValid m ba used total (x ∷ xs) live
      → ((block_alloc ba m).0 ≡ x) × IsValid m (block_alloc ba m).1 used total xs (x ∷ live)
  unfolding block_alloc
  block_alloc_recycled x xs v = rw some_free (
    popped.0,
    record {
      stack = popped.1;
      after_header = v.after_header;
      room = v.room;
      next = v.next;
      end = v.end;
      in_word = v.in_word;
      within = v.within;
      counted = omega (arith, v.counted);
      free_distinct = v.free_distinct.1;
      live_distinct = (v.apart x (ground arith), v.live_distinct);
      apart = λ a h. ground (arith, v.apart a, v.free_distinct);
      free_blocks = v.free_blocks.1;
      live_blocks = (v.free_blocks.0, v.live_blocks);
    },
  )
    where
      some_free : (ba.free_stack.size == 0) ≡ false
      some_free = ground (arith, v.stack)

      popped : ((stack_pop ba.free_stack m).0 ≡ x) × IsStack m (stack_pop ba.free_stack m).1 xs
      popped = stack_pop-rest m ba.free_stack (x ∷ xs) v.stack

  -- With no freed block the next one of the region is handed out.
  block_alloc_next :
      IsValid m ba used total [] live
      → used < total
      → let p = ba.base + used * ba.block_size in
        ((block_alloc ba m).0 ≡ p) × IsValid m (block_alloc ba m).1 (suc used) total [] (p ∷ live)
  unfolding block_alloc
  block_alloc_next v h =
      rw (none_free, some_left)
        (
          v.next,
          record {
            stack = v.stack;
            after_header = v.after_header;
            room = v.room;
            next = omega (arith, v.next, v.in_word, below-next ba total used h);
            end = v.end;
            in_word = v.in_word;
            within = h;
            counted = omega (arith, v.counted);
            free_distinct = tt;
            live_distinct = (
              next-not-handed ba used live (omega (arith, v.room)) v.live_blocks,
              v.live_distinct,
            );
            apart = λ a e. absurd (cc);
            free_blocks = tt;
            live_blocks = (
              (used, omega arith, refl),
              All-map (IsBlock ba used) (IsBlock ba (suc used)) (IsBlock-suc ba used) live
                  v.live_blocks,
            );
          },
        )
    where
      none_free : (ba.free_stack.size == 0) ≡ true
      none_free = ground (arith, v.stack)

      some_left : ltb ba.implicit_next ba.max_address ≡ true
      some_left = ground (arith, v.next, v.end, below-next ba total used, v.room)

  -- With every block in use the answer is NULL and nothing changes.
  block_alloc_exhausted :
      IsValid m ba used total [] live → used ≡ total → block_alloc ba m ≡ (0, ba)
  unfolding block_alloc
  block_alloc_exhausted v e = rw (none_free, none_left)
    where
      none_free : (ba.free_stack.size == 0) ≡ true
      none_free = ground (arith, v.stack)

      none_left : ltb ba.implicit_next ba.max_address ≡ false
      none_left = ground (arith, v.next, v.end, ap (λ (t : ℕ). t * ba.block_size) e)

-- What an allocation does to the numbers and lists of the invariant.
abbrev pub next_used : ℕ → List ℕ → ℕ
next_used used [] = suc used
next_used used (x ∷ xs) = used

-- (`used` and `total` count the blocks handed out so far and the blocks of the region.)
-- `block_alloc` answers NULL exactly when all blocks are in use, and then changes nothing;
-- otherwise its answer is a block of the region that was not in use, and the invariant holds
-- with that block in use.
pub block_alloc-fresh :
    (m : Mem) (ba : BlockAllocator) (used total : ℕ) (free live : List ℕ)
    → IsValid m ba used total free live
    → let (p, ba') = block_alloc ba m in
      ((p ≡ 0) × (ba' ≡ ba) × (length live ≡ total))
      ⊎ ((p ≢ 0)
          × (length live < total)
          × IsBlock ba total p
          × (has p live ≡ false)
          × IsValid m ba' (next_used used free) total (rest free) (p ∷ live))
block_alloc-fresh m ba used total [] live v = elim (dec_lt used total) [
  | yes h ↦
      let got = block_alloc_next m ba used total live v h in
      inr (
        omega (arith, got.0, v.after_header),
        omega (arith, v.counted),
        (used, h, got.0),
        rw got.0 (got.1.live_distinct.0),
        rw got.0 (got.1),
      )
  | no h ↦
      let full : used ≡ total = omega (arith, v.within) in
      let got = block_alloc_exhausted m ba used total live v full in
      inl (ap (λ r. r.0) got, ap (λ r. r.1) got, omega (arith, v.counted))
]
block_alloc-fresh m ba used total (x ∷ xs) live v =
    let got = block_alloc_recycled m ba used total live x xs v in
    inr (
      rw got.0 (v.stack.linked.1),
      omega (arith, v.counted, v.within),
      (v.free_blocks.0.0, omega (arith, v.within, v.free_blocks.0.1), got.0 ∙ v.free_blocks.0.2),
      rw got.0 (got.1.live_distinct.0),
      rw got.0 (got.1),
    )

module _ (m : Mem) (ba : BlockAllocator) (used total : ℕ) (free live : List ℕ) (p : ℕ)
    (v : IsValid m ba used total free live) (mem : has p live ≡ true) where
  not-free : has p free ≡ false
  not-free = ground (arith, v.apart p)

  count_small : suc (length free) < word
  count_small =
      let some_live = length-erase p live mem in
      let wide : total * 8 ≤ total * ba.block_size = grind (arith, v.room) in
      omega (arith, some_live, v.counted, v.within, v.in_word, wide, v.after_header)

-- Freeing a block in use, where the blocks begin behind the header, does not panic, writes only the block's first word, and keeps the
-- invariant with the block free.
pub block_free-IsValid :
    (m : Mem) (this : ℕ) (ba : BlockAllocator) (used total : ℕ) (free live : List ℕ) (p : ℕ)
    → IsValid m ba used total free live
    → ba.base ≡ this + sizeof_block_allocator
    → has p live ≡ true
    → (ba' : BlockAllocator) × (m' : Mem) × (block_free this ba p m ≡ ok (ba', m'))
      × IsValid m' ba' used total (p ∷ free) (erase live p)
      × ((a : ℕ) → a ≢ p → m' a ≡ m a)
unfolding block_free
block_free-IsValid m this ba used total free live p v at mem =
    let block = All-has (IsBlock ba used) p live v.live_blocks mem in
    let below = below-next ba total block.0 (omega (arith, block.1, v.within)) in
    let lower : (this + sizeof_block_allocator) % word ≤ p = omega (arith, block.2, v.in_word) in
    let upper : p < ba.max_address = omega (arith, block.2, v.end, below, v.room) in
    let out = not-free m ba used total free live p v mem in
    let pushed =
      stack_push-cons m ba.free_stack free p v.stack (omega (arith, block.2, v.after_header)) out
        (count_small m ba used total free live p v mem) in
    (
      record ba { free_stack = (stack_push ba.free_stack p m).0 },
      (stack_push ba.free_stack p m).1,
      ground arith,
      record {
        stack = pushed.0;
        after_header = v.after_header;
        room = v.room;
        next = v.next;
        end = v.end;
        in_word = v.in_word;
        within = v.within;
        counted = omega (arith, v.counted, length-erase p live mem);
        free_distinct = (out, v.free_distinct);
        live_distinct = Distinct-erase p live v.live_distinct;
        apart = λ a h. apart-erase a h;
        free_blocks = (block, v.free_blocks);
        live_blocks = All-erase (IsBlock ba used) p live v.live_blocks;
      },
      pushed.1,
    )
  where
    apart-erase : (a : ℕ) → has a (p ∷ free) ≡ true → has a (erase live p) ≡ false
    apart-erase a h =
        ground (arith, v.apart a, has-erase_out a p live, has-erase_self p live v.live_distinct)

-- A program that writes inside a block in use does not disturb the allocator.
write-IsValid :
    (m : Mem) (ba : BlockAllocator) (used total : ℕ) (free live : List ℕ) (p offset x : ℕ)
    → IsValid m ba used total free live
    → has p live ≡ true
    → offset < ba.block_size
    → IsValid (store m (p + offset) x) ba used total free live
write-IsValid m ba used total free live p offset x v mem h = record {
  stack = IsStack-frame m (store m (p + offset) x) spared v.stack;
  after_header = v.after_header;
  room = v.room;
  next = v.next;
  end = v.end;
  in_word = v.in_word;
  within = v.within;
  counted = v.counted;
  free_distinct = v.free_distinct;
  live_distinct = v.live_distinct;
  apart = v.apart;
  free_blocks = v.free_blocks;
  live_blocks = v.live_blocks;
}
  where
    own : IsBlock ba used p
    own = All-has (IsBlock ba used) p live v.live_blocks mem

    other : (a : ℕ) → has a free ≡ true → a ≢ p + offset
    other a i e =
        let block = All-has (IsBlock ba used) a free v.free_blocks i in
        let same : own.0 ≡ block.0 =
          block_index_unique ba own.0 block.0 offset h (omega (arith, own.2, block.2, e)) in
        let here : a ≡ p = omega (arith, own.2, block.2, ap (λ (t : ℕ). t * ba.block_size) same) in
        ground (arith, v.apart a i, here)

    spared : (a : ℕ) → has a free ≡ true → store m (p + offset) x a ≡ m a
    spared a i = ground (arith, other a i)
