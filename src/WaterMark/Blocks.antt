-- ===== src/WaterMark/Blocks.antt =====
-- kernel/src/kernel/data_structures/watermark.c: the blocks that are handed out.
use bikeshed.Prelude.{
  ℕ, zero, suc, ◌+◌, ◌-◌, ◌*◌, ◌/◌, ◌%◌, ◌^◌, ◌<◌, ◌≤◌, ◌≡◌, ◌≢◌, refl, sym, ap, ◌∙◌, Bool, true,
  false, not, ◌==◌, ltb, ltb→lt, arith, ◌⊎◌, inl, inr, if◌then◌else◌,
}
use mathlib.Core.Path.{subst}
use bikeshed.Machine.{word, Result, ok, panic, assert, bind-ok, ◌>>◌}
use bikeshed.Addresses.{mib2}
use bikeshed.PhysAlloc.{Phys}
use bikeshed.Paging.{page_large, virt_map_page}
use bikeshed.Prelude.Bits.{bit_and_field}
use native.Mathlib.Nat.{mod-lt, mod-eq_of_lt, div-lt_iff_lt-mul, div-add-mod', pow-suc, one-le-pow}
use bikeshed.WaterMark.{
  WaterMark, pg_flag_rw, align, after_page, map_down, pages_above, water_mark_alloc_align,
  map_lower, lower_mark, adjusted,
}

-- Which branch returned.
if-ok {ℓ} :
    {A : Type ℓ} (b : Bool) (x y : Result A) {out : A}
    → (if b then x else y) ≡ ok out
    → ((b ≡ true) × (x ≡ ok out)) ⊎ ((b ≡ false) × (y ≡ ok out))
if-ok true x y h = inl (refl, h)
if-ok false x y h = inr (refl, h)

after_page-ok :
    (again : Phys → Result (ℕ × Phys)) (r : (ℕ × ℕ) × Phys) (out : ℕ × Phys)
    → after_page again r ≡ ok out
    → (r.0.0 ≢ 0) × (again r.1 ≡ ok out)
after_page-ok again ((mapped, addr), p) out h = elim (if-ok (mapped == 0) panic (again p) h) [
  | inl (t, e) ↦ absurd (cc)
  | inr (t, e) ↦ (ground arith, e)
]

pair_same :
    (page page' : ℕ) (p p' : Phys)
    → ◌≡◌ {A = Result (ℕ × Phys)} (ok (page, p)) (ok (page', p'))
    → (page ≡ page') × (p ≡ p')
pair_same page page' p p' e = (cc, cc)

-- The `n` large pages below `page` were mapped for the kernel, to be written, the highest one first;
-- each mapping succeeded. They took the memory from `p` to `p'`.
unfoldable pub MappedBelow : (n table page : ℕ) (p p' : Phys) → Type 0
MappedBelow zero table page p p' = p ≡ p'
MappedBelow (suc n) table page p p' =
    (mapped : ℕ) × (addr : ℕ) × (q : Phys) × (virt_map_page table (page - 0x200000) 2 page_large p
      ≡ ok ((mapped, addr), q))
    × (mapped ≢ 0)
    × MappedBelow n table (page - 0x200000) q p'

-- The loop ends at or below the current address, on the pages from the first one down; each of them
-- was mapped.
map_down-page :
    (fuel table current page page' : ℕ) (p p' : Phys)
    → page ≤ current + mib2 * fuel
    → page < word
    → page % mib2 ≡ 0
    → map_down fuel table current page p ≡ ok (page', p')
    → (page' ≤ current)
      × (page' % mib2 ≡ 0)
      × (n : ℕ) × (page ≡ page' + mib2 * n)
      × MappedBelow n table page p p'
unfolding map_down MappedBelow
map_down-page zero table current page page' p p' h w al e =
    let (same, still) = pair_same page page' p p' e in
    (omega arith, omega arith, 0, omega arith, still)
map_down-page (suc fuel) table current page page' p p' h w al e =
    let next = (page + word - mib2) % word in
    let again : Phys → Result (ℕ × Phys) = λ q. map_down fuel table current next q in
    let mapped = virt_map_page table next pg_flag_rw page_large p in
    elim (if-ok (ltb current page) _ (ok (page, p)) e) [
      | inl (more, e1) ↦
          (let less = ltb→lt current page more in
            let (r, e2, e3) = bind-ok mapped (after_page again) e1 in
            let (some, e4) = after_page-ok again r (page', p') e3 in
            let below : next ≡ page - 0x200000 = omega arith in
            let (a, c, n, d, chain) =
              map_down-page fuel table current next page' r.1 p' (omega arith) (omega arith)
                (omega arith) e4 in
            (
              a,
              c,
              suc n,
              omega arith,
              (
                r.0.0,
                r.0.1,
                r.1,
                subst (λ x. virt_map_page table x 2 page_large p ≡ ok r) below e2,
                some,
                subst (λ x. MappedBelow n table x r.1 p') below chain,
              ),
            ))
      | inr (stop, e1) ↦
          (let (same, still) = pair_same page page' p p' e1 in
            (ground arith, omega arith, 0, omega arith, still))
    ]

pow_split : (j k : ℕ) → 2 ^ j * 2 ^ k ≡ 2 ^ (j + k)
pow_split j zero =
    let same : 2 ^ (j + 0) ≡ 2 ^ j = ap (λ n. 2 ^ n) (omega arith) in omega (arith, same)
pow_split j (suc k) =
    let shift : j + suc k ≡ suc (j + k) = omega arith in
    rw (shift, pow-suc 2 k, pow-suc 2 (j + k))
      (regroup (2 ^ j) (2 ^ k) ∙ ap (λ n. n * 2) (pow_split j k))
  where
    regroup : (a b : ℕ) → a * (b * 2) ≡ a * b * 2
    regroup a b = omega arith

-- Rounding up to a power of two.
align_lem :
    (k addr : ℕ)
    → k ≤ 32
    → addr + 2 ^ k < word
    → align addr (2 ^ k) ≡ (addr + 2 ^ k - 1) / 2 ^ k * 2 ^ k
unfolding align
align_lem k addr h w =
    let p = 2 ^ k in
    let q = 2 ^ (64 - k) in
    let x = addr + p - 1 in
    let some_p : 1 ≤ p = one-le-pow k 2 (omega arith) in
    let some_q : 1 ≤ q = one-le-pow (64 - k) 2 (omega arith) in
    let all : q * p ≡ 2 ^ 64 = pow_split (64 - k) k ∙ ap (λ n. 2 ^ n) {y = 64} (omega arith) in
    let sum : (addr + p + word - 1) % word ≡ x = omega arith in
    let mask : word - p ≡ (q - 1) * p = less_one q p some_q all in
    let high : x / p % q ≡ x / p =
      mod-eq_of_lt ((div-lt_iff_lt-mul some_p).1 (omega (arith, all))) in
    rw (sum, mask) (bit_and_field (64 - k) k x ∙ ap (λ n. n * p) high)
  where
    less_one : (q p : ℕ) → 1 ≤ q → q * p ≡ 2 ^ 64 → word - p ≡ (q - 1) * p
    less_one zero p h e = absurd (omega arith)
    less_one (suc q) p h e =
        let grown : suc q * p ≡ q * p + p = omega arith in
        let less : suc q - 1 ≡ q = omega arith in rw less (omega (arith, grown))

-- The padding is shorter than the alignment.
adjusted_bounds :
    (k size : ℕ) (w : WaterMark)
    → k ≤ 32
    → w.current_address + 2 ^ k + size < word
    → (size ≤ adjusted (2 ^ k) size w) × (adjusted (2 ^ k) size w < 2 ^ k + size)
unfolding adjusted
adjusted_bounds k size w h b =
    let p = 2 ^ k in
    let x = w.current_address + p - 1 in
    let some_p : 1 ≤ p = one-le-pow k 2 (omega arith) in
    let up : align w.current_address p ≡ x / p * p =
      align_lem k w.current_address h (omega arith) in
    let whole : x / p * p + x % p ≡ x = div-add-mod' x p in
    let left : x % p < p = mod-lt x some_p in (omega arith, omega arith)

-- The allocator's bounds: what it handed out lies above the current address, on pages that are
-- mapped, and is no more than its size.
pub record IsValid (location : ℕ) (w : WaterMark) : Type 0 where
  pub location_bound : location < word
  pub fits : w.max_size ≤ location
  pub taken : w.current_address + w.current_size ≡ location
  pub limit : w.current_size ≤ w.max_size
  pub mapped : w.page_address ≤ w.current_address
  pub whole : w.page_address % mib2 ≡ 0

-- The block at `addr`, and the pages that were mapped for it.
pub record IsBlock (table location k size : ℕ) (w w' : WaterMark) (addr : ℕ) (p p' : Phys)
    : Type 0 where
  pub valid : IsValid location w'
  pub below : addr + size ≤ w.current_address
  pub padding : w.current_address < addr + size + 2 ^ k
  pub current : w'.current_address ≡ addr
  pub pages : ℕ
  pub down_to : w.page_address ≡ w'.page_address + 0x200000 * pages
  pub mapped : MappedBelow pages table w.page_address p p'

assert-ok {ℓ} :
    {A : Type ℓ} (b : Bool) (next : Result A) {out : A}
    → (assert b >> next) ≡ ok out
    → (b ≡ true) × (next ≡ ok out)
assert-ok true next h = (refl, h)
assert-ok false next h = absurd (cc)

-- What an allocation returns.
abbrev Made : Type 0
Made = (ℕ × WaterMark) × Phys

ok_same : {a b : Made} → ok a ≡ ok b → a ≡ b
ok_same {a} e = ap (λ (r : Result Made). elim r [ panic ↦ a | ok x ↦ x ]) e

map_lower-page :
    (table current total : ℕ) (w w' : WaterMark) (addr : ℕ) (p p' : Phys)
    → w.page_address < word
    → w.page_address % mib2 ≡ 0
    → map_lower table current total w p ≡ ok ((addr, w'), p')
    → (page : ℕ) × (page ≤ current)
      × (page % mib2 ≡ 0)
      × (n : ℕ) × (w.page_address ≡ page + mib2 * n)
      × MappedBelow n table w.page_address p p'
      × (current ≡ addr)
      × (record w { current_address = current; current_size = total; page_address = page } ≡ w')
unfolding map_lower
map_lower-page table current total w w' addr p p' h al e =
    let pages = map_down (pages_above current w.page_address) table current w.page_address p in
    let (r, e1, e2) = bind-ok pages _ e in
    let (a, c, n, d, chain) =
      map_down-page (pages_above current w.page_address) table current w.page_address r.0 p r.1
        (omega arith) h al e1 in
    (
      r.0,
      a,
      c,
      n,
      d,
      subst (MappedBelow n table w.page_address p) (ap (λ (x : Made). x.1) (ok_same e2)) chain,
      ap (λ (x : Made). x.0.0) (ok_same e2),
      ap (λ (x : Made). x.0.1) (ok_same e2),
    )

-- An allocation of some bytes with an alignment of 2 ^ k, k at most 32, that returns, from an
-- allocator within its bounds and below the last 2 ^ k and that many bytes of the address space,
-- keeps the bounds: what was handed out is no more than the allocator's size, and the page address
-- is at or below the current address. The large pages between the old and the new page address were
-- mapped, each one once, from the highest one down, and the memory is as this left it. The block
-- begins at the new current address and ends at or below the old one, with less than 2 ^ k bytes
-- between.
pub water_mark_alloc_align-IsBlock :
    (table location k size : ℕ) (w w' : WaterMark) (addr : ℕ) (p p' : Phys)
    → IsValid location w
    → k ≤ 32
    → location + 2 ^ k + size < word
    → water_mark_alloc_align table (2 ^ k) size w p ≡ ok ((addr, w'), p')
    → IsBlock table location k size w w' addr p p'
unfolding water_mark_alloc_align lower_mark
water_mark_alloc_align-IsBlock table location k size w w' addr p p' v h b e =
    let total = (w.current_size + adjusted (2 ^ k) size w) % word in
    let low = (w.current_address + word - adjusted (2 ^ k) size w) % word in
    let e1 = (assert-ok _ (lower_mark table (adjusted (2 ^ k) size w) w p) e).1 in
    let (less, e2) = assert-ok (not (ltb w.max_size total)) (map_lower table low total w p) e1 in
    let (size_up, padded) = adjusted_bounds k size w h (omega (arith, v.taken)) in
    let small : total ≤ w.max_size = ground arith in
    let (page, a, c, n, d, chain, here, made) =
      map_lower-page table low total w w' addr p p'
        (omega (arith, v.mapped, v.taken, v.location_bound)) v.whole e2 in
    record {
      valid = subst (IsValid location) made (record {
        location_bound = v.location_bound;
        fits = v.fits;
        taken = omega (arith, v.taken, v.fits);
        limit = small;
        mapped = a;
        whole = c;
      });
      below = omega (arith, v.taken, v.fits);
      padding = omega (arith, v.taken, v.fits);
      current = sym (ap (λ (x : WaterMark). x.current_address) made) ∙ here;
      pages = n;
      down_to = d ∙ ap (λ (x : WaterMark). x.page_address + 0x200000 * n) made;
      mapped = chain;
    }
