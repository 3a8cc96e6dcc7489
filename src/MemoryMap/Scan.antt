-- ===== src/MemoryMap/Scan.antt =====
-- The two loops of `get_total_usable_ram`: every region of the BIOS is clipped, none is added,
-- and the totals are those of the usable regions that are left.
use Prim.Native.Nat.{max}
use bikeshed.Prelude.{
  ℕ, zero, suc, ◌+◌, ◌-◌, ◌%◌, ◌<◌, ◌≤◌, ◌≡◌, refl, inl, inr, true, false, ◌==◌, ltb, arith,
  if◌then◌else◌, Bool-cases, ap, ◌∙◌, ap₂, ==_iff,
}
use bikeshed.Machine.{word}
use bikeshed.MemoryMap.{
  MMapEntry, MMap, RamScan, type_usable, adjust_region, tally_region, scan_region, scan_loop,
  extras_loop, get_total_usable_ram,
}
use bikeshed.MemoryMap.Clip.{IsUsable, Fits, limit, clip, clip_within, clip_reserved}

abbrev pub usable_length : MMapEntry → ℕ
usable_length e = if e.kind == type_usable then e.length else 0

abbrev pub usable_limit : MMapEntry → ℕ
usable_limit e = if e.kind == type_usable then limit e else 0

-- The sum of the lengths of the usable regions below `n`, as 64-bit addition gives it.
unfoldable pub usable_ram : MMap → ℕ → ℕ
usable_ram a zero = 0
usable_ram a (suc n) = (usable_ram a n + usable_length (a n)) % word

unfoldable pub highest_limit : MMap → ℕ → ℕ
highest_limit a zero = 0
highest_limit a (suc n) = max (highest_limit a n) (usable_limit (a n))

usable_ram-lt : (a : MMap) (n : ℕ) → usable_ram a n < word
unfolding usable_ram
usable_ram-lt a zero = omega arith
usable_ram-lt a (suc n) = omega arith

-- What one round leaves: region `i` clipped and added to the totals.
record Round (s s' : RamScan) (i : ℕ) : Type 0 where
  here : s'.mmap_array i ≡ clip (s.mmap_array i)
  others : (j : ℕ) → (j == i) ≡ false → s'.mmap_array j ≡ s.mmap_array j
  added : s'.mmap_add_index ≡ s.mmap_add_index
  total :
      s.total_usable_ram < word
      → s'.total_usable_ram ≡ (s.total_usable_ram + usable_length (clip (s.mmap_array i))) % word
  highest : s'.highest_address ≡ max s.highest_address (usable_limit (clip (s.mmap_array i)))

-- Case 4 is not reached: `adjust_region` only rewrites region `i`.
adjust_region-clip :
    (s : RamScan) (i : ℕ)
    → IsUsable (s.mmap_array i)
    → let s' = adjust_region s i in
      (s'.mmap_array i ≡ clip (s.mmap_array i))
      × ((j : ℕ) → (j == i) ≡ false → s'.mmap_array j ≡ s.mmap_array j)
      × (s'.mmap_add_index ≡ s.mmap_add_index)
      × (s'.total_usable_ram ≡ s.total_usable_ram)
      × (s'.highest_address ≡ s.highest_address)
unfolding adjust_region clip
adjust_region-clip s i u = ground arith

scan_region-Round : (s : RamScan) (i : ℕ) → Fits (s.mmap_array i) → Round s (scan_region s i) i
unfolding scan_region tally_region
scan_region-Round s i h = elim (Bool-cases ((s.mmap_array i).kind == type_usable)) [
  | inl u ↦
      let adj = adjust_region-clip s i (ground arith) in
      let fits = clip_within (s.mmap_array i) h in ground arith
  | inr u ↦ let same = clip_reserved (s.mmap_array i) u in ground arith
]

-- The state of the first loop at index `i`.
pub record Scanned (a : MMap) (size i : ℕ) (s : RamScan) : Type 0 where
  pub done : (j : ℕ) → ltb j i ≡ true → s.mmap_array j ≡ clip (a j)
  pub ahead : (j : ℕ) → ltb j i ≡ false → s.mmap_array j ≡ a j
  pub added : s.mmap_add_index ≡ size
  pub total : s.total_usable_ram ≡ usable_ram (λ j. clip (a j)) i
  pub highest : s.highest_address ≡ highest_limit (λ j. clip (a j)) i

unfoldable pub AllFit : MMap → ℕ → Type 0
AllFit a n = (j : ℕ) → j < n → Fits (a j)

Scanned-suc :
    (a : MMap) (size i : ℕ) (s : RamScan)
    → Fits (a i)
    → Scanned a size i s
    → Scanned a size (suc i) (scan_region s i)
unfolding usable_ram highest_limit
Scanned-suc a size i s h v =
    let e = v.ahead i (ground arith) in
    let round = scan_region-Round s i (rw e h) in
    record {
      done = λ j lt. elim (Bool-cases (j == i)) [
        | inl same ↦ rw ((==_iff j i).0 same) (round.here ∙ ap clip e)
        | inr other ↦ round.others j other ∙ v.done j (ground arith)
      ];
      ahead = λ j lt. ground (arith, v.ahead j, round.others j);
      added = round.added ∙ v.added;
      total =
          round.total (rw v.total (usable_ram-lt (λ j. clip (a j)) i))
          ∙ ap₂ (λ t x. (t + usable_length (clip x)) % word) v.total e;
      highest = ground (arith, round.highest, v.highest, e);
    }

scan_loop-Scanned :
    (a : MMap) (size n i j : ℕ) (s : RamScan)
    → i + n ≡ j
    → AllFit a j
    → Scanned a size i s
    → Scanned a size j (scan_loop n i s)
unfolding scan_loop AllFit
scan_loop-Scanned a size zero i j s e h v = let e' : i ≡ j = omega arith in rw (← e') v
scan_loop-Scanned a size (suc n) i j s e h v =
    scan_loop-Scanned a size n (suc i) j (scan_region s i) (omega arith) h
      (Scanned-suc a size i s (h i (omega arith)) v)

pub get_total_usable_ram-Scanned :
    (a : MMap) (n : ℕ) → AllFit a n → Scanned a n n (get_total_usable_ram a n)
unfolding get_total_usable_ram usable_ram highest_limit extras_loop AllFit
get_total_usable_ram-Scanned a n h =
    let start : RamScan = record {
      mmap_array = a;
      mmap_add_index = n;
      total_usable_ram = 0;
      highest_address = 0;
    } in
    let first : Scanned a n 0 start = record {
      done = λ j lt. absurd (ground arith);
      ahead = λ j lt. refl;
      added = refl;
      total = refl;
      highest = refl;
    } in
    let v = scan_loop-Scanned a n n 0 n start (omega arith) h first in
    let none_added : (scan_loop n 0 start).mmap_add_index - n ≡ 0 = omega (arith, v.added) in
    rw (none_added, extras_loop) v

pub usable_limit-le-highest : (a : MMap) (n i : ℕ) → i < n → usable_limit (a i) ≤ highest_limit a n
unfolding highest_limit
usable_limit-le-highest a zero i h = absurd (omega arith)
usable_limit-le-highest a (suc n) i h = elim (Bool-cases (i == n)) [
  | inl same ↦ rw ((==_iff i n).0 same) (omega arith)
  | inr other ↦ omega (arith, usable_limit-le-highest a n i (ground arith))
]
