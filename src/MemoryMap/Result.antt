-- ===== src/MemoryMap/Result.antt =====
-- What `get_total_usable_ram` leaves: which regions there are and where the usable ones lie.
use bikeshed.Prelude.{
  ℕ, zero, suc, ◌+◌, ◌%◌, ◌<◌, ◌≤◌, ◌≡◌, refl, ◌⊎◌, arith, ap, ◌∙◌, ap₂, sym, lt→ltb,
}
use bikeshed.Machine.{word}
use bikeshed.MemoryMap.{MMap, kernel_start, kernel_end, get_total_usable_ram}
use bikeshed.MemoryMap.Clip.{IsUsable, Fits, limit, clip, clip_outside, clip_within, clip_spanning}
use bikeshed.MemoryMap.Scan.{
  AllFit, usable_ram, usable_length, get_total_usable_ram-Scanned, usable_limit-le-highest,
}

-- No usable region that is left overlaps the kernel.
get_total_usable_ram_outside :
    (a : MMap) (n i : ℕ)
    → ((j : ℕ) → j < n → Fits (a j))
    → i < (get_total_usable_ram a n).mmap_add_index
    → IsUsable ((get_total_usable_ram a n).mmap_array i)
    → let e = (get_total_usable_ram a n).mmap_array i in
      (limit e ≤ kernel_start) ⊎ (kernel_end ≤ e.base)
unfolding AllFit
get_total_usable_ram_outside a n i h lt u =
    let v = get_total_usable_ram-Scanned a n h in
    let in_map : i < n = omega (arith, v.added) in
    let e = v.done i (lt→ltb i n in_map) in
    let out = clip_outside (a i) (h i in_map) (ap (λ x. x.kind) (sym e) ∙ u) in rw e out

usable_ram-congr :
    (a b : MMap) (n : ℕ) → ((j : ℕ) → j < n → a j ≡ b j) → usable_ram a n ≡ usable_ram b n
unfolding usable_ram
usable_ram-congr a b zero h = refl
usable_ram-congr a b (suc n) h =
    ap₂ (λ t x. (t + usable_length x) % word) (usable_ram-congr a b n (λ j lt. h j (omega arith)))
      (h n (omega arith))

-- The count, the total and the highest address.
get_total_usable_ram_totals :
    (a : MMap) (n : ℕ)
    → ((j : ℕ) → j < n → Fits (a j))
    → let s = get_total_usable_ram a n in
      (s.mmap_add_index ≡ n)
      × (s.total_usable_ram ≡ usable_ram s.mmap_array n)
      × ((i : ℕ) → i < n → IsUsable (s.mmap_array i) → limit (s.mmap_array i) ≤ s.highest_address)
unfolding AllFit
get_total_usable_ram_totals a n h =
    let v = get_total_usable_ram-Scanned a n h in
    (
      v.added,
      v.total
          ∙ usable_ram-congr (λ j. clip (a j)) (get_total_usable_ram a n).mmap_array n
              (λ j lt. sym (v.done j (lt→ltb j n lt))),
      λ i lt u.
          let e = v.done i (lt→ltb i n lt) in
          let below = usable_limit-le-highest (λ j. clip (a j)) n i lt in ground (arith, v.highest),
    )

-- A usable region of the BIOS that begins below the kernel and ends above it keeps only its
-- part below the kernel, and no region is added for the part above.
get_total_usable_ram_spanning :
    (a : MMap) (n i : ℕ)
    → ((j : ℕ) → j < n → Fits (a j))
    → i < n
    → IsUsable (a i)
    → (a i).base < kernel_start
    → kernel_end < limit (a i)
    → let s = get_total_usable_ram a n in
      (limit (s.mmap_array i) ≡ kernel_start) × (s.mmap_add_index ≡ n)
unfolding AllFit
get_total_usable_ram_spanning a n i h lt u lo hi =
    let v = get_total_usable_ram-Scanned a n h in
    (ap limit (v.done i (lt→ltb i n lt)) ∙ clip_spanning (a i) (h i lt) u lo hi, v.added)

-- A region that is left lies within the BIOS's region of the same index, and is usable only if
-- that one was.
get_total_usable_ram_within :
    (a : MMap) (n i : ℕ)
    → ((j : ℕ) → j < n → Fits (a j))
    → i < n
    → let e = (get_total_usable_ram a n).mmap_array i in
      ((a i).base ≤ e.base) × (limit e ≤ limit (a i)) × (IsUsable e → IsUsable (a i))
unfolding AllFit
get_total_usable_ram_within a n i h lt =
    let e = (get_total_usable_ram-Scanned a n h).done i (lt→ltb i n lt) in
    rw e (clip_within (a i) (h i lt))

-- If no region of the BIOS wraps round the end of the address space, the map that
-- `get_total_usable_ram` leaves has as many regions as the BIOS's, and the total is the sum, in
-- 64-bit addition, of the lengths of its usable regions. A usable region of it does not overlap
-- the kernel, lies within the BIOS's region of the same index, which was usable, and does not end
-- above the highest address.
pub get_total_usable_ram-IsUsable :
    (a : MMap) (n : ℕ)
    → ((j : ℕ) → j < n → Fits (a j))
    → let s = get_total_usable_ram a n in
      (s.mmap_add_index ≡ n)
      × (s.total_usable_ram ≡ usable_ram s.mmap_array n)
      × ((i : ℕ)
          → i < n
          → let e = s.mmap_array i in
            IsUsable e
            → ((limit e ≤ kernel_start) ⊎ (kernel_end ≤ e.base))
              × ((a i).base ≤ e.base)
              × (limit e ≤ limit (a i))
              × (limit e ≤ s.highest_address)
              × IsUsable (a i))
get_total_usable_ram-IsUsable a n h =
    let totals = get_total_usable_ram_totals a n h in
    (
      totals.0,
      totals.1,
      λ i lt u.
          let within = get_total_usable_ram_within a n i h lt in
          (
            get_total_usable_ram_outside a n i h (omega (arith, totals.0)) u,
            within.0,
            within.1,
            totals.2 i lt u,
            within.2 u,
          ),
    )
