-- ===== src/MemoryMap/Clip.antt =====
-- What one round of the scan does to its region, as a function of the region alone.
use bikeshed.Prelude.{
  ℕ, ◌+◌, ◌%◌, ◌<◌, ◌≤◌, ◌≡◌, ◌⊎◌, false, ◌&&◌, ◌==◌, ltb, leb, arith, if◌then◌else◌,
}
use bikeshed.Machine.{word}
use bikeshed.MemoryMap.{
  MMapEntry, kernel_start, kernel_end, type_usable, type_reserved, below_kernel, above_kernel,
}

abbrev pub IsUsable : MMapEntry → Type 0
IsUsable e = e.kind ≡ type_usable

-- The end of a region does not wrap.
abbrev pub Fits : MMapEntry → Type 0
Fits e = e.base + e.length < word

abbrev pub limit : MMapEntry → ℕ
limit e = e.base + e.length

-- Case 4 never runs: case 1 takes every region that begins below the kernel and passes its start.
unfoldable pub clip : MMapEntry → MMapEntry
clip e =
    let max_addr = (e.base + e.length) % word in
    if e.kind == type_usable
    then (if ltb e.base kernel_start && ltb kernel_start max_addr
        then below_kernel e
        else if ltb e.base kernel_end && ltb kernel_end max_addr
        then above_kernel e max_addr
        else if leb kernel_start e.base && leb max_addr kernel_end
        then record e { kind = type_reserved }
        else e)
    else e

-- A usable region that is left does not overlap the kernel.
pub clip_outside :
    (e : MMapEntry)
    → Fits e
    → IsUsable (clip e)
    → (limit (clip e) ≤ kernel_start) ⊎ (kernel_end ≤ (clip e).base)
unfolding clip
clip_outside e h u = ground arith

-- The region that is left lies within the one of the BIOS, and nothing becomes usable.
pub clip_within :
    (e : MMapEntry)
    → Fits e
    → (e.base ≤ (clip e).base) × (limit (clip e) ≤ limit e) × (IsUsable (clip e) → IsUsable e)
unfolding clip
clip_within e h = ground arith

-- The part of a usable region below the kernel stays usable; the part above stays if the
-- region does not begin below the kernel.
pub clip_keeps :
    (e : MMapEntry) (a : ℕ)
    → Fits e
    → IsUsable e
    → e.base ≤ a
    → a < limit e
    → (a < kernel_start) ⊎ (kernel_start ≤ e.base) × (kernel_end ≤ a)
    → IsUsable (clip e) × ((clip e).base ≤ a) × (a < limit (clip e))
unfolding clip
clip_keeps e a h u lo hi out = ground arith

-- A usable region that spans the kernel loses its part above the kernel.
pub clip_spanning :
    (e : MMapEntry)
    → Fits e
    → IsUsable e
    → e.base < kernel_start
    → kernel_end < limit e
    → limit (clip e) ≡ kernel_start
unfolding clip
clip_spanning e h u lo hi = ground arith

pub clip_reserved : (e : MMapEntry) → (e.kind == type_usable) ≡ false → clip e ≡ e
unfolding clip
clip_reserved e u = rw u
