-- ===== src/WaterMark.antt =====
-- kernel/src/kernel/data_structures/watermark.c and alloc.c: the allocator of memory that is never
-- freed. It grows down and maps large pages as it goes. `kernel_table` is the kernel's PML4.
pub mod Blocks
mod Tests
use bikeshed.Prelude.{
  ℕ, zero, suc, ◌+◌, ◌-◌, ◌*◌, ◌/◌, ◌%◌, bit_and, Bool, not, ◌&&◌, ◌==◌, ltb, if◌then◌else◌,
}
use bikeshed.Machine.{word, Result, ok, panic, assert, ◌>>=◌, ◌>>◌}
use bikeshed.Addresses.{mib2}
use bikeshed.PhysAlloc.{Phys}
use bikeshed.Paging.{page_large, virt_map_page}

pub record WaterMark : Type 0 where
  pub page_address : ℕ
  pub current_address : ℕ
  pub current_size : ℕ
  pub max_size : ℕ

abbrev pub pg_flag_rw : ℕ
pg_flag_rw = 2

unfoldable pub water_mark_init : (location max_size : ℕ) → WaterMark
water_mark_init location max_size = record {
  page_address = location;
  current_address = location;
  current_size = 0;
  max_size = max_size;
}

-- The allocator that `alloc_init` makes for the kernel.
abbrev pub kernel_water_mark : WaterMark
kernel_water_mark = water_mark_init 0xffffffffffe00000 0x400000

-- ALIGN of inttypes.h, for 64 bits.
unfoldable pub align : ℕ → ℕ → ℕ
align addr p2 = bit_and ((addr + p2 + word - 1) % word) (word - p2)

abbrev pub after_page : (Phys → Result (ℕ × Phys)) → (ℕ × ℕ) × Phys → Result (ℕ × Phys)
after_page again ((mapped, addr), p) = if mapped == 0 then panic else again p

-- The loop that maps pages down to the current address; the result has the new page address.
unfoldable pub map_down : ℕ → (kernel_table current page : ℕ) → Phys → Result (ℕ × Phys)
map_down zero kernel_table current page p = ok (page, p)
map_down (suc fuel) kernel_table current page p =
    let location = (page + word - mib2) % word in
    if ltb current page
    then (virt_map_page kernel_table location pg_flag_rw page_large p
        >>= after_page (λ p'. map_down fuel kernel_table current location p'))
    else ok (page, p)

-- The rounds that the loop can take.
abbrev pub pages_above : ℕ → ℕ → ℕ
pages_above current page = (page - current + (mib2 - 1)) / mib2

-- The new current address and size, and the pages below.
unfoldable pub map_lower :
    (kernel_table current total : ℕ) → WaterMark → Phys → Result ((ℕ × WaterMark) × Phys)
map_lower kernel_table current total wma p =
    map_down (pages_above current wma.page_address) kernel_table current wma.page_address p >>= λ r.
    ok (
      (current, record wma { current_address = current; current_size = total; page_address = r.0 }),
      r.1,
    )

unfoldable pub lower_mark :
    (kernel_table adjusted_size : ℕ) → WaterMark → Phys → Result ((ℕ × WaterMark) × Phys)
lower_mark kernel_table adjusted_size wma p =
    let current = (wma.current_address + word - adjusted_size) % word in
    let total = (wma.current_size + adjusted_size) % word in
    assert (not (ltb wma.max_size total)) >> map_lower kernel_table current total wma p

unfoldable pub adjusted : (alignment size : ℕ) → WaterMark → ℕ
adjusted alignment size wma =
    ((align wma.current_address alignment + word - wma.current_address) % word + size) % word

unfoldable pub water_mark_alloc_align :
    (kernel_table alignment size : ℕ) → WaterMark → Phys → Result ((ℕ × WaterMark) × Phys)
water_mark_alloc_align kernel_table alignment size wma p =
    assert (not (alignment == 0) && bit_and alignment (alignment - 1) == 0)
    >> lower_mark kernel_table (adjusted alignment size wma) wma p

unfoldable pub water_mark_alloc :
    (kernel_table size : ℕ) → WaterMark → Phys → Result ((ℕ × WaterMark) × Phys)
water_mark_alloc kernel_table size wma p = water_mark_alloc_align kernel_table 1 size wma p
