-- ===== src/WaterMark/Tests.antt =====
-- The theorem on the water mark allocator at a block of 100 bytes on a page that is mapped.
use bikeshed.Prelude.{◌^◌, ◌≡◌, refl, arith}
use bikeshed.Machine.{ok}
use bikeshed.Stack.{stack}
use bikeshed.PhysAlloc.{Phys}
use bikeshed.WaterMark.{
  WaterMark, align, adjusted, map_down, map_lower, lower_mark, water_mark_alloc_align,
}
use bikeshed.WaterMark.Blocks.{IsValid, IsBlock, water_mark_alloc_align-IsBlock}

abbrev before : WaterMark
before = record {
  page_address = 0x200000;
  current_address = 0x3ff000;
  current_size = 0x1000;
  max_size = 0x200000;
}

abbrev after : WaterMark
after = record {
  page_address = 0x200000;
  current_address = 0x3fef9c;
  current_size = 0x1064;
  max_size = 0x200000;
}

abbrev no_memory : Phys
no_memory = record { stack_2mib = stack 0 0; pool_4kib = 0; mem = λ a. 0 }

before-IsValid : IsValid 0x400000 before
before-IsValid = record {
  location_bound = omega arith;
  fits = omega arith;
  taken = refl;
  limit = omega arith;
  mapped = omega arith;
  whole = refl;
}

allocated :
    water_mark_alloc_align 0 (2 ^ 4) 100 before no_memory ≡ ok ((0x3fef9c, after), no_memory)
unfolding water_mark_alloc_align lower_mark map_lower map_down adjusted align
allocated = refl

water_mark_alloc_align-IsBlock_example :
    IsBlock 0 0x400000 4 100 before after 0x3fef9c no_memory no_memory
water_mark_alloc_align-IsBlock_example =
    water_mark_alloc_align-IsBlock 0 0x400000 4 100 before after 0x3fef9c no_memory no_memory
      before-IsValid (omega arith) (omega arith) allocated
