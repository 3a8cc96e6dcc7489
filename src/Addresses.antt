-- ===== src/Addresses.antt =====
-- The address macros of kernel/src/arch/x86_64/virt_memory: defines.h (KERNEL_BASE), physical.h
-- (PHYS_TO_VIRT, VIRT_TO_PHYS) and paging.h (ALIGN_2MIB, ALIGN_4KIB, MASK_2MIB, MASK_4KIB).
use bikeshed.Prelude.{ℕ, ◌+◌, ◌-◌, ◌*◌, ◌/◌, ◌%◌, ◌<◌, ◌≡◌, ◌∙◌, bit_and, ltb, arith, if◌then◌else◌}
use bikeshed.Prelude.Bits.{bit_and_field, bit_and_low}
use bikeshed.Machine.{word}

abbrev pub kernel_base : ℕ
kernel_base = 0xffff800000000000

abbrev pub kib4 : ℕ
kib4 = 4096

abbrev pub mib2 : ℕ
mib2 = 2097152

unfoldable pub phys_to_virt : ℕ → ℕ
phys_to_virt x = (x + kernel_base) % word

unfoldable pub virt_to_phys : ℕ → ℕ
virt_to_phys x = (x + word - kernel_base) % word

unfoldable pub mask_2mib : ℕ → ℕ
mask_2mib x = bit_and x 0xffffffffffe00000

unfoldable pub mask_4kib : ℕ → ℕ
mask_4kib x = bit_and x 0xfffffffffffff000

unfoldable pub align_2mib : ℕ → ℕ
align_2mib x =
    (bit_and x 0xffffffffffe00000 + (if ltb 0 (bit_and x 0x1fffff) then 1 else 0) * mib2) % word

unfoldable pub align_4kib : ℕ → ℕ
align_4kib x =
    (bit_and x 0xfffffffffffff000 + (if ltb 0 (bit_and x 0xfff) then 1 else 0) * kib4) % word

-- A physical address below 2 ^ 47 survives the way to the kernel's half and back.
pub virt_to_phys-phys_to_virt : (x : ℕ) → x < 0x800000000000 → virt_to_phys (phys_to_virt x) ≡ x
unfolding phys_to_virt virt_to_phys
virt_to_phys-phys_to_virt x h = omega arith

pub phys_to_virt_lem : (x : ℕ) → x < 0x800000000000 → phys_to_virt x ≡ x + kernel_base
unfolding phys_to_virt
phys_to_virt_lem x h = omega arith

-- The masks round down.
pub mask_2mib_lem : (x : ℕ) → x < word → mask_2mib x ≡ x / mib2 * mib2
unfolding mask_2mib
mask_2mib_lem x h = bit_and_field 43 21 x ∙ omega arith

pub mask_4kib_lem : (x : ℕ) → x < word → mask_4kib x ≡ x / kib4 * kib4
unfolding mask_4kib
mask_4kib_lem x h = bit_and_field 52 12 x ∙ omega arith

-- The alignments round up, for addresses a page below the end of the address space.
pub align_2mib_lem : (x : ℕ) → x + mib2 < word → align_2mib x ≡ (x + (mib2 - 1)) / mib2 * mib2
unfolding align_2mib
align_2mib_lem x h = ground (arith, bit_and_field 43 21 x, bit_and_low 21 x)

pub align_4kib_lem : (x : ℕ) → x + kib4 < word → align_4kib x ≡ (x + (kib4 - 1)) / kib4 * kib4
unfolding align_4kib
align_4kib_lem x h = ground (arith, bit_and_field 52 12 x, bit_and_low 12 x)
