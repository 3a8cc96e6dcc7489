-- ===== src/Pci/Address.antt =====
-- kernel/src/arch/x86_64/pci/pci.c: the address word of a register.
use bikeshed.Prelude.{
  ℕ, ◌+◌, ◌*◌, ◌/◌, ◌%◌, ◌^◌, ◌<◌, ◌≡◌, refl, sym, ap, ◌∙◌, bit_and, bit_or, arith,
}
use Prim.Native.Nat.{bit_or-bitwise}
use native.Mathlib.Nat.{add-zero}
use bikeshed.Prelude.Bits.{bit_and_field, bit_or_parts}
use bikeshed.Pci.{Place, config_address}

-- The numbers of a function fit their fields.
pub record IsPlace (at : Place) : Type 0 where
  pub bus : at.bus < 256
  pub slot : at.slot < 32
  pub function : at.function < 8

bit_or-zero_left : (s : ℕ) → bit_or 0 s ≡ s
bit_or-zero_left s = omega (arith, bit_or-bitwise 0 s)

bit_or_add : (k q s : ℕ) → s < 2 ^ k → bit_or (q * 2 ^ k) s ≡ q * 2 ^ k + s
bit_or_add k q s h =
    ap (λ (t : ℕ). bit_or t s) (sym (add-zero (q * 2 ^ k)))
    ∙ bit_or_parts k q 0 s (omega arith) h
    ∙ ap (λ (t : ℕ). q * 2 ^ k + t) (bit_or-zero_left s)

-- One more field of the word.
add_field :
    (k q s old word : ℕ) → old ≡ q * 2 ^ k → s < 2 ^ k → q * 2 ^ k + s ≡ word → bit_or old s ≡ word
add_field k q s old word e h w = ap (λ (t : ℕ). bit_or t s) e ∙ bit_or_add k q s h ∙ w

config_address-sum :
    (at : Place) (offset : ℕ)
    → IsPlace at
    → offset < 256
    → config_address at offset
      ≡ 2 ^ 31 + at.bus * 2 ^ 16 + at.slot * 2 ^ 11 + at.function * 2 ^ 8 + offset / 4 * 4
unfolding config_address
config_address-sum at offset v h =
    let bus = at.bus in
    let slot = at.slot in
    let function = at.function in
    let low = bit_and_field 6 2 offset in
    let with_bus =
      add_field 31 1 (bus * 2 ^ 16) 0x80000000 (2 ^ 31 + bus * 2 ^ 16) refl (omega (arith, v.bus))
        (omega arith) in
    let with_slot =
      add_field 16 (2 ^ 15 + bus) (slot * 2 ^ 11) (bit_or 0x80000000 (bus * 2 ^ 16))
        (2 ^ 31 + bus * 2 ^ 16 + slot * 2 ^ 11) (omega (arith, with_bus)) (omega (arith, v.slot))
        (omega arith) in
    let with_function =
      add_field 11 (2 ^ 20 + bus * 32 + slot) (function * 2 ^ 8)
        (bit_or (bit_or 0x80000000 (bus * 2 ^ 16)) (slot * 2 ^ 11))
        (2 ^ 31 + bus * 2 ^ 16 + slot * 2 ^ 11 + function * 2 ^ 8) (omega (arith, with_slot))
        (omega (arith, v.function)) (omega arith) in
    add_field 8 (2 ^ 23 + bus * 256 + slot * 8 + function) (bit_and offset 0xfc)
      (bit_or (bit_or (bit_or 0x80000000 (bus * 2 ^ 16)) (slot * 2 ^ 11)) (function * 2 ^ 8))
      (2 ^ 31 + bus * 2 ^ 16 + slot * 2 ^ 11 + function * 2 ^ 8 + offset / 4 * 4)
      (omega (arith, with_function)) (omega (arith, low)) (omega (arith, low))

-- The word for a register of a bus, slot and function in range has the enable bit, and each number
-- can be read back from its field; the offset is rounded down to a register of four bytes.
config_address-fields :
    (at : Place) (offset : ℕ)
    → IsPlace at
    → offset < 256
    → let word = config_address at offset in
      (word / 2 ^ 31 ≡ 1)
      × (word / 2 ^ 16 % 2 ^ 8 ≡ at.bus)
      × (word / 2 ^ 11 % 2 ^ 5 ≡ at.slot)
      × (word / 2 ^ 8 % 2 ^ 3 ≡ at.function)
      × (word % 2 ^ 8 ≡ offset / 4 * 4)
config_address-fields at offset v h = rw (config_address-sum at offset v h) (
  omega (arith, v.bus, v.slot, v.function),
  omega (arith, v.bus, v.slot, v.function),
  omega (arith, v.bus, v.slot, v.function),
  omega (arith, v.bus, v.slot, v.function),
  omega (arith, v.bus, v.slot, v.function),
)
