-- ===== src/Paging/Entries.antt =====
-- The entries that virt_map_phys writes, read back with the macros of paging.c.
use bikeshed.Prelude.{ℕ, ◌+◌, ◌*◌, ◌/◌, ◌%◌, ◌^◌, ◌<◌, ◌≡◌, ◌∙◌, ap, true, bit_and, bit_or, arith}
use bikeshed.Prelude.Bits.{
  bit_or-zero, bit_and_field, bit_and_low, bit_and_parts, bit_or_both, bit_or_odd, bit_or_odd_right,
  bit_or-lt, bit_and-le,
}
use bikeshed.Paging.{pg_safe_flags, entry_to_addr, is_present}

-- The flags that are let through: the lowest five bits and the highest.
safe_flags_parts :
    (flags : ℕ) → (u : ℕ) × (l : ℕ) × (bit_and flags pg_safe_flags ≡ u * 2 ^ 63 + l) × (l < 32)
safe_flags_parts flags = (
  bit_and (flags / 2 ^ 63) 1,
  bit_and (flags % 2 ^ 63) 30,
  (let whole : flags ≡ flags / 2 ^ 63 * 2 ^ 63 + flags % 2 ^ 63 = omega arith in
      ap (λ (f : ℕ). bit_and f pg_safe_flags) whole
      ∙ bit_and_parts 63 (flags / 2 ^ 63) (flags % 2 ^ 63) 1 30 (omega arith) (omega arith)),
  omega (arith, bit_and-le 30 (flags % 2 ^ 63) 30),
)

page_entry_parts :
    (x u l : ℕ)
    → l < 32
    → bit_or (bit_or (x * 4096) 1) (u * 2 ^ 63 + l) ≡ bit_or x (u * 2 ^ 51) * 4096 + bit_or 1 l
page_entry_parts x u l h =
    let e : bit_or (x * 4096) 1 ≡ x * 4096 + 1 =
      let z : x * 4096 ≡ x * 2 ^ 12 + 0 = omega arith in
      ap (λ (t : ℕ). bit_or t 1) z
      ∙ bit_or_both 12 x 0 0 1 (omega arith) (omega arith)
      ∙ (omega (arith, bit_or-zero x)) in
    let e' : u * 2 ^ 63 + l ≡ u * 2 ^ 51 * 4096 + l = omega arith in
    rw (e, e') (bit_or_both 12 x 1 (u * 2 ^ 51) l (omega arith) (omega arith))

-- The address comes back from the entry, for a page below 2 ^ 63.
pub entry_to_addr-page_entry :
    (x flags : ℕ)
    → x < 2 ^ 51
    → entry_to_addr (bit_or (bit_or (x * 4096) 1) (bit_and flags pg_safe_flags)) ≡ x * 4096
entry_to_addr-page_entry x flags h =
    let (u, l, shape, small) = safe_flags_parts flags in
    let entry = page_entry_parts x u l small in
    let high : bit_or x (u * 2 ^ 51) % 2 ^ 51 ≡ x =
      let x_low : x ≡ 0 * 2 ^ 51 + x = omega arith in
      let u_high : u * 2 ^ 51 ≡ u * 2 ^ 51 + 0 = omega arith in
      let both : bit_or x (u * 2 ^ 51) ≡ bit_or 0 u * 2 ^ 51 + bit_or x 0 =
        ap (λ (t : ℕ). bit_or t (u * 2 ^ 51)) x_low
        ∙ ap (λ (t : ℕ). bit_or (0 * 2 ^ 51 + x) t) u_high
        ∙ bit_or_both 51 0 x u 0 h (omega arith) in
      omega (arith, both, bit_or-zero x) in
    rw (shape, entry)
      (bit_and_field 51 12 (bit_or x (u * 2 ^ 51) * 4096 + bit_or 1 l)
        ∙ omega (arith, high, bit_or-lt 12 1 l))

pub page_entry-is_present : (a b : ℕ) → is_present (bit_or (bit_or a 1) b) ≡ true
page_entry-is_present a b =
    ground (
      arith,
      bit_and_low 1 (bit_or (bit_or a 1) b),
      bit_or_odd (bit_or a 1) b,
      bit_or_odd_right a 1,
    )
