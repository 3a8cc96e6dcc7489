-- ===== src/DirectMap/Entries.antt =====
-- kernel/src/arch/x86_64/virt_memory/physical.c: what create_paging_structures writes.
use bikeshed.Prelude.Bits.{bit_or_parts}
use bikeshed.Prelude.{
  bit_or, ℕ, zero, suc, ◌+◌, ◌-◌, ◌*◌, ◌/◌, ◌%◌, ◌^◌, ◌<◌, ◌≤◌, ◌≡◌, refl, sym, ap, ◌∙◌, ◌⊎◌, inl,
  inr, true, false, ◌||◌, ◌==◌, ==_iff, ◌↔◌, arith, Bool-cases,
}
use mathlib.Core.Path.{subst}
use bikeshed.Machine.{Mem, word}
use bikeshed.Addresses.{kib4, mib2}
use bikeshed.DirectMap.{
  gib, mib512, PageStructInfo, Build, table_entry, large_page, add_directory, directories,
  pdp_tables, create_paging_structures, count_pds,
}
use bikeshed.DirectMap.Directory.{
  Apart, add_directory-frame, add_directory-entry, add_directory-large_page,
}

-- The block that the directories take, and the entries that point to them.
record Room (n i table : ℕ) (b : Build) : Type 0 where
  blocks : b.alloc_ptr + kib4 * b.pds_left < word
  pages : b.phys_address + gib * b.pds_left < word
  apart : (table + 8 * (i + n) ≤ b.alloc_ptr) ⊎ (b.alloc_ptr + kib4 * b.pds_left ≤ table + 8 * i)

add_directory-Room :
    (n i table : ℕ) (b : Build)
    → 0 < b.pds_left
    → Room (suc n) i table b
    → Room n (suc i) table (add_directory (table + 8 * i) b)
unfolding add_directory
add_directory-Room n i table b h r = record {
  blocks = omega (arith, r.blocks);
  pages = omega (arith, r.pages);
  apart = ground (arith, r.blocks, r.apart);
}

directories-frame :
    (n i table : ℕ) (b : Build) (a : ℕ)
    → Room n i table b
    → Apart a b.alloc_ptr (kib4 * b.pds_left)
    → Apart a (table + 8 * i) (8 * n)
    → (directories n i table b).mem a ≡ b.mem a
unfolding directories add_directory
directories-frame zero i table b a r out off = refl
directories-frame (suc n) i table b a r out off =
    let at = table + 8 * i in
    elim (Bool-cases (b.pds_left == 0)) [
      | inl e ↦ rw e refl
      | inr e ↦ rw e (
          directories-frame n (suc i) table (add_directory at b) a
            (add_directory-Room n i table b (ground arith) r)
            (rest_out b.alloc_ptr b.pds_left (ground arith) r.blocks out) (ground arith)
          ∙ add_directory-frame at b a (ground arith) (ground arith))
    ]
  where
    rest_out :
        (p d : ℕ)
        → 0 < d
        → p + kib4 * d < word
        → Apart a p (kib4 * d)
        → Apart a ((p + kib4) % word) (kib4 * (d - 1))
    rest_out p d h w o = ground arith

-- A directory is linked, and its entries are those of the GiB from `phys` on.
HasDirectory : (entry pd phys : ℕ) → Mem → Type 0
HasDirectory entry pd phys m =
    (m entry ≡ table_entry pd) × ((j : ℕ) → j < 512 → m (pd + 8 * j) ≡ large_page (phys + mib2 * j))

HasDirectory-same :
    (at at' pd pd' phys phys' : ℕ) (m : Mem)
    → at ≡ at'
    → pd ≡ pd'
    → phys ≡ phys'
    → HasDirectory at pd phys m
    → HasDirectory at' pd' phys' m
HasDirectory-same at at' pd pd' phys phys' m e e' e'' h = rw⁻¹ (e, e', e'') h

-- The directory that a round adds is still there at the end.
first-HasDirectory :
    (n i table : ℕ) (b : Build)
    → Room (suc n) i table b
    → 0 < b.pds_left
    → HasDirectory
        (table + 8 * i)
        b.alloc_ptr
        b.phys_address
        (directories n (suc i) table (add_directory (table + 8 * i) b)).mem
unfolding HasDirectory add_directory
first-HasDirectory n i table b r d =
    let at = table + 8 * i in
    let later = directories-frame n (suc i) table (add_directory at b) in
    let r' = add_directory-Room n i table b d r in
    (
      later at r' (ground (arith, r.blocks, r.apart)) (inl (omega arith))
          ∙ add_directory-entry at b (ground (arith, r.apart)),
      λ j h.
          later (b.alloc_ptr + 8 * j) r' (inl (omega (arith, r.blocks))) (ground (arith, r.apart))
          ∙ add_directory-large_page at b j h (omega (arith, r.pages)),
    )

directories-HasDirectory :
    (n i table : ℕ) (b : Build) (k : ℕ)
    → Room n i table b
    → k < n
    → k < b.pds_left
    → HasDirectory
        (table + 8 * (i + k))
        (b.alloc_ptr + kib4 * k)
        (b.phys_address + gib * k)
        (directories n i table b).mem
unfolding directories add_directory
directories-HasDirectory zero i table b k r h d = absurd (omega arith)
directories-HasDirectory (suc n) i table b zero r h d =
    let e : (b.pds_left == 0) ≡ false = ground arith in
    rw e (
      HasDirectory-same _ _ _ _ _ _ _ (omega arith) (omega arith) (omega arith)
        (first-HasDirectory n i table b r d))
directories-HasDirectory (suc n) i table b (suc k) r h d =
    let e : (b.pds_left == 0) ≡ false = ground arith in
    rw e (
      HasDirectory-same _ _ _ _ _ _ _ (omega arith) (omega (arith, r.blocks))
        (omega (arith, r.pages))
        (directories-HasDirectory n (suc i) table (add_directory (table + 8 * i) b) k
          (add_directory-Room n i table b (omega arith) r) (omega arith) (omega arith)))

directories-pds_left :
    (n i table : ℕ) (b : Build) → b.pds_left ≤ n → (directories n i table b).pds_left ≡ 0
unfolding directories add_directory
directories-pds_left zero i table b h = omega arith
directories-pds_left (suc n) i table b h = elim (Bool-cases (b.pds_left == 0)) [
  | inl e ↦ rw e (omega (arith, (==_iff b.pds_left 0).0 e))
  | inr e ↦
      rw e (directories-pds_left n (suc i) table (add_directory (table + 8 * i) b) (omega arith))
]

pdp_tables-none : (n i pml4 : ℕ) (b : Build) → b.pds_left ≡ 0 → pdp_tables n i pml4 b ≡ b
unfolding pdp_tables
pdp_tables-none zero i pml4 b h = refl
pdp_tables-none (suc n) i pml4 b h = rw (stops) refl
  where
    stops : (b.pdpts_left == 0 || b.pds_left == 0) ≡ true
    stops = ground arith

-- The directory at `pd` is linked at `entry`, present and writable (3), and its 512 entries are the
-- large pages of the GiB from `phys` on, one behind the other: present, writable and of 2 MiB (0x83).
pub MapsGib : (entry pd phys : ℕ) → Mem → Type 0
MapsGib entry pd phys m =
    (m entry ≡ pd + 3) × ((j : ℕ) → j < 512 → m (pd + 8 * j) ≡ phys + 0x200000 * j + 0x83)

table_entry-sum : (pd : ℕ) → pd % 4096 ≡ 0 → table_entry pd ≡ pd + 3
table_entry-sum pd h =
    let q = pd / 4 in
    let whole : pd ≡ q * 2 ^ 2 + 0 = omega arith in
    let first : bit_or pd 2 ≡ q * 2 ^ 2 + 2 =
      ap (λ (t : ℕ). bit_or t 2) whole ∙ bit_or_parts 2 q 0 2 (omega arith) (omega arith) in
    ap (λ (t : ℕ). bit_or t 1) first
    ∙ bit_or_parts 2 q 2 1 (omega arith) (omega arith)
    ∙ omega arith

large_page-sum : (phys : ℕ) → phys % 256 ≡ 0 → large_page phys ≡ phys + 0x83
large_page-sum phys h =
    let q = phys / 256 in
    let whole : phys ≡ q * 2 ^ 8 + 0 = omega arith in
    let first : bit_or phys 0x80 ≡ q * 2 ^ 8 + 0x80 =
      ap (λ (t : ℕ). bit_or t 0x80) whole ∙ bit_or_parts 8 q 0 0x80 (omega arith) (omega arith) in
    let second : bit_or (bit_or phys 0x80) 2 ≡ q * 2 ^ 8 + 0x82 =
      ap (λ (t : ℕ). bit_or t 2) first ∙ bit_or_parts 8 q 0x80 2 (omega arith) (omega arith) in
    ap (λ (t : ℕ). bit_or t 1) second
    ∙ bit_or_parts 8 q 0x82 1 (omega arith) (omega arith)
    ∙ omega arith

HasDirectory-MapsGib :
    (entry pd phys : ℕ) (m : Mem)
    → pd % 4096 ≡ 0
    → phys % 256 ≡ 0
    → HasDirectory entry pd phys m
    → MapsGib entry pd phys m
unfolding HasDirectory MapsGib
HasDirectory-MapsGib entry pd phys m h k (linked, pages) = (
  linked ∙ table_entry-sum pd h,
  λ j below. pages j below ∙ large_page-sum (phys + mib2 * j) (omega arith),
)

-- With at most 511 directories, from a page's start on, in a region that is apart from the boot
-- code's PDP table and does not reach the end of the address space, `create_paging_structures` links
-- the `k`-th directory, present and writable, at the `k + 1`-st entry of that table. That directory
-- has the 512 pages of 2 MiB from (k + 1) GiB on, one behind the other, each present, writable and
-- large. Nothing is written outside the directories and the 511 entries.
pub create_paging_structures-maps :
    (pdpte pml4 : ℕ) (psi : PageStructInfo) (m : Mem)
    → psi.num_pds ≤ 511
    → psi.base % 4096 ≡ 0
    → psi.base + kib4 * psi.num_pds < word
    → (pdpte + kib4 ≤ psi.base) ⊎ (psi.base + kib4 * psi.num_pds ≤ pdpte)
    → ((k : ℕ)
        → k < psi.num_pds
        → MapsGib
            (pdpte + 8 * (1 + k))
            (psi.base + kib4 * k)
            (gib + gib * k)
            (create_paging_structures pdpte pml4 psi m))
      × ((a : ℕ)
          → Apart a psi.base (kib4 * psi.num_pds)
          → Apart a (pdpte + 8) 4088
          → create_paging_structures pdpte pml4 psi m a ≡ m a)
unfolding create_paging_structures
create_paging_structures-maps pdpte pml4 psi m few page fits apart =
    let b : Build = record {
      mem = m;
      alloc_ptr = psi.base;
      phys_address = gib;
      pds_left = psi.num_pds;
      pdpts_left = psi.num_pdpts;
    } in
    let r : Room 511 1 pdpte b = record {
      blocks = fits;
      pages = omega arith;
      apart = ground arith;
    } in
    let done =
      pdp_tables-none 511 1 pml4 (directories 511 1 pdpte b)
        (directories-pds_left 511 1 pdpte b few) in
    (
      λ k h.
          HasDirectory-MapsGib (pdpte + 8 * (1 + k)) (psi.base + kib4 * k) (gib + gib * k) _
            (omega (arith, page)) (omega arith)
            (subst
              (λ (x : Build).
                HasDirectory (pdpte + 8 * (1 + k)) (psi.base + kib4 * k) (gib + gib * k) x.mem)
              (sym done) (directories-HasDirectory 511 1 pdpte b k r (omega arith) h)),
      λ a out off. ap (λ (x : Build). x.mem a) done ∙ directories-frame 511 1 pdpte b a r out off,
    )

-- For an address that 512 MiB can be added to, the directories that `phys_memory_init` makes map
-- less than all memory below the highest address exactly if this is past the first GiB and less
-- than 512 MiB above a multiple of 1 GiB.
count_pds-short :
    (h : ℕ)
    → h + mib512 < word
    → (gib + gib * count_pds h < h) ↔ ((gib ≤ h) × (0 < h % gib) × (h % gib < mib512))
unfolding count_pds
count_pds-short h w = (λ l. (ground arith, ground arith, ground arith), λ t. ground arith)
