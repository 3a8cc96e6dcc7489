-- ===== src/DirectMap/Directory.antt =====
-- kernel/src/arch/x86_64/virt_memory/physical.c: what one more page directory writes.
use bikeshed.Prelude.{
  ℕ, zero, suc, ◌+◌, ◌*◌, ◌%◌, ◌<◌, ◌≤◌, ◌≡◌, ◌≢◌, refl, ap, ◌∙◌, ◌⊎◌, inl, arith,
}
use bikeshed.Machine.{Mem, store, word}
use bikeshed.Addresses.{kib4, mib2}
use bikeshed.Klib.{memclr-zero}
use bikeshed.DirectMap.{gib, Build, table_entry, large_page, fill_directory, add_directory}

fill_directory-frame :
    (n j pd phys : ℕ) (m : Mem) (a : ℕ)
    → (a < pd + 8 * j) ⊎ (pd + 8 * (j + n) ≤ a)
    → fill_directory n j pd phys m a ≡ m a
unfolding fill_directory
fill_directory-frame zero j pd phys m a h = refl
fill_directory-frame (suc n) j pd phys m a h = ground (
  arith,
  fill_directory-frame n (suc j) pd ((phys + mib2) % word) (store m (pd + 8 * j) (large_page phys))
      a (ground arith),
)

fill_directory-large_page :
    (n j pd phys : ℕ) (m : Mem) (i : ℕ)
    → i < n
    → phys + mib2 * n < word
    → fill_directory n j pd phys m (pd + 8 * (j + i)) ≡ large_page (phys + mib2 * i)
unfolding fill_directory
fill_directory-large_page zero j pd phys m i h w = absurd (omega arith)
fill_directory-large_page (suc n) j pd phys m zero h w =
    let hit : pd + 8 * (j + 0) ≡ pd + 8 * j = omega arith in
    fill_directory-frame n (suc j) pd ((phys + mib2) % word) _ (pd + 8 * (j + 0))
      (inl (omega arith))
    ∙ rw hit (ground arith)
fill_directory-large_page (suc n) j pd phys m (suc i) h w =
    let at : pd + 8 * (j + suc i) ≡ pd + 8 * (suc j + i) = omega arith in
    let next : (phys + mib2) % word ≡ phys + mib2 = omega arith in
    let phys' : phys + mib2 + mib2 * i ≡ phys + mib2 * suc i = omega arith in
    rw (at, next)
      (fill_directory-large_page n (suc j) pd (phys + mib2) _ i (omega arith) (omega arith)
        ∙ ap large_page phys')

-- Outside a block.
abbrev pub Apart : ℕ → ℕ → ℕ → Type 0
Apart a start size = (a < start) ⊎ (start + size ≤ a)

pub add_directory-frame :
    (at : ℕ) (b : Build) (a : ℕ)
    → a ≢ at
    → Apart a b.alloc_ptr kib4
    → (add_directory at b).mem a ≡ b.mem a
unfolding add_directory
add_directory-frame at b a h out =
    fill_directory-frame 512 0 b.alloc_ptr b.phys_address _ a (ground arith)
    ∙ ground arith
    ∙ (memclr-zero b.alloc_ptr kib4 b.mem).1 a out

pub add_directory-entry :
    (at : ℕ) (b : Build)
    → Apart at b.alloc_ptr kib4
    → (add_directory at b).mem at ≡ table_entry b.alloc_ptr
unfolding add_directory
add_directory-entry at b out =
    fill_directory-frame 512 0 b.alloc_ptr b.phys_address _ at (ground arith) ∙ ground arith

pub add_directory-large_page :
    (at : ℕ) (b : Build) (j : ℕ)
    → j < 512
    → b.phys_address + gib < word
    → (add_directory at b).mem (b.alloc_ptr + 8 * j) ≡ large_page (b.phys_address + mib2 * j)
unfolding add_directory
add_directory-large_page at b j h w =
    let at0 : b.alloc_ptr + 8 * j ≡ b.alloc_ptr + 8 * (0 + j) = omega arith in
    rw at0 (fill_directory-large_page 512 0 b.alloc_ptr b.phys_address _ j h (omega arith))
