-- ===== src/Paging/Shared.antt =====
-- kernel/src/arch/x86_64/virt_memory/paging.c: virt_clone_mapping shares the kernel's half.
use bikeshed.Prelude.{ℕ, zero, suc, ◌+◌, ◌<◌, ◌≤◌, ◌≡◌, ◌⊎◌, refl, sym, ap, ◌∙◌, arith, inl}
use mathlib.Core.Path.{subst}
use bikeshed.Machine.{Mem, store, Result, ok, panic, ◌>>=◌, bind-ok}
use bikeshed.Addresses.{phys_to_virt, virt_to_phys}
use bikeshed.PhysAlloc.{Phys, phys_alloc_4kib_safe}
use bikeshed.Paging.{slot}
use bikeshed.Paging.Clone.{share_entries, virt_clone_mapping}

share_entries-frame :
    (n new_table old i : ℕ) (m : Mem) (a : ℕ)
    → (a < slot new_table i) ⊎ (slot new_table (i + n) ≤ a)
    → share_entries n new_table old i m a ≡ m a
unfolding share_entries
share_entries-frame zero new_table old i m a h = refl
share_entries-frame (suc n) new_table old i m a h =
    share_entries-frame n new_table old (suc i) (store m (slot new_table i) (m (slot old i))) a
      (ground arith)
    ∙ ground arith

share_entries-same :
    (n new_table old i j : ℕ) (m : Mem)
    → (new_table + 4096 ≤ old) ⊎ (old + 4096 ≤ new_table)
    → i + n ≤ 512
    → j < n
    → share_entries n new_table old i m (slot new_table (i + j)) ≡ m (slot old (i + j))
unfolding share_entries
share_entries-same zero new_table old i j m apart top h = absurd (omega arith)
share_entries-same (suc n) new_table old i zero m apart top h =
    share_entries-frame n new_table old (suc i) (store m (slot new_table i) (m (slot old i)))
      (slot new_table (i + 0)) (inl (omega arith))
    ∙ ground arith
share_entries-same (suc n) new_table old i (suc j) m apart top h =
    let m' = store m (slot new_table i) (m (slot old i)) in
    let e : i + suc j ≡ suc i + j = omega arith in
    ap (λ (x : ℕ). share_entries n new_table old (suc i) m' (slot new_table x)) e
    ∙ share_entries-same n new_table old (suc i) j m' apart (omega arith) (omega arith)
    ∙ ground arith

table_address : (x : ℕ) → phys_to_virt (virt_to_phys (phys_to_virt x)) ≡ phys_to_virt x
unfolding phys_to_virt virt_to_phys
table_address x = omega arith

result_state :
    {a b : ℕ} {p q : Phys} (r : Result (ℕ × Phys)) → r ≡ ok (a, p) → r ≡ ok (b, q) → p ≡ q
result_state r e e' = cc

-- The shared half, and the result.
abbrev share_half : ℕ → ℕ → Phys → Result (ℕ × Phys)
share_half page other p3 = ok (
  virt_to_phys (phys_to_virt page),
  record p3 { mem = share_entries 256 (phys_to_virt page) (phys_to_virt other) 256 p3.mem },
)

-- The last step of the clone, on any result of the steps before.
share-upper_half :
    (page other table : ℕ) (r : Result Phys) (q : Phys) (i : ℕ)
    → (r >>= share_half page other) ≡ ok (table, q)
    → (phys_to_virt table + 4096 ≤ phys_to_virt other)
      ⊎ (phys_to_virt other + 4096 ≤ phys_to_virt table)
    → i < 256
    → q.mem (slot (phys_to_virt table) (256 + i)) ≡ q.mem (slot (phys_to_virt other) (256 + i))
share-upper_half page other table panic q i e apart h = absurd (cc)
share-upper_half page other table (ok p3) q i e apart h =
    let old = phys_to_virt other in
    let m = share_entries 256 (phys_to_virt page) old 256 p3.mem in
    let here : phys_to_virt table ≡ phys_to_virt page =
      let t : table ≡ virt_to_phys (phys_to_virt page) = ground (arith) in
      ap (λ (x : ℕ). phys_to_virt x) t ∙ table_address page in
    let mem : q.mem ≡ m =
      ap (λ (x : Phys). x.mem)
        (sym
          (result_state (ok (virt_to_phys (phys_to_virt page), record p3 { mem = m })) refl e)) in
    let apart' = subst (λ (x : ℕ). (x + 4096 ≤ old) ⊎ (old + 4096 ≤ x)) here apart in
    let frame =
      share_entries-frame 256 (phys_to_virt page) old 256 p3.mem (slot old (256 + i))
        (ground arith) in
    rw (here, mem)
      (share_entries-same 256 (phys_to_virt page) old 256 i p3.mem apart' (omega arith) h
        ∙ sym frame)

-- When `virt_clone_mapping` returns a table that does not overlap the old one, the entries of
-- the upper half, the kernel's, are the same in both.
pub virt_clone_mapping-upper_half :
    (other table : ℕ) (p q : Phys) (i : ℕ)
    → virt_clone_mapping other p ≡ ok (table, q)
    → (phys_to_virt table + 4096 ≤ phys_to_virt other)
      ⊎ (phys_to_virt other + 4096 ≤ phys_to_virt table)
    → i < 256
    → q.mem (slot (phys_to_virt table) (256 + i)) ≡ q.mem (slot (phys_to_virt other) (256 + i))
unfolding virt_clone_mapping
virt_clone_mapping-upper_half other table p q i e apart h =
    let ((page, p1), e1, r1) = bind-ok (phys_alloc_4kib_safe p) _ e in
    share-upper_half page other table _ q i r1 apart h
