-- ===== src/Pci/Listed.antt =====
-- kernel/src/arch/x86_64/pci/pci.c: what pci_scan_devices leaves in the list of devices.
use bikeshed.Prelude.{
  ℕ, zero, suc, ◌/◌, ◌%◌, ◌^◌, ◌<◌, ◌≤◌, ◌≡◌, refl, sym, ap, ◌∙◌, Bool, not, ◌&&◌, ◌==◌,
  if◌then◌else◌, Bool-cases, inl, inr, Option, none, some, List, [], ◌∷◌, ◌++◌, map, arith,
}
use mathlib.Core.Path.{subst}
use bikeshed.Machine.{Result, ok, bind-ok, from_ok, assert}
use bikeshed.Pci.{Ports, Place, config_address, pci_config_read_word}
use bikeshed.Pci.Header.{Header, PciConfig}
use bikeshed.Pci.Config.{read_config}
use bikeshed.Pci.Scan.{
  Kernel, DeviceList, node_alloc, for_range, State, add_device, describe, consider, scan_function,
  scan_slot, scan_bus, pci_scan_devices, sizeof_pci_config,
}
use bikeshed.Pci.Space.{IsConfigSpace, read_word_lem}
use bikeshed.Pci.Kept.{word, read_config-keeps, read_config-Agrees}

-- A function of a device, with its two numbers.
abbrev pub Identity : Type 0
Identity = Place × ℕ × ℕ

abbrev pub id_of : PciConfig → Identity
id_of c = (c.place, c.vendor_id, c.device_id)

-- The numbers that stand in the configuration space: the vendor's is taken from function 0.
abbrev pub vendor_at : (ℕ → ℕ) → Place → ℕ
vendor_at registers at = registers (config_address (record at { function = 0 }) 0x0) % 2 ^ 16

abbrev pub device_at : (ℕ → ℕ) → Place → ℕ
device_at registers at = registers (config_address at 0x2) / 2 ^ 16 % 2 ^ 16

abbrev pub answers : (ℕ → ℕ) → Place → Bool
answers registers at =
    not (vendor_at registers at == 0xffff) && not (device_at registers at == 0xffff)

-- The functions among these places that answer, the last one first, before those of `ids`.
unfoldable pub listed : (ℕ → ℕ) → List Place → List Identity → List Identity
listed registers [] ids = ids
listed registers (at ∷ ats) ids = listed registers ats (
    if answers registers at
    then (at, vendor_at registers at, device_at registers at) ∷ ids
    else ids)

-- The places of `n` rounds from the `i`-th on.
unfoldable pub places_from : (ℕ → List Place) → (n i : ℕ) → List Place
places_from places zero i = []
places_from places (suc n) i = places i ++ places_from places n (suc i)

-- All functions of all devices of all buses.
unfoldable pub all_places : List Place
all_places =
    places_from
      (λ bus.
        places_from
          (λ slot.
            places_from (λ func. record { bus = bus; slot = slot; function = func } ∷ []) 8 0)
          32 0)
      256 0

listed-append :
    (registers : ℕ → ℕ) (xs ys : List Place) (ids : List Identity)
    → listed registers (xs ++ ys) ids ≡ listed registers ys (listed registers xs ids)
unfolding listed
listed-append registers [] ys ids = refl
listed-append registers (x ∷ xs) ys ids = listed-append registers xs ys _

module _ (ports : Ports) (registers : ports.Bus → ℕ → ℕ) (settle : (address old value : ℕ) → ℕ)
    (space : IsConfigSpace ports registers settle)
    (restores : (at : Place) (offset old : ℕ)
      → 0x10 ≤ offset
      → offset < 0x28
      → let a = config_address at offset in settle a (settle a old 0xffffffff) old ≡ old)
    (list : DeviceList)
    (entries-insert : (alloc : ℕ → Kernel → Result (ℕ × Kernel)) (c : PciConfig)
        (l l' : list.Devices) (k k' : Kernel)
      → list.insert_next alloc c l k ≡ ok (l', k')
      → list.entries l' ≡ c ∷ list.entries l)
    (cfg : ℕ → ℕ) where
  -- The registers are those of `cfg`, and the list has these functions.
  abbrev Scanned : State ports list → List Identity → Type 0
  Scanned s ids = ((x : ℕ) → registers s.io x ≡ cfg x) × (map id_of (list.entries s.devices) ≡ ids)

  -- A round that comes back lists its places.
  abbrev Lists : (State ports list → Result (State ports list)) → List Place → Type 0
  Lists step places =
      (s s' : State ports list) (ids : List Identity)
      → Scanned s ids
      → step s ≡ ok s'
      → Scanned s' (listed cfg places ids)

  add_device-inserts :
      (kernel_table : ℕ) (o : Option PciConfig) (s s' : State ports list)
      → add_device ports list kernel_table o s ≡ ok s'
      → (c : PciConfig) × (o ≡ some c)
        × (s'.io ≡ s.io)
        × (list.entries s'.devices ≡ c ∷ list.entries s.devices)
  unfolding add_device
  add_device-inserts kernel_table none s s' e = absurd (cc)
  add_device-inserts kernel_table (some c) s s' e =
      let ((l', k'), e1, e2) =
        bind-ok (list.insert_next (node_alloc kernel_table) c s.devices s.kernel) _ e in
      let grown = entries-insert (node_alloc kernel_table) c s.devices l' s.kernel k' e1 in
      let s'_is = from_ok (record s { devices = l'; kernel = k' }) s' e2 in
      (
        c,
        refl,
        ap (λ (t : State ports list). t.io) (sym s'_is),
        ap (λ (t : State ports list). list.entries t.devices) (sym s'_is) ∙ grown,
      )

  describe-Scanned :
      (kernel_table : ℕ) (at : Place) (v d : ℕ) (unset : Header) (s s' : State ports list)
      (ids : List Identity)
      → Scanned s ids
      → describe ports list kernel_table at v d unset s ≡ ok s'
      → Scanned s' ((at, v, d) ∷ ids)
  unfolding describe
  describe-Scanned kernel_table at v d unset s s' ids (kept, has) e =
      let (r, e1, e2) = bind-ok (node_alloc kernel_table sizeof_pci_config s.kernel) _ e in
      let (u, e3, e4) = bind-ok (assert (not (r.0 == 0))) _ e2 in
      let (config, io) = read_config ports at v d unset s.io in
      let (c, found, same, grown) =
        add_device-inserts kernel_table config (record s { io = io; kernel = r.1 }) s' e4 in
      let (p, q, w) =
        read_config-Agrees ports registers settle space restores at v d unset s.io c found in
      (
        λ x.
            ap (λ (t : ports.Bus). registers t x) same
            ∙ read_config-keeps ports registers settle space restores at v d unset s.io x
            ∙ kept x,
        ap (map id_of) grown ∙ (λ i. (p i, q i, w i) ∷ has i),
      )

  for_range-Lists :
      (body : ℕ → State ports list → Result (State ports list)) (places : ℕ → List Place)
      → ((i : ℕ) → Lists (body i) (places i))
      → (n i : ℕ) → Lists (for_range body n i) (places_from places n i)
  unfolding for_range places_from listed
  for_range-Lists body places rounds zero i s s' ids h e =
      subst (λ t. Scanned t ids) (from_ok s s' e) h
  for_range-Lists body places rounds (suc n) i s s' ids h e =
      let (s1, e1, e2) = bind-ok (body i s) _ e in
      rw (listed-append cfg (places i) (places_from places n (suc i)) ids) (
        for_range-Lists body places rounds n (suc i) s1 s' (listed cfg (places i) ids)
          (rounds i s s1 ids h e1) e2)

  consider-Scanned :
      (kernel_table : ℕ) (unset : Header) (at : Place) (v d : ℕ) (io io' : ports.Bus)
      (s s' : State ports list) (ids : List Identity)
      → Scanned (record s { io = io }) ids
      → Scanned (record s { io = io' }) ids
      → consider ports list kernel_table unset at v d io io' s ≡ ok s'
      → Scanned s' (if not (v == 0xffff) && not (d == 0xffff) then (at, v, d) ∷ ids else ids)
  unfolding consider
  consider-Scanned kernel_table unset at v d io io' s s' ids h h' e =
      elim (Bool-cases (v == 0xffff)) [
        | inl absent ↦
            rw absent
              (subst (λ t. Scanned t ids) (from_ok (record s { io = io }) s' (rw absent at e)) h)
        | inr there ↦ rw there (elim (Bool-cases (d == 0xffff)) [
          | inl absent ↦ rw absent (
              subst (λ t. Scanned t ids)
                (from_ok (record s { io = io' }) s' (rw (there, absent) at e)) h')
          | inr both ↦ rw both (
              describe-Scanned kernel_table at v d unset (record s { io = io' }) s' ids h'
                (rw (there, both) at e))
        ])
      ]

  scan_function-Lists :
      (kernel_table : ℕ) (unset : Header) (bus slot func : ℕ)
      → Lists
          (scan_function ports list kernel_table unset bus slot func)
          (record { bus = bus; slot = slot; function = func } ∷ [])
  unfolding scan_function listed
  scan_function-Lists kernel_table unset bus slot func s s' ids (kept, has) e =
      let head : Place = record { bus = bus; slot = slot; function = 0 } in
      let at : Place = record { bus = bus; slot = slot; function = func } in
      let (v, io) = pci_config_read_word ports head 0x0 s.io in
      let (d, io') = pci_config_read_word ports at 0x2 io in
      let v_is : v ≡ vendor_at cfg at =
        read_word_lem ports registers settle space head 0x0 s.io
        ∙ ap (λ (t : ℕ). t / 2 ^ 0 % 2 ^ 16) (kept (config_address head 0x0))
        ∙ omega arith in
      let kept' = λ (x : ℕ). word ports registers settle space restores head 0x0 s.io x ∙ kept x in
      let d_is : d ≡ device_at cfg at =
        read_word_lem ports registers settle space at 0x2 io
        ∙ ap (λ (t : ℕ). t / 2 ^ 16 % 2 ^ 16) (kept' (config_address at 0x2)) in
      let kept'' = λ (x : ℕ). word ports registers settle space restores at 0x2 io x ∙ kept' x in
      rw v_is at (
        rw d_is at
          (consider-Scanned kernel_table unset at v d io io' s s' ids (kept', has) (kept'', has) e))

  scan_slot-Lists :
      (kernel_table : ℕ) (unset : Header) (bus slot : ℕ)
      → Lists
          (scan_slot ports list kernel_table unset bus slot)
          (places_from (λ func. record { bus = bus; slot = slot; function = func } ∷ []) 8 0)
  unfolding scan_slot
  scan_slot-Lists kernel_table unset bus slot =
      for_range-Lists (scan_function ports list kernel_table unset bus slot) _
        (scan_function-Lists kernel_table unset bus slot) 8 0

  scan_bus-Lists :
      (kernel_table : ℕ) (unset : Header) (bus : ℕ)
      → Lists (scan_bus ports list kernel_table unset bus) (
          places_from
            (λ slot.
              places_from (λ func. record { bus = bus; slot = slot; function = func } ∷ []) 8 0)
            32
            0)
  unfolding scan_bus
  scan_bus-Lists kernel_table unset bus =
      for_range-Lists (scan_slot ports list kernel_table unset bus) _
        (scan_slot-Lists kernel_table unset bus) 32 0

  pub pci_scan_devices-Lists :
      (kernel_table : ℕ) (unset : Header)
      → Lists (pci_scan_devices ports list kernel_table unset) all_places
  unfolding pci_scan_devices all_places
  pci_scan_devices-Lists kernel_table unset =
      for_range-Lists (scan_bus ports list kernel_table unset) _ (scan_bus-Lists kernel_table unset)
        256 0
