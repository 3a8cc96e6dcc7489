-- ===== src/Pci/Found.antt =====
-- kernel/src/arch/x86_64/pci/pci.c: pci_init as a whole, and the searches.
use bikeshed.Prelude.{
  ℕ, ◌<◌, ◌≤◌, ◌≡◌, refl, ap, Bool, true, false, ◌&&◌, ◌==◌, Bool-cases, inl, inr, Option, none,
  some, List, [], ◌∷◌, ◌++◌, map, All,
}
use bikeshed.Machine.{Result, ok}
use bikeshed.Pci.{Ports, Place, config_address}
use bikeshed.Pci.Header.{Header, PciConfig}
use bikeshed.Pci.Scan.{
  Kernel, DeviceList, State, pci_init, pci_find_custom, pci_find_by_class, pci_find_by_device,
}
use bikeshed.Pci.Space.{IsConfigSpace}
use bikeshed.Pci.Listed.{id_of, listed, all_places, pci_scan_devices-Lists}

-- What the kernel relies on of the list: it begins empty, and a node goes to its head.
-- The law of the list. list_insert_next fails only if the allocator gives NULL, where the kernel's
-- panics.
pub record IsList (list : DeviceList) : Type 0 where
  pub empty : list.entries list.init ≡ []
  pub insert :
      (alloc : ℕ → Kernel → Result (ℕ × Kernel)) (c : PciConfig) (l l' : list.Devices)
      (k k' : Kernel)
      → list.insert_next alloc c l k ≡ ok (l', k')
      → list.entries l' ≡ c ∷ list.entries l

-- An address register that was probed gets its value back.
abbrev pub Restores : ((address old value : ℕ) → ℕ) → Type 0
Restores settle =
    (at : Place) (offset old : ℕ)
    → 0x10 ≤ offset
    → offset < 0x28
    → let a = config_address at offset in settle a (settle a old 0xffffffff) old ≡ old

-- When pci_init comes back, its list has exactly the functions whose vendor (in function 0) and
-- device are there, the last one first, each with its place, vendor and device; and every register
-- of the configuration space is as it was, the address registers that were probed included.
pub pci_init-listed :
    (ports : Ports) (registers : ports.Bus → ℕ → ℕ) (settle : (address old value : ℕ) → ℕ)
    (list : DeviceList)
    → IsConfigSpace ports registers settle
    → Restores settle
    → IsList list
    → (kernel_table : ℕ) (unset : Header) (io : ports.Bus) (kernel : Kernel) (s : State ports list)
    → pci_init ports list kernel_table unset io kernel ≡ ok s
    → (map id_of (list.entries s.devices) ≡ listed (registers io) all_places [])
      × ((x : ℕ) → registers s.io x ≡ registers io x)
unfolding pci_init
pci_init-listed ports registers settle list space restores law kernel_table unset io kernel s e =
    let start : State ports list = record { io = io; devices = list.init; kernel = kernel } in
    let (kept, has) =
      pci_scan_devices-Lists ports registers settle space restores list law.insert (registers io)
        kernel_table unset start s [] (λ x. refl, ap (map id_of) law.empty) e in
    (has, kept)

-- The first entry that passes the test, or none if no entry does.
abbrev pub IsFirst : (PciConfig → Bool) → List PciConfig → Option PciConfig → Type 0
IsFirst test configs none = All (λ c. test c ≡ false) configs
IsFirst test configs (some c) =
    (before : List PciConfig) × (after : List PciConfig) × (configs ≡ before ++ c ∷ after)
    × (test c ≡ true)
    × All (λ c. test c ≡ false) before

pci_find_custom-IsFirst :
    (func : PciConfig → Bool) (configs : List PciConfig)
    → IsFirst func configs (pci_find_custom func configs)
unfolding pci_find_custom
pci_find_custom-IsFirst func [] = tt
pci_find_custom-IsFirst func (config ∷ configs) = elim (Bool-cases (func config)) [
  | inl passes ↦ rw passes ([], configs, refl, passes, tt)
  | inr fails ↦
      rw fails (later (pci_find_custom func configs) fails (pci_find_custom-IsFirst func configs))
]
  where
    later :
        (o : Option PciConfig)
        → func config ≡ false
        → IsFirst func configs o
        → IsFirst func (config ∷ configs) o
    later none fails h = (fails, h)
    later (some c) fails (before, after, split, passes, none_before) = (
      config ∷ before,
      after,
      ap (λ (t : List PciConfig). config ∷ t) split,
      passes,
      (fails, none_before),
    )

abbrev pub is_class : (base_class sub_class prog_if : ℕ) → PciConfig → Bool
is_class base_class sub_class prog_if c =
    c.base_class == base_class && c.sub_class == sub_class && c.programming_if == prog_if

abbrev pub is_device : (vendor_id device_id : ℕ) → PciConfig → Bool
is_device vendor_id device_id c = c.vendor_id == vendor_id && c.device_id == device_id

pci_find_by_class-custom :
    (b s p : ℕ) (configs : List PciConfig)
    → pci_find_by_class b s p configs ≡ pci_find_custom (is_class b s p) configs
unfolding pci_find_by_class pci_find_custom
pci_find_by_class-custom b s p [] = refl
pci_find_by_class-custom b s p (c ∷ configs) = rw (pci_find_by_class-custom b s p configs) refl

pci_find_by_device-custom :
    (v d : ℕ) (configs : List PciConfig)
    → pci_find_by_device v d configs ≡ pci_find_custom (is_device v d) configs
unfolding pci_find_by_device pci_find_custom
pci_find_by_device-custom v d [] = refl
pci_find_by_device-custom v d (c ∷ configs) = rw (pci_find_by_device-custom v d configs) refl

-- The three searches give the first entry of the list that passes: the caller's test, or all
-- three class numbers, or vendor and device; and NULL exactly where none does.
pci_find-IsFirst :
    (func : PciConfig → Bool) (b s p v d : ℕ) (configs : List PciConfig)
    → IsFirst func configs (pci_find_custom func configs)
      × IsFirst (is_class b s p) configs (pci_find_by_class b s p configs)
      × IsFirst (is_device v d) configs (pci_find_by_device v d configs)
pci_find-IsFirst func b s p v d configs = (
  pci_find_custom-IsFirst func configs,
  rw (pci_find_by_class-custom b s p configs) (pci_find_custom-IsFirst (is_class b s p) configs),
  rw (pci_find_by_device-custom v d configs) (pci_find_custom-IsFirst (is_device v d) configs),
)
