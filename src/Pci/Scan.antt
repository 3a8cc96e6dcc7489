-- ===== src/Pci/Scan.antt =====
-- kernel/src/arch/x86_64/pci/pci.c: the scan of all buses and the searches in its list. The list
-- (linkedlist.c, third-party code) is the parameter `DeviceList`.
use bikeshed.Prelude.{
  ℕ, zero, suc, Bool, not, ◌&&◌, ◌==◌, if◌then◌else◌, Option, none, some, List, [], ◌∷◌,
}
use bikeshed.Machine.{Result, ok, panic, assert, ◌>>=◌, ◌>>◌}
use bikeshed.PhysAlloc.{Phys}
use bikeshed.WaterMark.{WaterMark, water_mark_alloc}
use bikeshed.Pci.{Ports, Place, pci_config_read_word}
use bikeshed.Pci.Header.{Header, PciConfig}
use bikeshed.Pci.Config.{read_config}

-- The memory of the kernel that blocks are taken from.
pub record Kernel : Type 0 where
  pub water_mark : WaterMark
  pub phys : Phys

-- The list of devices: `list_init`, `list_insert_next` at the head, with the allocator of the
-- nodes, and the data of the nodes from `list_head` on.
pub record DeviceList : Type 1 where
  pub Devices : Type 0
  pub init : Devices
  pub insert_next :
      (alloc : ℕ → Kernel → Result (ℕ × Kernel))
      → PciConfig
      → Devices
      → Kernel
      → Result (Devices × Kernel)
  pub entries : Devices → List PciConfig

-- sizeof(pci_config_t).
abbrev pub sizeof_pci_config : ℕ
sizeof_pci_config = 92

unfoldable pub node_alloc : (kernel_table size : ℕ) → Kernel → Result (ℕ × Kernel)
node_alloc kernel_table size k = water_mark_alloc kernel_table size k.water_mark k.phys >>= λ r.
    ok (r.0.0, record { water_mark = r.0.1; phys = r.1 })

-- The first entry that the test takes: pci_find_custom, with `none` for NULL.
unfoldable pub pci_find_custom : (PciConfig → Bool) → List PciConfig → Option PciConfig
pci_find_custom func [] = none
pci_find_custom func (config ∷ configs) =
    if func config then some config else pci_find_custom func configs

unfoldable pub pci_find_by_class :
    (base_class sub_class prog_if : ℕ) → List PciConfig → Option PciConfig
pci_find_by_class base_class sub_class prog_if [] = none
pci_find_by_class base_class sub_class prog_if (config ∷ configs) =
    if config.base_class == base_class
      && config.sub_class == sub_class
      && config.programming_if == prog_if
    then some config
    else pci_find_by_class base_class sub_class prog_if configs

unfoldable pub pci_find_by_device : (vendor_id device_id : ℕ) → List PciConfig → Option PciConfig
pci_find_by_device vendor_id device_id [] = none
pci_find_by_device vendor_id device_id (config ∷ configs) =
    if config.vendor_id == vendor_id && config.device_id == device_id
    then some config
    else pci_find_by_device vendor_id device_id configs

-- The rounds of a loop from `i` on.
unfoldable pub for_range {ℓ} : {S : Type ℓ} → (ℕ → S → Result S) → (n i : ℕ) → S → Result S
for_range body zero i s = ok s
for_range body (suc n) i s = body i s >>= λ s'. for_range body n (suc i) s'

module _ (ports : Ports) (list : DeviceList) where
  pub record State : Type 0 where
    pub io : ports.Bus
    pub devices : list.Devices
    pub kernel : Kernel

  -- The description of a function that answers is put at the head of the list.
  unfoldable pub add_device : (kernel_table : ℕ) → Option PciConfig → State → Result State
  add_device kernel_table none s = panic
  add_device kernel_table (some config) s =
      list.insert_next (node_alloc kernel_table) config s.devices s.kernel >>= λ r.
      ok (record s { devices = r.0; kernel = r.1 })

  unfoldable pub describe :
      (kernel_table : ℕ) → Place → (vendor_id device_id : ℕ) → Header → State → Result State
  describe kernel_table at vendor_id device_id unset s =
      node_alloc kernel_table sizeof_pci_config s.kernel >>= λ r.
      assert (not (r.0 == 0))
      >> (let (config, io) = read_config ports at vendor_id device_id unset s.io in
          add_device kernel_table config (record s { io = io; kernel = r.1 }))

  -- What the two numbers decide; the ports are read for the second one only if the first is there.
  unfoldable pub consider :
      (kernel_table : ℕ)
      → Header
      → Place
      → (vendor_id device_id : ℕ) → (io io' : ports.Bus) → State
      → Result State
  consider kernel_table unset at vendor_id device_id io io' s =
      if vendor_id == 0xffff
      then ok (record s { io = io })
      else if device_id == 0xffff
      then ok (record s { io = io' })
      else describe kernel_table at vendor_id device_id unset (record s { io = io' })

  -- One round of the innermost loop.
  unfoldable pub scan_function :
      (kernel_table : ℕ) → Header → (bus slot func : ℕ) → State → Result State
  scan_function kernel_table unset bus slot func s =
      let head : Place = record { bus = bus; slot = slot; function = 0 } in
      let at : Place = record { bus = bus; slot = slot; function = func } in
      let (vendor_id, io) = pci_config_read_word ports head 0x0 s.io in
      let (device_id, io') = pci_config_read_word ports at 0x2 io in
      consider kernel_table unset at vendor_id device_id io io' s

  unfoldable pub scan_slot : (kernel_table : ℕ) → Header → (bus slot : ℕ) → State → Result State
  scan_slot kernel_table unset bus slot s =
      for_range (scan_function kernel_table unset bus slot) 8 0 s

  unfoldable pub scan_bus : (kernel_table : ℕ) → Header → (bus : ℕ) → State → Result State
  scan_bus kernel_table unset bus s = for_range (scan_slot kernel_table unset bus) 32 0 s

  unfoldable pub pci_scan_devices : (kernel_table : ℕ) → Header → State → Result State
  pci_scan_devices kernel_table unset s = for_range (scan_bus kernel_table unset) 256 0 s

  unfoldable pub pci_init : (kernel_table : ℕ) → Header → ports.Bus → Kernel → Result State
  pci_init kernel_table unset io kernel =
      pci_scan_devices kernel_table unset (record { io = io; devices = list.init; kernel = kernel })
