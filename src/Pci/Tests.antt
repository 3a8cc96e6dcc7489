-- ===== src/Pci/Tests.antt =====
-- The theorems on PCI at a machine with one device, whose registers are plain memory.
use bikeshed.Prelude.{
  ℕ, ◌+◌, ◌-◌, ◌*◌, ◌/◌, ◌%◌, ◌^◌, ◌≡◌, refl, ap, true, ◌&&◌, ◌==◌, ltb, if◌then◌else◌, List, [],
  ◌∷◌, map, arith,
}
use bikeshed.Machine.{store, Result, ok, panic, returned, returns, returns-ok}
use bikeshed.Stack.{stack}
use bikeshed.WaterMark.{
  align, adjusted, map_down, map_lower, lower_mark, water_mark_alloc_align, water_mark_alloc,
}
use bikeshed.Pci.{
  Ports, Place, config_address, pci_config_read_long, pci_config_read_word, pci_config_read_byte,
  pci_config_write_long,
}
use bikeshed.Pci.Header.{Header, type_0, HeaderType0, PciConfig}
use bikeshed.Pci.Devices.{
  bar_size, read_bars, probe_bar, probe_bars, read_type_0, pci_get_memory_size,
}
use bikeshed.Pci.Config.{read_header, read_config}
use bikeshed.Pci.Scan.{
  Kernel, DeviceList, State, node_alloc, for_range, add_device, describe, consider, scan_function,
  scan_slot, scan_bus, pci_scan_devices, pci_init,
}
use bikeshed.Pci.Space.{IsConfigSpace}
use bikeshed.Pci.Found.{IsList, Restores, pci_init-listed}
use bikeshed.Pci.Listed.{id_of, listed, all_places}
use bikeshed.Pci.Address.{IsPlace}
use bikeshed.Pci.Sizes.{settled, reported, IsBar, AreBars, pci_get_memory_size-sizes}

abbrev Registers : Type 0
Registers = record { address : ℕ; at : ℕ → ℕ }

module _ (settle : (address old value : ℕ) → ℕ) where
  abbrev select : (port value : ℕ) → Registers → Registers
  select port value b = if port == 0xcf8 then record { address = value; at = b.at } else record {
    address = b.address;
    at = store b.at b.address (settle b.address (b.at b.address) value);
  }

  abbrev machine : Ports
  machine = record {
    Bus = Registers;
    outl = select;
    outw = λ port value b. b;
    outb = λ port value b. b;
    inl = λ port b. (b.at b.address, b);
    inw = λ port b. (b.at b.address / 2 ^ (8 * (port - 0xcfc)) % 2 ^ 16, b);
    inb = λ port b. (b.at b.address / 2 ^ (8 * (port - 0xcfc)) % 2 ^ 8, b);
  }

  shift-sub : (i : ℕ) → 0xcfc + i - 0xcfc ≡ i
  shift-sub i = omega arith

  machine-IsConfigSpace : IsConfigSpace machine (λ b. b.at) settle
  machine-IsConfigSpace = record {
    long = λ b a. refl;
    word = λ b a i. ap (λ (t : ℕ). b.at a / 2 ^ (8 * t) % 2 ^ 16) (shift-sub i);
    long_keeps = λ b a x. refl;
    word_keeps = λ b a i x. refl;
    byte_keeps = λ b a i x. refl;
    write = λ b a value x. refl;
  }

abbrev insert_into :
    PciConfig → List PciConfig → Result (ℕ × Kernel) → Result (List PciConfig × Kernel)
insert_into c l panic = panic
insert_into c l (ok (p, k)) = ok (c ∷ l, k)

-- The list is a list, whose nodes take 24 bytes each.
abbrev nodes : DeviceList
nodes = record {
  Devices = List PciConfig;
  init = [];
  insert_next = λ alloc c l k. insert_into c l (alloc 24 k);
  entries = λ l. l;
}

nodes-insert :
    (r : Result (ℕ × Kernel)) (c : PciConfig) (l l' : List PciConfig) (k' : Kernel)
    → insert_into c l r ≡ ok (l', k')
    → l' ≡ c ∷ l
nodes-insert panic c l l' k' e = absurd (cc)
nodes-insert (ok (q, k)) c l l' k' e = ground (arith)

nodes-IsList : IsList nodes
nodes-IsList = record {
  empty = refl;
  insert = λ alloc c l l' k k' e. nodes-insert (alloc 24 k) c l l' k' e;
}

abbrev plain : (address old value : ℕ) → ℕ
plain address old value = value

plain-Restores : Restores plain
plain-Restores at offset old lo hi = refl

-- A device 0x1111 of the vendor 0x8086 in slot 1 of bus 0.
abbrev one_device : Registers
one_device = record {
  address = 0;
  at = λ a.
      if ltb 0x800007ff a && ltb a 0x80000900
      then if a == 0x80000800 then 0x11118086 else 0
      else 0xffffffff;
}

abbrev kernel : Kernel
kernel = record {
  water_mark = record {
    page_address = 0x200000;
    current_address = 0x3ff000;
    current_size = 0x1000;
    max_size = 0x200000;
  };
  phys = record { stack_2mib = stack 0 0; pool_4kib = 0; mem = λ a. 0 };
}

abbrev no_header : Header
no_header = type_0 (record {
  bar_address = [];
  bar_sizes = [];
  cardbus_cis_pointer = 0;
  subsystem_vendor_id = 0;
  subsystem_id = 0;
  expansion_rom_address = 0;
  capabilities_pointer = 0;
  interrupt_line = 0;
  interrupt_pin = 0;
  min_grant = 0;
  max_latency = 0;
})

abbrev found_one : Result (State (machine plain) nodes)
found_one = pci_init (machine plain) nodes 0 no_header one_device kernel

abbrev start : State (machine plain) nodes
start = record { io = one_device; devices = []; kernel = kernel }

one_found : returns found_one ≡ true
unfolding pci_init pci_scan_devices scan_bus scan_slot scan_function consider describe add_device
    node_alloc for_range read_config read_header read_type_0 read_bars pci_get_memory_size
    probe_bars probe_bar bar_size pci_config_read_long pci_config_read_word pci_config_read_byte
    pci_config_write_long config_address water_mark_alloc water_mark_alloc_align lower_mark
    map_lower map_down adjusted align
one_found = refl

pci_init-listed_example :
    let s = returned found_one start in
    (map id_of s.devices ≡ listed one_device.at all_places [])
    × ((x : ℕ) → s.io.at x ≡ one_device.at x)
pci_init-listed_example =
    pci_init-listed (machine plain) (λ b. b.at) plain nodes (machine-IsConfigSpace plain)
      plain-Restores nodes-IsList 0 no_header one_device kernel (returned found_one start)
      (returns-ok found_one start one_found)

abbrev slot_1 : Place
slot_1 = record { bus = 0; slot = 1; function = 0 }

slot_1-IsPlace : IsPlace slot_1
slot_1-IsPlace = record { bus = omega arith; slot = omega arith; function = omega arith }

-- Six regions of 4 KiB.
abbrev pages : List ℕ
pages = 12 ∷ 12 ∷ 12 ∷ 12 ∷ 12 ∷ 12 ∷ []

abbrev blank : Registers
blank = record { address = 0; at = λ a. 0 }

abbrev paged : (address old value : ℕ) → ℕ
paged address = settled 12

page-IsBar :
    (offset : ℕ)
    → IsBar
        (machine paged)
        (λ b. b.at)
        paged
        (machine-IsConfigSpace paged)
        (config_address slot_1 offset)
        12
        blank
page-IsBar offset = (omega arith, omega arith, λ old value. refl)

pages-AreBars :
    AreBars (machine paged) (λ b. b.at) paged (machine-IsConfigSpace paged) slot_1 0x10 pages blank
pages-AreBars = (
  page-IsBar 0x10,
  (page-IsBar 0x14, (page-IsBar 0x18, (page-IsBar 0x1c, (page-IsBar 0x20, (page-IsBar 0x24, tt))))),
)

abbrev header_0 : HeaderType0
header_0 = record {
  bar_address = 0 ∷ 0 ∷ 0 ∷ 0 ∷ 0 ∷ 0 ∷ [];
  bar_sizes = [];
  cardbus_cis_pointer = 0;
  subsystem_vendor_id = 0;
  subsystem_id = 0;
  expansion_rom_address = 0;
  capabilities_pointer = 0;
  interrupt_line = 0;
  interrupt_pin = 0;
  min_grant = 0;
  max_latency = 0;
}

abbrev sound_card : PciConfig
sound_card = record {
  place = slot_1;
  vendor_id = 0x8086;
  device_id = 0x2668;
  status = 0;
  command = 0;
  base_class = 4;
  sub_class = 3;
  programming_if = 0;
  revision = 1;
  bist = 0;
  header_type = 0;
  latency_timer = 0;
  cache_line_size = 0;
  h_type = type_0 header_0;
}

pci_get_memory_size-sizes_example :
    let (config, b) = pci_get_memory_size (machine paged) sound_card blank in
    (config
      ≡ record sound_card { h_type = type_0 (record header_0 { bar_sizes = map reported pages }) })
    × ((x : ℕ) → b.at x ≡ 0)
pci_get_memory_size-sizes_example =
    pci_get_memory_size-sizes (machine paged) (λ b. b.at) paged (machine-IsConfigSpace paged)
      sound_card header_0 pages blank refl refl pages-AreBars
