-- ===== src/Pci/Devices.antt =====
-- kernel/src/arch/x86_64/pci/pci.c: what is read of a device, and the size of its memory.
use bikeshed.Prelude.{ℕ, zero, suc, ◌+◌, ◌-◌, ◌%◌, ◌^◌, bit_and, List, [], ◌∷◌}
use bikeshed.Pci.{
  Ports, Place, Io, ◌>>=◌, ◌>>◌, return, pci_config_read_long, pci_config_read_word,
  pci_config_read_byte, pci_config_write_long,
}
use bikeshed.Pci.Header.{HeaderType0, HeaderType1, HeaderType2, type_0, type_1, type_2, PciConfig}

-- The size that the register of 32 bits has after all ones were written to it.
unfoldable pub bar_size : ℕ → ℕ
bar_size size = (2 ^ 32 - bit_and size 0xfffffff0) % 2 ^ 32

module _ (ports : Ports) where
  abbrev pub write_long : Place → (offset value : ℕ) → Io ports (Unit {0})
  write_long at offset value b = (tt, pci_config_write_long ports at offset value b)

  abbrev pub read_long : Place → (offset : ℕ) → Io ports ℕ
  read_long at offset b = pci_config_read_long ports at offset b

  abbrev pub read_word : Place → (offset : ℕ) → Io ports ℕ
  read_word at offset b = pci_config_read_word ports at offset b

  abbrev pub read_byte : Place → (offset : ℕ) → Io ports ℕ
  read_byte at offset b = pci_config_read_byte ports at offset b

  -- `n` address registers from `offset` on.
  unfoldable pub read_bars : ℕ → Place → (offset : ℕ) → Io ports (List ℕ)
  read_bars zero at offset = return []
  read_bars (suc n) at offset =
      read_long at offset >>= λ bar. read_bars n at (offset + 4) >>= λ bars. return (bar ∷ bars)

  -- One register: its value is put back.
  unfoldable pub probe_bar : Place → (offset : ℕ) → Io ports ℕ
  unfolding bar_size
  probe_bar at offset = do
    orig ← read_long at offset
    write_long at offset 0xffffffff
    size ← read_long at offset
    write_long at offset orig
    return (bar_size size)

  unfoldable pub probe_bars : ℕ → Place → (offset : ℕ) → Io ports (List ℕ)
  probe_bars zero at offset = return []
  probe_bars (suc n) at offset = probe_bar at offset >>= λ size.
      probe_bars n at (offset + 4) >>= λ sizes. return (size ∷ sizes)

  unfoldable pub pci_get_memory_size : PciConfig → Io ports PciConfig
  pci_get_memory_size config = elim config.h_type [
    | type_0 t ↦ probe_bars 6 config.place 0x10 >>= λ sizes.
        return (record config { h_type = type_0 (record t { bar_sizes = sizes }) })
    | type_1 t ↦ return config
    | type_2 t ↦ return config
  ]

  unfoldable pub read_type_0 : Place → Io ports HeaderType0
  read_type_0 at = do
    bar_address ← read_bars 6 at 0x10
    cardbus_cis_pointer ← read_long at 0x28
    subsystem_vendor_id ← read_word at 0x2c
    subsystem_id ← read_word at 0x2e
    expansion_rom_address ← read_long at 0x30
    capabilities_pointer ← read_byte at 0x34
    interrupt_line ← read_byte at 0x3c
    interrupt_pin ← read_byte at 0x3d
    min_grant ← read_byte at 0x3e
    max_latency ← read_byte at 0x3f
    return (record {
      bar_address = bar_address;
      bar_sizes = [];
      cardbus_cis_pointer = cardbus_cis_pointer;
      subsystem_vendor_id = subsystem_vendor_id;
      subsystem_id = subsystem_id;
      expansion_rom_address = expansion_rom_address;
      capabilities_pointer = capabilities_pointer;
      interrupt_line = interrupt_line;
      interrupt_pin = interrupt_pin;
      min_grant = min_grant;
      max_latency = max_latency;
    })

  unfoldable pub read_type_1 : Place → Io ports HeaderType1
  read_type_1 at = do
    bar_address_0 ← read_long at 0x10
    bar_address_1 ← read_long at 0x14
    primary_bus_number ← read_byte at 0x18
    secondary_bus_number ← read_byte at 0x19
    subordinate_bus_number ← read_byte at 0x1a
    secondary_latency_timer ← read_byte at 0x1b
    io_base ← read_byte at 0x1c
    io_limit ← read_byte at 0x1d
    secondary_status ← read_word at 0x1e
    memory_base ← read_word at 0x20
    memory_limit ← read_word at 0x22
    prefetchable_memory_base ← read_word at 0x24
    prefetchable_memory_limit ← read_word at 0x26
    prefetchable_base_upper_32_bits ← read_long at 0x28
    prefetchable_memory_limit_upper_32_bits ← read_long at 0x2c
    io_base_upper_16_bits ← read_word at 0x30
    io_limit_upper_16_bits ← read_word at 0x32
    capability_pointer ← read_byte at 0x34
    expansion_rom_base_address ← read_long at 0x38
    interrupt_line ← read_byte at 0x3c
    interrupt_pin ← read_byte at 0x3d
    bridge_control ← read_word at 0x3e
    return (record {
      bar_address_0 = bar_address_0;
      bar_address_1 = bar_address_1;
      primary_bus_number = primary_bus_number;
      secondary_bus_number = secondary_bus_number;
      subordinate_bus_number = subordinate_bus_number;
      secondary_latency_timer = secondary_latency_timer;
      io_base = io_base;
      io_limit = io_limit;
      secondary_status = secondary_status;
      memory_base = memory_base;
      memory_limit = memory_limit;
      prefetchable_memory_base = prefetchable_memory_base;
      prefetchable_memory_limit = prefetchable_memory_limit;
      prefetchable_base_upper_32_bits = prefetchable_base_upper_32_bits;
      prefetchable_memory_limit_upper_32_bits = prefetchable_memory_limit_upper_32_bits;
      io_base_upper_16_bits = io_base_upper_16_bits;
      io_limit_upper_16_bits = io_limit_upper_16_bits;
      capability_pointer = capability_pointer;
      expansion_rom_base_address = expansion_rom_base_address;
      interrupt_line = interrupt_line;
      interrupt_pin = interrupt_pin;
      bridge_control = bridge_control;
    })

  unfoldable pub read_type_2 : Place → Io ports HeaderType2
  read_type_2 at = do
    cardbus_socket_base_address ← read_long at 0x10
    offset_of_capabilities_list ← read_byte at 0x14
    secondary_status ← read_word at 0x16
    pci_bus_number ← read_byte at 0x18
    card_bus_number ← read_byte at 0x19
    subordinate_bus_number ← read_byte at 0x1a
    cardbus_latency_timer ← read_byte at 0x1b
    memory_base_address_0 ← read_long at 0x1c
    memory_limit_0 ← read_long at 0x20
    memory_base_address_1 ← read_long at 0x24
    memory_limit_1 ← read_long at 0x28
    io_base_address_0 ← read_long at 0x2c
    io_limit_0 ← read_long at 0x30
    io_base_address_1 ← read_long at 0x34
    io_limit_1 ← read_long at 0x38
    interrupt_line ← read_byte at 0x3c
    interrupt_pin ← read_byte at 0x3d
    bridge_control ← read_word at 0x3e
    subsystem_device_id ← read_word at 0x40
    subsystem_vendor_id ← read_word at 0x42
    pci_legacy_mode_base_address ← read_long at 0x44
    return (record {
      cardbus_socket_base_address = cardbus_socket_base_address;
      offset_of_capabilities_list = offset_of_capabilities_list;
      secondary_status = secondary_status;
      pci_bus_number = pci_bus_number;
      card_bus_number = card_bus_number;
      subordinate_bus_number = subordinate_bus_number;
      cardbus_latency_timer = cardbus_latency_timer;
      memory_base_address_0 = memory_base_address_0;
      memory_limit_0 = memory_limit_0;
      memory_base_address_1 = memory_base_address_1;
      memory_limit_1 = memory_limit_1;
      io_base_address_0 = io_base_address_0;
      io_limit_0 = io_limit_0;
      io_base_address_1 = io_base_address_1;
      io_limit_1 = io_limit_1;
      interrupt_line = interrupt_line;
      interrupt_pin = interrupt_pin;
      bridge_control = bridge_control;
      subsystem_device_id = subsystem_device_id;
      subsystem_vendor_id = subsystem_vendor_id;
      pci_legacy_mode_base_address = pci_legacy_mode_base_address;
    })
