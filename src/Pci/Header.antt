-- ===== src/Pci/Header.antt =====
-- kernel/src/arch/x86_64/pci/pci.h: what the kernel keeps of a device. The reserved bytes, which
-- nothing reads or writes, are left out.
use bikeshed.Prelude.{ℕ, List}
use bikeshed.Pci.{Place}

pub record HeaderType0 : Type 0 where
  pub bar_address : List ℕ
  pub bar_sizes : List ℕ
  pub cardbus_cis_pointer : ℕ
  pub subsystem_vendor_id : ℕ
  pub subsystem_id : ℕ
  pub expansion_rom_address : ℕ
  pub capabilities_pointer : ℕ
  pub interrupt_line : ℕ
  pub interrupt_pin : ℕ
  pub min_grant : ℕ
  pub max_latency : ℕ

pub record HeaderType1 : Type 0 where
  pub bar_address_0 : ℕ
  pub bar_address_1 : ℕ
  pub primary_bus_number : ℕ
  pub secondary_bus_number : ℕ
  pub subordinate_bus_number : ℕ
  pub secondary_latency_timer : ℕ
  pub io_base : ℕ
  pub io_limit : ℕ
  pub secondary_status : ℕ
  pub memory_base : ℕ
  pub memory_limit : ℕ
  pub prefetchable_memory_base : ℕ
  pub prefetchable_memory_limit : ℕ
  pub prefetchable_base_upper_32_bits : ℕ
  pub prefetchable_memory_limit_upper_32_bits : ℕ
  pub io_base_upper_16_bits : ℕ
  pub io_limit_upper_16_bits : ℕ
  pub capability_pointer : ℕ
  pub expansion_rom_base_address : ℕ
  pub interrupt_line : ℕ
  pub interrupt_pin : ℕ
  pub bridge_control : ℕ

pub record HeaderType2 : Type 0 where
  pub cardbus_socket_base_address : ℕ
  pub offset_of_capabilities_list : ℕ
  pub secondary_status : ℕ
  pub pci_bus_number : ℕ
  pub card_bus_number : ℕ
  pub subordinate_bus_number : ℕ
  pub cardbus_latency_timer : ℕ
  pub memory_base_address_0 : ℕ
  pub memory_limit_0 : ℕ
  pub memory_base_address_1 : ℕ
  pub memory_limit_1 : ℕ
  pub io_base_address_0 : ℕ
  pub io_limit_0 : ℕ
  pub io_base_address_1 : ℕ
  pub io_limit_1 : ℕ
  pub interrupt_line : ℕ
  pub interrupt_pin : ℕ
  pub bridge_control : ℕ
  pub subsystem_device_id : ℕ
  pub subsystem_vendor_id : ℕ
  pub pci_legacy_mode_base_address : ℕ

-- The union of pci_config_t; the case is header_type & 7.
pub data Header : Type 0 where
  type_0 : HeaderType0 → Header
  type_1 : HeaderType1 → Header
  type_2 : HeaderType2 → Header

pub record PciConfig : Type 0 where
  pub place : Place
  pub vendor_id : ℕ
  pub device_id : ℕ
  pub status : ℕ
  pub command : ℕ
  pub base_class : ℕ
  pub sub_class : ℕ
  pub programming_if : ℕ
  pub revision : ℕ
  pub bist : ℕ
  pub header_type : ℕ
  pub latency_timer : ℕ
  pub cache_line_size : ℕ
  pub h_type : Header
