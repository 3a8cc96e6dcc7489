-- ===== src/Pci/Config.antt =====
-- kernel/src/arch/x86_64/pci/pci.c: the description of one function of a device.
use bikeshed.Prelude.{ℕ, ◌/◌, ◌%◌, ◌^◌, bit_and, ◌==◌, if◌then◌else◌, Option, none, some}
use bikeshed.Pci.{Ports, Place, Io, ◌>>=◌, return}
use bikeshed.Pci.Header.{Header, type_0, type_1, type_2, PciConfig}
use bikeshed.Pci.Devices.{
  read_long, read_word, read_byte, read_type_0, read_type_1, read_type_2, pci_get_memory_size,
}

abbrev pub with_header : PciConfig → Header → PciConfig
with_header config h = record config { h_type = h }

module _ (ports : Ports) where
  -- The switch on the type of the header; `none` is a bad type.
  unfoldable pub read_header : PciConfig → Io ports (Option PciConfig)
  read_header config =
      let kind = bit_and config.header_type 7 in
      if kind == 0
      then (read_type_0 ports config.place >>= λ t.
          pci_get_memory_size ports (with_header config (type_0 t)) >>= λ c. return (some c))
      else if kind == 1
      then (read_type_1 ports config.place >>= λ t. return (some (with_header config (type_1 t))))
      else if kind == 2
      then (read_type_2 ports config.place >>= λ t. return (some (with_header config (type_2 t))))
      else return none

  -- All that is read of a function with these two numbers, the header's type first unset.
  unfoldable pub read_config :
      Place → (vendor_id device_id : ℕ) → Header → Io ports (Option PciConfig)
  read_config at vendor_id device_id unset = do
    status ← read_word ports at 0x6
    command ← read_word ports at 0x4
    class ← read_long ports at 0x8
    cache_line_size ← read_byte ports at 0xc
    latency_timer ← read_byte ports at 0xd
    header_type ← read_byte ports at 0xe
    bist ← read_byte ports at 0xf
    read_header (record {
      place = at;
      vendor_id = vendor_id;
      device_id = device_id;
      status = status;
      command = command;
      base_class = class / 2 ^ 24 % 2 ^ 8;
      sub_class = class / 2 ^ 16 % 2 ^ 8;
      programming_if = class / 2 ^ 8 % 2 ^ 8;
      revision = class % 2 ^ 8;
      bist = bist;
      header_type = header_type;
      latency_timer = latency_timer;
      cache_line_size = cache_line_size;
      h_type = unset;
    })
