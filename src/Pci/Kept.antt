-- ===== src/Pci/Kept.antt =====
-- kernel/src/arch/x86_64/pci/pci.c: reading a device leaves every register as it was, and its
-- description has the numbers that it was asked with.
use bikeshed.Prelude.{ℕ, zero, suc, ◌+◌, ◌*◌, ◌<◌, ◌≤◌, ◌≡◌, refl, ◌∙◌, some, arith}
use bikeshed.Pci.{
  Ports, Place, config_address, pci_config_read_long, pci_config_read_word, pci_config_read_byte,
  pci_config_write_long,
}
use bikeshed.Pci.Header.{Header, type_0, PciConfig}
use bikeshed.Pci.Devices.{
  read_bars, probe_bar, probe_bars, read_type_0, read_type_1, read_type_2, pci_get_memory_size,
}
use bikeshed.Pci.Config.{with_header, read_header, read_config}
use bikeshed.Pci.Space.{
  IsConfigSpace, read_long-keeps, read_word-keeps, read_byte-keeps, read_long_lem, write_long_lem,
}

module _ (ports : Ports) (registers : ports.Bus → ℕ → ℕ) (settle : (address old value : ℕ) → ℕ)
    (space : IsConfigSpace ports registers settle)
    (restores : (at : Place) (offset old : ℕ)
      → 0x10 ≤ offset
      → offset < 0x28
      → let a = config_address at offset in settle a (settle a old 0xffffffff) old ≡ old) where
  -- What leaves every register as it was.
  abbrev pub Keeps : {A : Type 0} → (ports.Bus → A × ports.Bus) → Type 0
  Keeps m = (b : ports.Bus) (x : ℕ) → registers (m b).1 x ≡ registers b x

  long : (at : Place) (offset : ℕ) → Keeps (pci_config_read_long ports at offset)
  long = read_long-keeps ports registers settle space

  pub word : (at : Place) (offset : ℕ) → Keeps (pci_config_read_word ports at offset)
  word = read_word-keeps ports registers settle space

  byte : (at : Place) (offset : ℕ) → Keeps (pci_config_read_byte ports at offset)
  byte = read_byte-keeps ports registers settle space

  probe_bar-keeps :
      (at : Place) (offset : ℕ) → 0x10 ≤ offset → offset < 0x28 → Keeps (probe_bar ports at offset)
  unfolding probe_bar
  probe_bar-keeps at offset lo hi b x =
      let a = config_address at offset in
      let (orig, b1) = pci_config_read_long ports at offset b in
      let b2 = pci_config_write_long ports at offset 0xffffffff b1 in
      let (size, b3) = pci_config_read_long ports at offset b2 in
      let ones = write_long_lem ports registers settle space at offset 0xffffffff b1 in
      let back = write_long_lem ports registers settle space at offset orig b3 in
      ground (
        arith,
        read_long_lem ports registers settle space at offset b,
        back x,
        ones x,
        ones a,
        long at offset b x,
        long at offset b a,
        long at offset b2 x,
        long at offset b2 a,
        restores at offset (registers b a) lo hi,
      )

  probe_bars-keeps :
      (n : ℕ) (at : Place) (offset : ℕ)
      → 0x10 ≤ offset
      → offset + 4 * n ≤ 0x28
      → Keeps (probe_bars ports n at offset)
  unfolding probe_bars
  probe_bars-keeps zero at offset lo hi b x = refl
  probe_bars-keeps (suc n) at offset lo hi b x =
      probe_bars-keeps n at (offset + 4) (omega arith) (omega arith) (probe_bar ports at offset b).1
        x
      ∙ probe_bar-keeps at offset lo (omega arith) b x

  read_bars-keeps : (n : ℕ) (at : Place) (offset : ℕ) → Keeps (read_bars ports n at offset)
  unfolding read_bars
  read_bars-keeps zero at offset b x = refl
  read_bars-keeps (suc n) at offset b x =
      read_bars-keeps n at (offset + 4) (pci_config_read_long ports at offset b).1 x
      ∙ long at offset b x

  read_type_0-keeps : (at : Place) → Keeps (read_type_0 ports at)
  unfolding read_type_0
  read_type_0-keeps at b x = simp (long, word, byte, read_bars-keeps)

  read_type_1-keeps : (at : Place) → Keeps (read_type_1 ports at)
  unfolding read_type_1
  read_type_1-keeps at b x = simp (long, word, byte)

  read_type_2-keeps : (at : Place) → Keeps (read_type_2 ports at)
  unfolding read_type_2
  read_type_2-keeps at b x = simp (long, word, byte)

  pci_get_memory_size-keeps : (config : PciConfig) → Keeps (pci_get_memory_size ports config)
  unfolding pci_get_memory_size
  pci_get_memory_size-keeps config b x =
      let sizes = probe_bars-keeps 6 config.place 0x10 (omega arith) (omega arith) b x in
      ground (arith, sizes)

  read_header-keeps : (config : PciConfig) → Keeps (read_header ports config)
  unfolding read_header
  read_header-keeps config b x =
      let (t, b') = read_type_0 ports config.place b in
      ground (
        arith,
        read_type_0-keeps config.place b x,
        read_type_1-keeps config.place b x,
        read_type_2-keeps config.place b x,
        pci_get_memory_size-keeps (with_header config (type_0 t)) b' x,
      )

  -- The same function, with the same numbers.
  abbrev pub Agrees : PciConfig → PciConfig → Type 0
  Agrees c config =
      (c.place ≡ config.place) × (c.vendor_id ≡ config.vendor_id) × (c.device_id ≡ config.device_id)

  pci_get_memory_size-Agrees :
      (config : PciConfig) (b : ports.Bus) → Agrees (pci_get_memory_size ports config b).0 config
  unfolding pci_get_memory_size
  pci_get_memory_size-Agrees config b = ground (arith)

  read_header-Agrees :
      (config c : PciConfig) (b : ports.Bus)
      → (read_header ports config b).0 ≡ some c
      → Agrees c config
  unfolding read_header
  read_header-Agrees config c b e =
      let (t, b') = read_type_0 ports config.place b in
      ground (arith, pci_get_memory_size-Agrees (with_header config (type_0 t)) b')

  pub read_config-keeps :
      (at : Place) (vendor_id device_id : ℕ) (unset : Header)
      → Keeps (read_config ports at vendor_id device_id unset)
  unfolding read_config
  read_config-keeps at vendor_id device_id unset b x = simp (read_header-keeps, long, word, byte)

  pub read_config-Agrees :
      (at : Place) (vendor_id device_id : ℕ) (unset : Header) (b : ports.Bus) (c : PciConfig)
      → (read_config ports at vendor_id device_id unset b).0 ≡ some c
      → (c.place ≡ at) × (c.vendor_id ≡ vendor_id) × (c.device_id ≡ device_id)
  unfolding read_config
  read_config-Agrees at vendor_id device_id unset b c e = read_header-Agrees _ c _ e
