-- ===== src/Pci/Space.antt =====
-- What the kernel relies on of the ports of PCI: a configuration space of 32-bit registers behind
-- an address and a data port, which only a write to the data port changes.
use bikeshed.Prelude.{ℕ, ◌+◌, ◌*◌, ◌/◌, ◌%◌, ◌^◌, ◌≡◌, bit_and, ◌==◌, if◌then◌else◌}
use bikeshed.Pci.{
  Ports, Place, config_address, pci_config_read_long, pci_config_read_word, pci_config_read_byte,
  pci_config_write_long,
}

-- The configuration mechanism #1 of PCI. `registers b` are the registers by their address, and
-- `settle a old value` is what the one at `a` holds after a write of `value` over `old`.
pub record IsConfigSpace (ports : Ports) (registers : ports.Bus → ℕ → ℕ)
    (settle : (address old value : ℕ) → ℕ) : Type 0 where
  pub long : (b : ports.Bus) (a : ℕ) → (ports.inl 0xcfc (ports.outl 0xcf8 a b)).0 ≡ registers b a
  pub word :
      (b : ports.Bus) (a i : ℕ)
      → (ports.inw (0xcfc + i) (ports.outl 0xcf8 a b)).0 ≡ registers b a / 2 ^ (8 * i) % 2 ^ 16
  pub long_keeps :
      (b : ports.Bus) (a x : ℕ)
      → registers (ports.inl 0xcfc (ports.outl 0xcf8 a b)).1 x ≡ registers b x
  pub word_keeps :
      (b : ports.Bus) (a i x : ℕ)
      → registers (ports.inw (0xcfc + i) (ports.outl 0xcf8 a b)).1 x ≡ registers b x
  pub byte_keeps :
      (b : ports.Bus) (a i x : ℕ)
      → registers (ports.inb (0xcfc + i) (ports.outl 0xcf8 a b)).1 x ≡ registers b x
  pub write :
      (b : ports.Bus) (a value x : ℕ)
      → registers (ports.outl 0xcfc value (ports.outl 0xcf8 a b)) x
        ≡ (if x == a then settle a (registers b a) value else registers b x)

module _ (ports : Ports) (registers : ports.Bus → ℕ → ℕ) (settle : (address old value : ℕ) → ℕ)
    (space : IsConfigSpace ports registers settle) where
  pub read_long-keeps :
      (at : Place) (offset : ℕ) (b : ports.Bus) (x : ℕ)
      → registers (pci_config_read_long ports at offset b).1 x ≡ registers b x
  unfolding pci_config_read_long
  read_long-keeps at offset b x = space.long_keeps b (config_address at offset) x

  pub read_word-keeps :
      (at : Place) (offset : ℕ) (b : ports.Bus) (x : ℕ)
      → registers (pci_config_read_word ports at offset b).1 x ≡ registers b x
  unfolding pci_config_read_word
  read_word-keeps at offset b x = space.word_keeps b (config_address at offset) (bit_and offset 2) x

  pub read_byte-keeps :
      (at : Place) (offset : ℕ) (b : ports.Bus) (x : ℕ)
      → registers (pci_config_read_byte ports at offset b).1 x ≡ registers b x
  unfolding pci_config_read_byte
  read_byte-keeps at offset b x = space.byte_keeps b (config_address at offset) (bit_and offset 3) x

  pub read_long_lem :
      (at : Place) (offset : ℕ) (b : ports.Bus)
      → (pci_config_read_long ports at offset b).0 ≡ registers b (config_address at offset)
  unfolding pci_config_read_long
  read_long_lem at offset b = space.long b (config_address at offset)

  pub read_word_lem :
      (at : Place) (offset : ℕ) (b : ports.Bus)
      → (pci_config_read_word ports at offset b).0
        ≡ registers b (config_address at offset) / 2 ^ (8 * bit_and offset 2) % 2 ^ 16
  unfolding pci_config_read_word
  read_word_lem at offset b = space.word b (config_address at offset) (bit_and offset 2)

  pub write_long_lem :
      (at : Place) (offset value : ℕ) (b : ports.Bus) (x : ℕ)
      → let a = config_address at offset in
        registers (pci_config_write_long ports at offset value b) x
        ≡ (if x == a then settle a (registers b a) value else registers b x)
  unfolding pci_config_write_long
  write_long_lem at offset value b x = space.write b (config_address at offset) value x
