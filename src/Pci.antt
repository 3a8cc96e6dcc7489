-- ===== src/Pci.antt =====
-- kernel/src/arch/x86_64/pci/pci.c and pci.h: the configuration space of PCI behind two ports. The
-- machine behind the ports is the parameter `Ports`.
pub mod Header
pub mod Devices
pub mod Config
pub mod Scan
pub mod Space
pub mod Address
pub mod Kept
pub mod Listed
pub mod Found
mod Tests
pub mod Sizes
use bikeshed.Prelude.{ℕ, ◌+◌, ◌*◌, ◌/◌, ◌%◌, ◌^◌, bit_and, bit_or, List}

-- _outl, _outw, _outb and _inl, _inw, _inb of support.h, which are single instructions.
pub record Ports : Type 1 where
  pub Bus : Type 0
  pub outl : (port value : ℕ) → Bus → Bus
  pub outw : (port value : ℕ) → Bus → Bus
  pub outb : (port value : ℕ) → Bus → Bus
  pub inl : (port : ℕ) → Bus → ℕ × Bus
  pub inw : (port : ℕ) → Bus → ℕ × Bus
  pub inb : (port : ℕ) → Bus → ℕ × Bus

abbrev pub pci_config_space_port : ℕ
pci_config_space_port = 0xcf8

abbrev pub pci_config_data_port : ℕ
pci_config_data_port = 0xcfc

abbrev pub enable_pci_config_space : ℕ
enable_pci_config_space = 0x80000000

-- A function of a device, by its numbers.
pub record Place : Type 0 where
  pub bus : ℕ
  pub slot : ℕ
  pub function : ℕ

-- The word that selects a register of a function.
unfoldable pub config_address : Place → (offset : ℕ) → ℕ
config_address at offset =
    bit_or
      (bit_or (bit_or (bit_or enable_pci_config_space (at.bus * 2 ^ 16)) (at.slot * 2 ^ 11))
        (at.function * 2 ^ 8))
      (bit_and offset 0xfc)

-- Steps on a state, one after the other.
infixl 5 ◌>>=◌
abbrev pub ◌>>=◌ : {S A B : Type 0} → (S → A × S) → (A → S → B × S) → S → B × S
◌>>=◌ m f s = let (a, s') = m s in f a s'

infixl 5 ◌>>◌
abbrev pub ◌>>◌ : {S B : Type 0} → (S → Unit {0} × S) → (S → B × S) → S → B × S
m >> k = m >>= λ _. k

abbrev pub return : {S A : Type 0} → A → S → A × S
return a s = (a, s)

module _ (ports : Ports) where
  -- What is done on the ports: a result, and the machine afterwards.
  abbrev pub Io : Type 0 → Type 0
  Io A = ports.Bus → A × ports.Bus

  unfoldable pub pci_config_read_long : Place → (offset : ℕ) → Io ℕ
  pci_config_read_long at offset b =
      ports.inl pci_config_data_port (ports.outl pci_config_space_port (config_address at offset) b)

  unfoldable pub pci_config_read_word : Place → (offset : ℕ) → Io ℕ
  pci_config_read_word at offset b =
      ports.inw (pci_config_data_port + bit_and offset 2)
        (ports.outl pci_config_space_port (config_address at offset) b)

  unfoldable pub pci_config_read_byte : Place → (offset : ℕ) → Io ℕ
  pci_config_read_byte at offset b =
      ports.inb (pci_config_data_port + bit_and offset 3)
        (ports.outl pci_config_space_port (config_address at offset) b)

  unfoldable pub pci_config_write_long : Place → (offset value : ℕ) → ports.Bus → ports.Bus
  pci_config_write_long at offset value b =
      ports.outl pci_config_data_port value
        (ports.outl pci_config_space_port (config_address at offset) b)

  unfoldable pub pci_config_write_word : Place → (offset value : ℕ) → ports.Bus → ports.Bus
  pci_config_write_word at offset value b =
      ports.outw (pci_config_data_port + bit_and offset 2) value
        (ports.outl pci_config_space_port (config_address at offset) b)

  unfoldable pub pci_config_write_byte : Place → (offset value : ℕ) → ports.Bus → ports.Bus
  pci_config_write_byte at offset value b =
      ports.outb (pci_config_data_port + bit_and offset 3) value
        (ports.outl pci_config_space_port (config_address at offset) b)
