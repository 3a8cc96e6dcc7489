-- ===== src/Pci/Sizes.antt =====
-- kernel/src/arch/x86_64/pci/pci.c: pci_get_memory_size on the address registers of a device.
use bikeshed.Prelude.{
  each, each-at, ℕ, ◌+◌, ◌-◌, ◌*◌, ◌/◌, ◌%◌, ◌^◌, ◌<◌, ◌≤◌, ◌≡◌, refl, sym, ap, ap₂, ◌∙◌, bit_and,
  true, ◌==◌, ltb, if◌then◌else◌, ==_iff, List, [], ◌∷◌, map, length, arith,
}
use native.Mathlib.Nat.{mod-mod, mul-add-mod_self_right, div-add-mod'}
use bikeshed.Pci.{Ports, Place, config_address, pci_config_read_long, pci_config_write_long}
use bikeshed.Pci.Header.{HeaderType0, type_0, PciConfig}
use bikeshed.Pci.Devices.{bar_size, probe_bar, probe_bars, pci_get_memory_size}
use bikeshed.Pci.Space.{IsConfigSpace, read_long-keeps, read_long_lem, write_long_lem}

-- The register of a region of 2 ^ k bytes: its lowest k bits, a type below 16, cannot be written.
unfoldable pub settled : (k old value : ℕ) → ℕ
settled k old value = value / 2 ^ k * 2 ^ k + old % 2 ^ k

-- What the kernel takes for the size of such a region: regions below 16 bytes count as 16.
unfoldable pub reported : ℕ → ℕ
reported k = (if ltb k 4 then 16 else 2 ^ k) % 2 ^ 32

-- All flags of the type, for every size.
all_sizes :
    each
      (λ k.
        each
          (λ r.
            (2 ^ 32 - bit_and (0xffffffff / 2 ^ k * 2 ^ k + r % 2 ^ k) 0xfffffff0) % 2 ^ 32
            == reported k)
          16)
      33
    ≡ true
unfolding each reported
all_sizes = refl

settled-size :
    (k old : ℕ) → k ≤ 32 → old % 2 ^ k < 16 → bar_size (settled k old 0xffffffff) ≡ reported k
unfolding bar_size settled
settled-size k old h r =
    let table = each-at _ 33 k all_sizes (omega arith) in
    let here = (==_iff _ (reported k)).0 (each-at _ 16 (old % 2 ^ k) table r) in
    ap (λ (t : ℕ). (2 ^ 32 - bit_and (0xffffffff / 2 ^ k * 2 ^ k + t) 0xfffffff0) % 2 ^ 32)
      (sym (mod-mod old (2 ^ k)))
    ∙ here

settled_back : (k old value : ℕ) → settled k (settled k old value) old ≡ old
unfolding settled
settled_back k old value =
    ap (λ (t : ℕ). old / 2 ^ k * 2 ^ k + t)
      (mul-add-mod_self_right (value / 2 ^ k) (2 ^ k) (old % 2 ^ k) ∙ mod-mod old (2 ^ k))
    ∙ div-add-mod' old (2 ^ k)

module _ (ports : Ports) (registers : ports.Bus → ℕ → ℕ) (settle : (address old value : ℕ) → ℕ)
    (space : IsConfigSpace ports registers settle) where
  -- The address register of a region of 2 ^ k bytes (for k = 32, of none).
  abbrev pub IsBar : (address k : ℕ) → ports.Bus → Type 0
  IsBar address k b =
      (k ≤ 32)
      × (registers b address % 2 ^ k < 16)
      × ((old value : ℕ) → settle address old value ≡ settled k old value)

  probe_bar_lem :
      (at : Place) (offset k : ℕ) (b : ports.Bus)
      → IsBar (config_address at offset) k b
      → ((probe_bar ports at offset b).0 ≡ reported k)
        × ((x : ℕ) → registers (probe_bar ports at offset b).1 x ≡ registers b x)
  unfolding probe_bar
  probe_bar_lem at offset k b (low, flags, rule) =
      let a = config_address at offset in
      let (orig, b1) = pci_config_read_long ports at offset b in
      let b2 = pci_config_write_long ports at offset 0xffffffff b1 in
      let (size, b3) = pci_config_read_long ports at offset b2 in
      let was = read_long_lem ports registers settle space at offset b in
      let kept = read_long-keeps ports registers settle space at offset b in
      let ones = write_long_lem ports registers settle space at offset 0xffffffff b1 in
      let found = read_long_lem ports registers settle space at offset b2 in
      let kept' = read_long-keeps ports registers settle space at offset b2 in
      let back = write_long_lem ports registers settle space at offset orig b3 in
      let there : registers b2 a ≡ settled k (registers b a) 0xffffffff =
        ground (arith, ones a, kept a, rule (registers b1 a) 0xffffffff) in
      (
        ap bar_size (found ∙ there) ∙ settled-size k (registers b a) low flags,
        λ x. ground (
          arith,
          back x,
          ones x,
          kept x,
          kept' x,
          kept' a,
          there,
          was,
          rule (registers b3 a) orig,
          settled_back k (registers b a) 0xffffffff,
        ),
      )

  -- The registers from `offset` on.
  abbrev pub AreBars : Place → (offset : ℕ) → List ℕ → ports.Bus → Type 0
  AreBars at offset [] b = Unit
  AreBars at offset (k ∷ ks) b = IsBar (config_address at offset) k b × AreBars at (offset + 4) ks b

  AreBars-same :
      (at : Place) (offset : ℕ) (ks : List ℕ) (b b' : ports.Bus)
      → ((x : ℕ) → registers b' x ≡ registers b x)
      → AreBars at offset ks b
      → AreBars at offset ks b'
  AreBars-same at offset [] b b' same h = tt
  AreBars-same at offset (k ∷ ks) b b' same ((low, flags, rule), h) = (
    (low, rw (same (config_address at offset)) flags, rule),
    AreBars-same at (offset + 4) ks b b' same h,
  )

  probe_bars_lem :
      (at : Place) (offset : ℕ) (ks : List ℕ) (b : ports.Bus)
      → AreBars at offset ks b
      → ((probe_bars ports (length ks) at offset b).0 ≡ map reported ks)
        × ((x : ℕ) → registers (probe_bars ports (length ks) at offset b).1 x ≡ registers b x)
  unfolding probe_bars
  probe_bars_lem at offset [] b h = (refl, λ x. refl)
  probe_bars_lem at offset (k ∷ ks) b (h, h') =
      let (size, b') = probe_bar ports at offset b in
      let (found, kept) = probe_bar_lem at offset k b h in
      let (rest, kept') =
        probe_bars_lem at (offset + 4) ks b' (AreBars-same at (offset + 4) ks b b' kept h') in
      (ap₂ (λ (x : ℕ) (xs : List ℕ). x ∷ xs) found rest, λ x. kept' x ∙ kept x)

  pci_get_memory_size-probe_bars :
      (config : PciConfig) (t : HeaderType0) (b : ports.Bus)
      → config.h_type ≡ type_0 t
      → let (sizes, b') = probe_bars ports 6 config.place 0x10 b in
        pci_get_memory_size ports config b
        ≡ (record config { h_type = type_0 (record t { bar_sizes = sizes }) }, b')
  unfolding pci_get_memory_size
  pci_get_memory_size-probe_bars config t b is_0 = ground (arith, is_0)

  -- On a device whose six address registers are those of regions of 2 ^ k bytes,
  -- pci_get_memory_size finds the sizes 2 ^ k (0 for 2 ^ 32, which is a register of no region, and
  -- 16 for less than 16), changes nothing else of the description, and leaves every register of
  -- the configuration space as it was.
  pub pci_get_memory_size-sizes :
      (config : PciConfig) (t : HeaderType0) (ks : List ℕ) (b : ports.Bus)
      → config.h_type ≡ type_0 t
      → length ks ≡ 6
      → AreBars config.place 0x10 ks b
      → let (config', b') = pci_get_memory_size ports config b in
        (config' ≡ record config { h_type = type_0 (record t { bar_sizes = map reported ks }) })
        × ((x : ℕ) → registers b' x ≡ registers b x)
  pci_get_memory_size-sizes config t ks b is_0 six bars =
      let (found, kept) = probe_bars_lem config.place 0x10 ks b bars in
      let found' = rw six at found in
      let kept' = rw six at kept in
      rw (pci_get_memory_size-probe_bars config t b is_0) (
        ap (λ (sizes : List ℕ). record config { h_type = type_0 (record t { bar_sizes = sizes }) })
            found',
        kept',
      )
