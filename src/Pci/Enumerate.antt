-- ===== src/Pci/Enumerate.antt =====
-- src/drivers/pci.c: the devices that PCI_enum finds, against the contents of the configuration space.
use marimba.Base.{
  ◌*◌, ℕ, zero, suc, ◌+◌, ◌/◌, ◌%◌, ◌^◌, ◌≤◌, ◌<◌, ◌≡◌, refl, sym, ap, ◌∙◌, inl, inr, Bool, true,
  List, [], ◌∷◌, ◌++◌, append_assoc, append-nil, arith, ◌==◌, if◌then◌else◌, Bool-cases,
}
use marimba.Base.Fields.{bit_and_word}
use marimba.Pci.Address.{config_address-sum}
use marimba.Io.{wrote, History, Reply}
use marimba.Pci.{
  read_config, read_config_vendor, read_registers, read_config_header, PciDevice, PciState,
  device_at, enum_funcs, enum_device, enum_slots, enum_buses, pci_enum, next_free, rest_free,
}

-- The 32-bit registers of every function.
abbrev pub Config : Type 0
Config = (bus slot func register : ℕ) → ℕ

-- The configuration ports of PCI: behind a word with the enable bit 31, the bus in bits 16 to 23, the slot in bits 11
-- to 15, the function in bits 8 to 10 and the register in bits 2 to 7, the data port shows the register.
pub record IsPci (reply : Reply) (config : Config) : Type 0 where
  pub answers :
      (h : History) (bus slot func offset : ℕ)
      → bus < 256
      → slot < 32
      → func < 8
      → offset < 256
      → reply
          (wrote 0xCF8 (0x80000000 + bus * 2 ^ 16 + slot * 2 ^ 11 + func * 2 ^ 8 + offset / 4 * 4)
            ∷ h)
          0xCFC
        ≡ config bus slot func (offset / 4)
  pub words : (bus slot func register : ℕ) → config bus slot func register < 2 ^ 32

-- What the search should find: of each device the functions 0 to 3, up to the first that is missing.
unfoldable pub header : (config : Config) (bus slot func : ℕ) → List ℕ
header config bus slot func =
    config bus slot func 0
    ∷ config bus slot func 1
    ∷ config bus slot func 2
    ∷ config bus slot func 3
    ∷ []

abbrev pub missing : (config : Config) (bus slot func : ℕ) → Bool
missing config bus slot func = config bus slot func 0 % 2 ^ 16 == 0xFFFF

unfoldable pub leading : (n func : ℕ) (config : Config) (bus slot : ℕ) → List PciDevice
leading zero func config bus slot = []
leading (suc n) func config bus slot =
    let rest = leading n (func + 1) config bus slot in
    if missing config bus slot func
    then []
    else device_at bus slot func (header config bus slot func) ∷ rest

leading-missing :
    (config : Config) (bus slot : ℕ)
    → missing config bus slot 0 ≡ true
    → leading 4 0 config bus slot ≡ []
unfolding leading
leading-missing config bus slot gone = rw gone refl

-- The results of `f` from `i` on, `n` of them, one after another.
unfoldable pub all_of : (n i : ℕ) → (ℕ → List PciDevice) → List PciDevice
all_of zero i f = []
all_of (suc n) i f = f i ++ all_of n (i + 1) f

-- Another state with these devices behind those of the first, and memory still there.
record Adds (found : List PciDevice) (s t : PciState) : Type 0 where
  added : t.devices ≡ s.devices ++ found
  memory : t.memory ≡ []

Adds-trans :
    (xs ys : List PciDevice) (s t u : PciState) → Adds xs s t → Adds ys t u → Adds (xs ++ ys) s u
Adds-trans xs ys s t u a c = record {
  added = c.added ∙ ap (λ ds. ds ++ ys) a.added ∙ append_assoc s.devices xs ys;
  memory = c.memory;
}

module _ (reply : Reply) (config : Config) (pci : IsPci reply config) where
  read_config-config :
      (bus slot func offset : ℕ) (h : History)
      → bus < 256
      → slot < 32
      → func < 8
      → offset < 256
      → (read_config reply bus slot func offset h).0 ≡ config bus slot func (offset / 4)
  unfolding read_config
  read_config-config bus slot func offset h b s f o =
      rw (config_address-sum bus slot func offset b s f o) (
        rw (pci.answers h bus slot func offset b s f o)
          (omega (arith, pci.words bus slot func (offset / 4))))

  read_config_header-header :
      (bus slot func : ℕ) (h : History)
      → bus < 256
      → slot < 32
      → func < 8
      → (read_config_header reply bus slot func h).0 ≡ header config bus slot func
  unfolding read_registers header
  read_config_header-header bus slot func h b s f =
      let h1 = (read_config reply bus slot func 0 h).1 in
      let h2 = (read_config reply bus slot func 4 h1).1 in
      let h3 = (read_config reply bus slot func 8 h2).1 in
      rw (read_config-config bus slot func 0 h b s f (omega arith)) (
        rw (read_config-config bus slot func 4 h1 b s f (omega arith)) (
          rw (read_config-config bus slot func 8 h2 b s f (omega arith))
            (rw (read_config-config bus slot func 12 h3 b s f (omega arith)) refl)))

  enum_funcs-Adds :
      (n func bus slot : ℕ) (s : PciState)
      → bus < 256
      → slot < 32
      → func + n < 8
      → s.memory ≡ []
      → Adds (leading n func config bus slot) s (enum_funcs n func reply bus slot s)
  unfolding enum_funcs leading header
  enum_funcs-Adds zero func bus slot s b d f free = record {
    added = sym (append-nil _);
    memory = free;
  }
  enum_funcs-Adds (suc n) func bus slot s b d f free =
      let hdr = header config bus slot func in
      let h = (read_config_header reply bus slot func s.io).1 in
      let dev = device_at bus slot func hdr in
      let found : PciState = record {
        io = h;
        devices = s.devices ++ dev ∷ [];
        memory = rest_free s.memory;
      } in
      let left : rest_free s.memory ≡ [] = rw free refl in
      let free_now : next_free s.memory ≡ true = rw free refl in
      let rest = enum_funcs-Adds n (func + 1) bus slot found b d (omega arith) left in
      rw (read_config_header-header bus slot func s.io b d (omega arith))
        (elim (Bool-cases (missing config bus slot func)) [
          | inl gone ↦ rw gone (record { added = sym (append-nil _); memory = free })
          | inr there ↦ rw there (
              rw free_now (
                Adds-trans (dev ∷ []) (leading n (func + 1) config bus slot) s found _
                  (record { added = refl; memory = left }) rest))
        ])

  enum_device-Adds :
      (bus slot : ℕ) (s : PciState)
      → bus < 256
      → slot < 32
      → s.memory ≡ []
      → Adds (leading 4 0 config bus slot) s (enum_device reply bus slot s)
  unfolding enum_device read_config_vendor
  enum_device-Adds bus slot s b d free =
      let vendor = read_config-config bus slot 0 0 s.io b d (omega arith) (omega arith) in
      let masked = bit_and_word (config bus slot 0 0) in
      let h = (read_config reply bus slot 0 0 s.io).1 in
      let here = enum_funcs-Adds 4 0 bus slot (record s { io = h }) b d (omega arith) free in
      rw vendor (
        rw masked (elim (Bool-cases (missing config bus slot 0)) [
          | inl gone ↦
              rw (gone, leading-missing config bus slot gone)
                (record { added = sym (append-nil _); memory = free })
          | inr there ↦ rw there (record { added = here.added; memory = here.memory })
        ]))

  enum_slots-Adds :
      (n slot bus : ℕ) (s : PciState)
      → bus < 256
      → slot + n ≤ 32
      → s.memory ≡ []
      → Adds (all_of n slot (leading 4 0 config bus)) s (enum_slots n slot reply bus s)
  unfolding enum_slots all_of
  enum_slots-Adds zero slot bus s b d free = record { added = sym (append-nil _); memory = free }
  enum_slots-Adds (suc n) slot bus s b d free =
      let byte : bus % 2 ^ 8 ≡ bus = omega arith in
      let here = enum_device-Adds bus slot s b (omega arith) free in
      let s' = enum_device reply bus slot s in
      let rest = enum_slots-Adds n (slot + 1) bus s' b (omega arith) here.memory in
      rw byte (Adds-trans (leading 4 0 config bus slot) _ s s' _ here rest)

  enum_buses-Adds :
      (n bus : ℕ) (s : PciState)
      → bus + n ≤ 256
      → s.memory ≡ []
      → Adds (all_of n bus (λ b. all_of 32 0 (leading 4 0 config b))) s (enum_buses n bus reply s)
  unfolding enum_buses all_of
  enum_buses-Adds zero bus s b free = record { added = sym (append-nil _); memory = free }
  enum_buses-Adds (suc n) bus s b free =
      let here = enum_slots-Adds 32 0 bus s (omega arith) (omega arith) free in
      let s' = enum_slots 32 0 reply bus s in
      let rest = enum_buses-Adds n (bus + 1) s' (omega arith) here.memory in
      Adds-trans (all_of 32 0 (leading 4 0 config bus)) _ s s' _ here rest

-- With memory for each device, PCI_enum adds the devices of all 256 buses and 32 slots, in order, and
-- of each one its functions from 0 on up to the first that is missing, four at most.
pub pci_enum-finds :
    (reply : Reply) (config : Config) (s : PciState)
    → IsPci reply config
    → s.memory ≡ []
    → (pci_enum reply s).devices
      ≡ s.devices ++ all_of 256 0 (λ bus. all_of 32 0 (leading 4 0 config bus))
unfolding pci_enum
pci_enum-finds reply config s pci free =
    (enum_buses-Adds reply config pci 256 0 s (omega arith) free).added
