-- ===== src/Pci.antt =====
-- src/drivers/pci.c: configuration reads, the search for devices and the probing of drivers. The
-- hardware is a `Reply` of the two configuration ports. A device on the list is its record; the
-- headers are the 32-bit words that are read into them.
pub mod Address
pub mod Enumerate
mod Tests
use marimba.Base.{
  ℕ, zero, suc, ◌+◌, ◌*◌, ◌/◌, ◌%◌, ◌^◌, ◌≡◌, refl, Bool, true, false, ◌&&◌, Option, none, some,
  List, [], ◌∷◌, ◌++◌, arith, ◌==◌, if◌then◌else◌, get_or, bit_and, bit_or,
}
use marimba.Io.{PortEvent, History, Reply, inl, out}

abbrev pub config_addr : ℕ
config_addr = 0xCF8

abbrev pub config_data : ℕ
config_data = 0xCFC

-- The arguments are bytes, as in the source.
unfoldable pub config_address : (bus slot func offset : ℕ) → ℕ
config_address bus slot func offset =
    bit_or
      (bit_or
        (bit_or (bit_or (bus * 2 ^ 16 % 2 ^ 32) (slot * 2 ^ 11 % 2 ^ 32)) (func * 2 ^ 8 % 2 ^ 32))
        (bit_and offset 0xFC))
      0x80000000

unfoldable pub read_config : Reply → (bus slot func offset : ℕ) → History → ℕ × History
read_config reply bus slot func offset h =
    inl reply config_data (out config_addr (config_address bus slot func offset) h)

unfoldable pub read_config_vendor : Reply → (bus slot func : ℕ) → History → ℕ × History
read_config_vendor reply bus slot func h =
    let (tmp, h') = read_config reply bus slot func 0 h in (bit_and tmp 0xFFFF, h')

-- The words of a header from register `first` on.
unfoldable pub read_registers :
    (n first : ℕ) → Reply → (bus slot func : ℕ) → History → List ℕ × History
read_registers zero first reply bus slot func h = ([], h)
read_registers (suc n) first reply bus slot func h =
    let (w, h') = read_config reply bus slot func (first * 4 % 2 ^ 8) h in
    let (ws, h'') = read_registers n (first + 1) reply bus slot func h' in (w ∷ ws, h'')

abbrev pub read_config_header : Reply → (bus slot func : ℕ) → History → List ℕ × History
read_config_header = read_registers 4 0

-- The fields of `struct PCIConfigHeader`.
abbrev pub vendor_id : List ℕ → ℕ
vendor_id hdr = get_or hdr 0 0 % 2 ^ 16

abbrev pub device_id : List ℕ → ℕ
device_id hdr = get_or hdr 0 0 / 2 ^ 16

abbrev pub sub_class : List ℕ → ℕ
sub_class hdr = get_or hdr 2 0 / 2 ^ 16 % 2 ^ 8

abbrev pub class : List ℕ → ℕ
class hdr = get_or hdr 2 0 / 2 ^ 24

abbrev pub header_type : List ℕ → ℕ
header_type hdr = get_or hdr 3 0 / 2 ^ 16 % 2 ^ 8

pub record DevId : Type 0 where
  pub vendor : ℕ
  pub device : ℕ
  pub class_id : ℕ
  pub sub : ℕ

pub record PciDevice : Type 0 where
  pub id : DevId
  pub bus : ℕ
  pub slot : ℕ
  pub func : ℕ
  pub hdr : List ℕ

-- PCI_read_config_header_0: the whole header, or `none` for -1.
unfoldable pub read_config_header_0 : Reply → PciDevice → History → Option (List ℕ) × History
read_config_header_0 reply dev h =
    let (bars, h') = read_registers 6 4 reply dev.bus dev.slot dev.func h in
    if header_type dev.hdr == 0 then (some (dev.hdr ++ bars), h') else (none, h)

-- The ports, the devices found, and what kmalloc does at each call: whether there is memory. Behind the
-- end of that list there always is.
pub record PciState : Type 0 where
  pub io : History
  pub devices : List PciDevice
  pub memory : List Bool

abbrev pub next_free : List Bool → Bool
next_free [] = true
next_free (free ∷ frees) = free

abbrev pub rest_free : List Bool → List Bool
rest_free [] = []
rest_free (free ∷ frees) = frees

abbrev pub device_at : (bus slot func : ℕ) → List ℕ → PciDevice
device_at bus slot func hdr = record {
  id = record {
    vendor = vendor_id hdr;
    device = device_id hdr;
    class_id = class hdr;
    sub = sub_class hdr;
  };
  bus = bus;
  slot = slot;
  func = func;
  hdr = hdr;
}

-- The functions of a device from `func` on, `n` of them; the result of pci_enum_device is not used.
unfoldable pub enum_funcs : (n func : ℕ) → Reply → (bus slot : ℕ) → PciState → PciState
enum_funcs zero func reply bus slot s = s
enum_funcs (suc n) func reply bus slot s =
    let (hdr, h) = read_config_header reply bus slot func s.io in
    let found : PciState = record {
      io = h;
      devices = s.devices ++ device_at bus slot func hdr ∷ [];
      memory = rest_free s.memory;
    } in
    let rest = enum_funcs n (func + 1) reply bus slot found in
    if vendor_id hdr == 0xFFFF
    then record s { io = h }
    else if next_free s.memory
    then rest
    else record s { io = h; memory = rest_free s.memory }

unfoldable pub enum_device : Reply → (bus slot : ℕ) → PciState → PciState
enum_device reply bus slot s =
    let (vendor, h) = read_config_vendor reply bus slot 0 s.io in
    if vendor == 0xFFFF
    then record s { io = h }
    else enum_funcs 4 0 reply bus slot (record s { io = h })

-- The two loops of PCI_enum; the bus is a byte where it is passed on.
unfoldable pub enum_slots : (n slot : ℕ) → Reply → (bus : ℕ) → PciState → PciState
enum_slots zero slot reply bus s = s
enum_slots (suc n) slot reply bus s =
    enum_slots n (slot + 1) reply bus (enum_device reply (bus % 2 ^ 8) slot s)

unfoldable pub enum_buses : (n bus : ℕ) → Reply → PciState → PciState
enum_buses zero bus reply s = s
enum_buses (suc n) bus reply s = enum_buses n (bus + 1) reply (enum_slots 32 0 reply bus s)

unfoldable pub pci_enum : Reply → PciState → PciState
pci_enum reply = enum_buses 256 0 reply

-- PCI_register, with the driver's `probe` as a change of some state.
unfoldable pub register {ℓ} :
    {S : Type ℓ} → (class_id sub : ℕ) → (PciDevice → S → S) → List PciDevice → S → S
register class_id sub probe [] s = s
register class_id sub probe (dev ∷ devs) s =
    register class_id sub probe devs
      (if (dev.id.class_id == class_id) && (dev.id.sub == sub) then probe dev s else s)
