-- ===== src/Pci/Tests.antt =====
-- The search for devices on small inputs, and the theorems about it there.
use marimba.Base.{◌*◌, ◌+◌, ◌/◌, ◌%◌, ◌^◌, ◌≡◌, refl, ◌&&◌, [], ◌∷◌, arith, ◌==◌, if◌then◌else◌}
use marimba.Io.{wrote, read, Reply}
use marimba.Pci.{register, pci_enum, PciDevice, PciState, device_at}
use marimba.Pci.Enumerate.{header, IsPci, Config, pci_enum-finds, all_of, leading}

-- One disk controller at slot 1 of bus 0, and nothing else.
abbrev one_disk : Config
one_disk bus slot func register =
    if (bus == 0) && ((slot == 1) && (func == 0))
    then (if register == 0 then 0x70108086 else if register == 2 then 0x01010000 else 0)
    else 0xFFFFFFFF

-- The data port shows the register of the last address.
abbrev replies : Config → Reply
replies config [] port = 0
replies config (read p ∷ h) port = 0
replies config (wrote p a ∷ h) port =
    config (a / 2 ^ 16 % 2 ^ 15) (a / 2 ^ 11 % 2 ^ 5) (a / 2 ^ 8 % 2 ^ 3) (a % 2 ^ 8 / 4)

one_disk-IsPci : IsPci (replies one_disk) one_disk
one_disk-IsPci = record {
  answers = λ h bus slot func offset b s f o.
      let word = 0x80000000 + bus * 2 ^ 16 + slot * 2 ^ 11 + func * 2 ^ 8 + offset / 4 * 4 in
      let bus_field : word / 2 ^ 16 % 2 ^ 15 ≡ bus = omega arith in
      let slot_field : word / 2 ^ 11 % 2 ^ 5 ≡ slot = omega arith in
      let func_field : word / 2 ^ 8 % 2 ^ 3 ≡ func = omega arith in
      let low : word % 2 ^ 8 / 4 ≡ offset / 4 = omega arith in
      rw bus_field (rw slot_field (rw func_field (rw low refl)));
  words = λ bus slot func register. ground arith;
}

abbrev at_start : PciState
at_start = record { io = []; devices = []; memory = [] }

pci_enum-finds_example :
    (pci_enum (replies one_disk) at_start).devices
    ≡ all_of 256 0 (λ bus. all_of 32 0 (leading 4 0 one_disk bus))
pci_enum-finds_example = pci_enum-finds (replies one_disk) one_disk at_start one_disk-IsPci refl

abbrev disk : PciDevice
disk = device_at 0 1 0 (0x70108086 ∷ 0 ∷ 0x01010000 ∷ 0 ∷ [])

found_on_bus_0 : all_of 32 0 (leading 4 0 one_disk 0) ≡ disk ∷ []
unfolding all_of leading header
found_on_bus_0 = refl

-- Only the drivers of its class are probed.
probed :
    (register 1 1 (λ d n. n + 1) (disk ∷ []) 0 ≡ 1)
    × (register 1 6 (λ d n. n + 1) (disk ∷ []) 0 ≡ 0)
unfolding register
probed = (refl, refl)
