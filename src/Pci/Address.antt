-- ===== src/Pci/Address.antt =====
-- src/drivers/pci.c: the word that selects a configuration register.
use marimba.Base.{ℕ, ◌+◌, ◌-◌, ◌*◌, ◌/◌, ◌%◌, ◌^◌, ◌<◌, ◌≡◌, ◌∙◌, arith}
use marimba.Base.Bytes.{bit_and_quarter}
use marimba.Base.Fields.{shifted, bit_or-shifted, bit_or-below}
use marimba.Pci.{config_address}

-- The word is the sum of its fields, the lowest two bits of the offset left out.
pub config_address-sum :
    (bus slot func offset : ℕ)
    → bus < 256
    → slot < 32
    → func < 8
    → offset < 256
    → config_address bus slot func offset
      ≡ 0x80000000 + bus * 2 ^ 16 + slot * 2 ^ 11 + func * 2 ^ 8 + offset / 4 * 4
unfolding config_address
config_address-sum bus slot func offset bus_small slot_small func_small offset_small =
    let bus_word : bus * 2 ^ 16 % 2 ^ 32 ≡ shifted 16 bus = omega arith in
    let slot_word : slot * 2 ^ 11 % 2 ^ 32 ≡ slot * 2 ^ 11 = omega arith in
    let func_word : func * 2 ^ 8 % 2 ^ 32 ≡ func * 2 ^ 8 = omega arith in
    let two : shifted 16 bus + slot * 2 ^ 11 ≡ shifted 11 (bus * 32 + slot) = omega arith in
    let three : shifted 11 (bus * 32 + slot) + func * 2 ^ 8
        ≡ shifted 8 (bus * 256 + slot * 8 + func) =
      omega arith in
    let four = shifted 8 (bus * 256 + slot * 8 + func) + offset / 4 * 4 in
    rw bus_word (
      rw slot_word (
        rw func_word (
          rw (bit_and_quarter offset offset_small) (
            rw (bit_or-shifted 16 bus (slot * 2 ^ 11) (omega arith)) (
              rw two (
                rw (bit_or-shifted 11 (bus * 32 + slot) (func * 2 ^ 8) (omega arith)) (
                  rw three (
                    rw
                      (bit_or-shifted 8 (bus * 256 + slot * 8 + func) (offset / 4 * 4)
                        (omega arith))
                      (bit_or-below 31 1 four (omega arith) ∙ omega arith)))))))))

-- The configuration address of a byte-sized register offset has the enable bit, and the bus, the slot,
-- the function and the offset, rounded down to a word, in fields that do not overlap.
pub config_address_lem :
    (bus slot func offset : ℕ)
    → bus < 256
    → slot < 32
    → func < 8
    → offset < 256
    → let address = config_address bus slot func offset in
      (address / 2 ^ 31 ≡ 1)
      × (address / 2 ^ 16 % 2 ^ 15 ≡ bus)
      × (address / 2 ^ 11 % 2 ^ 5 ≡ slot)
      × (address / 2 ^ 8 % 2 ^ 3 ≡ func)
      × (address % 2 ^ 8 ≡ offset - offset % 4)
config_address_lem bus slot func offset b s f o =
    rw (config_address-sum bus slot func offset b s f o)
      (omega arith, omega arith, omega arith, omega arith, omega arith)
