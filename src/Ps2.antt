-- ===== src/Ps2.antt =====
-- src/drivers/keyboard/keyboard.c and the decoder of src/drivers/keyboard/ps2.c: from the scan
-- codes that the controller delivers to characters, and the circular buffer that the driver shares
-- with its readers. A character is its code; `none` is a wait for the controller that does not end
-- because it delivers no more bytes.
pub mod Decode
pub mod Buffer
pub mod Layout
pub mod Controller
pub mod Polling
pub mod Setup
pub mod Sessions
mod Tests
mod SessionTests
use marimba.Base.{
  ℕ, zero, suc, ◌+◌, ◌-◌, ◌*◌, ◌/◌, ◌%◌, ◌^◌, ◌≤◌, ◌<◌, ◌≡◌, ◌≢◌, refl, sym, ap, ◌∙◌, ◌⊎◌, inl, inr,
  Bool, true, false, not, ◌&&◌, ◌||◌, Option, none, some, List, [], ◌∷◌, ◌++◌, map, append_assoc,
  append-nil, arith, ltb, leb, ◌==◌, ==_iff, if◌then◌else◌, Bool-cases, length, length-append,
  length-set, get_or, set, has, bit_and, bit_or,
}

abbrev pub left_shift_scan_code : ℕ
left_shift_scan_code = 0x12

abbrev pub right_shift_scan_code : ℕ
right_shift_scan_code = 0x59

abbrev pub released_scan_code : ℕ
released_scan_code = 0xF0

-- The rows of the switch: the code, the character with shift, and the one without.
abbrev pub KeyRow : Type 0
KeyRow = ℕ × ℕ × ℕ

abbrev pub key_rows : List KeyRow
key_rows =
    (0x1c, 65, 97)
    ∷ (0x32, 66, 98)
    ∷ (0x21, 67, 99)
    ∷ (0x23, 68, 100)
    ∷ (0x24, 69, 101)
    ∷ (0x2b, 70, 102)
    ∷ (0x34, 71, 103)
    ∷ (0x33, 72, 104)
    ∷ (0x43, 73, 105)
    ∷ (0x3b, 74, 106)
    ∷ (0x42, 75, 107)
    ∷ (0x4b, 76, 108)
    ∷ (0x3a, 77, 109)
    ∷ (0x31, 78, 110)
    ∷ (0x44, 79, 111)
    ∷ (0x4d, 80, 112)
    ∷ (0x15, 81, 113)
    ∷ (0x2d, 82, 114)
    ∷ (0x1b, 83, 115)
    ∷ (0x2c, 84, 116)
    ∷ (0x3c, 85, 117)
    ∷ (0x2a, 86, 118)
    ∷ (0x1d, 87, 119)
    ∷ (0x22, 88, 120)
    ∷ (0x35, 89, 121)
    ∷ (0x1a, 90, 122)
    ∷ (0x16, 33, 49)
    ∷ (0x1e, 64, 50)
    ∷ (0x26, 35, 51)
    ∷ (0x25, 36, 52)
    ∷ (0x2e, 37, 53)
    ∷ (0x36, 94, 54)
    ∷ (0x3d, 38, 55)
    ∷ (0x3e, 42, 56)
    ∷ (0x46, 40, 57)
    ∷ (0x45, 41, 48)
    ∷ (0x4e, 95, 45)
    ∷ (0x55, 43, 61)
    ∷ (0x5A, 10, 10)
    ∷ (0x29, 32, 32)
    ∷ []

unfoldable pub lookup_row : Bool → ℕ → List KeyRow → ℕ
lookup_row shift code [] = b'?'
lookup_row shift code ((c, upper, lower) ∷ rows) =
    if code == c then (if shift then upper else lower) else lookup_row shift code rows

unfoldable pub translate_scan_code : Bool → ℕ → ℕ
unfolding lookup_row
translate_scan_code shift code = lookup_row shift code key_rows

abbrev pub buff_size : ℕ
buff_size = 128

-- `struct PS2Device`, with the processes blocked on it in order.
pub record Ps2Device : Type 0 where
  pub blocked_procs : List ℕ
  pub shift_pressed : Bool
  pub buffer : List ℕ
  pub pos : ℕ
  pub num_open : ℕ

-- `struct PS2User`: the position that the reader comes to next.
pub record Ps2User : Type 0 where
  pub pos : ℕ

-- `BUFF_POS(pos + 1)`
abbrev pub buff_pos_after : ℕ → ℕ
buff_pos_after p = (p + 1) % buff_size

unfoldable pub consumer_read_next : Ps2Device → Ps2User → ℕ × Ps2User
consumer_read_next dev user =
    (get_or dev.buffer user.pos 0, record { pos = buff_pos_after user.pos })

unfoldable pub producer_add : ℕ → Ps2Device → Ps2Device
producer_add c dev = record dev { buffer = set dev.buffer dev.pos c; pos = buff_pos_after dev.pos }

unfoldable pub consumer_has_bytes : Ps2Device → Ps2User → Bool
consumer_has_bytes dev user = not (user.pos == dev.pos)

abbrev is_shift : ℕ → Bool
is_shift scode = scode == left_shift_scan_code || scode == right_shift_scan_code

-- The part of ps2_read_char behind a release code.
unfoldable pub read_release : Ps2Device → List ℕ → Option (ℕ × Ps2Device × List ℕ)
read_release dev [] = none
read_release dev (scode ∷ bytes) =
    some (0, (if is_shift scode then record dev { shift_pressed = false } else dev), bytes)

-- ps2_read_char: the character or 0, the device, and the bytes that the controller has left. With
-- no byte in the controller it returns 0 at once; behind a release code it waits for one.
unfoldable pub ps2_read_char : Ps2Device → List ℕ → Option (ℕ × Ps2Device × List ℕ)
unfolding translate_scan_code read_release
ps2_read_char dev [] = some (0, dev, [])
ps2_read_char dev (scode ∷ bytes) =
    if is_shift scode
    then some (0, record dev { shift_pressed = true }, bytes)
    else if scode == released_scan_code
    then read_release dev bytes
    else some (translate_scan_code dev.shift_pressed scode, dev, bytes)

-- What an interrupt leaves: the device, the processes that it makes ready, in order, and the bytes.
pub record Interrupted : Type 0 where
  pub dev : Ps2Device
  pub woken : List ℕ
  pub bytes : List ℕ

-- The part of ps2_isr behind the read.
unfoldable pub deliver : ℕ → Ps2Device → List ℕ → Interrupted
unfolding producer_add
deliver c dev bytes = if c == 0 then record { dev = dev; woken = []; bytes = bytes } else record {
  dev = record (producer_add c dev) { blocked_procs = [] };
  woken = dev.blocked_procs;
  bytes = bytes;
}

unfoldable pub ps2_isr : Ps2Device → List ℕ → Option Interrupted
unfolding ps2_read_char deliver
ps2_isr dev bytes = elim (ps2_read_char dev bytes) [
  | none ↦ none
  | some (c, dev', rest) ↦ some (deliver c dev' rest)
]

-- The copying loop of ps2_read.
unfoldable pub read_bytes : Ps2Device → Ps2User → ℕ → List ℕ × Ps2User
unfolding consumer_read_next consumer_has_bytes
read_bytes dev user zero = ([], user)
read_bytes dev user (suc len) =
    let (c, user') = consumer_read_next dev user in
    let rest = read_bytes dev user' len in
    if consumer_has_bytes dev user then (c ∷ rest.0, rest.1) else ([], user)

-- A call of ps2_read up to where it returns, or blocks the process `curr`.
pub data ReadResult : Type 0 where
  blocked : Ps2Device → ReadResult
  returned : List ℕ → Ps2User → ReadResult

unfoldable pub ps2_read : Ps2Device → Ps2User → (len curr : ℕ) → ReadResult
unfolding consumer_has_bytes read_bytes
ps2_read dev user len curr =
    if consumer_has_bytes dev user
    then (let r = read_bytes dev user len in returned r.0 r.1)
    else blocked (record dev { blocked_procs = dev.blocked_procs ++ curr ∷ [] })

-- ps2_open when kmalloc gives it a PS2User; the first opening initialises the controller.
unfoldable pub ps2_open : Ps2Device → Ps2User × Ps2Device
ps2_open dev = (record { pos = dev.pos }, record dev { num_open = dev.num_open + 1 })
