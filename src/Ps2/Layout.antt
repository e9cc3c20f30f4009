-- ===== src/Ps2/Layout.antt =====
-- The keys of a US keyboard by scan code set 2, which the table of src/drivers/keyboard/ps2.c is compared with.
use marimba.Base.{
  refl, ℕ, ◌+◌, ◌<◌, ◌≡◌, Bool, true, false, Option, none, some, List, [], ◌∷◌, ◌==◌, ==_iff,
  if◌then◌else◌, get_or,
}
use marimba.Base.Bytes.{passes, at_passes}
use marimba.Ps2.{translate_scan_code}

-- The scan codes of the keys A to Z.
abbrev letter_codes : List ℕ
letter_codes =
    0x1C ∷ 0x32 ∷ 0x21 ∷ 0x23 ∷ 0x24 ∷ 0x2B ∷ 0x34 ∷ 0x33 ∷ 0x43 ∷ 0x3B ∷ 0x42 ∷ 0x4B ∷ 0x3A ∷ 0x31
    ∷ 0x44 ∷ 0x4D ∷ 0x15 ∷ 0x2D ∷ 0x1B ∷ 0x2C ∷ 0x3C ∷ 0x2A ∷ 0x1D ∷ 0x22 ∷ 0x35 ∷ 0x1A ∷ []

-- The row of digits with minus and equals, the space bar and the enter key, and what they type.
abbrev other_codes : List ℕ
other_codes =
    0x16 ∷ 0x1E ∷ 0x26 ∷ 0x25 ∷ 0x2E ∷ 0x36 ∷ 0x3D ∷ 0x3E ∷ 0x46 ∷ 0x45 ∷ 0x4E ∷ 0x55 ∷ 0x29 ∷ 0x5A
    ∷ []

abbrev plain : List ℕ
plain =
    b'1' ∷ b'2' ∷ b'3' ∷ b'4' ∷ b'5' ∷ b'6' ∷ b'7' ∷ b'8' ∷ b'9' ∷ b'0' ∷ b'-' ∷ b'=' ∷ b' ' ∷ 10
    ∷ []

abbrev shifted : List ℕ
shifted =
    b'!' ∷ b'@' ∷ b'#' ∷ b'$' ∷ b'%' ∷ b'^' ∷ b'&' ∷ b'*' ∷ b'(' ∷ b')' ∷ b'_' ∷ b'+' ∷ b' ' ∷ 10
    ∷ []

-- Where a code stands in a list, counted from `i`.
abbrev place : ℕ → ℕ → List ℕ → Option ℕ
place i code [] = none
place i code (c ∷ codes) = if code == c then some i else place (i + 1) code codes

-- What a key types: a letter, upper case under shift; a digit, or the sign above it; for all other keys a question mark.
unfoldable pub us_char : Bool → ℕ → ℕ
us_char shift code = elim (place 0 code letter_codes) [
  | some i ↦ (if shift then b'A' else b'a') + i
  | none ↦ elim (place 0 code other_codes) [
    | some i ↦ get_or (if shift then shifted else plain) i 0
    | none ↦ b'?'
  ]
]

abbrev layout_test : Bool → ℕ → Bool
layout_test shift code = translate_scan_code shift code == us_char shift code

layout_table : (shift : Bool) → passes (layout_test shift) 256 ≡ true
unfolding passes translate_scan_code us_char
layout_table false = refl
layout_table true = refl

pub translate_scan_code-us_char :
    (shift : Bool) (code : ℕ) → code < 256 → translate_scan_code shift code ≡ us_char shift code
translate_scan_code-us_char shift code small =
    (==_iff _ _).0 (at_passes (layout_test shift) 256 (layout_table shift) code small)
