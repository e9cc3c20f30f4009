-- ===== src/Base/Bytes.antt =====
-- Facts about a byte, by evaluation at every value.
use marimba.Base.{leb, ◌*◌}
use Prim.Native.Nat.{◌*◌, ℕ, zero, suc, ◌-◌, ◌/◌, ◌%◌, ◌^◌, ◌<◌, bit_and, bit_or}
use mathlib.Core.Path.{◌≡◌, refl}
use mathlib.Core.Bool.{Bool, true, ◌&&◌}
use native.Mathlib.Omega.{arith}
use marimba.Base.Tests.{◌==◌, ==_iff, if◌then◌else◌}

-- Whether a test passes at all numbers under a bound.
unfoldable pub passes : (ℕ → Bool) → ℕ → Bool
passes test zero = true
passes test (suc bound) = passes test bound && test bound

pub at_passes :
    (test : ℕ → Bool) (bound : ℕ) → passes test bound ≡ true → (v : ℕ) → v < bound → test v ≡ true
unfolding passes
at_passes test zero all v small = absurd (omega arith)
at_passes test (suc bound) all v small =
    let earlier : passes test bound ≡ true → v < bound → test v ≡ true =
      λ h lt. at_passes test bound h v lt in
    ground (arith, earlier)

-- Bit `i` of a number.
abbrev pub bit : ℕ → ℕ → ℕ
bit v i = v / 2 ^ i % 2

-- Every byte, every line and every bit.
all_bits : (ℕ → ℕ → ℕ → Bool) → Bool
unfolding passes
all_bits p = passes (λ v. passes (λ l. passes (λ i. p v l i) 8) 8) 256

at_all_bits :
    (p : ℕ → ℕ → ℕ → Bool) (v l i : ℕ)
    → all_bits p ≡ true
    → v < 256
    → l < 8
    → i < 8
    → p v l i ≡ true
unfolding all_bits
at_all_bits p v l i h hv hl hi =
    let of_byte = at_passes (λ u. passes (λ j. passes (λ k. p u j k) 8) 8) 256 h v hv in
    let of_line = at_passes (λ j. passes (λ k. p v j k) 8) 8 of_byte l hl in
    at_passes (λ k. p v l k) 8 of_line i hi

abbrev set_test : ℕ → ℕ → ℕ → Bool
set_test v l i = bit (bit_or v (2 ^ l % 256)) i == (if i == l then 1 else bit v i)

abbrev clear_test : ℕ → ℕ → ℕ → Bool
clear_test v l i = bit (bit_and v (255 - 2 ^ l % 256)) i == (if i == l then 0 else bit v i)

set_table : all_bits set_test ≡ true
unfolding all_bits
set_table = refl

clear_table : all_bits clear_test ≡ true
unfolding all_bits
clear_table = refl

-- Setting or clearing bit `l` of a byte changes that bit alone.
pub bit-bit_or :
    (v l i : ℕ)
    → v < 256
    → l < 8
    → i < 8
    → bit (bit_or v (2 ^ l % 256)) i ≡ (if i == l then 1 else bit v i)
bit-bit_or v l i hv hl hi = (==_iff _ _).0 (at_all_bits set_test v l i set_table hv hl hi)

pub bit-bit_and :
    (v l i : ℕ)
    → v < 256
    → l < 8
    → i < 8
    → bit (bit_and v (255 - 2 ^ l % 256)) i ≡ (if i == l then 0 else bit v i)
bit-bit_and v l i hv hl hi = (==_iff _ _).0 (at_all_bits clear_test v l i clear_table hv hl hi)

abbrev quarter_test : ℕ → Bool
quarter_test v = bit_and v 0xFC == v / 4 * 4

quarter_table : passes quarter_test 256 ≡ true
unfolding passes
quarter_table = refl

-- A byte less its two lowest bits.
pub bit_and_quarter : (v : ℕ) → v < 256 → bit_and v 0xFC ≡ v / 4 * 4
bit_and_quarter v hv = (==_iff _ _).0 (at_passes quarter_test 256 quarter_table v hv)

abbrev byte_test : ℕ → ℕ → ℕ → Bool
byte_test v l i = leb (bit_or v (2 ^ l % 256)) 255 && leb (bit_and v (255 - 2 ^ l % 256)) 255

byte_table : all_bits byte_test ≡ true
unfolding all_bits
byte_table = refl

-- Setting or clearing a bit of a byte gives a byte.
pub bit_or_small :
    (v l : ℕ)
    → v < 256
    → l < 8
    → (bit_or v (2 ^ l % 256) < 256) × (bit_and v (255 - 2 ^ l % 256) < 256)
bit_or_small v l hv hl =
    let both = at_all_bits byte_test v l 0 byte_table hv hl (omega arith) in
    (ground arith, ground arith)
