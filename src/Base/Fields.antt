-- ===== src/Base/Fields.antt =====
-- Bit fields: the bitwise or of a shifted number and one below the shift is their sum.
use marimba.Base.{◌%◌}
use Prim.Native.Nat.{
  ◌%◌, ℕ, zero, suc, ◌+◌, ◌*◌, ◌/◌, ◌≤◌, ◌<◌, max, bit_or, digits, bit_or-bitwise, bit_and,
  bit_and-bitwise, min,
}
use mathlib.Core.Path.{◌≡◌, refl, ◌∙◌, subst, sym}
use native.Mathlib.Omega.{arith}

-- `a` shifted by `k` bits.
abbrev pub shifted : ℕ → ℕ → ℕ
shifted zero a = a
shifted (suc k) a = shifted k a * 2

abbrev or_digits : ℕ → ℕ → ℕ → ℕ
or_digits n a b = digits (λ b. b) max n a b

or_digits-0 : (n a : ℕ) → a ≤ n → or_digits n a 0 ≡ a
or_digits-0 zero a h = omega arith
or_digits-0 (suc n) zero h = refl
or_digits-0 (suc n) (suc a) h = omega (arith, or_digits-0 n (suc a / 2) (omega arith))

-- One more digit below: `v` is twice `a`, and `or` with `a` is a sum.
or_digits-twice :
    (n a b v bound : ℕ)
    → ((m c : ℕ) → a ≤ m → c < bound → or_digits m a c ≡ a + c)
    → v ≡ a * 2
    → v ≤ n
    → b < bound * 2
    → or_digits n v b ≡ v + b
or_digits-twice zero a b v bound or_a e h lt = omega arith
or_digits-twice (suc n) a b zero bound or_a e h lt = omega arith
or_digits-twice (suc n) a b (suc v) bound or_a e h lt =
    let half : suc v / 2 ≡ a = omega arith in
    let rest = or_a n (b / 2) (omega arith) (omega arith) in
    omega (arith, subst (λ x. or_digits n x (b / 2) ≡ x + b / 2) (sym half) rest)

or_digits-shifted :
    (k n a b : ℕ)
    → shifted k a ≤ n
    → b < shifted k 1
    → or_digits n (shifted k a) b ≡ shifted k a + b
or_digits-shifted zero n a b h lt =
    let none_below : b ≡ 0 = omega arith in
    subst (λ c. or_digits n a c ≡ a + c) (sym none_below) (omega (arith, or_digits-0 n a h))
or_digits-shifted (suc k) n a b h lt =
    or_digits-twice n (shifted k a) b (shifted (suc k) a) (shifted k 1)
      (λ m c le small. or_digits-shifted k m a c le small) refl h lt

pub bit_or-shifted : (k a b : ℕ) → b < shifted k 1 → bit_or (shifted k a) b ≡ shifted k a + b
bit_or-shifted k a b lt =
    bit_or-bitwise (shifted k a) b ∙ or_digits-shifted k (shifted k a) a b (omega arith) lt

or_digits-below :
    (k n a b : ℕ) → b ≤ n → b < shifted k 1 → or_digits n b (shifted k a) ≡ b + shifted k a
or_digits-below zero n a (suc b) h lt = absurd (omega arith)
or_digits-below zero zero a zero h lt = omega arith
or_digits-below zero (suc n) a zero h lt = omega arith
or_digits-below (suc k) zero a zero h lt = omega arith
or_digits-below (suc k) (suc n) a zero h lt = omega arith
or_digits-below (suc k) zero a (suc b) h lt = absurd (omega arith)
or_digits-below (suc k) (suc n) a (suc b) h lt =
    let half : shifted k a ≡ shifted k a * 2 / 2 = omega arith in
    let rest = or_digits-below k n a (suc b / 2) (omega arith) (omega arith) in
    omega (arith, subst (λ x. or_digits n (suc b / 2) x ≡ suc b / 2 + shifted k a) half rest)

pub bit_or-below : (k a b : ℕ) → b < shifted k 1 → bit_or b (shifted k a) ≡ b + shifted k a
bit_or-below k a b lt = bit_or-bitwise b (shifted k a) ∙ or_digits-below k b a b (omega arith) lt

-- `k` ones.
abbrev ones : ℕ → ℕ
ones zero = 0
ones (suc k) = ones k * 2 + 1

abbrev and_digits : ℕ → ℕ → ℕ → ℕ
and_digits n a b = digits (λ b. 0) min n a b

and_digits-0 : (n a : ℕ) → and_digits n a 0 ≡ 0
and_digits-0 zero a = refl
and_digits-0 (suc n) zero = refl
and_digits-0 (suc n) (suc a) = omega (arith, and_digits-0 n (suc a / 2))

and_digits-ones :
    (k n v q r : ℕ) → v ≡ shifted k q + r → v ≤ n → r < shifted k 1 → and_digits n v (ones k) ≡ r
and_digits-ones zero n v q r e h lt = omega (arith, and_digits-0 n v)
and_digits-ones (suc k) zero v q r e h lt = omega arith
and_digits-ones (suc k) (suc n) zero q r e h lt = omega arith
and_digits-ones (suc k) (suc n) (suc v) q r e h lt =
    let half : ones k ≡ (ones k * 2 + 1) / 2 = omega arith in
    let rest =
      and_digits-ones k n (suc v / 2) q (r / 2) (omega arith) (omega arith) (omega arith) in
    omega (arith, subst (λ x. and_digits n (suc v / 2) x ≡ r / 2) half rest)

-- The 16 low bits.
pub bit_and_word : (v : ℕ) → bit_and v 0xFFFF ≡ v % 65536
bit_and_word v =
    bit_and-bitwise v 0xFFFF
    ∙ and_digits-ones 16 v v (v / 65536) (v % 65536) (omega arith) (omega arith) (omega arith)

pub bit_or_zero : (b : ℕ) → bit_or 0 b ≡ b
bit_or_zero b = bit_or-bitwise 0 b
