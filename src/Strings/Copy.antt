-- ===== src/Strings/Copy.antt =====
-- What the routines of string.c do with a range of bytes.
use marimba.Base.{
  ℕ, zero, suc, ◌+◌, ◌%◌, ◌≤◌, ◌<◌, ◌≡◌, ◌≢◌, refl, sym, ◌∙◌, ◌⊎◌, inl, inr, false, ◌&&◌, arith,
  ltb, leb, ◌==◌, ==_iff, if◌then◌else◌, Bool-cases,
}
use native.Mathlib.Nat.{add-zero}
use marimba.Base.{◌↔◌}
use marimba.Strings.{Bytes, write, memset, memcpy, memcmp, char_diff}

-- memset writes `c`, cut to a byte, to the `n` bytes from `dest` on, and to no other.
pub memset_lem :
    (dest c n : ℕ) (m : Bytes) (a : ℕ)
    → memset dest c n m a ≡ (if leb dest a && ltb a (dest + n) then c % 256 else m a)
unfolding memset
memset_lem dest c zero m a = ground arith
memset_lem dest c (suc n) m a = ground (arith, memset_lem (dest + 1) c n (write m dest (c % 256)) a)

memcpy-outside :
    (dest src n : ℕ) (m : Bytes) (a : ℕ) → (a < dest) ⊎ (dest + n ≤ a) → memcpy dest src n m a ≡ m a
unfolding memcpy
memcpy-outside dest src zero m a h = refl
memcpy-outside dest src (suc n) m a h =
    ground (arith, memcpy-outside (dest + 1) (src + 1) n (write m dest (m src)) a)

copied :
    (dest src n : ℕ) (m : Bytes)
    → (dest ≤ src) ⊎ (src + n ≤ dest)
    → (i : ℕ) → i < n
    → memcpy dest src n m (dest + i) ≡ m (src + i)
unfolding memcpy
copied dest src zero m h i lt = absurd (omega arith)
copied dest src (suc n) m h zero lt =
    ground (arith, memcpy-outside (dest + 1) (src + 1) n (write m dest (m src)) dest)
copied dest src (suc n) m h (suc i) lt =
    let m' = write m dest (m src) in
    let apart : (dest + 1 ≤ src + 1) ⊎ (src + 1 + n ≤ dest + 1) = ground arith in
    let rest = copied (dest + 1) (src + 1) n m' apart i (omega arith) in
    let to : dest + suc i ≡ dest + 1 + i = omega arith in
    let from : src + suc i ≡ src + 1 + i = omega arith in
    let kept : (src + 1 + i == dest) ≡ false = ground arith in rw (to, from) (rest ∙ rw kept refl)

-- memcpy to a place below its source, overlapping or not, or to one behind the whole of its source,
-- makes the `n` bytes from `dest` on those that were at `src`, and changes no other byte.
pub memcpy_lem :
    (dest src n : ℕ) (m : Bytes)
    → (dest ≤ src) ⊎ (src + n ≤ dest)
    → ((i : ℕ) → i < n → memcpy dest src n m (dest + i) ≡ m (src + i))
      × ((a : ℕ) → (a < dest) ⊎ (dest + n ≤ a) → memcpy dest src n m a ≡ m a)
memcpy_lem dest src n m h = (copied dest src n m h, memcpy-outside dest src n m)

char_diff-zero : (a b : ℕ) → a < 256 → b < 256 → a ≢ b → char_diff a b ≢ 0
char_diff-zero a b ha hb ne = ground arith

memcmp-same :
    (m1 m2 n : ℕ) (m : Bytes)
    → ((a : ℕ) → m a < 256)
    → memcmp m1 m2 n m ≡ 0
    → (i : ℕ) → i < n
    → m (m1 + i) ≡ m (m2 + i)
unfolding memcmp
memcmp-same m1 m2 zero m bytes e i lt = absurd (omega arith)
memcmp-same m1 m2 (suc n) m bytes e i lt = elim (Bool-cases (m m1 == m m2)) [
  | inr differ ↦
      absurd (char_diff-zero (m m1) (m m2) (bytes m1) (bytes m2) (ground arith) (rw differ at e))
  | inl same ↦
      at_place i lt ((==_iff _ _).0 same) (memcmp-same (m1 + 1) (m2 + 1) n m bytes (rw same at e))
]
  where
    at_place :
        (i : ℕ)
        → i < suc n
        → m m1 ≡ m m2
        → ((j : ℕ) → j < n → m (m1 + 1 + j) ≡ m (m2 + 1 + j))
        → m (m1 + i) ≡ m (m2 + i)
    at_place zero lt first others = rw (add-zero m1, add-zero m2) first
    at_place (suc j) lt first others =
        let one : m1 + suc j ≡ m1 + 1 + j = omega arith in
        let two : m2 + suc j ≡ m2 + 1 + j = omega arith in rw (one, two) (others j (omega arith))

same-memcmp :
    (m1 m2 n : ℕ) (m : Bytes) → ((i : ℕ) → i < n → m (m1 + i) ≡ m (m2 + i)) → memcmp m1 m2 n m ≡ 0
unfolding memcmp
same-memcmp m1 m2 zero m h = refl
same-memcmp m1 m2 (suc n) m h =
    let first : m m1 ≡ m m2 = rw (add-zero m1, add-zero m2) at (h 0 (omega arith)) in
    let others : (i : ℕ) → i < n → m (m1 + 1 + i) ≡ m (m2 + 1 + i) =
      λ i lt. rw (sym (add_assoc m1 1 i), sym (add_assoc m2 1 i)) (h (1 + i) (omega arith)) in
    rw ((==_iff _ _).1 first) (same-memcmp (m1 + 1) (m2 + 1) n m others)
  where
    add_assoc : (a b c : ℕ) → a + (b + c) ≡ a + b + c
    add_assoc a b c = omega arith

-- In a memory of bytes, memcmp of two ranges is 0 exactly when they are the same.
pub memcmp-zero :
    (m1 m2 n : ℕ) (m : Bytes)
    → ((a : ℕ) → m a < 256)
    → (memcmp m1 m2 n m ≡ 0) ↔ ((i : ℕ) → i < n → m (m1 + i) ≡ m (m2 + i))
memcmp-zero m1 m2 n m bytes = (memcmp-same m1 m2 n m bytes, same-memcmp m1 m2 n m)
