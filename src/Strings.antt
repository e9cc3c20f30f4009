-- ===== src/Strings.antt =====
-- src/string.c: the copying, filling and comparing of bytes. Memory is a map from addresses to
-- bytes; an `int` is its 32-bit word. A string that has no terminating zero within `fuel` bytes has
-- no length.
pub mod Copy
mod Tests
use marimba.Base.{
  ℕ, zero, suc, ◌+◌, ◌-◌, ◌*◌, ◌/◌, ◌%◌, ◌^◌, ◌≤◌, ◌<◌, ◌≡◌, ◌≢◌, refl, sym, ap, ◌∙◌, ◌⊎◌, inl, inr,
  Bool, true, false, not, ◌&&◌, ◌||◌, Option, none, some, List, [], ◌∷◌, ◌++◌, map, append_assoc,
  append-nil, arith, ltb, leb, ◌==◌, ==_iff, if◌then◌else◌, Bool-cases, length, length-append,
  length-set, get_or, set, has, bit_and, bit_or,
}

abbrev pub Bytes : Type 0
Bytes = ℕ → ℕ

abbrev pub write : Bytes → ℕ → ℕ → Bytes
write m p c a = if a == p then c else m a

-- The loop of memset over `n` bytes.
unfoldable pub memset : (dest c n : ℕ) → Bytes → Bytes
memset dest c zero m = m
memset dest c (suc n) m = memset (dest + 1) c n (write m dest (c % 256))

-- The loop of memcpy over `n` bytes: byte by byte upwards, also where the two ranges overlap.
unfoldable pub memcpy : (dest src n : ℕ) → Bytes → Bytes
memcpy dest src zero m = m
memcpy dest src (suc n) m = memcpy (dest + 1) (src + 1) n (write m dest (m src))

-- A `char` as an `int`, and the difference of two.
abbrev pub int_of : ℕ → ℕ
int_of c = if ltb c 128 then c else c + (2 ^ 32 - 256)

abbrev pub char_diff : ℕ → ℕ → ℕ
char_diff a b = (int_of a + 2 ^ 32 - int_of b) % 2 ^ 32

unfoldable pub memcmp : (m1 m2 n : ℕ) → Bytes → ℕ
memcmp m1 m2 zero m = 0
memcmp m1 m2 (suc n) m =
    let rest = memcmp (m1 + 1) (m2 + 1) n m in
    if m m1 == m m2 then rest else char_diff (m m1) (m m2)

unfoldable pub strlen : (fuel s : ℕ) → Bytes → Option ℕ
strlen zero s m = none
strlen (suc fuel) s m =
    let rest = strlen fuel (s + 1) m in
    if m s == 0 then some 0 else elim rest [ none ↦ none | some n ↦ some (n + 1) ]

-- The loop of strcpy, which copies a byte before it looks at the next one.
unfoldable pub strcpy : (fuel dest src : ℕ) → Bytes → Option Bytes
strcpy zero dest src m = none
strcpy (suc fuel) dest src m =
    let m' = write m dest (m src) in
    let rest = strcpy fuel (dest + 1) (src + 1) m' in if m' (src + 1) == 0 then some m' else rest

unfoldable pub strcmp : (fuel s1 s2 : ℕ) → Bytes → Option ℕ
strcmp zero s1 s2 m = none
strcmp (suc fuel) s1 s2 m =
    let rest = strcmp fuel (s1 + 1) (s2 + 1) m in
    if m s1 == 0 || m s2 == 0
    then (if m s1 == 0 && m s2 == 0 then some 0 else some (char_diff (m s1) (m s2)))
    else if m s1 == m s2
    then rest
    else some (char_diff (m s1) (m s2))
