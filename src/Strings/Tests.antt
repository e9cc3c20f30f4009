-- ===== src/Strings/Tests.antt =====
-- The routines of string.c on small inputs, and the theorems about them there.
use marimba.Base.{ℕ, ◌-◌, ◌^◌, ◌<◌, ◌≡◌, refl, Option, none, some, arith, ◌==◌, if◌then◌else◌}
use marimba.Strings.{Bytes, strlen, strcpy, strcmp}

-- "ab" at 10, "ac" at 20, and 7 elsewhere.
abbrev two_strings : Bytes
two_strings a =
    if a == 10
    then 97
    else if a == 11
    then 98
    else if a == 12
    then 0
    else if a == 20
    then 97
    else if a == 21
    then 99
    else if a == 22
    then 0
    else 7

strings_compared :
    (strlen 5 10 two_strings ≡ some 2)
    × (strcmp 5 10 10 two_strings ≡ some 0)
    × (strcmp 5 10 20 two_strings ≡ some (2 ^ 32 - 1))
unfolding strlen strcmp
strings_compared = (refl, refl, refl)

-- The copy at 30 has no terminating zero at 32.
abbrev byte_of : Option Bytes → ℕ → Option ℕ
byte_of none a = none
byte_of (some m) a = some (m a)

strcpy_unterminated :
    (byte_of (strcpy 5 30 10 two_strings) 31 ≡ some 98)
    × (byte_of (strcpy 5 30 10 two_strings) 32 ≡ some 7)
unfolding strcpy
strcpy_unterminated = (refl, refl)

two_strings-bytes : (a : ℕ) → two_strings a < 256
two_strings-bytes a = ground arith
