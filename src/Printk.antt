-- ===== src/Printk.antt =====
-- src/printk.c: printing of numbers and the format loop. What is displayed is the sequence of the
-- characters that go to `display_char`; `Console` passes them on to the text display and the serial
-- port. A number is printed into a buffer of 64 bytes from its end, with the terminating zero behind
-- it, at index 64.
pub mod Digits
pub mod Numbers
pub mod Formats
pub mod Console
pub mod Klog
mod Tests
use mathlib.Core.Option
use marimba.Base.{
  ℕ, zero, suc, ◌+◌, ◌-◌, ◌*◌, ◌/◌, ◌%◌, ◌^◌, ◌≤◌, ◌<◌, ◌≡◌, ◌≢◌, refl, sym, ap, ◌∙◌, ◌⊎◌, inl, inr,
  Bool, true, false, not, ◌&&◌, ◌||◌, Option, none, some, List, [], ◌∷◌, ◌++◌, map, append_assoc,
  append-nil, arith, ltb, leb, ◌==◌, ==_iff, if◌then◌else◌, Bool-cases, length, length-append,
  length-set, get_or, set, has, bit_and, bit_or,
}

abbrev pub write : (ℕ → ℕ) → ℕ → ℕ → ℕ → ℕ
write buf p c i = if i == p then c else buf i

abbrev pub dec_char : ℕ → ℕ
dec_char digit = digit + b'0'

-- `base_char` is the letter of the digit ten.
abbrev pub hex_char : (base_char digit : ℕ) → ℕ
hex_char base_char digit = if ltb digit 10 then digit + b'0' else digit - 10 + base_char

-- The loop of DISP_UNSIGNED_VAL_DEC (base 10) and DISP_UNSIGNED_VAL_HEX (base 16) from `cur + 1` equal to
-- `left` on: where it ends, likewise, and the buffer. `none` is a write in front of the buffer.
unfoldable pub fill : (left d base : ℕ) (char : ℕ → ℕ) → (ℕ → ℕ) → Option (ℕ × (ℕ → ℕ))
fill zero d base char buf = if d == 0 then some (zero, buf) else none
fill (suc cur) d base char buf =
    let rest = fill cur (d / base) base char (write buf cur (char (d % base))) in
    if d == 0 then some (suc cur, buf) else rest

-- What display_str shows of the buffer from `p` on; `n` bytes are left up to index 64, that
-- one included.
unfoldable pub text_at : (n p : ℕ) → (ℕ → ℕ) → List ℕ
text_at zero p buf = []
text_at (suc n) p buf = if buf p == 0 then [] else buf p ∷ text_at n (p + 1) buf

abbrev pub shown : Option (ℕ × (ℕ → ℕ)) → Option (List ℕ)
shown none = none
shown (some (left, buf)) = some (text_at (65 - left) left buf)

-- print_u*, with the bytes that the buffer holds before.
unfoldable pub print_unsigned : (base : ℕ) (char : ℕ → ℕ) (buf : ℕ → ℕ) (d : ℕ) → Option (List ℕ)
print_unsigned base char buf d =
    if d == 0 then some (b'0' ∷ []) else shown (fill 64 d base char (write buf 64 0))

-- A variable argument: a 64-bit word, or the text that a pointer leads to.
pub data Arg : Type 0 where
  word : ℕ → Arg
  text : List ℕ → Arg

-- print_int and the like, for the `bits` low bits of an argument.
abbrev pub print_signed : (buf : ℕ → ℕ) (bits d : ℕ) → Option (List ℕ)
print_signed buf bits d =
    if ltb d (2 ^ (bits - 1))
    then print_unsigned 10 dec_char buf d
    else Option.map (λ t. b'-' ∷ t) (print_unsigned 10 dec_char buf (2 ^ bits - d))

-- HANDLE_FORMAT_SPECIFIER for a type of `bits` bits.
unfoldable pub handle_format : (buf : ℕ → ℕ) (bits spec d : ℕ) → Option (List ℕ)
handle_format buf bits spec d =
    if spec == b'u'
    then print_unsigned 10 dec_char buf d
    else if spec == b'd'
    then print_signed buf bits d
    else if spec == b'x'
    then print_unsigned 16 (hex_char b'a') buf d
    else if spec == b'X'
    then print_unsigned 16 (hex_char b'A') buf d
    else some []

-- What `printk` looks at next: a character of the text, the one behind `%`, or the one behind `%` and
-- the length of a type.
pub data Mode : Type 0 where
  plain percent : Mode
  sized : (bits : ℕ) → Mode

abbrev pub is_int_spec : ℕ → Bool
is_int_spec c = c == b'd' || c == b'u' || c == b'x' || c == b'X'

-- The bits of `long`, `short` and `int64_t`; 0 for no length.
abbrev pub length_bits : ℕ → ℕ
length_bits c = if c == b'l' then 64 else if c == b'h' then 16 else if c == b'q' then 64 else 0

-- The switch of printk on the character behind `%`, less the lengths: what is displayed, and the
-- arguments left. `none` is an argument that is missing or of another kind.
unfoldable pub convert : (buf : ℕ → ℕ) (c : ℕ) → List Arg → Option (List ℕ × List Arg)
convert buf c [] =
    if c == b'%'
    then some (b'%' ∷ [], [])
    else if c == b's' || c == b'c' || c == b'p' || is_int_spec c
    then none
    else some ([], [])
convert buf c (text s ∷ args) =
    if c == b's'
    then some (s, args)
    else if c == b'%'
    then some (b'%' ∷ [], text s ∷ args)
    else if c == b'c' || c == b'p' || is_int_spec c
    then none
    else some ([], text s ∷ args)
convert buf c (word d ∷ args) =
    if c == b's'
    then none
    else if c == b'c'
    then some ((d % 256) ∷ [], args)
    else if c == b'p'
    then Option.map (λ t. (b'0' ∷ b'x' ∷ t, args))
        (print_unsigned 16 (hex_char b'a') buf (d % 2 ^ 64))
    else if is_int_spec c
    then Option.map (λ t. (t, args)) (handle_format buf 32 c (d % 2 ^ 32))
    else if c == b'%'
    then some (b'%' ∷ [], word d ∷ args)
    else some ([], word d ∷ args)

-- The same behind a length.
unfoldable pub convert_sized : (buf : ℕ → ℕ) (bits c : ℕ) → List Arg → Option (List ℕ × List Arg)
convert_sized buf bits c [] = none
convert_sized buf bits c (text s ∷ args) = none
convert_sized buf bits c (word d ∷ args) =
    Option.map (λ t. (t, args)) (handle_format buf bits c (d % 2 ^ bits))

-- The loop of printk over the format: what is displayed. `none` is also a read behind the format's
-- end, where it stops within a directive. `buf` is what the number printers' buffer holds before.
unfoldable pub format : (buf : ℕ → ℕ) → Mode → List ℕ → List Arg → Option (List ℕ)
unfolding convert convert_sized
format buf plain [] args = some []
format buf percent [] args = none
format buf (sized bits) [] args = none
format buf plain (c ∷ fmt) args =
    let directive = format buf percent fmt args in
    let rest = format buf plain fmt args in
    if c == b'%' then directive else Option.map (λ t. c ∷ t) rest
format buf percent (c ∷ fmt) args =
    let longer = format buf (sized (length_bits c)) fmt args in
    if length_bits c == 0
    then elim (convert buf c args) [
      | none ↦ none
      | some (t, args') ↦ Option.map (λ r. t ++ r) (format buf plain fmt args')
    ]
    else longer
format buf (sized bits) (c ∷ fmt) args = elim (convert_sized buf bits c args) [
  | none ↦ none
  | some (t, args') ↦ Option.map (λ r. t ++ r) (format buf plain fmt args')
]

unfoldable pub printk : (buf : ℕ → ℕ) (fmt : List ℕ) → List Arg → Option (List ℕ)
printk buf fmt args = format buf plain fmt args
