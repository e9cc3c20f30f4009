-- ===== src/Printk/Numbers.antt =====
-- What the number printers of printk.c show.
use marimba.Base.{
  ℕ, suc, ◌+◌, ◌-◌, ◌^◌, ◌≤◌, ◌<◌, ◌≡◌, refl, sym, ap, ◌∙◌, ◌⊎◌, inl, inr, some, List, [], ◌∷◌, map,
  append-nil, arith, ltb, ◌==◌, ==_iff, if◌then◌else◌, Bool-cases, length,
}
use marimba.Printk.{write, dec_char, hex_char, text_at, print_unsigned}
use marimba.Printk.Digits.{
  value, All, first, digits, pow, value-digits, digits-lt, length-digits, first_pos, fill-digits,
}

-- The text of a number in a base, with the reading `read` of its characters: read back it gives the
-- number, its characters are digits, the first one is zero only for zero, and it has at most `n`.
pub record IsNumber (base : ℕ) (read : ℕ → ℕ) (n d : ℕ) (text : List ℕ) : Type 0 where
  pub number : value base (map read text) 0 ≡ d
  pub digits : All (λ i. i < base) (map read text)
  pub no_zero : (d ≡ 0) ⊎ (0 < first (map read text))
  pub at_most : length text ≤ n
  pub some_digit : 0 < length text

map_back :
    (char read : ℕ → ℕ) (base : ℕ) (xs : List ℕ)
    → ((i : ℕ) → i < base → read (char i) ≡ i)
    → All (λ i. i < base) xs
    → map read (map char xs) ≡ xs
map_back char read base [] back all = refl
map_back char read base (x ∷ xs) back all =
    rw (back x all.0, map_back char read base xs back all.1) refl

length-map : (f : ℕ → ℕ) (xs : List ℕ) → length (map f xs) ≡ length xs
length-map f [] = refl
length-map f (x ∷ xs) = ap suc (length-map f xs)

first-length : (xs : List ℕ) → 0 < first xs → 0 < length xs
first-length [] h = h
first-length (x ∷ xs) h = omega arith

terminated : (buf : ℕ → ℕ) → text_at (65 - 64) 64 (write buf 64 0) ≡ []
unfolding text_at
terminated buf = refl

print_unsigned-IsNumber :
    (n d base : ℕ) (char read buf : ℕ → ℕ)
    → ((i : ℕ) → 0 < char i)
    → ((i : ℕ) → i < base → read (char i) ≡ i)
    → char 0 ≡ b'0'
    → 1 < base
    → 0 < n
    → n ≤ 64
    → d < pow base n
    → (text : List ℕ) × (print_unsigned base char buf d ≡ some text) × IsNumber base read n d text
unfolding print_unsigned
print_unsigned-IsNumber n d base char read buf pos back zero_char h some_n small lt =
    elim (Bool-cases (d == 0)) [
      | inl none_left ↦
          let is_zero = (==_iff d 0).0 none_left in
          let shows : read b'0' ≡ 0 = ap read (sym zero_char) ∙ back 0 (omega arith) in
          (
            b'0' ∷ [],
            rw none_left refl,
            record {
              number = rw shows (omega (arith, is_zero));
              digits = (rw shows (omega arith), tt);
              no_zero = inl is_zero;
              at_most = omega arith;
              some_digit = omega arith;
            },
          )
      | inr more ↦
          let ds = digits n d base in
          let filled =
            fill-digits n 64 d base char (write buf 64 0) pos (omega arith) lt small
              (omega arith) in
          let same : map read (map char ds) ≡ ds =
            map_back char read base ds back (digits-lt n d base (omega arith)) in
          let lead = first_pos n d base (omega arith) (ground arith) lt in
          (
            map char ds,
            rw (more, filled.ends, filled.text, terminated buf, append-nil (map char ds)) refl,
            record {
              number = rw same (value-digits n d base (omega arith) lt);
              digits = rw same (digits-lt n d base (omega arith));
              no_zero = inr (rw same lead);
              at_most = omega (arith, length-map char ds, length-digits n d base);
              some_digit = omega (arith, length-map char ds, first-length ds lead);
            },
          )
    ]

-- The values of a decimal and of a hexadecimal digit.
abbrev pub dec_value : ℕ → ℕ
dec_value c = c - b'0'

abbrev pub hex_value : (base_char c : ℕ) → ℕ
hex_value base_char c = if ltb c b'A' then c - b'0' else c - base_char + 10

-- print_uint64_t and the other decimal printers show every number below 2 ^ 64 by its decimal digits:
-- read back they give the number, none of the at most 20 is a leading zero, and the buffer is never
-- written in front of its start.
pub print_unsigned-dec :
    (buf : ℕ → ℕ) (d : ℕ)
    → d < 2 ^ 64
    → (text : List ℕ) × (print_unsigned 10 dec_char buf d ≡ some text)
      × IsNumber 10 dec_value 20 d text
unfolding pow
print_unsigned-dec buf d h =
    print_unsigned-IsNumber 20 d 10 dec_char dec_value buf (λ i. omega arith) (λ i lt. omega arith)
      refl (omega arith) (omega arith) (omega arith) (omega arith)

-- The hexadecimal printers show every number below 2 ^ 64 by its at most 16 hexadecimal digits, with
-- the letters from `base_char` on for the digits from ten on, wherever that is a letter of the
-- alphabet's start (`a` or `A`).
pub print_unsigned-hex :
    (base_char : ℕ) (buf : ℕ → ℕ) (d : ℕ)
    → b'A' ≤ base_char
    → d < 2 ^ 64
    → (text : List ℕ) × (print_unsigned 16 (hex_char base_char) buf d ≡ some text)
      × IsNumber 16 (hex_value base_char) 16 d text
unfolding pow
print_unsigned-hex base_char buf d letter h =
    print_unsigned-IsNumber 16 d 16 (hex_char base_char) (hex_value base_char) buf
      (λ i. ground arith) (λ i lt. ground arith) refl (omega arith) (omega arith) (omega arith)
      (omega arith)
