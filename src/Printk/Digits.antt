-- ===== src/Printk/Digits.antt =====
-- The number printers of printk.c print the digits of their argument.
use marimba.Base.{
  ℕ, zero, suc, ◌+◌, ◌-◌, ◌*◌, ◌/◌, ◌%◌, ◌≤◌, ◌<◌, ◌≡◌, refl, ap, ◌∙◌, inl, inr, true, false,
  Option, some, List, [], ◌∷◌, ◌++◌, map, arith, ◌==◌, ==_iff, if◌then◌else◌, Bool-cases, length,
  length-append,
}
use native.Mathlib.Nat.{div-add-mod'}
use marimba.Printk.{write, fill, text_at}

-- What is printed of a number, and its digits: the number is at most `base - 1` times over the
-- digits before it.
abbrev pub value : (base : ℕ) → List ℕ → ℕ → ℕ
value base [] acc = acc
value base (digit ∷ digits) acc = value base digits (acc * base + digit)

abbrev pub All : (ℕ → Type 0) → List ℕ → Type 0
All P [] = Unit
All P (x ∷ xs) = P x × All P xs

abbrev pub first : List ℕ → ℕ
first [] = 0
first (x ∷ xs) = x

All-snoc : (P : ℕ → Type 0) (xs : List ℕ) (x : ℕ) → All P xs → P x → All P (xs ++ x ∷ [])
All-snoc P [] x h p = (p, tt)
All-snoc P (y ∷ xs) x h p = (h.0, All-snoc P xs x h.1 p)

-- The digits of `d`, the highest one first, none if `d` is zero, as long as `n` are enough.
pub digits : (n d base : ℕ) → List ℕ
digits zero d base = []
digits (suc n) d base = if d == 0 then [] else digits n (d / base) base ++ (d % base) ∷ []

unfoldable pub pow : ℕ → ℕ → ℕ
pow base zero = 1
pow base (suc n) = base * pow base n

value-append :
    (base : ℕ) (xs ys : List ℕ) (acc : ℕ)
    → value base (xs ++ ys) acc ≡ value base ys (value base xs acc)
value-append base [] ys acc = refl
value-append base (x ∷ xs) ys acc = value-append base xs ys (acc * base + x)

div-lt-pow : (d base p : ℕ) → 0 < base → d < base * p → d / base < p
div-lt-pow d base p h lt = grind (arith, div-add-mod' d base)

pub value-digits : (n d base : ℕ) → 0 < base → d < pow base n → value base (digits n d base) 0 ≡ d
unfolding digits pow
value-digits zero d base h lt = omega arith
value-digits (suc n) d base h lt = elim (Bool-cases (d == 0)) [
  | inl none_left ↦ rw none_left (ground arith)
  | inr more ↦
      let ih = value-digits n (d / base) base h (div-lt-pow d base (pow base n) h lt) in
      rw (more, value-append base (digits n (d / base) base) ((d % base) ∷ []) 0, ih)
        (div-add-mod' d base)
]

-- A byte in front of the text does not matter to it.
text_at-write : (n p q c : ℕ) (buf : ℕ → ℕ) → q < p → text_at n p (write buf q c) ≡ text_at n p buf
unfolding text_at
text_at-write zero p q c buf h = refl
text_at-write (suc n) p q c buf h =
    let apart : (p == q) ≡ false = ground arith in
    rw (apart, text_at-write n (p + 1) q c buf (omega arith)) refl

text_at-first :
    (p c : ℕ) (buf : ℕ → ℕ)
    → p < 65
    → 0 < c
    → text_at (65 - p) p (write buf p c) ≡ c ∷ text_at (65 - suc p) (suc p) buf
unfolding text_at
text_at-first p c buf h pos =
    let count : 65 - p ≡ suc (65 - suc p) = omega arith in
    let here : (p == p) ≡ true = ground arith in
    let shows : (c == 0) ≡ false = ground arith in
    let next : p + 1 ≡ suc p = omega arith in
    rw (count, here, shows, next, text_at-write (65 - suc p) (suc p) p c buf (omega arith)) refl

-- What the loop leaves in the buffer.
pub record Filled (k : ℕ) (buf : ℕ → ℕ) (r : Option (ℕ × (ℕ → ℕ))) (chars : List ℕ) : Type 0 where
  pub left : ℕ
  pub after : ℕ → ℕ
  pub ends : r ≡ some (left, after)
  pub text : text_at (65 - left) left after ≡ chars ++ text_at (65 - k) k buf

map-snoc :
    (char : ℕ → ℕ) (xs : List ℕ) (x : ℕ) (t : List ℕ)
    → map char xs ++ char x ∷ t ≡ map char (xs ++ x ∷ []) ++ t
map-snoc char [] x t = refl
map-snoc char (y ∷ xs) x t = ap (λ (l : List ℕ). char y ∷ l) (map-snoc char xs x t)

pub fill-digits :
    (n k d base : ℕ) (char : ℕ → ℕ) (buf : ℕ → ℕ)
    → ((i : ℕ) → 0 < char i)
    → 0 < base
    → d < pow base n
    → n ≤ k
    → k < 65
    → Filled k buf (fill k d base char buf) (map char (digits n d base))
unfolding fill digits pow
fill-digits zero zero d base char buf pos h lt le small = record {
  left = 0;
  after = buf;
  ends = rw ((==_iff d 0).1 (omega arith)) refl;
  text = refl;
}
fill-digits zero (suc k) d base char buf pos h lt le small = record {
  left = suc k;
  after = buf;
  ends = rw ((==_iff d 0).1 (omega arith)) refl;
  text = refl;
}
fill-digits (suc n) zero d base char buf pos h lt le small = absurd (omega arith)
fill-digits (suc n) (suc k) d base char buf pos h lt le small = elim (Bool-cases (d == 0)) [
  | inl done ↦ rw done (record { left = suc k; after = buf; ends = refl; text = refl })
  | inr more ↦
      let c = char (d % base) in
      let ih =
        fill-digits n k (d / base) base char (write buf k c) pos h
          (div-lt-pow d base (pow base n) h lt) (omega arith) (omega arith) in
      rw more (record {
        left = ih.left;
        after = ih.after;
        ends = ih.ends;
        text =
            ih.text
            ∙ ap (λ (t : List ℕ). map char (digits n (d / base) base) ++ t)
                (text_at-first k c buf (omega arith) (pos (d % base)))
            ∙ map-snoc char (digits n (d / base) base) (d % base) _;
      })
]

pub digits-lt : (n d base : ℕ) → 0 < base → All (λ i. i < base) (digits n d base)
unfolding digits
digits-lt zero d base h = tt
digits-lt (suc n) d base h = elim (Bool-cases (d == 0)) [
  | inl none_left ↦ rw none_left tt
  | inr more ↦ rw more (
      All-snoc (λ i. i < base) (digits n (d / base) base) (d % base) (digits-lt n (d / base) base h)
        (grind arith))
]

digits-zero : (n d base : ℕ) → d ≡ 0 → digits n d base ≡ []
unfolding digits
digits-zero zero d base h = refl
digits-zero (suc n) d base h = rw ((==_iff d 0).1 h) refl

first-append : (xs ys : List ℕ) → 0 < first xs → 0 < first (xs ++ ys)
first-append [] ys h = absurd (omega arith)
first-append (x ∷ xs) ys h = h

last_digit : (d base : ℕ) → d / base ≡ 0 → d % base ≡ d
last_digit d base h =
    let whole = div-add-mod' d base in
    let split : 0 * base + d % base ≡ d = rw h at whole in omega (arith, split)

pub length-digits : (n d base : ℕ) → length (digits n d base) ≤ n
unfolding digits
length-digits zero d base = omega arith
length-digits (suc n) d base = ground (
  arith,
  length-digits n (d / base) base,
  length-append {0} (digits n (d / base) base) ((d % base) ∷ []),
)

-- A number is printed by digits without a leading zero.
pub first_pos : (n d base : ℕ) → 0 < base → 0 < d → d < pow base n → 0 < first (digits n d base)
unfolding digits pow
first_pos zero d base h p lt = absurd (omega arith)
first_pos (suc n) d base h p lt =
    let more : (d == 0) ≡ false = ground arith in
    rw more (elim (Bool-cases (d / base == 0)) [
      | inl single ↦
          let none_before : digits n (d / base) base ≡ [] =
            digits-zero n (d / base) base ((==_iff _ 0).0 single) in
          let small : d % base ≡ d = last_digit d base ((==_iff _ 0).0 single) in
          rw (none_before, small) p
      | inr several ↦
          first-append (digits n (d / base) base) ((d % base) ∷ [])
            (first_pos n (d / base) base h (ground arith) (div-lt-pow d base (pow base n) h lt))
    ])
