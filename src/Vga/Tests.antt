-- ===== src/Vga/Tests.antt =====
-- The text display on small inputs, and the theorems about it there.
use marimba.Base.{ℕ, zero, suc, ◌≤◌, ◌≡◌, refl, inl, List, [], ◌∷◌, arith, length}
use marimba.Vga.{VgaTextBuffer, display_char, display_str}
use marimba.Vga.Cursor.{IsValid, IsPrinted, display_str-IsValid}

-- A display whose last cell was just written.
abbrev full : VgaTextBuffer
full = record { x = 80; y = 24; cells = λ i. i }

full-IsValid : IsValid full
full-IsValid = record { x_word = omega arith; y_word = omega arith; place = inl (omega arith) }

-- The next character scrolls, and goes to the last row.
scrolls :
    let disp = display_char full 65 in
    (disp.x ≡ 81) × (disp.y ≡ 23) × (disp.cells 0 ≡ 80) × (disp.cells 1920 ≡ 0x0f41)
unfolding display_char
scrolls = (refl, refl, refl, refl)

abbrev line : List ℕ
line = 104 ∷ 105 ∷ 10 ∷ []

display_str-IsValid_example :
    let disp' = display_str full line in
    IsValid disp' × ((i : ℕ) → 2000 ≤ i → disp'.cells i ≡ full.cells i)
display_str-IsValid_example =
    display_str-IsValid full line full-IsValid (omega arith, (omega arith, (omega arith, tt)))
      (omega arith)

abbrev letters : ℕ → List ℕ
letters zero = []
letters (suc n) = 65 ∷ letters n

letters-IsPrinted : (n : ℕ) → IsPrinted (letters n)
letters-IsPrinted zero = tt
letters-IsPrinted (suc n) = (omega arith, omega arith, letters-IsPrinted n)

length-letters : (n : ℕ) → length (letters n) ≡ n
length-letters zero = refl
length-letters (suc n) = omega (arith, length-letters n)
