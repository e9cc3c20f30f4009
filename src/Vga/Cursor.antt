-- ===== src/Vga/Cursor.antt =====
-- Where the cursor of vga.c can stand, and whether the driver writes inside the display.
use marimba.Base.{
  ℕ, zero, suc, ◌+◌, ◌-◌, ◌*◌, ◌/◌, ◌%◌, ◌^◌, ◌≤◌, ◌<◌, ◌≡◌, ◌≢◌, refl, ◌∙◌, ◌⊎◌, inl, inr, List,
  [], ◌∷◌, arith, ◌==◌, ==_iff, Bool-cases, length,
}
use marimba.Vga.{
  VgaTextBuffer, index, cell_of, clear, make_room, put_char, display_char, display_str,
}

-- The cursor is at a cell of the display or just behind the last one. When more than the whole
-- display was written without a new line, `y` has wrapped below zero, and `x` makes up for it.
pub record IsValid (disp : VgaTextBuffer) : Type 0 where
  pub x_word : disp.x < 2 ^ 32
  pub y_word : disp.y < 2 ^ 32
  pub place :
      (disp.y * 80 + disp.x ≤ 2000)
      ⊎ (((2 ^ 32 - disp.y) * 80 ≤ disp.x) × (disp.x ≤ (2 ^ 32 - disp.y) * 80 + 2000))

-- A carriage return is harmless unless the row has wrapped, or is about to.
abbrev pub IsHarmless : VgaTextBuffer → ℕ → Type 0
IsHarmless disp c = (c ≢ 13) ⊎ ((disp.y * 80 + disp.x ≤ 2000) × (disp.x < 2000))

index-le : (disp : VgaTextBuffer) → IsValid disp → index disp ≤ 2000
index-le disp v = elim v.place [
  | inl plain ↦ omega arith
  | inr wrapped ↦ omega (arith, wrapped.0, wrapped.1)
]

-- What a row number means with the column beside it.
abbrev Place : ℕ → ℕ → Type 0
Place x y = (y * 80 + x ≤ 2000) ⊎ (((2 ^ 32 - y) * 80 ≤ x) × (x ≤ (2 ^ 32 - y) * 80 + 2000))

-- Scrolled up by one row, the cursor behind the display is at the start of the last row.
scrolled-Place :
    (x y y' : ℕ)
    → y < 2 ^ 32
    → x < 2 ^ 32
    → (y * 80 + x) % 2 ^ 32 ≡ 2000
    → y' ≡ (y + (2 ^ 32 - 1)) % 2 ^ 32
    → Place x y
    → ((y' * 80 + x) % 2 ^ 32 ≡ 1920) × Place x y'
scrolled-Place x zero y' hy hx e e' (inl plain) = (omega arith, inr (omega arith, omega arith))
scrolled-Place x (suc y) y' hy hx e e' (inl plain) =
    let same : y' ≡ y = omega arith in (omega arith, inl (omega arith))
scrolled-Place x y y' hy hx e e' (inr wrapped) =
    let same : y' + 1 ≡ y = omega (arith, wrapped.0) in
    (
      omega (arith, wrapped.0, wrapped.1),
      inr (omega (arith, wrapped.0, wrapped.1), omega (arith, wrapped.0, wrapped.1)),
    )

-- A new line leaves at most the place behind the display.
newline-Place :
    (x y y' : ℕ)
    → y < 2 ^ 32
    → x < 2 ^ 32
    → (y * 80 + x) % 2 ^ 32 < 2000
    → y' ≡ (y + (1 + x / 80)) % 2 ^ 32
    → Place x y
    → y' * 80 ≤ 2000
newline-Place x y y' hy hx e e' (inl plain) = omega arith
newline-Place x y y' hy hx e e' (inr wrapped) = omega (arith, wrapped.0, wrapped.1)

-- Behind the test for room the cursor is at a cell of the display.
record HasRoom (disp : VgaTextBuffer) (c : ℕ) (disp' : VgaTextBuffer) : Type 0 where
  valid : IsValid disp'
  room : index disp' < 2000
  same_x : disp'.x ≡ disp.x
  harmless : (c ≢ 13) ⊎ (disp'.y * 80 + disp'.x ≤ 2000)
  behind : (i : ℕ) → 2000 ≤ i → disp'.cells i ≡ disp.cells i

make_room-HasRoom :
    (disp : VgaTextBuffer) (c : ℕ)
    → IsValid disp
    → IsHarmless disp c
    → HasRoom disp c (make_room disp)
unfolding make_room
make_room-HasRoom disp c v h = elim (Bool-cases (index disp == 2000)) [
  | inl full ↦
      let e = (==_iff _ 2000).0 full in
      let up = scrolled-Place disp.x disp.y _ v.y_word v.x_word e refl v.place in
      rw full (record {
        valid = record { x_word = v.x_word; y_word = omega arith; place = up.1 };
        room = omega (arith, up.0);
        same_x = refl;
        harmless = elim h [
          | inl other ↦ inl other
          | inr early ↦ inr (omega (arith, early.0, early.1))
        ];
        behind = λ i b. ground arith;
      })
  | inr some_room ↦ rw some_room (record {
    valid = v;
    room = ground (arith, index-le disp v);
    same_x = refl;
    harmless = elim h [ inl other ↦ inl other | inr early ↦ inr early.0 ];
    behind = λ i b. refl;
  })
]

put_char-IsValid :
    (disp disp' : VgaTextBuffer) (c : ℕ)
    → disp.x + 1 < 2 ^ 32
    → HasRoom disp c disp'
    → IsValid (put_char disp' c) × ((i : ℕ) → 2000 ≤ i → (put_char disp' c).cells i ≡ disp.cells i)
unfolding put_char
put_char-IsValid disp disp' c small r = elim (Bool-cases (c == 10)) [
  | inl newline ↦
      let row =
        newline-Place disp'.x disp'.y _ r.valid.y_word r.valid.x_word r.room refl r.valid.place in
      rw newline (
        record { x_word = omega arith; y_word = omega arith; place = inl (omega (arith, row)) },
        r.behind,
      )
  | inr other ↦ elim (Bool-cases (c == 13)) [
    | inl return ↦
        rw (other, return)
          (
            record {
              x_word = omega arith;
              y_word = r.valid.y_word;
              place = elim r.harmless [
                | inl no_return ↦ absurd (no_return ((==_iff c 13).0 return))
                | inr plain ↦ inl (omega arith)
              ];
            },
            r.behind,
          )
    | inr printed ↦
        rw (other, printed)
          (
            record {
              x_word = omega arith;
              y_word = r.valid.y_word;
              place = elim r.valid.place [
                | inl plain ↦ inl (omega (arith, r.room, r.same_x))
                | inr wrapped ↦ inr (
                  omega (arith, wrapped.0, wrapped.1, r.room, r.same_x),
                  omega (arith, wrapped.0, wrapped.1, r.room, r.same_x),
                )
              ];
            },
            λ i b. ground (arith, r.room, r.behind i),
          )
  ]
]

-- VGA_display_char keeps the cursor valid and writes no cell behind the display, for every character
-- but a carriage return, and for that one as long as the row has not wrapped below zero and is not
-- about to; at most 2 ^ 32 - 2 characters stand before the cursor since the last new line.
pub display_char-IsValid :
    (disp : VgaTextBuffer) (c : ℕ)
    → IsValid disp
    → disp.x + 1 < 2 ^ 32
    → IsHarmless disp c
    → let disp' = display_char disp c in
      IsValid disp' × ((i : ℕ) → 2000 ≤ i → disp'.cells i ≡ disp.cells i)
unfolding display_char
display_char-IsValid disp c v small h =
    put_char-IsValid disp (make_room disp) c small (make_room-HasRoom disp c v h)

x-display_char : (disp : VgaTextBuffer) (c : ℕ) → (display_char disp c).x ≤ disp.x + 1
unfolding display_char
x-display_char disp c = ground arith

-- No character of the text is a carriage return.
abbrev pub NoReturn : List ℕ → Type 0
NoReturn [] = Unit
NoReturn (c ∷ cs) = (c ≢ 13) × NoReturn cs

-- VGA_display_str of a text without carriage returns, however long and wherever the cursor stands,
-- writes inside the display and keeps the cursor valid, if the cursor's column and the text's length
-- stay below 2 ^ 32 together.
pub display_str-IsValid :
    (disp : VgaTextBuffer) (str : List ℕ)
    → IsValid disp
    → NoReturn str
    → disp.x + length str < 2 ^ 32
    → let disp' = display_str disp str in
      IsValid disp' × ((i : ℕ) → 2000 ≤ i → disp'.cells i ≡ disp.cells i)
unfolding display_str
display_str-IsValid disp [] v plain small = (v, λ i b. refl)
display_str-IsValid disp (c ∷ cs) v plain small =
    let one = display_char-IsValid disp c v (omega arith) (inl plain.0) in
    let rest =
      display_str-IsValid (display_char disp c) cs one.0 plain.1
        (omega (arith, x-display_char disp c)) in
    (rest.0, λ i b. rest.1 i b ∙ one.1 i b)

-- Printed on one row: neither a new line nor a carriage return.
abbrev pub IsPrinted : List ℕ → Type 0
IsPrinted [] = Unit
IsPrinted (c ∷ cs) = (c ≢ 10) × (c ≢ 13) × IsPrinted cs

print_one :
    (disp : VgaTextBuffer) (c : ℕ)
    → c ≢ 10
    → c ≢ 13
    → disp.y ≡ 0
    → disp.x < 2000
    → ((display_char disp c).y ≡ 0) × ((display_char disp c).x ≡ disp.x + 1)
unfolding display_char
print_one disp c h h' top room = ground arith

return_wraps :
    (disp : VgaTextBuffer) (c : ℕ)
    → disp.y ≡ 0
    → disp.x ≡ 2000
    → c ≢ 10
    → c ≢ 13
    → (display_char (display_char disp 13) c).cells (2 ^ 32 - 80) ≡ cell_of c
unfolding display_char
return_wraps disp c top full h h' = ground arith

fill_row :
    (disp : VgaTextBuffer) (str : List ℕ)
    → IsPrinted str
    → disp.y ≡ 0
    → disp.x + length str ≤ 2000
    → ((display_str disp str).y ≡ 0) × ((display_str disp str).x ≡ disp.x + length str)
unfolding display_str
fill_row disp [] p top room = omega arith
fill_row disp (c ∷ cs) p top room =
    let one = print_one disp c p.0 p.1 top (omega arith) in
    let rest = fill_row (display_char disp c) cs p.2 one.0 (omega (arith, one.1)) in
    (rest.0, omega (arith, rest.1, one.1))

-- A cleared display that prints 2000 characters with neither a new line nor a carriage return,
-- then a carriage return, and then another character `c`, writes `c` to cell 2 ^ 32 - 80, far behind
-- the display.
pub display_char-behind :
    (disp : VgaTextBuffer) (str : List ℕ) (c : ℕ)
    → IsPrinted str
    → length str ≡ 2000
    → IsPrinted (c ∷ [])
    → (display_char (display_char (display_str (clear disp) str) 13) c).cells (2 ^ 32 - 80)
      ≡ cell_of c
unfolding clear
display_char-behind disp str c p full p' =
    let at = fill_row (clear disp) str p refl (omega arith) in
    return_wraps (display_str (clear disp) str) c at.0 (omega (arith, at.1)) p'.0 p'.1
