-- ===== src/Vga.antt =====
-- src/vga.c: the text display of 80 columns and 25 rows. The buffer is a map from the indices of
-- its 16-bit cells; a write at an index of 2000 or more is behind the display. The cursor is two
-- 32-bit unsigned numbers that wrap. IRQ_disable and IRQ_enable stand round each character, so no
-- call is interrupted.
pub mod Cursor
mod Tests
use marimba.Base.{
  ℕ, zero, suc, ◌+◌, ◌-◌, ◌*◌, ◌/◌, ◌%◌, ◌^◌, ◌≤◌, ◌<◌, ◌≡◌, ◌≢◌, refl, sym, ap, ◌∙◌, ◌⊎◌, inl, inr,
  Bool, true, false, not, ◌&&◌, ◌||◌, Option, none, some, List, [], ◌∷◌, ◌++◌, map, append_assoc,
  append-nil, arith, ltb, leb, ◌==◌, ==_iff, if◌then◌else◌, Bool-cases, length, length-append,
  length-set, get_or, set, has, bit_and, bit_or,
}

abbrev pub width : ℕ
width = 80

abbrev pub len : ℕ
len = 80 * 25

pub record VgaTextBuffer : Type 0 where
  pub x : ℕ
  pub y : ℕ
  pub cells : ℕ → ℕ

-- Arithmetic on `unsigned int`.
abbrev pub u32 : ℕ → ℕ
u32 n = n % 2 ^ 32

-- `(disp.y*disp.width) + disp.x`
abbrev pub index : VgaTextBuffer → ℕ
index disp = u32 (disp.y * width + disp.x)

-- Row by row upwards; the last row is cleared.
unfoldable pub scroll : VgaTextBuffer → VgaTextBuffer
scroll disp = record disp {
  cells = λ i.
      if ltb i (len - width) then disp.cells (i + width) else if ltb i len then 0 else disp.cells i;
}

unfoldable pub clear : VgaTextBuffer → VgaTextBuffer
clear disp = record { x = 0; y = 0; cells = λ i. if ltb i len then 0 else disp.cells i }

-- `0x0f00 | c` as a 16-bit cell, for a `char` that is signed.
abbrev pub cell_of : ℕ → ℕ
cell_of c = if ltb c 128 then bit_or 0x0f00 c else bit_or 0x0f00 (0xff00 + c)

-- The test at the start of VGA_display_char.
unfoldable pub make_room : VgaTextBuffer → VgaTextBuffer
unfolding scroll
make_room disp =
    if index disp == len then record (scroll disp) { y = u32 (disp.y + (2 ^ 32 - 1)) } else disp

-- VGA_display_char behind that test.
unfoldable pub put_char : VgaTextBuffer → ℕ → VgaTextBuffer
put_char disp c =
    if c == 10
    then record disp { y = u32 (disp.y + (1 + disp.x / width)); x = 0 }
    else if c == 13
    then record disp { x = 0 }
    else record disp {
      x = u32 (disp.x + 1);
      cells = λ i. if i == index disp then cell_of c else disp.cells i;
    }

unfoldable pub display_char : VgaTextBuffer → ℕ → VgaTextBuffer
unfolding make_room put_char
display_char disp c = put_char (make_room disp) c

-- The characters of a string up to its terminating zero.
unfoldable pub display_str : VgaTextBuffer → List ℕ → VgaTextBuffer
unfolding display_char
display_str disp [] = disp
display_str disp (c ∷ cs) = display_str (display_char disp c) cs
