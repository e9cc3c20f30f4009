-- ===== src/Printk/Formats.antt =====
-- The format loop of printk.c shows the pieces of its format, in order.
use marimba.Base.{
  ℕ, ◌-◌, ◌%◌, ◌^◌, ◌≤◌, ◌<◌, ◌≡◌, ◌≢◌, refl, ap, ◌∙◌, ◌⊎◌, inl, inr, false, some, List, [], ◌∷◌,
  ◌++◌, append_assoc, arith, ltb, ◌==◌, Bool-cases,
}
use mathlib.Core.Option
use marimba.Printk.{
  Arg, word, text, plain, percent, sized, convert_sized, handle_format, format, printk,
}
use marimba.Printk.Numbers.{IsNumber, dec_value, hex_value, print_unsigned-dec, print_unsigned-hex}

-- The lengths that an integer's directive can have.
pub data Size : Type 0 where
  int short long quad : Size

abbrev pub bits : Size → ℕ
bits int = 32
bits short = 16
bits long = 64
bits quad = 64

abbrev pub letters : Size → List ℕ
letters int = []
letters short = b'h' ∷ []
letters long = b'l' ∷ []
letters quad = b'q' ∷ []

pub data Spec : Type 0 where
  unsigned signed lower_hex upper_hex : Spec

abbrev pub spec_char : Spec → ℕ
spec_char unsigned = b'u'
spec_char signed = b'd'
spec_char lower_hex = b'x'
spec_char upper_hex = b'X'

pub data Piece : Type 0 where
  letter : ℕ → Piece
  percent_sign : Piece
  string : List ℕ → Piece
  character : ℕ → Piece
  pointer : ℕ → Piece
  number : Spec → Size → ℕ → Piece

-- The part of the format for a piece, and its arguments.
abbrev pub directive : Piece → List ℕ
directive (letter c) = c ∷ []
directive percent_sign = b'%' ∷ b'%' ∷ []
directive (string s) = b'%' ∷ b's' ∷ []
directive (character c) = b'%' ∷ b'c' ∷ []
directive (pointer p) = b'%' ∷ b'p' ∷ []
directive (number spec size d) = b'%' ∷ (letters size ++ spec_char spec ∷ [])

abbrev pub args_of : Piece → List Arg
args_of (letter c) = []
args_of percent_sign = []
args_of (string s) = text s ∷ []
args_of (character c) = word c ∷ []
args_of (pointer p) = word p ∷ []
args_of (number spec size d) = word d ∷ []

abbrev pub format_of : List Piece → List ℕ
format_of [] = []
format_of (p ∷ ps) = directive p ++ format_of ps

abbrev pub all_args : List Piece → List Arg
all_args [] = []
all_args (p ∷ ps) = args_of p ++ all_args ps

-- A letter is not the start of a directive.
abbrev pub IsPlain : Piece → Type 0
IsPlain (letter c) = c ≢ b'%'
IsPlain _ = Unit

abbrev pub ArePlain : List Piece → Type 0
ArePlain [] = Unit
ArePlain (p ∷ ps) = IsPlain p × ArePlain ps

-- The text of a number in two's complement.
abbrev pub IsSigned : (bits d : ℕ) → List ℕ → Type 0
IsSigned bits d out =
    ((d < 2 ^ (bits - 1)) × IsNumber 10 dec_value 20 d out)
    ⊎ ((2 ^ (bits - 1) ≤ d)
        × (t : List ℕ) × (out ≡ b'-' ∷ t)
        × IsNumber 10 dec_value 20 (2 ^ bits - d) t)

abbrev pub LooksNumber : Spec → (bits d : ℕ) → List ℕ → Type 0
LooksNumber unsigned bits d out = IsNumber 10 dec_value 20 d out
LooksNumber signed bits d out = IsSigned bits d out
LooksNumber lower_hex bits d out = IsNumber 16 (hex_value b'a') 16 d out
LooksNumber upper_hex bits d out = IsNumber 16 (hex_value b'A') 16 d out

-- What a piece looks like.
abbrev pub Looks : Piece → List ℕ → Type 0
Looks (letter c) out = out ≡ c ∷ []
Looks percent_sign out = out ≡ b'%' ∷ []
Looks (string s) out = out ≡ s
Looks (character c) out = out ≡ (c % 256) ∷ []
Looks (pointer p) out =
    (t : List ℕ) × (out ≡ b'0' ∷ b'x' ∷ t) × IsNumber 16 (hex_value b'a') 16 (p % 2 ^ 64) t
Looks (number spec size d) out = LooksNumber spec (bits size) (d % 2 ^ bits size) out

-- The pieces, one behind the other.
abbrev pub Shows : List Piece → List ℕ → Type 0
Shows [] out = out ≡ []
Shows (p ∷ ps) out =
    (here : List ℕ) × (rest : List ℕ) × (out ≡ here ++ rest) × Looks p here × Shows ps rest

Size_fits : (size : Size) (d : ℕ) → d < 2 ^ bits size → d < 2 ^ 64
Size_fits int d h = omega arith
Size_fits short d h = omega arith
Size_fits long d h = h
Size_fits quad d h = h

mod_fits : (size : Size) (d : ℕ) → d % 2 ^ bits size < 2 ^ bits size
mod_fits int d = omega arith
mod_fits short d = omega arith
mod_fits long d = omega arith
mod_fits quad d = omega arith

negated_fits : (size : Size) (d : ℕ) → 2 ^ (bits size - 1) ≤ d → 2 ^ bits size - d < 2 ^ 64
negated_fits int d h = omega arith
negated_fits short d h = omega arith
negated_fits long d h = omega arith
negated_fits quad d h = omega arith

handle_format-looks :
    (buf : ℕ → ℕ) (spec : Spec) (size : Size) (d : ℕ)
    → d < 2 ^ bits size
    → (t : List ℕ) × (handle_format buf (bits size) (spec_char spec) d ≡ some t)
      × LooksNumber spec (bits size) d t
unfolding handle_format
handle_format-looks buf unsigned size d h = print_unsigned-dec buf d (Size_fits size d h)
handle_format-looks buf lower_hex size d h =
    print_unsigned-hex b'a' buf d (omega arith) (Size_fits size d h)
handle_format-looks buf upper_hex size d h =
    print_unsigned-hex b'A' buf d (omega arith) (Size_fits size d h)
handle_format-looks buf signed size d h = elim (Bool-cases (ltb d (2 ^ (bits size - 1)))) [
  | inl positive ↦
      let (t, printed, is_number) = print_unsigned-dec buf d (Size_fits size d h) in
      (t, rw (positive, printed) refl, inl (ground arith, is_number))
  | inr negative ↦
      let at_least : 2 ^ (bits size - 1) ≤ d = ground arith in
      let (t, printed, is_number) =
        print_unsigned-dec buf (2 ^ bits size - d) (negated_fits size d at_least) in
      (b'-' ∷ t, rw (negative, printed) refl, inr (at_least, t, refl, is_number))
]

convert_sized-word :
    (buf : ℕ → ℕ) (bits c d : ℕ) (args : List Arg) (t : List ℕ)
    → handle_format buf bits c (d % 2 ^ bits) ≡ some t
    → convert_sized buf bits c (word d ∷ args) ≡ some (t, args)
unfolding convert_sized
convert_sized-word buf bits c d args t e = rw e refl

format-sized :
    (buf : ℕ → ℕ) (bits c : ℕ) (fmt : List ℕ) (args args' : List Arg) (t : List ℕ)
    → convert_sized buf bits c args ≡ some (t, args')
    → format buf (sized bits) (c ∷ fmt) args ≡ Option.map (λ r. t ++ r) (format buf plain fmt args')
unfolding format
format-sized buf bits c fmt args args' t e = rw (e, format) refl

format-number :
    (buf : ℕ → ℕ) (spec : Spec) (size : Size) (d : ℕ) (fmt : List ℕ) (args : List Arg) (t : List ℕ)
    → handle_format buf (bits size) (spec_char spec) (d % 2 ^ bits size) ≡ some t
    → format buf percent (letters size ++ spec_char spec ∷ fmt) (word d ∷ args)
      ≡ Option.map (λ r. t ++ r) (format buf plain fmt args)
unfolding format
format-number buf unsigned int d fmt args t e = rw e refl
format-number buf signed int d fmt args t e = rw e refl
format-number buf lower_hex int d fmt args t e = rw e refl
format-number buf upper_hex int d fmt args t e = rw e refl
format-number buf spec short d fmt args t e =
    format-sized buf 16 (spec_char spec) fmt (word d ∷ args) args t
      (convert_sized-word buf 16 (spec_char spec) d args t e)
format-number buf spec long d fmt args t e =
    format-sized buf 64 (spec_char spec) fmt (word d ∷ args) args t
      (convert_sized-word buf 64 (spec_char spec) d args t e)
format-number buf spec quad d fmt args t e =
    format-sized buf 64 (spec_char spec) fmt (word d ∷ args) args t
      (convert_sized-word buf 64 (spec_char spec) d args t e)

-- The piece is shown, and the loop goes on behind it.
abbrev ShowsPiece : (buf : ℕ → ℕ) → Piece → Type 0
ShowsPiece buf p =
    (out : List ℕ) × Looks p out
    × ((fmt : List ℕ) (args : List Arg)
        → format buf plain (directive p ++ fmt) (args_of p ++ args)
          ≡ Option.map (λ r. out ++ r) (format buf plain fmt args))

show_number :
    (buf : ℕ → ℕ) (spec : Spec) (size : Size) (d : ℕ) → ShowsPiece buf (number spec size d)
unfolding format
show_number buf spec size d =
    let (t, printed, looks) =
      handle_format-looks buf spec size (d % 2 ^ bits size) (mod_fits size d) in
    (
      t,
      looks,
      λ fmt args.
          rw (append_assoc (letters size) (spec_char spec ∷ []) fmt)
            (format-number buf spec size d fmt args t printed),
    )

show_pointer : (buf : ℕ → ℕ) (p : ℕ) → ShowsPiece buf (pointer p)
unfolding format
show_pointer buf p =
    let (t, printed, looks) =
      print_unsigned-hex b'a' buf (p % 2 ^ 64) (omega arith) (omega arith) in
    (b'0' ∷ b'x' ∷ t, (t, refl, looks), λ fmt args. rw printed refl)

percent_shown :
    (buf : ℕ → ℕ) (fmt : List ℕ) (args : List Arg)
    → format buf plain (b'%' ∷ b'%' ∷ fmt) args
      ≡ Option.map (λ r. (b'%' ∷ []) ++ r) (format buf plain fmt args)
unfolding format
percent_shown buf fmt [] = refl
percent_shown buf fmt (word d ∷ args) = refl
percent_shown buf fmt (text s ∷ args) = refl

show_piece : (buf : ℕ → ℕ) (p : Piece) → IsPlain p → ShowsPiece buf p
unfolding format
show_piece buf (letter c) h =
    (c ∷ [], refl, λ fmt args. let other : (c == b'%') ≡ false = ground arith in rw other refl)
show_piece buf percent_sign h = (b'%' ∷ [], refl, percent_shown buf)
show_piece buf (string s) h = (s, refl, λ fmt args. refl)
show_piece buf (character c) h = ((c % 256) ∷ [], refl, λ fmt args. refl)
show_piece buf (pointer p) h = show_pointer buf p
show_piece buf (number spec size d) h = show_number buf spec size d

no_format : (buf : ℕ → ℕ) → format buf plain [] [] ≡ some []
unfolding format
no_format buf = refl

-- printk of a format made of letters and directives, with the arguments that they ask for, shows each
-- of them as it should look, in their order: letters and strings as they are, numbers by their
-- digits, signed ones with a minus if they are negative, pointers behind `0x`.
pub printk-Shows :
    (buf : ℕ → ℕ) (ps : List Piece)
    → ArePlain ps
    → (out : List ℕ) × (printk buf (format_of ps) (all_args ps) ≡ some out) × Shows ps out
unfolding printk
printk-Shows buf [] h = ([], no_format buf, refl)
printk-Shows buf (p ∷ ps) h =
    let (here, looks, step) = show_piece buf p h.0 in
    let (rest, shown, others) = printk-Shows buf ps h.1 in
    (
      here ++ rest,
      step (format_of ps) (all_args ps) ∙ ap (Option.map (λ (r : List ℕ). here ++ r)) shown,
      (here, rest, refl, looks, others),
    )
