-- ===== src/Printk/Tests.antt =====
-- printk on small inputs, and the theorems about it there.
use marimba.Base.{ℕ, ◌+◌, ◌-◌, ◌^◌, ◌≡◌, refl, none, some, List, [], ◌∷◌, arith}
use marimba.Printk.{format, convert, handle_format, fill, text_at, word, printk, print_unsigned}
use marimba.Printk.Formats.{
  Piece, letter, string, number, signed, lower_hex, int, long, ArePlain, Shows, format_of, all_args,
  printk-Shows,
}

-- The buffer is not cleared.
abbrev rubbish : ℕ → ℕ
rubbish i = i + 7

minus_twelve :
    printk rubbish (b'n' ∷ b'=' ∷ b'%' ∷ b'd' ∷ []) (word (2 ^ 32 - 12) ∷ [])
    ≡ some (b'n' ∷ b'=' ∷ b'-' ∷ b'1' ∷ b'2' ∷ [])
unfolding printk format convert handle_format print_unsigned fill text_at
minus_twelve = refl

-- A format that ends within a directive is read behind its end.
lone_percent : printk rubbish (b'%' ∷ []) [] ≡ none
unfolding printk format
lone_percent = refl

abbrev pieces : List Piece
pieces =
    letter b'a'
    ∷ number signed int (2 ^ 32 - 5)
    ∷ string (b'o' ∷ b'k' ∷ [])
    ∷ number lower_hex long 255
    ∷ []

pieces-ArePlain : ArePlain pieces
pieces-ArePlain = (omega arith, (tt, (tt, (tt, tt))))

printk-Shows_example :
    (out : List ℕ) × (printk rubbish (format_of pieces) (all_args pieces) ≡ some out)
    × Shows pieces out
printk-Shows_example = printk-Shows rubbish pieces pieces-ArePlain
