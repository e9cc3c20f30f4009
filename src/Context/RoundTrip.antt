-- ===== src/Context/RoundTrip.antt =====
-- Saving and loading the registers of a process in src/arch/x86_64/proc.c.
use marimba.Base.{
  true, ◌==◌, ==_iff, bit_or, Bool, ◌<◌, ℕ, ◌≡◌, refl, List, [], ◌∷◌, get_or, bit_and,
}
use marimba.Base.Bytes.{passes, at_passes}
use marimba.Context.{Stack, Processor, save_context, load_context}

-- The 15 words of an interrupted process.
abbrev pub frame : Stack → List ℕ
frame stack =
    stack 0
    ∷ stack 1
    ∷ stack 2
    ∷ stack 3
    ∷ stack 4
    ∷ stack 5
    ∷ stack 6
    ∷ stack 7
    ∷ stack 8
    ∷ stack 9
    ∷ stack 10
    ∷ stack 11
    ∷ stack 12
    ∷ stack 13
    ∷ stack 14
    ∷ []

abbrev same_test : ℕ → Bool
same_test v = bit_or v (bit_and v 0xFFFF) == v

same_table : passes same_test 256 ≡ true
unfolding passes
same_table = refl

-- A selector that is mixed with itself stays.
selector_mixed : (v : ℕ) → v < 256 → bit_or v (bit_and v 0xFFFF) ≡ v
selector_mixed v small = (==_iff _ _).0 (at_passes same_test 256 same_table v small)

-- A context that is saved, and loaded onto a stack with the same two selectors, of bytes, as the one it was saved from,
-- puts back the processor's registers and the 15 words; the words behind are untouched.
pub load_context-save_context :
    (stack stack' : Stack) (processor : Processor) (i : ℕ)
    → stack 11 < 256
    → stack 14 < 256
    → stack' 11 ≡ stack 11
    → stack' 14 ≡ stack 14
    → let (loaded, processor') = load_context (save_context stack processor) stack' in
      (processor' ≡ processor) × (loaded i ≡ get_or (frame stack) i (stack' i))
unfolding load_context save_context
load_context-save_context stack stack' processor i cs_byte ss_byte cs_same ss_same = (
  refl,
  rw cs_same (
      rw ss_same
        (rw (selector_mixed (stack 11) cs_byte) (rw (selector_mixed (stack 14) ss_byte) refl))),
)
