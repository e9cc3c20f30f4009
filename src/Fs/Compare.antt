-- ===== src/Fs/Compare.antt =====
-- strcmp of src/string.c on the texts that names are.
use marimba.Base.{
  zero, ℕ, suc, ◌+◌, ◌<◌, ◌≡◌, refl, ◌∙◌, inl, inr, Bool, false, Option, none, some, [], ◌∷◌, arith,
  ◌==◌, Bool-cases, length,
}
use marimba.Strings.{Bytes, strcmp, char_diff}
use marimba.Fs.{Name, same_name}

-- A text in memory: bytes other than zero, and a zero behind them.
unfoldable pub IsText : Bytes → ℕ → Name → Type 0
IsText m p [] = m p ≡ 0
IsText m p (c ∷ cs) = (m p ≡ c) × (0 < c) × (c < 256) × IsText m (p + 1) cs

char_diff-zero : (a b : ℕ) → a < 256 → b < 256 → (char_diff a b == 0) ≡ (a == b)
char_diff-zero a b small_a small_b = ground arith

-- Whether strcmp returns, with 0 as said.
abbrev pub Tells : Option ℕ → Bool → Type 0
Tells none same = ⊥
Tells (some r) same = (r == 0) ≡ same

-- On two texts in memory strcmp ends, and its result is 0 exactly if the texts are the same. It takes
-- one round for each byte of the first text, and one more.
pub strcmp-same_name :
    (a b : Name) (m : Bytes) (s1 s2 fuel : ℕ)
    → IsText m s1 a
    → IsText m s2 b
    → length a < fuel
    → Tells (strcmp fuel s1 s2 m) (same_name a b)
unfolding IsText strcmp same_name
strcmp-same_name a b m s1 s2 zero t1 t2 enough = absurd (omega arith)
strcmp-same_name [] [] m s1 s2 (suc fuel) t1 t2 enough = rw t1 (rw t2 refl)
strcmp-same_name [] (d ∷ ds) m s1 s2 (suc fuel) t1 t2 enough =
    let more : (d == 0) ≡ false = ground (arith, t2.1) in
    rw t1 (rw t2.0 (rw more (char_diff-zero 0 d (omega arith) t2.2 ∙ ground (arith, t2.1))))
strcmp-same_name (c ∷ cs) [] m s1 s2 (suc fuel) t1 t2 enough =
    let more : (c == 0) ≡ false = ground (arith, t1.1) in
    rw t2 (rw t1.0 (rw more (char_diff-zero c 0 t1.2 (omega arith) ∙ more)))
strcmp-same_name (c ∷ cs) (d ∷ ds) m s1 s2 (suc fuel) t1 t2 enough =
    let more : (c == 0) ≡ false = ground (arith, t1.1) in
    let more' : (d == 0) ≡ false = ground (arith, t2.1) in
    rw t1.0 (
      rw t2.0 (
        rw more (
          rw more' (elim (Bool-cases (c == d)) [
            | inl same ↦
                rw same (strcmp-same_name cs ds m (s1 + 1) (s2 + 1) fuel t1.3 t2.3 (omega arith))
            | inr other ↦ rw other (char_diff-zero c d t1.2 t2.2 ∙ other)
          ]))))
