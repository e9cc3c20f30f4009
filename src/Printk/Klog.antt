-- ===== src/Printk/Klog.antt =====
-- src/klog.h: the log over printk. `stray` is what the uninitialised `level_str` leads to for a level that has no
-- name.
use marimba.Base.{
  ℕ, ◌≡◌, refl, Bool-cases, inl, inr, Option, some, List, [], ◌∷◌, ◌++◌, ltb, ◌==◌, if◌then◌else◌,
}
use marimba.Base.Results.{◌>>=◌}
use marimba.Printk.{Arg, text, printk, format}

-- The seven levels with their names: "dbg", "info", "notc", "warn", "err", "crit" and "emrg".
abbrev pub klog_levels : List (ℕ × List ℕ)
klog_levels =
    (1, b'd' ∷ b'b' ∷ b'g' ∷ [])
    ∷ (3, b'i' ∷ b'n' ∷ b'f' ∷ b'o' ∷ [])
    ∷ (5, b'n' ∷ b'o' ∷ b't' ∷ b'c' ∷ [])
    ∷ (7, b'w' ∷ b'a' ∷ b'r' ∷ b'n' ∷ [])
    ∷ (9, b'e' ∷ b'r' ∷ b'r' ∷ [])
    ∷ (11, b'c' ∷ b'r' ∷ b'i' ∷ b't' ∷ [])
    ∷ (13, b'e' ∷ b'm' ∷ b'r' ∷ b'g' ∷ [])
    ∷ []

abbrev pub klog_min_log_level : ℕ
klog_min_log_level = 1

-- The switch of log_level.
unfoldable pub level_str : (stray : List ℕ) (level : ℕ) → List (ℕ × List ℕ) → List ℕ
level_str stray level [] = stray
level_str stray level ((l, name) ∷ rows) =
    let rest = level_str stray level rows in if level == l then name else rest

-- "log[%s]: "
abbrev pub level_format : List ℕ
level_format = b'l' ∷ b'o' ∷ b'g' ∷ b'[' ∷ b'%' ∷ b's' ∷ b']' ∷ b':' ∷ b' ' ∷ []

unfoldable pub log_level : (buf : ℕ → ℕ) (stray : List ℕ) (level : ℕ) → Option (List ℕ)
unfolding level_str printk
log_level buf stray level = printk buf level_format (text (level_str stray level klog_levels) ∷ [])

unfoldable pub klog :
    (buf : ℕ → ℕ) (stray : List ℕ) (level : ℕ) (fmt : List ℕ) → List Arg → Option (List ℕ)
unfolding log_level printk
klog buf stray level fmt args =
    if ltb klog_min_log_level level
    then (do
      prefix ← log_level buf stray level
      message ← printk buf fmt args
      newline ← printk buf (10 ∷ []) []
      some (prefix ++ message ++ newline))
    else some []

-- A message at the level of debugging is never shown; one above it is shown behind "log[", the name of its level and
-- "]: ", with a new line at its end, whenever printk shows its text.
klog_lem :
    (buf : ℕ → ℕ) (stray : List ℕ) (level : ℕ) (fmt : List ℕ) (args : List Arg) (message : List ℕ)
    → printk buf fmt args ≡ some message
    → klog buf stray level fmt args
      ≡ some (
          if ltb 1 level
          then (b'l' ∷ b'o' ∷ b'g' ∷ b'[' ∷ level_str stray level klog_levels
              ++ b']' ∷ b':' ∷ b' ' ∷ [])
            ++ message
            ++ 10 ∷ []
          else [])
unfolding klog log_level printk format
klog_lem buf stray level fmt args message shows = elim (Bool-cases (ltb 1 level)) [
  | inl above ↦ rw (above, shows) refl
  | inr below ↦ rw below refl
]
