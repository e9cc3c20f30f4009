-- ===== src/Base/Window.antt =====
-- Bytes in a circular buffer: the run of bytes from one position on, going round at the end.
use Prim.Native.Nat.{ℕ, zero, suc, ◌+◌, ◌-◌, ◌%◌, ◌≤◌, ◌<◌}
use mathlib.Core.Path.{◌≡◌, refl, ap, ap₂, ◌∙◌, sym}
use mathlib.Core.Logic.{◌≢◌, inl, inr}
use mathlib.Core.List.{List, [], ◌∷◌, ◌++◌}
use native.Mathlib.Nat.{mod-add-mod, mod-eq_of_lt, mod-eq-sub-mod, add-zero}
use native.Mathlib.Omega.{arith}
use marimba.Base.Tests.{ltb, Bool-cases}
use marimba.Base.Lists.{length, get_or, set, get_or-set_self, get_or-set_ne}

module _ (cap : ℕ) where
  -- The position behind `h`.
  abbrev pub after : ℕ → ℕ
  after h = (h + 1) % cap

  -- The `n` bytes from position `h` on.
  abbrev pub window : List ℕ → ℕ → ℕ → List ℕ
  window buf h zero = []
  window buf h (suc n) = get_or buf h 0 ∷ window buf (after h) n

  pub length-window : (buf : List ℕ) (h n : ℕ) → length (window buf h n) ≡ n
  length-window buf h zero = refl
  length-window buf h (suc n) = ap suc (length-window buf (after h) n)

  -- Fewer than `cap` positions on, one has not come round.
  round-ne : (h k : ℕ) → h < cap → 0 < k → k < cap → (h + k) % cap ≢ h
  round-ne h k hh kp kc = elim (Bool-cases (ltb (h + k) cap)) [
    | inl below ↦ ground (arith, mod-eq_of_lt {n = h + k} {m = cap})
    | inr wrap ↦
        ground
          (arith, mod-eq-sub-mod {n = h + k} {m = cap}, mod-eq_of_lt {n = h + k - cap} {m = cap})
  ]

  round-step : (h k : ℕ) → (after h + k) % cap ≡ (h + suc k) % cap
  round-step h k = mod-add-mod (h + 1) cap k ∙ ap (λ n. n % cap) (omega arith)

  -- A byte put at the position behind a window that does not fill the buffer lengthens the window.
  pub window-set :
      (buf : List ℕ) (c n h i : ℕ)
      → cap ≤ length buf
      → h < cap
      → n < cap
      → i ≡ (h + n) % cap
      → window (set buf i c) h (suc n) ≡ window buf h n ++ c ∷ []
  window-set buf c zero h i size hh hn e =
      rw (e, add-zero, mod-eq_of_lt hh, get_or-set_self buf h c 0 (omega arith))
  window-set buf c (suc n) h i size hh hn e =
      ap₂ ◌∷◌ (get_or-set_ne buf c 0 (rw e (round-ne h (suc n) hh (omega arith) hn)))
        (window-set buf c n (after h) i size (omega arith) (omega arith) (e ∙ sym (round-step h n)))

-- A cleared buffer of `n` cells.
abbrev pub zeros : ℕ → List ℕ
zeros zero = []
zeros (suc n) = 0 ∷ zeros n

pub length-zeros : (n : ℕ) → length (zeros n) ≡ n
length-zeros zero = refl
length-zeros (suc n) = omega (arith, length-zeros n)
