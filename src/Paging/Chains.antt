-- ===== src/Paging/Chains.antt =====
-- Walks of paging.c as chains of present entries, and what leaves a chain in place.
use marimba.Base.{
  ℕ, zero, suc, ◌+◌, ◌%◌, ◌≤◌, ◌<◌, ◌≡◌, ◌≢◌, refl, ap, ◌⊎◌, inl, inr, true, false, arith, ◌==◌,
  ==_iff, Bool-cases,
}
use marimba.Paging.{
  Words, store, present, clear_table, pte_at, pte_get_addr, pt_get_next_pte, walk_from, pt_walk,
}

-- `k` present entries lead from the entry `a`, at depth `i`, to `e`, at depth `j`.
abbrev pub Chain : (k : ℕ) → Words → (v a i e j : ℕ) → Type 0
Chain zero m v a i e j = (a ≡ e) × (i ≡ j)
Chain (suc k) m v a i e j =
    (present (m a) ≡ 1) × Chain k m v (pt_get_next_pte m a v (i + 1)) (i + 1) e j

one_of : (w : ℕ) → (present w == 0) ≡ false → present w ≡ 1
one_of w h = ground arith

-- What walk_from returns short of its end.
pub Chain-walk_from :
    (n : ℕ) (m : Words) (v a i e j : ℕ)
    → walk_from n m a v i ≡ (e, j)
    → j < i + n
    → (k : ℕ) × (i + k ≡ j) × Chain k m v a i e j × (present (m e) ≡ 0)
unfolding walk_from
Chain-walk_from zero m v a i e j h lt = absurd (omega (arith, ap (λ (r : ℕ × ℕ). r.1) h))
Chain-walk_from (suc n) m v a i e j h lt = elim (Bool-cases (present (m a) == 0)) [
  | inl ends ↦
      let r : ◌≡◌ {A = ℕ × ℕ} (a, i) (e, j) = rw ends at h in
      let at_e : a ≡ e = ap (λ (r : ℕ × ℕ). r.0) r in
      let at_j : i ≡ j = ap (λ (r : ℕ × ℕ). r.1) r in
      (0, omega (arith, at_j), (at_e, at_j), rw (← at_e) ((==_iff _ 0).0 ends))
  | inr more ↦
      let (k, depth, chain, absent) =
        Chain-walk_from n m v (pt_get_next_pte m a v (i + 1)) (i + 1) e j (rw more at h)
          (omega arith) in
      (suc k, omega (arith, depth), (one_of (m a) more, chain), absent)
]

pub walk_from-Chain :
    (k n : ℕ) (m : Words) (v a i e j : ℕ)
    → Chain k m v a i e j
    → present (m e) ≡ 0
    → k < n
    → walk_from n m a v i ≡ (e, j)
unfolding walk_from
walk_from-Chain k zero m v a i e j c h lt = absurd (omega arith)
walk_from-Chain zero (suc n) m v a i e j c h lt = rw (c.0, c.1, (==_iff (present (m e)) 0).1 h) refl
walk_from-Chain (suc k) (suc n) m v a i e j c h lt =
    let more : (present (m a) == 0) ≡ false = ground (arith, c.0) in
    rw more
      (walk_from-Chain k n m v (pt_get_next_pte m a v (i + 1)) (i + 1) e j c.1 h (omega arith))

pub Chain-snoc :
    (k : ℕ) (m : Words) (v a i e j : ℕ)
    → Chain k m v a i e j
    → present (m e) ≡ 1
    → Chain (suc k) m v a i (pt_get_next_pte m e v (j + 1)) (j + 1)
Chain-snoc zero m v a i e j c h = rw (c.0, c.1) (h, (refl, refl))
Chain-snoc (suc k) m v a i e j c h =
    (c.0, Chain-snoc k m v (pt_get_next_pte m a v (i + 1)) (i + 1) e j c.1 h)

-- A word that the chain does not go through can change.
pub Chain-store :
    (k : ℕ) (m : Words) (v a i e j p w : ℕ)
    → present (m p) ≡ 0
    → Chain k m v a i e j
    → Chain k (store m p w) v a i e j
Chain-store zero m v a i e j p w h c = c
Chain-store (suc k) m v a i e j p w h c =
    let apart : (a == p) ≡ false = differ (Bool-cases (a == p)) in
    rw apart (c.0, Chain-store k m v (pt_get_next_pte m a v (i + 1)) (i + 1) e j p w h c.1)
  where
    differ : ((a == p) ≡ true) ⊎ ((a == p) ≡ false) → (a == p) ≡ false
    differ (inl same) = absurd (other ((==_iff a p).0 same))
      where
        other : a ≡ p → ⊥
        other e = omega (arith, h, c.0, ap (λ (q : ℕ). present (m q)) e)
    differ (inr apart) = apart

-- The entries of a table lie within its page.
pub pte_at-range :
    (base v i : ℕ) → i < 4 → (base ≤ pte_at base v i) × (pte_at base v i < base + 4096)
pte_at-range base v i h = let upper : (i == 4) ≡ false = ground arith in rw upper (omega arith)

-- A table that is cleared leaves the entries of the others alone.
pub clear_table-other :
    (m : Words) (f base v i : ℕ)
    → i < 4
    → f % 4096 ≡ 0
    → base % 4096 ≡ 0
    → base ≢ f
    → clear_table m f (pte_at base v i) ≡ m (pte_at base v i)
clear_table-other m f base v i h page page' apart =
    let range = pte_at-range base v i h in outside (pte_at base v i) range.0 range.1
  where
    outside : (a : ℕ) → base ≤ a → a < base + 4096 → clear_table m f a ≡ m a
    outside a low high = ground arith

pub clear_table-own : (m : Words) (f v i : ℕ) → i < 4 → clear_table m f (pte_at f v i) ≡ 0
clear_table-own m f v i h =
    let range = pte_at-range f v i h in inside (pte_at f v i) range.0 range.1
  where
    inside : (a : ℕ) → f ≤ a → a < f + 4096 → clear_table m f a ≡ 0
    inside a low high = ground arith

pub Chain-clear_table :
    (k : ℕ) (m : Words) (f base v i e j : ℕ)
    → f % 4096 ≡ 0
    → ((a : ℕ) → present (m a) ≡ 1 → pte_get_addr (m a) ≢ f)
    → base % 4096 ≡ 0
    → base ≢ f
    → i + k ≡ j
    → j < 4
    → Chain k m v (pte_at base v i) i e j
    → Chain k (clear_table m f) v (pte_at base v i) i e j
Chain-clear_table zero m f base v i e j page used page' apart count small c = c
Chain-clear_table (suc k) m f base v i e j page used page' apart count small c =
    let a = pte_at base v i in
    let kept : clear_table m f a ≡ m a =
      clear_table-other m f base v i (omega arith) page page' apart in
    rw kept (
      c.0,
      Chain-clear_table k m f (pte_get_addr (m a)) v (i + 1) e j page used (omega arith)
          (used a c.0) (omega arith) small c.1,
    )

pub pt_walk-Chain :
    (k : ℕ) (m : Words) (cr3 v e j : ℕ)
    → Chain k m v (pte_at cr3 v 0) 0 e j
    → present (m e) ≡ 0
    → k < 4
    → pt_walk m cr3 v ≡ (e, j)
unfolding pt_walk
pt_walk-Chain k m cr3 v e j c h lt = walk_from-Chain k 4 m v (pte_at cr3 v 0) 0 e j c h lt
