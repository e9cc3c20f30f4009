-- ===== src/Sort/Mmap.antt =====
-- sort_mmap_entry_array of utils.c, whose comparison and swap treat a two-word MMapEntry as a three-word KernelSection.
use marimba.Base.{
  ◌*◌, ℕ, zero, suc, ◌+◌, ◌-◌, ◌<◌, ◌≤◌, ◌≡◌, refl, subst, arith, inl, inr, Bool-cases, leb, ◌==◌,
  false, true,
}
use marimba.Sort.{
  Words, sort_mmap_entry_array, sort_from, min_from, mmap_entry_cmp, mmap_entry_swp, is_negative,
}

-- The bases of the entries do not decrease.
abbrev pub IsAscending : (arr len : ℕ) → Words → Type 0
IsAscending arr len m = (i j : ℕ) → i ≤ j → j < len → m (arr + 2 * i) ≤ m (arr + 2 * j)

cmp_ascending : (p q : ℕ) (m : Words) → m p ≤ m q → is_negative (mmap_entry_cmp p q m) ≡ false
unfolding mmap_entry_cmp
cmp_ascending p q m h = ground arith

module _ (overlap : ℕ → ℕ → Words → Words) (arr len : ℕ) (m : Words)
    (up : IsAscending arr len m) where
  -- The search for the least entry stays at the first one.
  min_from_ascending :
      (rounds t k : ℕ)
      → k ≤ t
      → t + rounds ≤ len
      → min_from mmap_entry_cmp 2 rounds (arr + 2 * t) (arr + 2 * k) m ≡ arr + 2 * k
  unfolding min_from
  min_from_ascending zero t k h e = refl
  min_from_ascending (suc rounds) t k h e =
      let step : arr + 2 * t + 2 ≡ arr + 2 * (t + 1) = omega arith in
      rw (cmp_ascending (arr + 2 * k) (arr + 2 * t) m (up k t h (omega arith)))
        (rw step (min_from_ascending rounds (t + 1) k (omega arith) (omega arith)))

  sort_from_ascending :
      (rounds c : ℕ)
      → c + rounds < len
      → sort_from mmap_entry_cmp (mmap_entry_swp overlap) 2 rounds (arr + 2 * c) m ≡ m
  unfolding sort_from
  sort_from_ascending zero c e = refl
  sort_from_ascending (suc rounds) c e =
      let step : arr + 2 * c + 2 ≡ arr + 2 * (c + 1) = omega arith in
      let first = min_from_ascending (suc rounds) (c + 1) c (omega arith) (omega arith) in
      let same : (arr + 2 * c == arr + 2 * c) ≡ true = ground arith in
      rw step (rw first (rw same (sort_from_ascending rounds (c + 1) (omega arith))))

-- An array whose bases do not decrease stays as it is, with all other memory, whatever the compiled swap does with
-- overlapping entries.
pub sort_mmap_entry_array_ascending :
    (overlap : ℕ → ℕ → Words → Words) (arr len : ℕ) (m : Words)
    → IsAscending arr len m
    → sort_mmap_entry_array overlap arr len m ≡ m
unfolding sort_mmap_entry_array
sort_mmap_entry_array_ascending overlap arr len m up = elim (Bool-cases (leb len 1)) [
  | inl few ↦ rw few refl
  | inr more ↦ rw more (
      let at : arr + 2 * 0 ≡ arr = omega arith in
      subst (λ a. sort_from mmap_entry_cmp (mmap_entry_swp overlap) 2 (len - 1) a m ≡ m) at
        (sort_from_ascending overlap arr len m up (len - 1) 0 (ground arith)))
]
