-- ===== src/Sort/Kernel.antt =====
-- sort_kernel_section_array of utils.c puts an array of kernel sections in the order of their
-- bases.
use native.Mathlib.Nat.{le_refl}
use marimba.Base.{
  leb, ◌-◌, false, true, ==_iff, ◌∙◌, ◌≢◌, ℕ, zero, suc, ◌+◌, ◌*◌, ◌<◌, ◌≤◌, ◌≡◌, ◌⊎◌, inl, inr,
  refl, ltb, ◌==◌, if◌then◌else◌, arith, Bool-cases,
}
use marimba.Sort.{
  sort_kernel_section_array, sort_from, is_negative, Words, KernelSection, load_section, min_from,
  kernel_mmap_cmp, kernel_mmap_swp,
}

module _ (arr : ℕ) where
  -- The section at index `i` of the array, and its base.
  abbrev pub section_at : Words → ℕ → KernelSection
  section_at m i = load_section m (arr + 3 * i)

  abbrev key : Words → ℕ → ℕ
  key m i = m (arr + 3 * i)

  record IsMin (m : Words) (n t k r : ℕ) : Type 0 where
    place : (r ≡ k) ⊎ ((t ≤ r) × (r < n))
    le_first : key m r ≤ key m k
    le_rest : (i : ℕ) → t ≤ i → i < n → key m r ≤ key m i

  IsMin-step :
      (m : Words) (n t k r : ℕ)
      → t < n
      → IsMin m n (t + 1) (if ltb (key m t) (key m k) then t else k) r
      → IsMin m n t k r
  IsMin-step m n t k r h s = elim (Bool-cases (ltb (key m t) (key m k))) [
    | inl less ↦
        let s' = rw less at s in
        record {
          place = grind (arith, s'.place);
          le_first = ground (arith, s'.le_first);
          le_rest = λ i lo hi. ground (arith, s'.le_first, s'.le_rest i);
        }
    | inr more ↦
        let s' = rw more at s in
        record {
          place = grind (arith, s'.place);
          le_first = s'.le_first;
          le_rest = λ i lo hi. ground (arith, s'.le_first, s'.le_rest i);
        }
  ]

  kernel_mmap_cmp_pick :
      (m : Words) (t k : ℕ)
      → (if is_negative (kernel_mmap_cmp (arr + 3 * k) (arr + 3 * t) m)
          then arr + 3 * t
          else arr + 3 * k)
        ≡ arr + 3 * (if ltb (key m t) (key m k) then t else k)
  unfolding kernel_mmap_cmp
  kernel_mmap_cmp_pick m t k = ground arith

  min_from-IsMin :
      (rounds n t k : ℕ) (m : Words)
      → t + rounds ≡ n
      → (r : ℕ) × (min_from kernel_mmap_cmp 3 rounds (arr + 3 * t) (arr + 3 * k) m ≡ arr + 3 * r)
        × IsMin m n t k r
  unfolding min_from
  min_from-IsMin zero n t k m e = (
    k,
    refl,
    record { place = inl refl; le_first = omega arith; le_rest = λ i h h'. absurd (omega arith) },
  )
  min_from-IsMin (suc rounds) n t k m e =
      let k' = if ltb (key m t) (key m k) then t else k in
      let (r, found, least) = min_from-IsMin rounds n (t + 1) k' m (omega arith) in
      let next : arr + 3 * t + 3 ≡ arr + 3 * (t + 1) = omega arith in
      (r, rw (next, kernel_mmap_cmp_pick m t k) found, IsMin-step m n t k r (omega arith) least)

  -- The two swapped sections change places, and every other word stays.
  pub section-swp :
      (m : Words) (c r i : ℕ)
      → c ≢ r
      → section_at (kernel_mmap_swp (arr + 3 * c) (arr + 3 * r) m) i
        ≡ section_at m (if i == c then r else if i == r then c else i)
  unfolding kernel_mmap_swp
  section-swp m c r i ne = ground arith

  -- The first `c` sections are in order, and none after them has a lower base.
  abbrev Settled : Words → ℕ → ℕ → Type 0
  Settled m c n = (i j : ℕ) → i < c → i ≤ j → j < n → key m i ≤ key m j

  -- The sections of `m'` are those of `m` in another order, as a permutation of the indices below
  -- `n`, and nothing else in memory differs.
  pub record Rearranged (n : ℕ) (m m' : Words) : Type 0 where
    pub from : ℕ → ℕ
    pub to : ℕ → ℕ
    pub sections : (i : ℕ) → section_at m' i ≡ section_at m (from i)
    pub from-to : (i : ℕ) → from (to i) ≡ i
    pub to-from : (i : ℕ) → to (from i) ≡ i
    pub from-lt : (i : ℕ) → i < n → from i < n
    pub to-lt : (i : ℕ) → i < n → to i < n
    pub outside : (a : ℕ) → (a < arr) ⊎ (arr + 3 * n ≤ a) → m' a ≡ m a

  Rearranged-refl : (n : ℕ) (m : Words) → Rearranged n m m
  Rearranged-refl n m = record {
    from = λ i. i;
    to = λ i. i;
    sections = λ i. refl;
    from-to = λ i. refl;
    to-from = λ i. refl;
    from-lt = λ i h. h;
    to-lt = λ i h. h;
    outside = λ a h. refl;
  }

  Rearranged-trans :
      {n : ℕ} {m m' m'' : Words} → Rearranged n m m' → Rearranged n m' m'' → Rearranged n m m''
  Rearranged-trans p q = record {
    from = λ i. p.from (q.from i);
    to = λ i. q.to (p.to i);
    sections = λ i. q.sections i ∙ p.sections (q.from i);
    from-to = λ i. rw (q.from-to) (p.from-to i);
    to-from = λ i. rw (p.to-from) (q.to-from i);
    from-lt = λ i h. p.from-lt (q.from i) (q.from-lt i h);
    to-lt = λ i h. q.to-lt (p.to i) (p.to-lt i h);
    outside = λ a h. q.outside a h ∙ p.outside a h;
  }

  abbrev transpose : ℕ → ℕ → ℕ → ℕ
  transpose c r i = if i == c then r else if i == r then c else i

  swp-Rearranged :
      (n c r : ℕ) (m : Words)
      → c < r
      → r < n
      → Rearranged n m (kernel_mmap_swp (arr + 3 * c) (arr + 3 * r) m)
  unfolding kernel_mmap_swp
  swp-Rearranged n c r m h k = record {
    from = transpose c r;
    to = transpose c r;
    sections = λ i. section-swp m c r i (omega arith);
    from-to = λ i. ground arith;
    to-from = λ i. ground arith;
    from-lt = λ i b. ground arith;
    to-lt = λ i b. ground arith;
    outside = λ a b. ground arith;
  }

  -- One round of the outer loop.
  place_min : ℕ → ℕ → Words → Words
  place_min c r m =
      if arr + 3 * r == arr + 3 * c then m else kernel_mmap_swp (arr + 3 * c) (arr + 3 * r) m

  refl_test : (a : ℕ) → (a == a) ≡ true
  refl_test a = ground arith

  other_test : (c r : ℕ) → c < r → (arr + 3 * r == arr + 3 * c) ≡ false
  other_test c r h = ground arith

  key-place_min : (m : Words) (c r i : ℕ) → key (place_min c r m) i ≡ key m (transpose c r i)
  unfolding place_min
  key-place_min m c r i = ground (arith, section-swp m c r i)

  place_min-Settled :
      (m : Words) (n c r : ℕ)
      → Settled m c n
      → c < n
      → IsMin m n (c + 1) c r
      → Settled (place_min c r m) (c + 1) n
  place_min-Settled m n c r s h least i j hi hj hn =
      rw (key-place_min m c r i, key-place_min m c r j)
        (ground (
          arith,
          s i j,
          s i c,
          s i r,
          least.place,
          least.le_first,
          least.le_rest j,
          least.le_rest c,
        ))

  place_min-Rearranged :
      (m : Words) (n c r : ℕ) → c < n → IsMin m n (c + 1) c r → Rearranged n m (place_min c r m)
  unfolding place_min
  place_min-Rearranged m n c r h least = elim least.place [
    | inl same ↦ rw (same, refl_test (arr + 3 * c)) (Rearranged-refl n m)
    | inr later ↦
        rw (other_test c r (omega arith)) (swp-Rearranged n c r m (omega arith) (omega arith))
  ]

  record Sorts (n c : ℕ) (m m' : Words) : Type 0 where
    settled : Settled m' n n
    same : Rearranged n m m'

  sort_from-Sorts :
      (rounds n c : ℕ) (m : Words)
      → c + rounds + 1 ≡ n
      → Settled m c n
      → Sorts n c m (sort_from kernel_mmap_cmp kernel_mmap_swp 3 rounds (arr + 3 * c) m)
  unfolding sort_from place_min
  sort_from-Sorts zero n c m e s = record {
    settled = λ i j hi hj hn. elim (Bool-cases (i == j)) [
      | inl same ↦ rw ((==_iff i j).0 same) (le_refl (key m j))
      | inr other ↦ s i j (ground arith) hj hn
    ];
    same = Rearranged-refl n m;
  }
  sort_from-Sorts (suc rounds) n c m e s =
      let (r, found, least) = min_from-IsMin (suc rounds) n (c + 1) c m (omega arith) in
      let next : arr + 3 * c + 3 ≡ arr + 3 * (c + 1) = omega arith in
      let rest =
        sort_from-Sorts rounds n (c + 1) (place_min c r m) (omega arith)
          (place_min-Settled m n c r s (omega arith) least) in
      rw (next, found)
        (record {
          settled = rest.settled;
          same = Rearranged-trans (place_min-Rearranged m n c r (omega arith) least) rest.same;
        })

  sort-Sorts : (n : ℕ) (m : Words) → Sorts n 0 m (sort_kernel_section_array arr n m)
  unfolding sort_kernel_section_array
  sort-Sorts zero m = record {
    settled = λ i j h h' k. absurd (omega arith);
    same = Rearranged-refl 0 m;
  }
  sort-Sorts (suc zero) m = record {
    settled = λ i j h h' k. let e : i ≡ j = omega arith in rw e (le_refl _);
    same = Rearranged-refl 1 m;
  }
  sort-Sorts (suc (suc n)) m =
      let start : arr + 3 * 0 ≡ arr = omega arith in
      let none : (i j : ℕ) → i < 0 → i ≤ j → j < suc (suc n) → key m i ≤ key m j =
        λ i j h h' h''. absurd (omega arith) in
      let done = sort_from-Sorts (suc n) (suc (suc n)) 0 m (omega arith) none in
      let count : suc (suc n) - 1 ≡ suc n = omega arith in
      let loops : leb (suc (suc n)) 1 ≡ false = ground arith in rw (loops, count) (rw start at done)

  -- sort_kernel_section_array orders the `n` sections from `arr` on by their bases: no section has a
  -- lower base than one before it, the sections are the given ones under a permutation of their
  -- indices, and no word outside the array changes.
  pub sort_kernel_section_array_lem :
      (n : ℕ) (m : Words)
      → let m' = sort_kernel_section_array arr n m in
        ((i j : ℕ) → i ≤ j → j < n → (section_at m' i).base ≤ (section_at m' j).base)
        × Rearranged n m m'
  sort_kernel_section_array_lem n m =
      let done = sort-Sorts n m in (λ i j h k. done.settled i j (omega arith) h k, done.same)
