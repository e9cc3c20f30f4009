-- ===== src/Mmu/Excluded.antt =====
-- mmu_compute_excluded of src/mmu.c: the kernel's sections, rounded to pages and merged. The linked list
-- of segments is a list, and a segment ends `len` bytes behind its base; addresses are 64-bit words.
use marimba.Base.{
  ℕ, ◌+◌, ◌-◌, ◌%◌, ◌^◌, ◌≤◌, ◌<◌, ◌≡◌, inl, inr, Bool, true, false, ◌&&◌, ◌||◌, List, [], ◌∷◌, map,
  arith, ltb, leb, ◌==◌, if◌then◌else◌, Bool-cases,
}
use marimba.Mmu.{Segment, page_size}

-- The rounding loop's body.
abbrev pub round_out : Segment → Segment
round_out s =
    let new_base = s.base - s.base % page_size in
    let len = s.len + (s.base - new_base) in
    record {
      base = new_base;
      len = if len % page_size == 0 then len else len + page_size - (len + page_size) % page_size;
    }

-- The length of `prev` when the overlapping `curr` is taken into it.
abbrev pub grown : (prev curr : Segment) → Segment
grown prev curr =
    let reach = (curr.base + curr.len + 2 ^ 64 - prev.base) % 2 ^ 64 in
    record prev { len = if ltb prev.len reach then reach else prev.len }

-- The merging loop, from `prev` and the segments behind it on.
unfoldable pub merge : Segment → List Segment → List Segment
merge prev [] = prev ∷ []
merge prev (curr ∷ rest) =
    let apart = ltb (prev.base + prev.len) curr.base in
    let merged = merge (if apart then curr else grown prev curr) rest in
    if apart then prev ∷ merged else merged

unfoldable pub compute_excluded : List Segment → List Segment
unfolding merge
compute_excluded [] = []
compute_excluded (s ∷ ss) = merge (round_out s) (map round_out ss)

abbrev pub in_segment : ℕ → Segment → Bool
in_segment a s = leb s.base a && ltb a (s.base + s.len)

abbrev pub in_some : ℕ → List Segment → Bool
in_some a [] = false
in_some a (s ∷ ss) = in_segment a s || in_some a ss

-- The bases do not go down, and no segment reaches the end of the address space.
abbrev pub IsOrdered : Segment → List Segment → Type 0
IsOrdered s [] = s.base + s.len < 2 ^ 64
IsOrdered s (next ∷ rest) = (s.base + s.len < 2 ^ 64) × (s.base ≤ next.base) × IsOrdered next rest

IsOrdered-end : (s : Segment) (ss : List Segment) → IsOrdered s ss → s.base + s.len < 2 ^ 64
IsOrdered-end s [] h = h
IsOrdered-end s (next ∷ rest) h = h.0

IsOrdered-lower :
    (low s : Segment) (ss : List Segment)
    → low.base ≤ s.base
    → low.base + low.len < 2 ^ 64
    → IsOrdered s ss
    → IsOrdered low ss
IsOrdered-lower low s [] le small h = small
IsOrdered-lower low s (next ∷ rest) le small h = (small, omega (arith, h.1), h.2)

grown-covers :
    (prev curr : Segment) (a : ℕ)
    → prev.base ≤ curr.base
    → curr.base ≤ prev.base + prev.len
    → curr.base + curr.len < 2 ^ 64
    → (in_segment a prev || in_segment a curr) ≡ true
    → in_segment a (grown prev curr) ≡ true
grown-covers prev curr a le touch small h = ground arith

grown-end :
    (prev curr : Segment)
    → prev.base ≤ curr.base
    → prev.base + prev.len < 2 ^ 64
    → curr.base + curr.len < 2 ^ 64
    → prev.base + (grown prev curr).len < 2 ^ 64
grown-end prev curr le small small' = ground arith

-- Merging segments in the order of their bases loses no address.
pub merge-covers :
    (prev : Segment) (ss : List Segment) (a : ℕ)
    → IsOrdered prev ss
    → in_some a (prev ∷ ss) ≡ true
    → in_some a (merge prev ss) ≡ true
unfolding merge
merge-covers prev [] a h i = i
merge-covers prev (curr ∷ rest) a h i = elim (Bool-cases (ltb (prev.base + prev.len) curr.base)) [
  | inl apart ↦ rw apart (ground (arith, merge-covers curr rest a h.2))
  | inr touch ↦
      let small = IsOrdered-end curr rest h.2 in
      let g = grown prev curr in
      let ordered = IsOrdered-lower g curr rest h.1 (grown-end prev curr h.1 h.0 small) h.2 in
      let covers = grown-covers prev curr a h.1 (ground arith) small in
      rw touch (merge-covers g rest a ordered (ground (arith, covers)))
]

-- Each segment is made of whole pages.
abbrev pub IsWhole : List Segment → Type 0
IsWhole [] = Unit
IsWhole (s ∷ ss) = (s.base % 4096 ≡ 0) × (s.len % 4096 ≡ 0) × IsWhole ss

grown-whole :
    (prev curr : Segment)
    → prev.base ≤ curr.base
    → curr.base + curr.len < 2 ^ 64
    → prev.base % 4096 ≡ 0
    → prev.len % 4096 ≡ 0
    → curr.base % 4096 ≡ 0
    → curr.len % 4096 ≡ 0
    → (grown prev curr).len % 4096 ≡ 0
grown-whole prev curr le small b l b' l' = ground arith

merge-IsWhole :
    (prev : Segment) (ss : List Segment)
    → IsOrdered prev ss
    → IsWhole (prev ∷ ss)
    → IsWhole (merge prev ss)
unfolding merge
merge-IsWhole prev [] h w = w
merge-IsWhole prev (curr ∷ rest) h w = elim (Bool-cases (ltb (prev.base + prev.len) curr.base)) [
  | inl apart ↦ rw apart (w.0, w.1, merge-IsWhole curr rest h.2 w.2)
  | inr touch ↦
      let small = IsOrdered-end curr rest h.2 in
      let g = grown prev curr in
      let ordered = IsOrdered-lower g curr rest h.1 (grown-end prev curr h.1 h.0 small) h.2 in
      let whole = grown-whole prev curr h.1 small w.0 w.1 w.2.0 w.2.1 in
      rw touch (merge-IsWhole g rest ordered (w.0, whole, w.2.2))
]

-- The bases do not go down, and no segment reaches the last two pages of the address space.
abbrev pub IsSorted : Segment → List Segment → Type 0
IsSorted s [] = s.base + s.len + 8192 < 2 ^ 64
IsSorted s (next ∷ rest) =
    (s.base + s.len + 8192 < 2 ^ 64) × (s.base ≤ next.base) × IsSorted next rest

round_out-ends :
    (s : Segment) → s.base + s.len + 8192 < 2 ^ 64 → (round_out s).base + (round_out s).len < 2 ^ 64
round_out-ends s h = ground arith

round_out_mono : (s t : Segment) → s.base ≤ t.base → (round_out s).base ≤ (round_out t).base
round_out_mono s t h = omega arith

round_out-covers : (s : Segment) (a : ℕ) → in_segment a s ≡ true → in_segment a (round_out s) ≡ true
round_out-covers s a h = ground arith

round_out-whole : (s : Segment) → ((round_out s).base % 4096 ≡ 0) × ((round_out s).len % 4096 ≡ 0)
round_out-whole s = ground arith

map-IsOrdered :
    (s : Segment) (ss : List Segment) → IsSorted s ss → IsOrdered (round_out s) (map round_out ss)
map-IsOrdered s [] h = round_out-ends s h
map-IsOrdered s (next ∷ rest) h =
    (round_out-ends s h.0, round_out_mono s next h.1, map-IsOrdered next rest h.2)

map-IsWhole : (ss : List Segment) → IsWhole (map round_out ss)
map-IsWhole [] = tt
map-IsWhole (s ∷ ss) = ((round_out-whole s).0, (round_out-whole s).1, map-IsWhole ss)

in_some-map :
    (ss : List Segment) (a : ℕ) → in_some a ss ≡ true → in_some a (map round_out ss) ≡ true
in_some-map [] a h = h
in_some-map (s ∷ ss) a h = ground (arith, round_out-covers s a, in_some-map ss a)

-- mmu_compute_excluded of sections whose bases do not go down, and which stay off the last two pages of
-- the address space, gives segments of whole pages that contain every address of every section.
pub compute_excluded-covers :
    (s : Segment) (ss : List Segment)
    → IsSorted s ss
    → IsWhole (compute_excluded (s ∷ ss))
      × ((a : ℕ) → in_some a (s ∷ ss) ≡ true → in_some a (compute_excluded (s ∷ ss)) ≡ true)
unfolding compute_excluded
compute_excluded-covers s ss h =
    let ordered = map-IsOrdered s ss h in
    (
      merge-IsWhole (round_out s) (map round_out ss) ordered (map-IsWhole (s ∷ ss)),
      λ a i. merge-covers (round_out s) (map round_out ss) a ordered (in_some-map (s ∷ ss) a i),
    )
