-- ===== src/Mmu/Free/Pieces.antt =====
-- mmu_compute_free_segments of src/mmu.c, where it cuts a segment of RAM in two.
use marimba.Base.{
  subst, ℕ, zero, suc, ◌+◌, ◌-◌, ◌%◌, ◌^◌, ◌<◌, ◌≡◌, refl, sym, ap, ◌∙◌, Bool, true, false, Option,
  none, some, List, [], ◌∷◌, arith, ltb, leb, ◌==◌,
}
use marimba.Mmu.{Segment}
use marimba.Mmu.Free.{
  FreeSegment, FreeState, remove_excluded, remove_round, put, seg_end, round_in, zero_segment,
  empty_state, copy_ram, round_all, compute_free_segments, skip_null_page,
}

-- The segments from an index on, along `next`.
unfoldable pub listed : ℕ → Option ℕ → FreeState → List Segment
listed n none st = []
listed zero (some i) st = []
listed (suc n) (some i) st =
    let s = st.segments i in record { base = s.base; len = s.len } ∷ listed n s.next st

-- A segment of whole pages is left by the rounding.
round_in-whole :
    (s : FreeSegment)
    → s.base % 4096 ≡ 0
    → s.len % 4096 ≡ 0
    → s.base + s.len < 2 ^ 64
    → s.end ≡ s.base + s.len
    → round_in s ≡ s
round_in-whole s based paged fits ends =
    let kept : (s.base % 4096 == 0) ≡ true = ground arith in
    let len : (s.end + 2 ^ 64 - s.base) % 2 ^ 64 ≡ s.len = omega arith in
    let total : (s.base + (s.len - 0)) % 2 ^ 64 ≡ s.end = omega arith in
    let same : s.len - 0 ≡ s.len = omega arith in
    rw kept (rw len (rw paged (rw total (rw same refl))))

-- One segment of RAM that is neither empty nor at 0, copied and rounded.
abbrev pub ram_at : ℕ → ℕ → FreeSegment
ram_at b l = record { base = b; end = b + l; len = l; next = none }

abbrev pub one_piece : ℕ → ℕ → FreeState
one_piece b l = put 0 (ram_at b l) (record (put 0 (ram_at b l) empty_state) { count = 1 })

-- A segment that the rounding leaves a page of keeps its place in the list.
round_all-kept :
    (n c : ℕ) (prev : Option ℕ) (st : FreeState)
    → 0 < (round_in (st.segments c)).len
    → let s = round_in (st.segments c) in
      round_all (suc n) (some c) prev st ≡ round_all n s.next (some c) (put c s st)
unfolding round_all
round_all-kept n c prev st any =
    let some_left : ((round_in (st.segments c)).len == 0) ≡ false = ground arith in
    let here : (c == c) ≡ true = ground arith in rw (round_all, some_left) (rw here refl)

rounded :
    (b l : ℕ)
    → b % 4096 ≡ 0
    → l % 4096 ≡ 0
    → 0 < l
    → b + l < 2 ^ 64
    → round_all 2 (some 0) none (copy_ram none (record { base = b; len = l } ∷ []) empty_state)
      ≡ some (one_piece b l)
unfolding round_all copy_ram
rounded b l based paged any fits =
    let s = ram_at b l in
    let ends : (b + l) % 2 ^ 64 ≡ b + l = omega arith in
    let st : FreeState = record (put 0 s empty_state) { count = 1 } in
    let whole = round_in-whole s based paged fits refl in
    let kept = round_all-kept 1 0 none st (subst (λ x. 0 < x.len) (sym whole) any) in
    rw ends (kept ∙ ap (λ x. round_all 1 x.next (some 0) (put 0 x st)) whole)

-- A segment whose end was never set is passed over by an excluded one behind its start.
passed :
    (f : ℕ) (e : Segment) (prev : Option ℕ) (st : FreeState)
    → (st.segments f).end ≡ 0
    → (st.segments f).base < e.base
    → remove_round f e prev st
      ≡ record { fcurr = (st.segments f).next; advance = false; prev = some f; state = st }
unfolding remove_round
passed f e prev st unset before =
    let ended : ltb e.base (st.segments f).end ≡ false = ground arith in
    let starts : ltb (st.segments f).base e.base ≡ true = ground arith in
    let early : leb e.base (st.segments f).base ≡ false = ground arith in
    rw starts (rw ended (rw early refl))

abbrev pub cut_at : ℕ → ℕ → Segment → FreeState
cut_at b l e =
    let first = record (ram_at b l) { len = e.base - b } in
    let cut = put 0 first (one_piece b l) in
    let second = record zero_segment { base = seg_end e; len = b + l - seg_end e; next = none } in
    record (put 0 (record first { next = some 1 }) (put 1 second cut)) { count = 2 }

cut :
    (b l : ℕ) (e : Segment) (prev : Option ℕ)
    → b < e.base
    → seg_end e < b + l
    → remove_round 0 e prev (one_piece b l)
      ≡ record { fcurr = some 1; advance = true; prev = some 0; state = cut_at b l e }
unfolding remove_round
cut b l e prev starts ends =
    let before : ltb b e.base ≡ true = ground arith in
    let within : ltb e.base (b + l) ≡ true = ground arith in
    let behind : ltb (seg_end e) (b + l) ≡ true = ground arith in
    rw before (rw within (rw behind refl))

unfoldable pub starts_after : ℕ → List Segment → Bool
starts_after a [] = true
starts_after a (e ∷ es) = ltb a e.base

removed :
    (fuel b l : ℕ) (e : Segment) (es : List Segment)
    → b < e.base
    → seg_end e < b + l
    → starts_after (seg_end e) es ≡ true
    → remove_excluded (suc (suc fuel)) (some 0) (e ∷ es) none (one_piece b l) ≡ some (cut_at b l e)
unfolding remove_excluded starts_after
removed fuel b l e [] starts ends later = rw (cut b l e none starts ends) refl
removed fuel b l e (e' ∷ es) starts ends later =
    let after : ltb (seg_end e) e'.base ≡ true = later in
    let last = passed 1 e' (some 0) (cut_at b l e) refl (ground arith) in
    rw (cut b l e none starts ends) (rw last refl)

-- One segment of RAM of whole pages, above page 0, with an excluded segment strictly inside it: the
-- free segments are the part before that one and the part behind it. Whatever is excluded further on
-- stays in the second part.
pub compute_free_segments-pieces :
    (fuel b l : ℕ) (e : Segment) (es : List Segment)
    → b % 4096 ≡ 0
    → l % 4096 ≡ 0
    → 0 < b
    → b + l < 2 ^ 64
    → b < e.base
    → seg_end e < b + l
    → starts_after (seg_end e) es ≡ true
    → elim (compute_free_segments (suc (suc fuel)) (record { base = b; len = l } ∷ []) (e ∷ es)) [
      | none ↦ []
      | some st ↦ listed st.count st.head st
    ]
      ≡ record { base = b; len = e.base - b }
        ∷ record { base = seg_end e; len = b + l - seg_end e }
        ∷ []
unfolding compute_free_segments listed skip_null_page
compute_free_segments-pieces fuel b l e es based paged above fits starts ends later =
    let above_null : (b == 0) ≡ false = ground arith in
    let any : 0 < l = omega arith in
    rw (rounded b l based paged any fits)
      (rw (removed fuel b l e es starts ends later) (rw above_null refl))
