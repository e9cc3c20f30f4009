-- ===== src/Mmu/Free.antt =====
-- mmu_compute_free_segments of src/mmu.c: the segments of RAM, rounded to pages, less the excluded ones.
-- The array `free_segments` is a map from its indices, a pointer into it is an index, and the static
-- array is zero at the start. Loops over the linked list take fuel: `none` is a loop that goes on.
use marimba.Base.{
  ℕ, zero, suc, ◌+◌, ◌-◌, ◌*◌, ◌/◌, ◌%◌, ◌^◌, ◌≤◌, ◌<◌, ◌≡◌, ◌≢◌, refl, sym, ap, ◌∙◌, ◌⊎◌, inl, inr,
  Bool, true, false, not, ◌&&◌, ◌||◌, Option, none, some, List, [], ◌∷◌, ◌++◌, map, append_assoc,
  append-nil, arith, ltb, leb, ◌==◌, ==_iff, if◌then◌else◌, Bool-cases, length, length-append,
  length-set, get_or, set, has, bit_and, bit_or,
}
pub mod Pieces
mod Endless
mod Tests
use marimba.Mmu.{Segment, page_size}

pub record FreeSegment : Type 0 where
  pub base : ℕ
  pub end : ℕ
  pub len : ℕ
  pub next : Option ℕ

-- `count` is the variable `i`: the first unused index.
pub record FreeState : Type 0 where
  pub segments : ℕ → FreeSegment
  pub head : Option ℕ
  pub count : ℕ

abbrev pub zero_segment : FreeSegment
zero_segment = record { base = 0; end = 0; len = 0; next = none }

abbrev pub put : ℕ → FreeSegment → FreeState → FreeState
put i s st = record st { segments = λ j. if j == i then s else st.segments j }

-- `prev->next = next`, or the head where there is no `prev`.
abbrev pub link : Option ℕ → Option ℕ → FreeState → FreeState
link none next st = record st { head = next }
link (some p) next st = put p (record (st.segments p) { next = next }) st

-- The loop that copies the RAM segments.
unfoldable pub copy_ram : Option ℕ → List Segment → FreeState → FreeState
copy_ram prev [] st = st
copy_ram prev (s ∷ ss) st =
    let i = st.count in
    let copied =
      put i (record { base = s.base; end = (s.base + s.len) % 2 ^ 64; len = s.len; next = none })
        st in
    let linked : FreeState = elim prev [ none ↦ copied | some p ↦ link (some p) (some i) copied ] in
    copy_ram (some i) ss (record linked { count = i + 1 })

-- The rounding loop's body: the length is a `size_t` and wraps.
abbrev pub round_in : FreeSegment → FreeSegment
round_in s =
    let new_base =
      if s.base % page_size == 0
      then s.base
      else (s.base + page_size - (s.base + page_size) % page_size) % 2 ^ 64 in
    let len = (s.end + 2 ^ 64 - new_base) % 2 ^ 64 in
    let whole = len - len % page_size in
    record s { base = new_base; len = whole; end = (new_base + whole) % 2 ^ 64 }

-- The rounding loop; a segment that is gone is unlinked, and then taken for `prev`.
unfoldable pub round_all : (fuel : ℕ) (curr prev : Option ℕ) → FreeState → Option FreeState
round_all fuel none prev st = some st
round_all zero (some c) prev st = none
round_all (suc fuel) (some c) prev st =
    let s = round_in (st.segments c) in
    let rounded = put c s st in
    let kept = if s.len == 0 then link prev s.next rounded else rounded in
    round_all fuel (kept.segments c).next (some c) kept

-- One round of the loop that removes the excluded segments, at the free segment `f` and the excluded
-- one `e`: the next free segment, whether the excluded one is done with, the next `prev`, and the state.
pub record Round : Type 0 where
  pub fcurr : Option ℕ
  pub advance : Bool
  pub prev : Option ℕ
  pub state : FreeState

abbrev pub seg_end : Segment → ℕ
seg_end e = e.base + e.len

unfoldable pub remove_round : (f : ℕ) (e : Segment) (prev : Option ℕ) → FreeState → Round
remove_round f e prev st =
    let s = st.segments f in
    if ltb s.base e.base && ltb e.base s.end
    then (let cut = put f (record s { len = e.base - s.base }) st in
        if ltb (seg_end e) s.end
        then (let i = cut.count in
            let added =
              put i
                (record (cut.segments i) {
                  base = seg_end e;
                  len = s.end - seg_end e;
                  next = s.next;
                })
                cut in
            let linked = put f (record (added.segments f) { next = some i }) added in
            record {
              fcurr = some i;
              advance = true;
              prev = some f;
              state = record linked { count = i + 1 };
            })
        else record { fcurr = s.next; advance = false; prev = some f; state = cut })
    else if leb e.base s.base && ltb s.base (seg_end e)
    then (if ltb s.end (seg_end e)
        then record { fcurr = some f; advance = false; prev = prev; state = link prev s.next st }
        else record {
          fcurr = some f;
          advance = true;
          prev = prev;
          state = put f (record s { len = s.end - seg_end e; base = seg_end e }) st;
        })
    else record { fcurr = s.next; advance = false; prev = some f; state = st }

unfoldable pub remove_excluded :
    (fuel : ℕ) (fcurr : Option ℕ) → List Segment → (prev : Option ℕ) → FreeState → Option FreeState
remove_excluded fuel none es prev st = some st
remove_excluded fuel (some f) [] prev st = some st
remove_excluded zero (some f) (e ∷ es) prev st = none
remove_excluded (suc fuel) (some f) (e ∷ es) prev st =
    let r = remove_round f e prev st in
    let done = remove_excluded fuel r.fcurr es r.prev r.state in
    let again = remove_excluded fuel r.fcurr (e ∷ es) r.prev r.state in
    if r.advance then done else again

-- The page at address 0 is left out. `none` is a read through a NULL head.
unfoldable pub skip_null_page : Option ℕ → FreeState → Option FreeState
skip_null_page none st = none
skip_null_page (some h) st =
    let s = st.segments h in
    if s.base == 0
    then (if s.len == page_size
        then some (record st { head = s.next })
        else some
            (put h (record s { base = page_size; len = (s.len + 2 ^ 64 - page_size) % 2 ^ 64 }) st))
    else some st

abbrev pub empty_state : FreeState
empty_state = record { segments = λ i. zero_segment; head = some 0; count = 0 }

unfoldable pub compute_free_segments : (fuel : ℕ) (ram excluded : List Segment) → Option FreeState
compute_free_segments fuel ram excluded =
    elim (round_all (suc (length ram)) (some 0) none (copy_ram none ram empty_state)) [
      | none ↦ none
      | some st ↦ elim (remove_excluded fuel st.head excluded none st) [
        | none ↦ none
        | some st' ↦ skip_null_page st'.head st'
      ]
    ]
