-- ===== src/Mmu/Free/Endless.antt =====
-- The loop of mmu_compute_free_segments in src/mmu.c that removes the excluded segments, where it does not end.
use marimba.Base.{
  ℕ, zero, suc, ◌≤◌, ◌<◌, ◌≡◌, refl, inl, inr, true, false, Option, none, some, List, ◌∷◌, arith,
  ltb, leb, ◌==◌, Bool-cases,
}
use marimba.Mmu.{Segment}
use marimba.Mmu.Free.{FreeState, remove_excluded, remove_round, link, seg_end}

-- Unlinking a segment leaves each segment where it is.
link-places :
    (prev next : Option ℕ) (st : FreeState) (f : ℕ)
    → ((link prev next st).segments f).base ≡ (st.segments f).base
      × (((link prev next st).segments f).end ≡ (st.segments f).end)
link-places none next st f = (refl, refl)
link-places (some p) next st f = elim (Bool-cases (f == p)) [
  | inl same ↦ (ground arith, ground arith)
  | inr other ↦ (ground arith, ground arith)
]

-- Where a free segment starts in the excluded one and ends before it, the loop never ends: whatever
-- the fuel, it runs out.
pub remove_excluded-endless :
    (fuel f : ℕ) (e : Segment) (es : List Segment) (prev : Option ℕ) (st : FreeState)
    → e.base ≤ (st.segments f).base
    → (st.segments f).base < seg_end e
    → (st.segments f).end < seg_end e
    → remove_excluded fuel (some f) (e ∷ es) prev st ≡ none
unfolding remove_excluded remove_round
remove_excluded-endless zero f e es prev st starts inside ends = refl
remove_excluded-endless (suc fuel) f e es prev st starts inside ends =
    let after : ltb (st.segments f).base e.base ≡ false = ground arith in
    let from : leb e.base (st.segments f).base ≡ true = ground arith in
    let within : ltb (st.segments f).base (seg_end e) ≡ true = ground arith in
    let short : ltb (st.segments f).end (seg_end e) ≡ true = ground arith in
    let st' = link prev (st.segments f).next st in
    let (bases, ends') = link-places prev (st.segments f).next st f in
    rw after (
      rw from (
        rw within (
          rw short (
            remove_excluded-endless fuel f e es prev st' (rw bases starts) (rw bases inside)
              (rw ends' ends)))))
