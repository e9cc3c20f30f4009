-- ===== src/Pages/Cycle.antt =====
-- The life of a frame: a page fault takes it for a page, and MMU_free_page gives it back.
use marimba.Base.{
  subst, Distinct, ℕ, ◌+◌, ◌*◌, ◌%◌, ◌≡◌, ◌≢◌, refl, sym, ap, ◌∙◌, false, List, [], ◌∷◌, ◌++◌,
  arith, ◌==◌, ==_iff, has, has-append,
}
use marimba.LinkedList.Ops.{Distinct-append}
use marimba.Mmu.{FrameState, free_frame}
use marimba.Mmu.Frames.{frames_of, available, Linked, tail-mem, free_frame-available}
use marimba.Paging.{
  null, store, present, demand_allocate, pte_of, pte_at, pt_walk, pt_free, virt_to_phys,
}
use marimba.Paging.Walk.{Leads, pt_walk-Leads}
use marimba.Paging.Fault.{
  unmarked, IsFrame, Leads-IsApart, freed, freed_lem, pt_free-mapped, store-store,
  page_fault_handler-maps, Leads-mapped, stored, page_fault_handler_lem,
}
use marimba.Paging.Demand.{AreFrames}
use marimba.Pages.{with_words, page_fault, free_page}
use marimba.Pages.Describes.{Describes, Describes-words}
use marimba.Pages.Refine.{page_fault-refines}

-- None of the entries on the way is in one of the frames.
pub record IsOutside (m : ℕ → ℕ) (cr3 v e : ℕ) (l : Leads m cr3 v e) (fs : List ℕ) : Type 0 where
  pub first : has (pte_at cr3 v 0) fs ≡ false
  pub second : has l.second fs ≡ false
  pub third : has l.third fs ≡ false
  pub last : has e fs ≡ false

AreFrames-append : (fs : List ℕ) (f : ℕ) → AreFrames fs → IsFrame f → AreFrames (fs ++ f ∷ [])
AreFrames-append [] f all h = (h, tt)
AreFrames-append (g ∷ fs) f all h = (all.0, AreFrames-append fs f all.1 h)

-- What MMU_free_frame does to the frames, and to the words elsewhere.
free_frame-other :
    (s : FrameState) (fs : List ℕ) (f a : ℕ)
    → Linked s.words s.free_page_head fs s.free_page_tail
    → has a fs ≡ false
    → a ≢ f
    → (free_frame f s).words a ≡ s.words a
unfolding free_frame
free_frame-other s [] f a l out other = ground arith
free_frame-other s (g ∷ fs) f a l out other =
    let tail = tail-mem s.words s.free_page_head g fs s.free_page_tail l in
    ground (arith, tail, out)

free_frame-Describes :
    (fs : List ℕ) (m : ℕ → ℕ) (s : FrameState) (f : ℕ)
    → Describes fs m s
    → has f fs ≡ false
    → IsFrame f
    → Describes (fs ++ f ∷ []) (free_frame f s).words (free_frame f s)
      × ((a : ℕ) → has a fs ≡ false → a ≢ f → (free_frame f s).words a ≡ m a)
free_frame-Describes fs m s f d out frame =
    let not_left : (a : ℕ) → has a fs ≡ false → has a d.left ≡ false =
      λ a h. ground (arith, has-append a (frames_of s.free_segments) d.left, rw (← d.free) at h) in
    let (valid, more) = free_frame-available s d.left f d.sound.valid (not_left f out) frame.0 in
    let same : available (free_frame f s) (d.left ++ f ∷ []) ≡ fs ++ f ∷ [] =
      more ∙ ap (λ (q : List ℕ). q ++ f ∷ []) d.free in
    (
      record {
        left = d.left ++ f ∷ [];
        sound = record {
          valid = valid;
          distinct =
              subst Distinct (sym same)
                (Distinct-append fs f (subst Distinct d.free d.sound.distinct) out);
          frames =
              subst AreFrames (sym same)
                (AreFrames-append fs f (subst AreFrames d.free d.sound.frames) frame);
        };
        free = same;
        words = refl;
      },
      λ a h other.
          free_frame-other s d.left f a d.sound.valid.linked (not_left a h) other
          ∙ ap (λ (w : ℕ → ℕ). w a) d.words,
    )

Leads-words :
    (m m' : ℕ → ℕ) (cr3 v e : ℕ) (l : Leads m cr3 v e)
    → m' (pte_at cr3 v 0) ≡ m (pte_at cr3 v 0)
    → m' l.second ≡ m l.second
    → m' l.third ≡ m l.third
    → Leads m' cr3 v e
Leads-words m m' cr3 v e l first second third = record {
  second = l.second;
  third = l.third;
  first_present = rw first l.first_present;
  to_second = rw first l.to_second;
  second_present = rw second l.second_present;
  to_third = rw second l.to_third;
  third_present = rw third l.third_present;
  to_last = rw third l.to_last;
}

-- The address that the page fault gives.
mapped :
    (m : ℕ → ℕ) (cr3 v e f : ℕ) (fs : List ℕ)
    → pt_walk m cr3 v ≡ (e, 3)
    → demand_allocate (m e) ≢ 0
    → IsFrame f
    → v % 4096 ≡ 0
    → (s : FrameState) → s.words ≡ store m e (pte_of f)
    → virt_to_phys s.words cr3 v ≡ f
mapped m cr3 v e f fs found marked frame page s words =
    let there = (page_fault_handler_lem m cr3 v e f fs found marked frame).1 in
    let at_f : virt_to_phys (store m e (pte_of f)) cr3 v ≡ f + 8 * (v % 4096) =
      ap (λ (r : List ℕ × (ℕ → ℕ)). virt_to_phys r.1 cr3 v)
        (sym (page_fault_handler-maps m cr3 v e f fs found marked))
      ∙ there in
    ap (λ (w : ℕ → ℕ). virt_to_phys w cr3 v) words ∙ at_f ∙ omega (arith, page)

-- The walk when the frame is given back.
walk_after :
    (m m' : ℕ → ℕ) (cr3 v e f : ℕ) (fs : List ℕ) (l : Leads m cr3 v e)
    → IsOutside m cr3 v e l (f ∷ fs)
    → present (m e) ≡ 0
    → IsFrame f
    → ((a : ℕ) → has a fs ≡ false → a ≢ f → m' a ≡ store m e (freed f) a)
    → (pt_walk m' cr3 v ≡ (e, 3)) × (demand_allocate (m' e) ≡ 0)
walk_after m m' cr3 v e f fs l outside absent frame other =
    let m2 = store m e (freed f) in
    let at : (a : ℕ) → has a (f ∷ fs) ≡ false → m' a ≡ m2 a =
      λ a h. other a (ground (arith, h)) (λ same. ground (arith, h, same)) in
    let apart = Leads-IsApart m cr3 v e l absent in
    let same : (a : ℕ) → a ≢ e → has a (f ∷ fs) ≡ false → m' a ≡ m a =
      λ a ne h. at a h ∙ ground (arith, ne) in
    let l' =
      Leads-words m m' cr3 v e l (same (pte_at cr3 v 0) apart.from_first outside.first)
        (same l.second apart.from_second outside.second)
        (same l.third apart.from_third outside.third) in
    let last : m' e ≡ freed f = at e outside.last ∙ stored m e (freed f) in
    (
      pt_walk-Leads m' cr3 v e l' ∙ rw (last, (freed_lem f frame).0) refl,
      rw last ((==_iff _ 0).0 (unmarked f frame)),
    )

-- A page whose tables are outside of the free frames `f ∷ fs` and whose entry is marked for allocation on demand:
-- the page fault takes `f` for it, and MMU_free_page gives `f` back. Then `f` is the last frame that
-- MMU_alloc_frame will return, behind the others in their order, and the page has neither a frame nor the mark.
pub free_page-page_fault :
    (m : ℕ → ℕ) (cr3 v e f : ℕ) (fs : List ℕ) (s : FrameState) (l : Leads m cr3 v e)
    → Describes (f ∷ fs) m s
    → IsOutside m cr3 v e l (f ∷ fs)
    → present (m e) ≡ 0
    → demand_allocate (m e) ≢ 0
    → v % 4096 ≡ 0
    → let s1 = page_fault cr3 v s in
      let s2 = free_page cr3 v s1 in
      (virt_to_phys s1.words cr3 v ≡ f)
      × Describes (fs ++ f ∷ []) s2.words s2
      × ((pt_walk s2.words cr3 v ≡ (e, 3)) × (demand_allocate (s2.words e) ≡ 0))
unfolding free_page
free_page-page_fault m cr3 v e f fs s l d outside absent marked page =
    let frames : AreFrames (f ∷ fs) = subst AreFrames d.free d.sound.frames in
    let distinct : Distinct (f ∷ fs) = subst Distinct d.free d.sound.distinct in
    let found : pt_walk m cr3 v ≡ (e, 3) = pt_walk-Leads m cr3 v e l ∙ rw absent refl in
    let s1 = page_fault cr3 v s in
    let m1 = store m e (pte_of f) in
    let d1 : Describes fs m1 s1 =
      subst (λ (r : List ℕ × (ℕ → ℕ)). Describes r.0 r.1 s1)
        (page_fault_handler-maps m cr3 v e f fs found marked)
        (page_fault-refines cr3 v (f ∷ fs) m s d
          (ap (λ (r : ℕ × ℕ). has r.0 (f ∷ fs)) found ∙ outside.last)) in
    let m2 = store m e (freed f) in
    let freed_page : pt_free s1.words cr3 v ≡ (f, m2) =
      ap (λ (w : ℕ → ℕ). pt_free w cr3 v) d1.words
      ∙ pt_free-mapped m1 cr3 v e f (Leads-mapped m cr3 v e f found) frames.0
          (stored m e (pte_of f)) page
      ∙ ap (λ (w : ℕ → ℕ). (f, w)) (store-store m e (pte_of f) (freed f)) in
    let d2 : Describes fs m2 (with_words m2 s1) =
      Describes-words fs m1 m2 s1 d1 (λ a h. ground (arith, h, outside.last)) in
    let given = free_frame-Describes fs m2 (with_words m2 s1) f d2 distinct.0 frames.0 in
    let used : (f == null) ≡ false = ground (arith, frames.0.0) in
    rw (freed_page, used)
      (
        mapped m cr3 v e f fs found marked frames.0 page s1 d1.words,
        given.0,
        walk_after m (free_frame f (with_words m2 s1)).words cr3 v e f fs l outside absent frames.0
            given.1,
      )
