-- ===== src/Pages/Started.antt =====
-- The frames and the tables behind MMU_init.
use marimba.Base.{
  subst, Distinct, ℕ, suc, ◌+◌, ◌%◌, ◌^◌, ◌≤◌, ◌<◌, ◌≡◌, ◌≢◌, refl, ap, ◌∙◌, Bool, true, false,
  Option, some, none, List, [], ◌∷◌, arith, ltb, ◌==◌, if◌then◌else◌, length, has,
}
use marimba.Interrupts.{IrqState, IrqHandler}
use marimba.Mmu.{Segment, FrameState, alloc_frame, init_virtual, null}
use marimba.Mmu.Excluded.{compute_excluded}
use marimba.Mmu.Free.{compute_free_segments, FreeState, seg_end}
use marimba.Mmu.Free.Pieces.{listed, compute_free_segments-pieces, starts_after}
use marimba.Paging.{Words}
use marimba.Paging.Fault.{IsFrame}
use marimba.Paging.Demand.{AreFrames}
use marimba.Paging.Identity.{
  pt_init, pt_page_table_init, IsProcessor, pt_page_table_init-away, pt_page_table_init-pt_init,
}
use marimba.Pages.{with_words}
use marimba.Pages.Describes.{Describes, Describes-words, alloc_frame-next}
use marimba.Pages.Refine.{with_own_words}
use marimba.Pages.Segments.{
  two_free, rest_of, first_frames-Describes, frames_of-rest, off_page, in_kernel,
}
use marimba.Pages.Init.{
  MmuState, Tables, InitResult, ready, failed, first_frames, make_tables, init_tables, mmu_init,
}

-- The identity tables, in the kernel's segment.
pub record InKernel (tables : Tables) (e c : ℕ) : Type 0 where
  pub third : IsFrame tables.identity_p3
  pub second : IsFrame tables.identity_p2
  pub different : tables.identity_p3 ≢ tables.identity_p2
  pub third_low : e ≤ tables.identity_p3
  pub third_high : tables.identity_p3 < c
  pub second_low : e ≤ tables.identity_p2
  pub second_high : tables.identity_p2 < c

not_null : (b : ℕ) → 0 < b → (b == null) ≡ false
not_null b low = ground arith

above_ne : (b e f : ℕ) → b < e → e ≤ f → f ≢ b
above_ne b e f lt le same = absurd (omega (arith, same))

-- What MMU_init leaves.
pub record IsInit (translate : Words → (cr3 vaddr : ℕ) → Option ℕ) (b e c l : ℕ) (s : MmuState)
    : Type 0 where
  pub table : s.page_table ≡ b
  pub frames : Describes (rest_of b e c l) s.frames.words s.frames
  pub identity : (v : ℕ) → v < 2 ^ 30 → translate s.frames.words s.page_table v ≡ some v

-- The words that the tables leave.
abbrev made : Tables → (ℕ → IrqHandler) → (b : ℕ) → (ℕ → ℕ) → ℕ → ℕ
made tables handlers b words =
    pt_page_table_init tables.identity_p3 b
      (pt_init tables.identity_p3 tables.identity_p2 tables.page_fault_handler words handlers).0

-- The state that MMU_init makes of the page table and the frames.
abbrev state_of : Tables → IrqState → (ℕ → IrqHandler) → (b : ℕ) → FrameState → MmuState
state_of tables irq handlers b frames = record {
  frames = with_words (made tables handlers b frames.words) frames;
  page_table = b;
  virtual = init_virtual irq;
  handlers =
      (pt_init tables.identity_p3 tables.identity_p2 tables.page_fault_handler frames.words
        handlers).1;
}

make_tables-ready :
    (tables : Tables) (irq : IrqState) (handlers : ℕ → IrqHandler) (b : ℕ) (frames : FrameState)
    → 0 < b
    → make_tables tables irq handlers b frames ≡ ready (state_of tables irq handlers b frames)
unfolding make_tables
make_tables-ready tables irq handlers b frames low =
    ap (λ (t : Bool). if t then failed else ready (state_of tables irq handlers b frames))
      (not_null b low)

init_tables-ready :
    (tables : Tables) (irq : IrqState) (handlers : ℕ → IrqHandler) (b : ℕ) (frames : FrameState)
    → 0 < b
    → (alloc_frame frames).0 ≡ b
    → init_tables tables irq handlers frames
      ≡ ready (state_of tables irq handlers b (alloc_frame frames).1)
unfolding init_tables
init_tables-ready tables irq handlers b frames low first =
    ap (λ (f : ℕ). make_tables tables irq handlers f (alloc_frame frames).1) first
    ∙ make_tables-ready tables irq handlers b (alloc_frame frames).1 low

init_tables-IsInit :
    (translate : Words → (cr3 vaddr : ℕ) → Option ℕ) (b e c l : ℕ) (tables : Tables)
    (irq : IrqState) (handlers : ℕ → IrqHandler) (words : ℕ → ℕ)
    → IsProcessor translate
    → InKernel tables e c
    → 0 < b
    → b % 4096 ≡ 0
    → e % 4096 ≡ 0
    → c % 4096 ≡ 0
    → l % 4096 ≡ 0
    → b < e
    → e ≤ c
    → c < l
    → l ≤ 2 ^ 52
    → (s : MmuState) × (init_tables tables irq handlers (two_free b e c l words) ≡ ready s)
      × IsInit translate b e c l s
init_tables-IsInit translate b e c l tables irq handlers words cpu k low page1 page2 page3 page4 lt1
      lt2 lt3 high =
    let rest = rest_of b e c l in
    let two = two_free b e c l words in
    let all = frames_of-rest b e c l page1 page2 lt1 in
    let d : Describes (b ∷ rest) words two =
      subst (λ (fs : List ℕ). Describes fs words two) all
        (first_frames-Describes b e c l words low page1 page2 page3 page4 lt1 lt2 lt3 high) in
    let frames : AreFrames (b ∷ rest) = subst AreFrames d.free d.sound.frames in
    let distinct : Distinct (b ∷ rest) = subst Distinct d.free d.sound.distinct in
    let next = alloc_frame-next b rest words two d in
    let s1 = (alloc_frame two).1 in
    let words' = made tables handlers b s1.words in
    let d1 : Describes rest s1.words s1 = with_own_words rest words s1 next.1 in
    let p3 = in_kernel b e c l tables.identity_p3 page1 page2 lt1 k.third_low k.third_high in
    let p2 = in_kernel b e c l tables.identity_p2 page1 page2 lt1 k.second_low k.second_high in
    let kept : (a : ℕ) → has a rest ≡ true → words' a ≡ s1.words a = λ a h.
      pt_page_table_init-away b tables.identity_p3 tables.identity_p2 tables.page_fault_handler a
        s1.words handlers (off_page a b rest page1 distinct.0 frames.1 h)
        (off_page a tables.identity_p3 rest k.third.1 p3 frames.1 h)
        (off_page a tables.identity_p2 rest k.second.1 p2 frames.1 h) in
    (
      state_of tables irq handlers b s1,
      init_tables-ready tables irq handlers b two low next.0,
      record {
        table = refl;
        frames = Describes-words rest s1.words words' s1 d1 kept;
        identity = λ v small.
            pt_page_table_init-pt_init translate b tables.identity_p3 tables.identity_p2
              tables.page_fault_handler v s1.words handlers cpu small page1 k.third k.second
              (above_ne b e tables.identity_p3 lt1 k.third_low)
              (above_ne b e tables.identity_p2 lt1 k.second_low) k.different;
      },
    )

-- The result of a computation whose listing is known.
found :
    (m : Option FreeState) (g : Segment) (gs : List Segment)
    → elim m [ none ↦ [] | some st ↦ listed st.count st.head st ] ≡ g ∷ gs
    → (st : FreeState) × (m ≡ some st) × (listed st.count st.head st ≡ g ∷ gs)
found none g gs same = absurd (ground arith)
found (some st) g gs same = (st, refl, same)

starts_after_none : (a : ℕ) → starts_after a [] ≡ true
unfolding starts_after
starts_after_none a = refl

at_most : (kernel : List Segment) → length kernel ≤ 128 → ltb 128 (length kernel) ≡ false
at_most kernel few = ground arith

-- MMU_init where the free segments are computed.
mmu_init-found :
    (fuel b l : ℕ) (kernel : List Segment) (e : Segment) (tables : Tables) (irq : IrqState)
    (handlers : ℕ → IrqHandler) (words : ℕ → ℕ) (st : FreeState)
    → length kernel ≤ 128
    → compute_excluded kernel ≡ e ∷ []
    → compute_free_segments (suc (suc fuel)) (record { base = b; len = l } ∷ []) (e ∷ []) ≡ some st
    → mmu_init (suc (suc fuel)) (record { base = b; len = l } ∷ []) kernel tables irq handlers words
      ≡ some (init_tables tables irq handlers (first_frames st words))
unfolding mmu_init
mmu_init-found fuel b l kernel e tables irq handlers words st few merged free =
    let ram : List Segment = record { base = b; len = l } ∷ [] in
    let result : Option FreeState → Option InitResult = λ m. elim m [
      | none ↦ none
      | some s ↦ some (init_tables tables irq handlers (first_frames s words))
    ] in
    ap
      (λ (t : Bool).
        if t
        then some failed
        else result (compute_free_segments (suc (suc fuel)) ram (compute_excluded kernel)))
      (at_most kernel few)
    ∙ ap (λ (es : List Segment). result (compute_free_segments (suc (suc fuel)) ram es)) merged
    ∙ ap result free

-- The kernel occupies one segment `e` inside of the only segment of RAM, which does not start at 0, all of
-- whole pages below 2 ^ 52, and the identity tables are in it. MMU_init then succeeds: the first frame of RAM is the page
-- table, MMU_alloc_frame will return the others, without those of the kernel, in order of their addresses, and the
-- processor translates the first gigabyte to itself.
pub mmu_init-IsInit :
    (translate : Words → (cr3 vaddr : ℕ) → Option ℕ) (fuel b l : ℕ) (e : Segment)
    (kernel : List Segment) (tables : Tables) (irq : IrqState) (handlers : ℕ → IrqHandler)
    (words : ℕ → ℕ)
    → IsProcessor translate
    → length kernel ≤ 128
    → compute_excluded kernel ≡ e ∷ []
    → InKernel tables e.base (seg_end e)
    → 0 < b
    → b % 4096 ≡ 0
    → l % 4096 ≡ 0
    → e.base % 4096 ≡ 0
    → e.len % 4096 ≡ 0
    → b < e.base
    → seg_end e < b + l
    → b + l ≤ 2 ^ 52
    → (s : MmuState) × (mmu_init
          (suc (suc fuel))
          (record { base = b; len = l } ∷ [])
          kernel
          tables
          irq
          handlers
          words
        ≡ some (ready s))
      × IsInit translate b e.base (seg_end e) (b + l) s
mmu_init-IsInit translate fuel b l e kernel tables irq handlers words cpu few merged k low page1
      page2 page3 page4 starts ends high =
    let pieces =
      compute_free_segments-pieces fuel b l e [] page1 page2 low (omega (arith, high)) starts ends
        (starts_after_none (seg_end e)) in
    let (st, free, listing) =
      found (compute_free_segments (suc (suc fuel)) (record { base = b; len = l } ∷ []) (e ∷ [])) _
        _ pieces in
    let (s, result, init) =
      init_tables-IsInit translate b e.base (seg_end e) (b + l) tables irq handlers words cpu k low
        page1 page3 (omega (arith, page3, page4)) (omega (arith, page1, page2)) starts (omega arith)
        ends high in
    let frames : first_frames st words ≡ two_free b e.base (seg_end e) (b + l) words =
      ap
        (λ (gs : List Segment). record {
          free_segments = gs;
          free_page_head = null;
          free_page_tail = null;
          words = words;
        })
        listing in
    (
      s,
      mmu_init-found fuel b l kernel e tables irq handlers words st few merged free
          ∙ ap (λ (f : FrameState). some (init_tables tables irq handlers f)) frames
          ∙ ap some result,
      init,
    )
