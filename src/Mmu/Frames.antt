-- ===== src/Mmu/Frames.antt =====
-- The frame allocator of mmu.c is a first-in first-out queue of frames.
use marimba.Base.{
  ◌^◌, Distinct, ℕ, zero, suc, ◌+◌, ◌-◌, ◌/◌, ◌%◌, ◌<◌, ◌≡◌, ◌≢◌, refl, sym, ap, ◌∙◌, ◌⊎◌, inl, inr,
  true, false, List, [], ◌∷◌, ◌++◌, append_assoc, arith, ◌==◌, ==_iff, Bool-cases, has,
}
use marimba.LinkedList.Ops.{Distinct-append}
use marimba.Mmu.{Segment, FrameState, null, shrink, store, alloc_frame, alloc_from, free_frame}

-- The frames of a segment, one for each page.
abbrev pub frames_from : ℕ → ℕ → List ℕ
frames_from zero base = []
frames_from (suc n) base = base ∷ frames_from n (base + 4096)

abbrev pub frames_of : List Segment → List ℕ
frames_of [] = []
frames_of (g ∷ gs) = frames_from (g.len / 4096) g.base ++ frames_of gs

-- Each segment has at least one page, only whole ones, and ends inside the address space.
abbrev pub IsPaged : List Segment → Type 0
IsPaged [] = Unit
IsPaged (g ∷ gs) = (0 < g.len) × (g.len % 4096 ≡ 0) × (g.base + g.len < 2 ^ 64) × IsPaged gs

-- From `p` the first words of the frames lead through `fs`, ending at the frame `tail`.
abbrev pub Linked : (ℕ → ℕ) → ℕ → List ℕ → ℕ → Type 0
Linked words p [] tail = p ≡ null
Linked words p (f ∷ []) tail = (p ≡ f) × (f ≢ null) × (tail ≡ f) × (words f ≡ null)
Linked words p (f ∷ g ∷ fs) tail = (p ≡ f) × (f ≢ null) × Linked words (words f) (g ∷ fs) tail

-- The frames `fs` were given back, in this order, and are free.
pub record IsValid (s : FrameState) (fs : List ℕ) : Type 0 where
  pub paged : IsPaged s.free_segments
  pub linked : Linked s.words s.free_page_head fs s.free_page_tail
  pub distinct : Distinct fs

-- The frames that MMU_alloc_frame will return, the next one first.
abbrev pub available : FrameState → List ℕ → List ℕ
available s fs = frames_of s.free_segments ++ fs

pub frames_from-pos : (n b : ℕ) → 0 < n → frames_from n b ≡ b ∷ frames_from (n - 1) (b + 4096)
frames_from-pos zero b h = absurd (omega arith)
frames_from-pos (suc n) b h = ap (λ (k : ℕ). b ∷ frames_from k (b + 4096)) (omega arith)

shrink-frames :
    (g : Segment) (gs : List Segment)
    → IsPaged (g ∷ gs)
    → (g.base ∷ frames_of (shrink g gs) ≡ frames_of (g ∷ gs)) × IsPaged (shrink g gs)
shrink-frames g gs p =
    let first = frames_from-pos (g.len / 4096) g.base (omega (arith, p.0, p.1)) in
    let len : (g.len + 2 ^ 64 - 4096) % 2 ^ 64 ≡ g.len - 4096 = omega (arith, p.0, p.1, p.2) in
    elim (Bool-cases (g.len - 4096 == 0)) [
      | inl last ↦
          let one : g.len / 4096 - 1 ≡ 0 = ground (arith, p.1) in
          rw (len, last, first, one) (refl, p.3)
      | inr more ↦
          let less : (g.len - 4096) / 4096 ≡ g.len / 4096 - 1 = omega (arith, p.0, p.1) in
          let base : (g.base + 4096) % 2 ^ 64 ≡ g.base + 4096 = ground (arith, p.1, p.2) in
          let ends : g.base + 4096 + (g.len - 4096) < 2 ^ 64 = ground (arith, p.1, p.2) in
          rw (len, more, base, first, less)
            (refl, (ground (arith, p.0, p.1), omega (arith, p.0, p.1), ends, p.3))
    ]

pub Linked-tail :
    (words : ℕ → ℕ) (p f : ℕ) (fs : List ℕ) (tail : ℕ)
    → Linked words p (f ∷ fs) tail
    → (p ≡ f) × (f ≢ null) × Linked words (words f) fs tail
Linked-tail words p f [] tail l = ground arith
Linked-tail words p f (g ∷ fs) tail l = l

pub tail-mem :
    (words : ℕ → ℕ) (p f : ℕ) (fs : List ℕ) (tail : ℕ)
    → Linked words p (f ∷ fs) tail
    → has tail (f ∷ fs) ≡ true
tail-mem words p f [] tail l = ground arith
tail-mem words p f (g ∷ fs) tail l = ground (arith, tail-mem words (words f) g fs tail l.2)

-- A frame given back is linked behind the last one.
Linked-store :
    (words : ℕ → ℕ) (p f : ℕ) (fs : List ℕ) (tail a : ℕ)
    → Linked words p (f ∷ fs) tail
    → Distinct (f ∷ fs)
    → has a (f ∷ fs) ≡ false
    → a ≢ null
    → Linked (store (store words tail a) a null) p (f ∷ fs ++ a ∷ []) a
Linked-store words p f [] tail a l d out h = ground arith
Linked-store words p f (g ∷ fs) tail a l d out h =
    let kept : store (store words tail a) a null f ≡ words f =
      ground (arith, tail-mem words (words f) g fs tail l.2) in
    (l.0, l.1, rw kept (Linked-store words (words f) g fs tail a l.2 d.1 (ground arith) h))

free_frame-IsValid :
    (s : FrameState) (fs : List ℕ) (a : ℕ)
    → IsValid s fs
    → has a fs ≡ false
    → a ≢ null
    → IsValid (free_frame a s) (fs ++ a ∷ [])
unfolding free_frame
free_frame-IsValid s [] a v out h =
    rw ((==_iff s.free_page_head 0).1 v.linked)
      (record { paged = v.paged; linked = ground arith; distinct = ground arith })
free_frame-IsValid s (f ∷ fs) a v out h =
    let head = Linked-tail s.words s.free_page_head f fs s.free_page_tail v.linked in
    let used : (s.free_page_head == null) ≡ false = ground (arith, head.0, head.1) in
    rw used (record {
      paged = v.paged;
      linked =
          Linked-store s.words s.free_page_head f fs s.free_page_tail a v.linked v.distinct out h;
      distinct = Distinct-append (f ∷ fs) a v.distinct out;
    })

segments-free_frame : (a : ℕ) (s : FrameState) → (free_frame a s).free_segments ≡ s.free_segments
unfolding free_frame
segments-free_frame a s = ground arith

-- A frame given back becomes the last one that MMU_alloc_frame will return: all that were free before
-- come out first, in their order.
pub free_frame-available :
    (s : FrameState) (fs : List ℕ) (a : ℕ)
    → IsValid s fs
    → has a fs ≡ false
    → a ≢ null
    → let s' = free_frame a s in
      IsValid s' (fs ++ a ∷ []) × (available s' (fs ++ a ∷ []) ≡ available s fs ++ a ∷ [])
free_frame-available s fs a v out h = (
  free_frame-IsValid s fs a v out h,
  rw segments-free_frame (sym (append_assoc (frames_of s.free_segments) fs (a ∷ []))),
)

-- What MMU_alloc_frame does: the frame that it returns, and the state with the frames `fs` left.
pub record Allocated (s : FrameState) (fs : List ℕ) (r : ℕ × FrameState) : Type 0 where
  pub left : List ℕ
  pub valid : IsValid r.1 left
  pub first : r.0 ∷ available r.1 left ≡ available s fs

alloc_segment :
    (g : Segment) (gs : List Segment) (s : FrameState) (fs : List ℕ)
    → s.free_segments ≡ g ∷ gs
    → IsValid s fs
    → Allocated s fs (alloc_from (g ∷ gs) s)
unfolding alloc_from
alloc_segment g gs s fs e v =
    let p : IsPaged (g ∷ gs) = rw e at v.paged in
    let step = shrink-frames g gs p in
    record {
      left = fs;
      valid = record { paged = step.1; linked = v.linked; distinct = v.distinct };
      first = ap (λ (q : List ℕ). q ++ fs) (step.0 ∙ ap frames_of (sym e));
    }

alloc_free :
    (s : FrameState) (f : ℕ) (fs : List ℕ)
    → s.free_segments ≡ []
    → IsValid s (f ∷ fs)
    → Allocated s (f ∷ fs) (alloc_from [] s)
unfolding alloc_from
alloc_free s f fs e v =
    let head = Linked-tail s.words s.free_page_head f fs s.free_page_tail v.linked in
    let used : (s.free_page_head == null) ≡ false = ground (arith, head.0, head.1) in
    rw used (record {
      left = fs;
      valid = record { paged = v.paged; linked = rw head.0 head.2; distinct = v.distinct.1 };
      first = rw e (ap (λ (p : ℕ). p ∷ fs) head.0);
    })

alloc_frame-from :
    (s : FrameState) (gs : List Segment) → s.free_segments ≡ gs → alloc_frame s ≡ alloc_from gs s
unfolding alloc_frame
alloc_frame-from s gs e = ap (λ (q : List Segment). alloc_from q s) e

alloc_none : (s : FrameState) → s.free_page_head ≡ null → alloc_from [] s ≡ (null, s)
unfolding alloc_from
alloc_none s e = ground arith

alloc_by_segments :
    (s : FrameState) (gs : List Segment) (fs : List ℕ)
    → s.free_segments ≡ gs
    → IsValid s fs
    → ((available s fs ≡ []) × (alloc_from gs s ≡ (null, s))) ⊎ Allocated s fs (alloc_from gs s)
alloc_by_segments s (g ∷ gs) fs e v = inr (alloc_segment g gs s fs e v)
alloc_by_segments s [] (f ∷ fs) e v = inr (alloc_free s f fs e v)
alloc_by_segments s [] [] e v = inl (rw e refl, alloc_none s v.linked)

-- MMU_alloc_frame returns the first of the available frames and leaves the others, in their order;
-- with none available it returns null and changes nothing.
pub alloc_frame-available :
    (s : FrameState) (fs : List ℕ)
    → IsValid s fs
    → ((available s fs ≡ []) × (alloc_frame s ≡ (null, s))) ⊎ Allocated s fs (alloc_frame s)
alloc_frame-available s fs v =
    rw (alloc_frame-from s s.free_segments refl) (alloc_by_segments s s.free_segments fs refl v)
