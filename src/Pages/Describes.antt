-- ===== src/Pages/Describes.antt =====
-- What a list of free frames and a memory say of the frame allocator of src/mmu.c.
use marimba.Base.{
  subst, Distinct, ℕ, ◌+◌, ◌*◌, ◌%◌, ◌≤◌, ◌<◌, ◌≡◌, ◌≢◌, refl, sym, ap, ◌∙◌, inl, inr, true, false,
  List, [], ◌∷◌, arith, ltb, leb, ◌&&◌, ◌==◌, ==_iff, Bool-cases, has, has-append,
}
use marimba.Mmu.{Segment, FrameState, alloc_frame, alloc_from, alloc_freed}
use marimba.Mmu.Frames.{IsValid, available, frames_of, Linked, alloc_frame-available}
use marimba.Paging.{null, store, clear_table}
use marimba.Paging.Fault.{IsFrame}
use marimba.Paging.Demand.{AreFrames}
use marimba.Pages.{with_words}

-- The frames that are free: all different, and such that an entry can name them.
pub record IsSound (s : FrameState) (fs : List ℕ) : Type 0 where
  pub valid : IsValid s fs
  pub distinct : Distinct (available s fs)
  pub frames : AreFrames (available s fs)

-- A state that the words `m` and the free frames `frames` describe.
pub record Describes (frames : List ℕ) (m : ℕ → ℕ) (s : FrameState) : Type 0 where
  pub left : List ℕ
  pub sound : IsSound s left
  pub free : available s left ≡ frames
  pub words : s.words ≡ m

pub AreFrames-has : (fs : List ℕ) (a : ℕ) → AreFrames fs → has a fs ≡ true → IsFrame a
AreFrames-has [] a all h = absurd (ground arith)
AreFrames-has (f ∷ fs) a all h = elim (Bool-cases (a == f)) [
  | inl here ↦ subst IsFrame (sym ((==_iff a f).0 here)) all.0
  | inr there ↦ AreFrames-has fs a all.1 (ground (arith, h, there))
]

Linked-words :
    (m m' : ℕ → ℕ) (p : ℕ) (fs : List ℕ) (tail : ℕ)
    → ((a : ℕ) → has a fs ≡ true → m' a ≡ m a)
    → Linked m p fs tail
    → Linked m' p fs tail
Linked-words m m' p [] tail same l = l
Linked-words m m' p (f ∷ []) tail same l = (l.0, l.1, l.2, same f (ground arith) ∙ l.3)
Linked-words m m' p (f ∷ g ∷ fs) tail same l =
    let kept : m' f ≡ m f = same f (ground arith) in
    (
      l.0,
      l.1,
      rw kept (Linked-words m m' (m f) (g ∷ fs) tail (λ a h. same a (ground (arith, h))) l.2),
    )

-- Writes elsewhere leave the free frames as they are.
pub Describes-words :
    (frames : List ℕ) (m m' : ℕ → ℕ) (s : FrameState)
    → Describes frames m s
    → ((a : ℕ) → has a frames ≡ true → m' a ≡ m a)
    → Describes frames m' (with_words m' s)
Describes-words frames m m' s d same =
    let kept : (a : ℕ) → has a d.left ≡ true → m' a ≡ s.words a = λ a h.
      same a (rw (← d.free) (ground (arith, has-append a (frames_of s.free_segments) d.left, h)))
      ∙ ap (λ (w : ℕ → ℕ). w a) (sym d.words) in
    record {
      left = d.left;
      sound = record {
        valid = record {
          paged = d.sound.valid.paged;
          linked =
              Linked-words s.words m' s.free_page_head d.left s.free_page_tail kept
                d.sound.valid.linked;
          distinct = d.sound.valid.distinct;
        };
        distinct = d.sound.distinct;
        frames = d.sound.frames;
      };
      free = d.free;
      words = refl;
    }

alloc_freed-words : (s : FrameState) → (alloc_freed s).1.words ≡ s.words
unfolding alloc_freed
alloc_freed-words s = ground arith

alloc_from-words : (gs : List Segment) (s : FrameState) → (alloc_from gs s).1.words ≡ s.words
unfolding alloc_from
alloc_from-words [] s = alloc_freed-words s
alloc_from-words (g ∷ gs) s = refl

alloc_frame-words : (s : FrameState) → (alloc_frame s).1.words ≡ s.words
unfolding alloc_frame
alloc_frame-words s = alloc_from-words s.free_segments s

abbrev first_of : List ℕ → ℕ
first_of [] = 0
first_of (x ∷ xs) = x

abbrev rest_of : List ℕ → List ℕ
rest_of [] = []
rest_of (x ∷ xs) = xs

cons_ne : {x : ℕ} {xs : List ℕ} → x ∷ xs ≢ []
cons_ne {x} {xs} e = absurd (ground arith)

pub alloc_frame-none : (m : ℕ → ℕ) (s : FrameState) → Describes [] m s → alloc_frame s ≡ (null, s)
alloc_frame-none m s d = elim (alloc_frame-available s d.left d.sound.valid) [
  | inl (none_left, result) ↦ result
  | inr al ↦ absurd (cons_ne (al.first ∙ d.free))
]

pub alloc_frame-next :
    (f : ℕ) (fs : List ℕ) (m : ℕ → ℕ) (s : FrameState)
    → Describes (f ∷ fs) m s
    → ((alloc_frame s).0 ≡ f) × Describes fs m (alloc_frame s).1
alloc_frame-next f fs m s d = elim (alloc_frame-available s d.left d.sound.valid) [
  | inl (none_left, result) ↦ absurd (cons_ne (sym d.free ∙ none_left))
  | inr al ↦
      let same = al.first ∙ d.free in
      let rest : available (alloc_frame s).1 al.left ≡ fs = ap rest_of same in
      let distinct : Distinct (f ∷ fs) = subst Distinct d.free d.sound.distinct in
      let frames : AreFrames (f ∷ fs) = subst AreFrames d.free d.sound.frames in
      (
        ap first_of same,
        record {
          left = al.left;
          sound = record {
            valid = al.valid;
            distinct = subst Distinct (sym rest) distinct.1;
            frames = subst AreFrames (sym rest) frames.1;
          };
          free = rest;
          words = alloc_frame-words s ∙ d.words;
        },
      )
]

-- Writing an entry outside of the free frames.
pub Describes-store :
    (frames : List ℕ) (m : ℕ → ℕ) (s : FrameState) (e w : ℕ)
    → Describes frames m s
    → has e frames ≡ false
    → Describes frames (store m e w) (with_words (store m e w) s)
Describes-store frames m s e w d out =
    Describes-words frames m (store m e w) s d (λ a h. ground (arith, h, out))

-- The entries of a table in a frame are in no other frame.
pub in_frame :
    (f a : ℕ) (fs : List ℕ)
    → f ≤ a
    → a < f + 4096
    → f % 4096 ≡ 0
    → has f fs ≡ false
    → AreFrames fs
    → has a fs ≡ false
in_frame f a [] lo hi page out frames = refl
in_frame f a (g ∷ gs) lo hi page out frames =
    let later = in_frame f a gs lo hi page (ground (arith, out)) frames.1 in
    ground (arith, later, out, frames.0.1)

-- Clearing a table in a frame that is no longer free.
pub Describes-clear_table :
    (f : ℕ) (fs : List ℕ) (m : ℕ → ℕ) (s : FrameState)
    → Describes fs m s
    → has f fs ≡ false
    → f % 4096 ≡ 0
    → AreFrames fs
    → Describes fs (clear_table m f) (with_words (clear_table m f) s)
Describes-clear_table f fs m s d out page frames = Describes-words fs m (clear_table m f) s d kept
  where
    kept : (a : ℕ) → has a fs ≡ true → clear_table m f a ≡ m a
    kept a h = elim (Bool-cases (leb f a && ltb a (f + 8 * 512))) [
      | inl inside ↦ absurd (
          ground (
            arith,
            h,
            in_frame f a fs (ground (arith, inside)) (ground (arith, inside)) page out frames,
          ))
      | inr outside ↦ rw outside refl
    ]
