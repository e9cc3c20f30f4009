-- ===== src/Pages/Segments.antt =====
-- The frames of two segments of RAM, in front of the kernel and behind it: all different, and none of them in the
-- kernel.
use marimba.Base.{
  Distinct, ℕ, zero, suc, ◌+◌, ◌-◌, ◌*◌, ◌/◌, ◌%◌, ◌^◌, ◌≤◌, ◌<◌, ◌≡◌, refl, ap, ◌∙◌, ◌⊎◌, inl, inr,
  true, false, List, [], ◌∷◌, ◌++◌, arith, ltb, leb, Bool-cases, has, has-append, append-nil,
}
use marimba.Mmu.{Segment, FrameState, null}
use marimba.Mmu.Frames.{frames_from, frames_from-pos, frames_of}
use marimba.Paging.Demand.{AreFrames}
use marimba.Pages.Describes.{Describes, in_frame}

frames_from-AreFrames :
    (n b : ℕ) → b % 4096 ≡ 0 → 0 < b → b + 4096 * n ≤ 2 ^ 52 → AreFrames (frames_from n b)
frames_from-AreFrames zero b page low high = tt
frames_from-AreFrames (suc n) b page low high = (
  (omega arith, page, omega arith),
  frames_from-AreFrames n (b + 4096) (omega (arith, page)) (omega arith) (omega (arith, high)),
)

AreFrames-append : (fs gs : List ℕ) → AreFrames fs → AreFrames gs → AreFrames (fs ++ gs)
AreFrames-append [] gs all more = more
AreFrames-append (f ∷ fs) gs all more = (all.0, AreFrames-append fs gs all.1 more)

frames_from-outside : (n b a : ℕ) → (a < b) ⊎ (b + 4096 * n ≤ a) → has a (frames_from n b) ≡ false
frames_from-outside zero b a out = refl
frames_from-outside (suc n) b a out =
    let later : (a < b + 4096) ⊎ (b + 4096 + 4096 * n ≤ a) = elim out [
      | inl below ↦ inl (omega (arith, below))
      | inr above ↦ inr (omega (arith, above))
    ] in
    ground (arith, frames_from-outside n (b + 4096) a later, out)

frames_from-Distinct :
    (n b : ℕ) (fs : List ℕ)
    → ((a : ℕ) → a < b + 4096 * n → has a fs ≡ false)
    → Distinct fs
    → Distinct (frames_from n b ++ fs)
frames_from-Distinct zero b fs apart d = d
frames_from-Distinct (suc n) b fs apart d = (
  ground (
    arith,
    has-append b (frames_from n (b + 4096)) fs,
    frames_from-outside n (b + 4096) b (inl (omega arith)),
    apart b (omega arith),
  ),
  frames_from-Distinct n (b + 4096) fs (λ a lt. apart a (omega (arith, lt))) d,
)

-- The frames of two segments, one behind the other.
abbrev pub two_segments : (b e c l : ℕ) → List Segment
two_segments b e c l = record { base = b; len = e - b } ∷ record { base = c; len = l - c } ∷ []

abbrev pub two_free : (b e c l : ℕ) → (ℕ → ℕ) → FrameState
two_free b e c l words = record {
  free_segments = two_segments b e c l;
  free_page_head = null;
  free_page_tail = null;
  words = words;
}

pub first_frames-Describes :
    (b e c l : ℕ) (words : ℕ → ℕ)
    → 0 < b
    → b % 4096 ≡ 0
    → e % 4096 ≡ 0
    → c % 4096 ≡ 0
    → l % 4096 ≡ 0
    → b < e
    → e ≤ c
    → c < l
    → l ≤ 2 ^ 52
    → Describes (frames_of (two_segments b e c l)) words (two_free b e c l words)
first_frames-Describes b e c l words low page1 page2 page3 page4 lt1 lt2 lt3 high =
    let n = (e - b) / 4096 in
    let k = (l - c) / 4096 in
    let second = frames_from k c ++ [] in
    let outside : (a : ℕ) → a < b + 4096 * n → has a second ≡ false = λ a lt. ground (
      arith,
      has-append a (frames_from k c) [],
      frames_from-outside k c a (inl (omega (arith, lt, page1, page2))),
    ) in
    record {
      left = [];
      sound = record {
        valid = record {
          paged = (
            omega arith,
            omega (arith, page1, page2),
            omega arith,
            (omega arith, omega (arith, page3, page4), omega arith, tt),
          );
          linked = refl;
          distinct = tt;
        };
        distinct = rw append-nil (
            frames_from-Distinct n b second outside
              (frames_from-Distinct k c [] (λ a lt. refl) tt));
        frames = rw append-nil (
            AreFrames-append (frames_from n b) second
              (frames_from-AreFrames n b page1 low (omega (arith, page1, page2)))
              (AreFrames-append (frames_from k c) []
                (frames_from-AreFrames k c page3 (omega arith) (omega (arith, page3, page4))) tt));
      };
      free = append-nil (frames_of (two_segments b e c l));
      words = refl;
    }

-- The frames that are left when the first one is the page table.
abbrev pub rest_of : (b e c l : ℕ) → List ℕ
rest_of b e c l = frames_from ((e - b) / 4096 - 1) (b + 4096) ++ frames_from ((l - c) / 4096) c

pub frames_of-rest :
    (b e c l : ℕ)
    → b % 4096 ≡ 0
    → e % 4096 ≡ 0
    → b < e
    → frames_of (two_segments b e c l) ≡ b ∷ rest_of b e c l
frames_of-rest b e c l page page' lt =
    ap (λ (fs : List ℕ). frames_from ((e - b) / 4096) b ++ fs)
      (append-nil (frames_from ((l - c) / 4096) c))
    ∙ ap (λ (fs : List ℕ). fs ++ frames_from ((l - c) / 4096) c)
        (frames_from-pos ((e - b) / 4096) b (omega (arith, page, page', lt)))

-- An address in a frame of the list is in no page that is not of the list.
pub off_page :
    (a f : ℕ) (fs : List ℕ)
    → f % 4096 ≡ 0
    → has f fs ≡ false
    → AreFrames fs
    → has a fs ≡ true
    → (a < f) ⊎ (f + 4096 ≤ a)
off_page a f fs page out frames inside = elim (Bool-cases (ltb a f)) [
  | inl below ↦ inl (ground (arith, below))
  | inr above ↦ elim (Bool-cases (leb (f + 4096) a)) [
    | inl behind ↦ inr (ground (arith, behind))
    | inr within ↦ absurd (
        ground (
          arith,
          inside,
          in_frame f a fs (ground (arith, above)) (ground (arith, within)) page out frames,
        ))
  ]
]

-- A table in the kernel's segment is none of the free frames.
pub in_kernel :
    (b e c l f : ℕ)
    → b % 4096 ≡ 0
    → e % 4096 ≡ 0
    → b < e
    → e ≤ f
    → f < c
    → has f (rest_of b e c l) ≡ false
in_kernel b e c l f page page' lt lo hi = ground (
  arith,
  has-append f (frames_from ((e - b) / 4096 - 1) (b + 4096)) (frames_from ((l - c) / 4096) c),
  frames_from-outside ((e - b) / 4096 - 1) (b + 4096) f (inr (omega (arith, page, page', lt, lo))),
  frames_from-outside ((l - c) / 4096) c f (inl hi),
)
