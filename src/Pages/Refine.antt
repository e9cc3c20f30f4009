-- ===== src/Pages/Refine.antt =====
-- PT_demand_allocate and page_fault_handler with MMU_alloc_frame do what they do with the list of the available
-- frames.
use marimba.Base.{
  not, subst, Distinct, ℕ, zero, suc, ◌+◌, ◌-◌, ◌≤◌, ◌<◌, ◌≡◌, refl, ap, ◌∙◌, inl, inr, false, ◌||◌,
  List, [], ◌∷◌, arith, ◌==◌, Bool-cases, has,
}
use marimba.Mmu.{FrameState, alloc_frame}
use marimba.Paging.{
  present, walk_from, pte_get_addr, null, store, pte_of, page_fault_handler, pt_demand_allocate,
  add_tables, map_frame, pt_walk, clear_table, pt_get_next_pte, pte_at,
}
use marimba.Paging.Fault.{pte_of-frame, stored}
use marimba.Paging.Chains.{pte_at-range}
use marimba.Paging.Demand.{AreFrames}
use marimba.Pages.{
  demand_allocate, set_demand, with_words, map_new_frame, page_fault, link_tables, demand,
}
use marimba.Pages.Describes.{
  Describes, alloc_frame-none, alloc_frame-next, Describes-store, in_frame, Describes-clear_table,
}

map_new_frame-refines :
    (frames : List ℕ) (m : ℕ → ℕ) (s : FrameState) (e : ℕ)
    → Describes frames m s
    → has e frames ≡ false
    → Describes (map_frame frames e m).0 (map_frame frames e m).1 (map_new_frame e s)
unfolding map_new_frame map_frame
map_new_frame-refines [] m s e d out = rw (alloc_frame-none m s d) d
map_new_frame-refines (f ∷ fs) m s e d out =
    let next = alloc_frame-next f fs m s d in
    let frames : AreFrames (f ∷ fs) = subst AreFrames d.free d.sound.frames in
    let used : (f == null) ≡ false = ground (arith, frames.0.0) in
    rw (next.0, used, next.1.words)
      (Describes-store fs m (alloc_frame s).1 e (pte_of f) next.1 (ground (arith, out)))

link_tables-refines :
    (n v e depth : ℕ) (frames : List ℕ) (m : ℕ → ℕ) (s : FrameState)
    → depth + n < 4
    → Describes frames m s
    → has e frames ≡ false
    → let r = link_tables n v e depth s in
      let d = add_tables n v e depth frames m in (r.0 ≡ d.success) × Describes d.frames d.words r.1
unfolding link_tables add_tables
link_tables-refines zero v e depth frames m s small d out =
    (refl, rw d.words (Describes-store frames m s e (set_demand (m e)) d out))
link_tables-refines (suc n) v e depth [] m s small d out = rw (alloc_frame-none m s d) (refl, d)
link_tables-refines (suc n) v e depth (f ∷ fs) m s small d out =
    let next = alloc_frame-next f fs m s d in
    let frames : AreFrames (f ∷ fs) = subst AreFrames d.free d.sound.frames in
    let distinct : Distinct (f ∷ fs) = subst Distinct d.free d.sound.distinct in
    let used : (f == null) ≡ false = ground (arith, frames.0.0) in
    let m' = store (clear_table m f) e (pte_of f) in
    let d' : Describes fs m' (with_words m' (alloc_frame s).1) =
      Describes-store fs (clear_table m f) (with_words (clear_table m f) (alloc_frame s).1) e
        (pte_of f)
        (Describes-clear_table f fs m (alloc_frame s).1 next.1 distinct.0 frames.0.1 frames.1)
        (ground (arith, out)) in
    let to_f : pt_get_next_pte m' e v (depth + 1) ≡ pte_at f v (depth + 1) =
      ap (λ (w : ℕ). pte_at (pte_get_addr w) v (depth + 1)) (stored (clear_table m f) e (pte_of f))
      ∙ ap (λ (b : ℕ). pte_at b v (depth + 1)) (pte_of-frame f frames.0).1 in
    let range = pte_at-range f v (depth + 1) (omega (arith, small)) in
    rw (next.0, used, next.1.words)
      (link_tables-refines n v (pt_get_next_pte m' e v (depth + 1)) (depth + 1) fs m'
        (with_words m' (alloc_frame s).1) (omega (arith, small)) d'
        (rw to_f
          (in_frame f (pte_at f v (depth + 1)) fs range.0 range.1 frames.0.1 distinct.0 frames.1)))

-- With the words of the state in place of `m`.
pub with_own_words :
    (frames : List ℕ) (m : ℕ → ℕ) (s : FrameState)
    → Describes frames m s
    → Describes frames s.words s
with_own_words frames m s d = record { left = d.left; sound = d.sound; free = d.free; words = refl }

walk_from-depth : (n : ℕ) (m : ℕ → ℕ) (curr v i : ℕ) → (walk_from n m curr v i).1 ≤ i + n
unfolding walk_from
walk_from-depth zero m curr v i = omega arith
walk_from-depth (suc n) m curr v i =
    let next = walk_from-depth n m (pt_get_next_pte m curr v (i + 1)) v (i + 1) in
    elim (Bool-cases (present (m curr) == 0)) [
      | inl last ↦ rw last (omega arith)
      | inr on ↦ rw on (omega (arith, next))
    ]

pt_walk-depth : (m : ℕ → ℕ) (cr3 v : ℕ) → (pt_walk m cr3 v).1 ≤ 4
unfolding pt_walk
pt_walk-depth m cr3 v = walk_from-depth 4 m (pte_at cr3 v 0) v 0

demand_own :
    (cr3 v : ℕ) (frames : List ℕ) (s : FrameState)
    → Describes frames s.words s
    → has (pt_walk s.words cr3 v).0 frames ≡ false
    → let r = demand cr3 v s in
      let d = pt_demand_allocate frames cr3 v s.words in
      (r.0 ≡ d.success) × Describes d.frames d.words r.1
unfolding demand pt_demand_allocate
demand_own cr3 v frames s d out =
    let (e, depth) = pt_walk s.words cr3 v in
    elim (Bool-cases (depth == 4)) [
      | inl mapped ↦ rw mapped (refl, d)
      | inr missing ↦
          let small : depth + (3 - depth) < 4 =
            ground (arith, missing, pt_walk-depth s.words cr3 v) in
          rw missing (link_tables-refines (3 - depth) v e depth frames s.words s small d out)
    ]

page_fault_own :
    (cr3 v : ℕ) (frames : List ℕ) (s : FrameState)
    → Describes frames s.words s
    → has (pt_walk s.words cr3 v).0 frames ≡ false
    → let (frames', m') = page_fault_handler frames cr3 v s.words in
      Describes frames' m' (page_fault cr3 v s)
unfolding page_fault page_fault_handler
page_fault_own cr3 v frames s d out =
    let (e, depth) = pt_walk s.words cr3 v in
    elim (Bool-cases (depth == 4)) [
      | inl mapped ↦ rw mapped d
      | inr missing ↦ elim (Bool-cases (demand_allocate (s.words e) == 0 || not (depth == 3))) [
        | inl unmarked ↦ rw (missing, unmarked) d
        | inr marked ↦ rw (missing, marked) (map_new_frame-refines frames s.words s e d out)
      ]
    ]

-- PT_demand_allocate with MMU_alloc_frame: from a state that the words `m` and the free frames `frames` describe,
-- where the entry that the walk ends at is in none of these frames, it succeeds exactly when it does with the list of
-- the frames, and leaves a state that the words and the frames left then describe.
pub demand-refines :
    (cr3 v : ℕ) (frames : List ℕ) (m : ℕ → ℕ) (s : FrameState)
    → Describes frames m s
    → has (pt_walk m cr3 v).0 frames ≡ false
    → let r = demand cr3 v s in
      let d = pt_demand_allocate frames cr3 v m in
      (r.0 ≡ d.success) × Describes d.frames d.words r.1
demand-refines cr3 v frames m s d out =
    subst
      (λ (w : ℕ → ℕ).
        has (pt_walk w cr3 v).0 frames ≡ false
        → let r = demand cr3 v s in
          let a = pt_demand_allocate frames cr3 v w in
          (r.0 ≡ a.success) × Describes a.frames a.words r.1)
      d.words (demand_own cr3 v frames s (with_own_words frames m s d)) out

-- The page fault with MMU_alloc_frame: from such a state, it leaves one that the words and the frames describe which it
-- leaves with the list of the frames.
pub page_fault-refines :
    (cr3 v : ℕ) (frames : List ℕ) (m : ℕ → ℕ) (s : FrameState)
    → Describes frames m s
    → has (pt_walk m cr3 v).0 frames ≡ false
    → let (frames', m') = page_fault_handler frames cr3 v m in
      Describes frames' m' (page_fault cr3 v s)
page_fault-refines cr3 v frames m s d out =
    subst
      (λ (w : ℕ → ℕ).
        has (pt_walk w cr3 v).0 frames ≡ false
        → let (frames', m') = page_fault_handler frames cr3 v w in
          Describes frames' m' (page_fault cr3 v s))
      d.words (page_fault_own cr3 v frames s (with_own_words frames m s d)) out
