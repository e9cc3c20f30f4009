-- ===== src/Paging/Fault.antt =====
-- A page fault maps a frame, the mapping is what a later walk finds, and PT_free takes it back.
use marimba.Base.{
  ℕ, ◌+◌, ◌*◌, ◌%◌, ◌^◌, ◌<◌, ◌≡◌, ◌≢◌, refl, ap, ◌∙◌, true, false, List, ◌∷◌, arith, ◌==◌, ==_iff,
}
use marimba.Paging.{
  Words, store, null, present, demand_allocate, clear_present, clear_demand, pte_at, pte_of,
  pte_get_addr, pt_get_next_pte, pt_walk, page_fault_handler, virt_to_phys, pt_free, walk_from,
  map_frame,
}
use marimba.Paging.Walk.{Leads, pt_walk-Leads, Leads-of_pt_walk}

-- A frame that an entry can name.
abbrev pub IsFrame : ℕ → Type 0
IsFrame f = (f ≢ null) × (f % 4096 ≡ 0) × (f < 2 ^ 52)

pub pte_of-frame : (f : ℕ) → IsFrame f → (present (pte_of f) ≡ 1) × (pte_get_addr (pte_of f) ≡ f)
pte_of-frame f h = omega (arith, h.1, h.2)

-- The last entry is none of the upper ones.
pub record IsApart (m : Words) (cr3 v e : ℕ) (l : Leads m cr3 v e) : Type 0 where
  pub from_first : pte_at cr3 v 0 ≢ e
  pub from_second : l.second ≢ e
  pub from_third : l.third ≢ e

pub Leads-IsApart :
    (m : Words) (cr3 v e : ℕ) (l : Leads m cr3 v e) → present (m e) ≡ 0 → IsApart m cr3 v e l
Leads-IsApart m cr3 v e l h = record {
  from_first = λ same. differ (pte_at cr3 v 0) same l.first_present;
  from_second = λ same. differ l.second same l.second_present;
  from_third = λ same. differ l.third same l.third_present;
}
  where
    differ : (a : ℕ) → a ≡ e → present (m a) ≡ 1 → ⊥
    differ a same p = absurd (ground arith)

other : (m : Words) (e w a : ℕ) → a ≢ e → store m e w a ≡ m a
other m e w a h = ground arith

pub Leads-store :
    (m : Words) (cr3 v e w : ℕ) (l : Leads m cr3 v e)
    → IsApart m cr3 v e l
    → Leads (store m e w) cr3 v e
Leads-store m cr3 v e w l apart =
    let first = other m e w (pte_at cr3 v 0) apart.from_first in
    let second = other m e w l.second apart.from_second in
    let third = other m e w l.third apart.from_third in
    record {
      second = l.second;
      third = l.third;
      first_present = rw first l.first_present;
      to_second = rw first l.to_second;
      second_present = rw second l.second_present;
      to_third = rw second l.to_third;
      third_present = rw third l.third_present;
      to_last = rw third l.to_last;
    }

pub page_fault_handler-maps :
    (m : Words) (cr3 v e f : ℕ) (fs : List ℕ)
    → pt_walk m cr3 v ≡ (e, 3)
    → demand_allocate (m e) ≢ 0
    → page_fault_handler (f ∷ fs) cr3 v m ≡ (fs, store m e (pte_of f))
unfolding page_fault_handler map_frame
page_fault_handler-maps m cr3 v e f fs w d =
    let set : (demand_allocate (m e) == 0) ≡ false = ground arith in rw (w, set) refl

pub Leads-mapped :
    (m : Words) (cr3 v e f : ℕ) → pt_walk m cr3 v ≡ (e, 3) → Leads (store m e (pte_of f)) cr3 v e
Leads-mapped m cr3 v e f w =
    let found = Leads-of_pt_walk m cr3 v e w in
    Leads-store m cr3 v e (pte_of f) found.0 (Leads-IsApart m cr3 v e found.0 found.1)

pub stored : (m : Words) (e w : ℕ) → store m e w e ≡ w
stored m e w = ground arith

-- The page that a mapped address leads to.
pt_walk-mapped :
    (m : Words) (cr3 v e f : ℕ)
    → Leads m cr3 v e
    → IsFrame f
    → m e ≡ pte_of f
    → pt_walk m cr3 v ≡ (f + 8 * (v % 4096), 4)
pt_walk-mapped m cr3 v e f l h at_e =
    let frame = pte_of-frame f h in pt_walk-Leads m cr3 v e l ∙ rw (at_e, frame.0, frame.1) refl

-- A page fault at an address whose tables are there, and whose last entry is marked for
-- allocation on demand and is not present, takes the first frame `f`, a page below 2 ^ 52 other
-- than null. A translation of the address then finds `f`, with eight times the offset added. No
-- word but the entry's is changed.
pub page_fault_handler_lem :
    (m : Words) (cr3 v e f : ℕ) (fs : List ℕ)
    → pt_walk m cr3 v ≡ (e, 3)
    → demand_allocate (m e) ≢ 0
    → IsFrame f
    → let (frames, m') = page_fault_handler (f ∷ fs) cr3 v m in
      (frames ≡ fs) × (virt_to_phys m' cr3 v ≡ f + 8 * (v % 4096)) × ((a : ℕ) → a ≢ e → m' a ≡ m a)
unfolding virt_to_phys
page_fault_handler_lem m cr3 v e f fs w d h =
    let m' = store m e (pte_of f) in
    let l = Leads-mapped m cr3 v e f w in
    rw (page_fault_handler-maps m cr3 v e f fs w d) (
      refl,
      rw (pt_walk-mapped m' cr3 v e f l h (stored m e (pte_of f))) refl,
      other m e (pte_of f),
    )

walk_from-Leads :
    (m : Words) (cr3 v e : ℕ) → Leads m cr3 v e → walk_from 3 m (pte_at cr3 v 0) v 0 ≡ (e, 3)
unfolding walk_from
walk_from-Leads m cr3 v e l =
    rw (l.first_present, l.to_second, l.second_present, l.to_third, l.third_present, l.to_last) refl

-- The word of an entry after PT_free.
unfoldable pub freed : ℕ → ℕ
freed f = clear_demand (clear_present (pte_of f))

pub freed_lem : (f : ℕ) → IsFrame f → (present (freed f) ≡ 0) × (pte_get_addr (freed f) ≡ f)
unfolding freed
freed_lem f h = omega (arith, h.1, h.2)

-- PT_free of a page that is mapped.
pub pt_free-mapped :
    (m : Words) (cr3 v e f : ℕ)
    → Leads m cr3 v e
    → IsFrame f
    → m e ≡ pte_of f
    → v % 4096 ≡ 0
    → pt_free m cr3 v ≡ (f, store m e (freed f))
unfolding pt_free freed
pt_free-mapped m cr3 v e f l h at_e page =
    let there : (present (m e) == 0) ≡ false = rw at_e (ground (arith, pte_of-frame f h)) in
    let aligned : (v % 4096 == 0) ≡ true = ground arith in
    let back : pt_get_next_pte (store m e (freed f)) e v 4 ≡ f =
      rw (stored m e (freed f), (freed_lem f h).1, page) (omega arith) in
    let written = λ (w : ℕ). store m e (clear_demand (clear_present w)) in
    rw (walk_from-Leads m cr3 v e l, aligned, there)
      (ap (λ (w : ℕ). (pt_get_next_pte (written w) e v 4, written w)) at_e
        ∙ ap (λ (a : ℕ). (a, store m e (freed f))) back)

pub store-store : (m : Words) (e x y : ℕ) → store (store m e x) e y ≡ store m e y
store-store m e x y = λ i. λ a. same a i
  where
    same : (a : ℕ) → store (store m e x) e y a ≡ store m e y a
    same a = ground arith

pt_walk-freed :
    (m : Words) (cr3 v e f : ℕ)
    → pt_walk m cr3 v ≡ (e, 3)
    → IsFrame f
    → pt_walk (store m e (freed f)) cr3 v ≡ (e, 3)
pt_walk-freed m cr3 v e f w h =
    let found = Leads-of_pt_walk m cr3 v e w in
    let m' = store m e (freed f) in
    let l = Leads-store m cr3 v e (freed f) found.0 (Leads-IsApart m cr3 v e found.0 found.1) in
    let absent : present (m' e) ≡ 0 = rw (stored m e (freed f)) ((freed_lem f h).0) in
    pt_walk-Leads m' cr3 v e l ∙ rw absent refl

pub unmarked : (f : ℕ) → IsFrame f → (demand_allocate (freed f) == 0) ≡ true
unfolding freed
unmarked f h = (==_iff _ 0).1 (omega (arith, h.1, h.2))

-- An entry that is not marked stays as it is.
page_fault_handler-freed :
    (m : Words) (cr3 v e f : ℕ) (gs : List ℕ)
    → pt_walk m cr3 v ≡ (e, 3)
    → IsFrame f
    → page_fault_handler gs cr3 v (store m e (freed f)) ≡ (gs, store m e (freed f))
unfolding page_fault_handler
page_fault_handler-freed m cr3 v e f gs w h =
    let clear : (demand_allocate (store m e (freed f) e) == 0) ≡ true =
      rw (stored m e (freed f)) (unmarked f h) in
    rw (pt_walk-freed m cr3 v e f w h, clear) refl

-- A page whose tables are there and whose last entry is marked for allocation on demand and is
-- not present is mapped by a page fault to the frame `f`, a page below 2 ^ 52 other than null.
-- PT_free of the page then returns `f` and leaves the entry not present and not marked, so that a
-- later page fault takes no frame.
pub pt_free_lem :
    (m : Words) (cr3 v e f : ℕ) (fs gs : List ℕ)
    → pt_walk m cr3 v ≡ (e, 3)
    → demand_allocate (m e) ≢ 0
    → IsFrame f
    → v % 4096 ≡ 0
    → let m' = (page_fault_handler (f ∷ fs) cr3 v m).1 in
      let (frame, m'') = pt_free m' cr3 v in
      (frame ≡ f) × (pt_walk m'' cr3 v ≡ (e, 3)) × (page_fault_handler gs cr3 v m'' ≡ (gs, m''))
pt_free_lem m cr3 v e f fs gs w d h page =
    let m' = store m e (pte_of f) in
    let free : pt_free m' cr3 v ≡ (f, store m e (freed f)) =
      pt_free-mapped m' cr3 v e f (Leads-mapped m cr3 v e f w) h (stored m e (pte_of f)) page
      ∙ ap (λ (a : Words). (f, a)) (store-store m e (pte_of f) (freed f)) in
    rw (page_fault_handler-maps m cr3 v e f fs w d, free)
      (refl, pt_walk-freed m cr3 v e f w h, page_fault_handler-freed m cr3 v e f gs w h)
