-- ===== src/Pages/Tests.antt =====
-- Page faults and freed pages over a small memory with its free frames.
use marimba.Base.{ℕ, ◌≡◌, refl, true, false, has, List, [], ◌∷◌, ◌++◌, arith, ◌==◌, if◌then◌else◌}
use marimba.Mmu.{FrameState}
use marimba.Paging.{
  pte_of, pt_walk, demand_allocate, virt_to_phys, pt_demand_allocate, page_fault_handler,
}
use marimba.Paging.Walk.{Leads}
use marimba.Pages.{page_fault, free_page, demand, free_pages}
use marimba.Pages.Describes.{Describes}
use marimba.Pages.Refine.{demand-refines, page_fault-refines}
use marimba.Pages.Cycle.{IsOutside, free_page-page_fault}

-- The tables at 0x1000, 0x2000, 0x3000 and 0x4000 for the address 0x5000; its last entry is at 0x4028
-- and marked for allocation on demand. Where there is no entry, the words are 0.
abbrev words : ℕ → ℕ
words a =
    if a == 0x1000
    then pte_of 0x2000
    else if a == 0x2000
    then pte_of 0x3000
    else if a == 0x3000
    then pte_of 0x4000
    else if a == 0x4028
    then 512
    else 0

-- Two frames from 0x6000 on, and the frame 0x9000 given back.
abbrev memory : FrameState
memory = record {
  free_segments = record { base = 0x6000; len = 0x2000 } ∷ [];
  free_page_head = 0x9000;
  free_page_tail = 0x9000;
  words = words;
}

abbrev free_frames : List ℕ
free_frames = 0x6000 ∷ 0x7000 ∷ 0x9000 ∷ []

memory-Describes : Describes free_frames words memory
memory-Describes = record {
  left = 0x9000 ∷ [];
  sound = record {
    valid = record {
      paged = (omega arith, refl, omega arith, tt);
      linked = (refl, omega arith, refl, refl);
      distinct = (refl, tt);
    };
    distinct = (refl, (refl, (refl, tt)));
    frames = (
      (omega arith, refl, omega arith),
      ((omega arith, refl, omega arith), ((omega arith, refl, omega arith), tt)),
    );
  };
  free = refl;
  words = refl;
}

abbrev to_entry : Leads words 0x1000 0x5000 0x4028
to_entry = record {
  second = 0x2000;
  third = 0x3000;
  first_present = refl;
  to_second = refl;
  second_present = refl;
  to_third = refl;
  third_present = refl;
  to_last = refl;
}

to_entry-IsOutside : IsOutside words 0x1000 0x5000 0x4028 to_entry free_frames
to_entry-IsOutside = record { first = refl; second = refl; third = refl; last = refl }

free_page-page_fault_example :
    let s1 = page_fault 0x1000 0x5000 memory in
    let s2 = free_page 0x1000 0x5000 s1 in
    (virt_to_phys s1.words 0x1000 0x5000 ≡ 0x6000)
    × Describes ((0x7000 ∷ 0x9000 ∷ []) ++ 0x6000 ∷ []) s2.words s2
    × ((pt_walk s2.words 0x1000 0x5000 ≡ (0x4028, 3)) × (demand_allocate (s2.words 0x4028) ≡ 0))
free_page-page_fault_example =
    free_page-page_fault words 0x1000 0x5000 0x4028 0x6000 (0x7000 ∷ 0x9000 ∷ []) memory to_entry
      memory-Describes to_entry-IsOutside refl (omega arith) refl

outside_of_last : has (pt_walk words 0x1000 0x5000).0 free_frames ≡ false
unfolding pt_walk
outside_of_last = refl

page_fault-refines_example :
    let (frames', m') = page_fault_handler free_frames 0x1000 0x5000 words in
    Describes frames' m' (page_fault 0x1000 0x5000 memory)
page_fault-refines_example =
    page_fault-refines 0x1000 0x5000 free_frames words memory memory-Describes outside_of_last

-- The walk for 0x200000 ends in the third table, and a table is missing.
outside_of_next : has (pt_walk words 0x1000 0x200000).0 free_frames ≡ false
unfolding pt_walk
outside_of_next = refl

demand-refines_example :
    let r = demand 0x1000 0x200000 memory in
    let d = pt_demand_allocate free_frames 0x1000 0x200000 words in
    (r.0 ≡ d.success) × Describes d.frames d.words r.1
demand-refines_example =
    demand-refines 0x1000 0x200000 free_frames words memory memory-Describes outside_of_next

-- It takes the table from the free frames.
demanded :
    let r = demand 0x1000 0x200000 memory in
    (r.0 ≡ true) × (r.1.words 0x3008 ≡ pte_of 0x6000) × (r.1.words 0x6000 ≡ 512)
unfolding demand pt_walk
demanded = (refl, refl, refl)

-- Three pages are given back, of which one has a frame.
given_back : (free_pages 0x1000 0x4000 3 (page_fault 0x1000 0x5000 memory)).words 0x9000 ≡ 0x6000
unfolding free_pages page_fault marimba.Paging.pt_free marimba.Paging.walk_from pt_walk
given_back = refl
