-- ===== src/Mmu/Tests.antt =====
-- The memory manager on small inputs, and the theorems about it there.
use marimba.Base.{
  ℕ, List, ◌+◌, ◌-◌, ◌*◌, ◌<◌, ◌≡◌, refl, ◌⊎◌, true, false, [], ◌∷◌, ◌++◌, arith, get_or, has,
}
use marimba.Interrupts.{IrqState}
use marimba.Mmu.{
  alloc_page, alloc_pages, Segment, FrameState, VirtualState, null, alloc_frame, free_frame,
  free_stack_pages, kernel_heap_start, kernel_heap_end, kernel_stacks_end, init_virtual,
}
use marimba.Mmu.Frames.{IsValid, available, Allocated, free_frame-available, alloc_frame-available}
use marimba.Mmu.Excluded.{compute_excluded, in_some, IsWhole, compute_excluded-covers}
use marimba.Base.{true}
use marimba.Mmu.Stacks.{free_stack_pages_lem}

-- Two pages from 0x5000 on, and the frame 0x9000 given back.
abbrev two_pages : FrameState
two_pages = record {
  free_segments = record { base = 0x5000; len = 0x2000 } ∷ [];
  free_page_head = 0x9000;
  free_page_tail = 0x9000;
  words = λ a. 0;
}

two_pages-IsValid : IsValid two_pages (0x9000 ∷ [])
two_pages-IsValid = record {
  paged = (omega arith, refl, omega arith, tt);
  linked = (refl, omega arith, refl, refl);
  distinct = (refl, tt);
}

free_frame-available_example :
    let s' = free_frame 0x4000 two_pages in
    IsValid s' ((0x9000 ∷ []) ++ 0x4000 ∷ [])
    × (available s' ((0x9000 ∷ []) ++ 0x4000 ∷ [])
        ≡ available two_pages (0x9000 ∷ []) ++ 0x4000 ∷ [])
free_frame-available_example =
    free_frame-available two_pages (0x9000 ∷ []) 0x4000 two_pages-IsValid refl (omega arith)

alloc_frame-available_example :
    ((available two_pages (0x9000 ∷ []) ≡ []) × (alloc_frame two_pages ≡ (null, two_pages)))
    ⊎ Allocated two_pages (0x9000 ∷ []) (alloc_frame two_pages)
alloc_frame-available_example = alloc_frame-available two_pages (0x9000 ∷ []) two_pages-IsValid

abbrev open_irq : IrqState
open_irq = record { semaphore = 0; accepting = true }

abbrev at_start : VirtualState
at_start = init_virtual open_irq

-- The first pages of the heap, one behind the other.
three_pages :
    (alloc_pages 3 at_start).1.demanded
    ≡ kernel_heap_start ∷ (kernel_heap_start + 4096) ∷ (kernel_heap_start + 8192) ∷ []
unfolding alloc_pages alloc_page marimba.Mmu.alloc_rest
three_pages = refl

-- One page of the heap is left.
abbrev one_left : VirtualState
one_left = record at_start { next_kernel_heap_vaddr = kernel_heap_end - 4096 }

-- Two pages are not got, and the first one is not given back.
two_pages_fail :
    ((alloc_pages 2 one_left).0 ≡ null)
    × ((alloc_pages 2 one_left).1.next_kernel_heap_vaddr ≡ kernel_heap_end)
unfolding alloc_pages alloc_page marimba.Mmu.alloc_rest
two_pages_fail = (refl, refl)

free_stack_pages_lem_example :
    let p = kernel_stacks_end - 8 in
    (get_or (free_stack_pages p) 0 0 ≡ p - 4088)
    × (p < get_or (free_stack_pages p) 3 0)
    × (has (p - 4088 - 4096 * 3) (free_stack_pages p) ≡ false)
free_stack_pages_lem_example =
    free_stack_pages_lem (kernel_stacks_end - 8) 3 (omega arith) (omega arith) (omega arith)
      (omega arith)

-- Two sections on one page, and one three pages further.
abbrev first_section : Segment
first_section = record { base = 0x100010; len = 0x20 }

abbrev other_sections : List Segment
other_sections = record { base = 0x100F00; len = 0x200 } ∷ record { base = 0x104000; len = 1 } ∷ []

excluded_merged :
    compute_excluded (first_section ∷ other_sections)
    ≡ record { base = 0x100000; len = 0x2000 } ∷ record { base = 0x104000; len = 0x1000 } ∷ []
unfolding compute_excluded
excluded_merged = refl

compute_excluded-covers_example :
    IsWhole (compute_excluded (first_section ∷ other_sections))
    × ((a : ℕ)
        → in_some a (first_section ∷ other_sections) ≡ true
        → in_some a (compute_excluded (first_section ∷ other_sections)) ≡ true)
compute_excluded-covers_example =
    compute_excluded-covers first_section other_sections
      (omega arith, omega arith, (omega arith, omega arith, omega arith))
