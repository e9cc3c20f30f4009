-- ===== src/Pages.antt =====
-- src/mmu.c and src/arch/x86_64/paging.c together: PT_demand_allocate, page_fault_handler and PT_free where the
-- frames come from MMU_alloc_frame and go to MMU_free_frame. The `words` of the frame allocator are the
-- whole memory: the links of the free frames and the page tables; `cr3` is the highest table.
pub mod Describes
pub mod Refine
pub mod Cycle
pub mod Init
pub mod Segments
pub mod Started
mod Tests
mod InitTests
use marimba.Base.{
  ℕ, zero, suc, ◌+◌, ◌-◌, ◌*◌, ◌≡◌, Bool, true, false, not, ◌||◌, List, [], ◌∷◌, ◌==◌,
  if◌then◌else◌,
}
use marimba.Mmu.{
  FrameState, VirtualState, alloc_frame, free_frame, alloc_page, alloc_stack, free_stack_pages,
  page_size, freed_from, freed_from,
}
use marimba.Paging.{
  null, page_table_depth, physical_page_depth, store, demand_allocate, set_demand, pte_of,
  clear_table, pt_get_next_pte, pt_walk, pt_free,
}

abbrev pub with_words : (ℕ → ℕ) → FrameState → FrameState
with_words m s = record s { words = m }

-- The part of page_fault_handler behind its tests.
unfoldable pub map_new_frame : (ent : ℕ) → FrameState → FrameState
unfolding alloc_frame
map_new_frame ent s =
    let (frame, s') = alloc_frame s in
    if frame == null then s' else with_words (store s'.words ent (pte_of frame)) s'

unfoldable pub page_fault : (cr3 req_addr : ℕ) → FrameState → FrameState
unfolding map_new_frame
page_fault cr3 req_addr s =
    let (ent, depth) = pt_walk s.words cr3 req_addr in
    if depth == physical_page_depth
    then s
    else if demand_allocate (s.words ent) == 0 || not (depth == page_table_depth)
    then s
    else map_new_frame ent s

-- The loop of PT_demand_allocate for `n` missing tables: 0 is `true`.
unfoldable pub link_tables : (n vaddr ent depth : ℕ) → FrameState → Bool × FrameState
unfolding alloc_frame
link_tables zero vaddr ent depth s =
    (true, with_words (store s.words ent (set_demand (s.words ent))) s)
link_tables (suc n) vaddr ent depth s =
    let (new_pt, s') = alloc_frame s in
    let m = store (clear_table s'.words new_pt) ent (pte_of new_pt) in
    let rest =
      link_tables n vaddr (pt_get_next_pte m ent vaddr (depth + 1)) (depth + 1) (with_words m s') in
    if new_pt == null then (false, s') else rest

unfoldable pub demand : (cr3 vaddr : ℕ) → FrameState → Bool × FrameState
unfolding link_tables
demand cr3 vaddr s =
    let (ent, depth) = pt_walk s.words cr3 vaddr in
    if depth == physical_page_depth
    then (false, s)
    else link_tables (page_table_depth - depth) vaddr ent depth s

-- MMU_free_page, and the loops of MMU_free_pages and MMU_free_stack over the addresses of their pages.
unfoldable pub free_page : (cr3 vaddr : ℕ) → FrameState → FrameState
unfolding free_frame
free_page cr3 vaddr s =
    let (addr, m) = pt_free s.words cr3 vaddr in
    if addr == null then with_words m s else free_frame addr (with_words m s)

unfoldable pub free_each : (cr3 : ℕ) → List ℕ → FrameState → FrameState
unfolding free_page
free_each cr3 [] s = s
free_each cr3 (vaddr ∷ vaddrs) s = free_each cr3 vaddrs (free_page cr3 vaddr s)

unfoldable pub free_pages : (cr3 rvaddr num_pages : ℕ) → FrameState → FrameState
unfolding free_each freed_from
free_pages cr3 rvaddr num_pages s = free_each cr3 (freed_from num_pages rvaddr) s

unfoldable pub free_stack : (cr3 rvaddr : ℕ) → FrameState → FrameState
unfolding free_each free_stack_pages
free_stack cr3 rvaddr s = free_each cr3 (free_stack_pages rvaddr) s
