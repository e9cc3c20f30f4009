-- ===== src/Mmu.antt =====
-- src/mmu.c: physical frames and the virtual addresses of the kernel heap and the thread stacks.
-- The free segments are those from `free_segment_head` on; `words` holds the first word of each
-- free frame, which links it to the next one. PT_demand_allocate is recorded by the addresses that
-- it is called with; what it does with them is in `Paging`.
pub mod Frames
pub mod Heap
pub mod Stacks
pub mod Excluded
pub mod Free
mod Tests
use marimba.Interrupts.{IrqState, irq_disable, irq_enable}
use marimba.Base.{
  ℕ, zero, suc, ◌+◌, ◌-◌, ◌*◌, ◌/◌, ◌%◌, ◌^◌, ◌≤◌, ◌<◌, ◌≡◌, ◌≢◌, refl, sym, ap, ◌∙◌, ◌⊎◌, inl, inr,
  Bool, true, false, not, ◌&&◌, ◌||◌, Option, none, some, List, [], ◌∷◌, ◌++◌, map, append_assoc,
  append-nil, arith, ltb, leb, ◌==◌, ==_iff, if◌then◌else◌, Bool-cases, length, length-append,
  length-set, get_or, set, has, bit_and, bit_or,
}

abbrev pub page_size : ℕ
page_size = 4096

abbrev pub null : ℕ
null = 0

-- The part of `struct Segment` that the allocator uses.
pub record Segment : Type 0 where
  pub base : ℕ
  pub len : ℕ

pub record FrameState : Type 0 where
  pub free_segments : List Segment
  pub free_page_head : ℕ
  pub free_page_tail : ℕ
  pub words : ℕ → ℕ

-- The segments behind a frame taken from the first one; `base` and `len` are 64-bit words.
abbrev pub shrink : Segment → List Segment → List Segment
shrink s rest =
    let len = (s.len + 2 ^ 64 - page_size) % 2 ^ 64 in
    if len == 0 then rest else record { base = (s.base + page_size) % 2 ^ 64; len = len } ∷ rest

-- MMU_alloc_frame where no segment is left.
unfoldable pub alloc_freed : FrameState → ℕ × FrameState
alloc_freed s =
    if s.free_page_head == null
    then (null, s)
    else (s.free_page_head, record s { free_page_head = s.words s.free_page_head })

unfoldable pub alloc_from : List Segment → FrameState → ℕ × FrameState
unfolding alloc_freed
alloc_from [] s = alloc_freed s
alloc_from (g ∷ rest) s = (g.base, record s { free_segments = shrink g rest })

unfoldable pub alloc_frame : FrameState → ℕ × FrameState
unfolding alloc_from
alloc_frame s = alloc_from s.free_segments s

abbrev pub store : (ℕ → ℕ) → ℕ → ℕ → ℕ → ℕ
store m p v a = if a == p then v else m a

unfoldable pub free_frame : ℕ → FrameState → FrameState
free_frame addr s =
    if s.free_page_head == null
    then record s { free_page_head = addr; free_page_tail = addr; words = store s.words addr null }
    else record s {
      free_page_tail = addr;
      words = store (store s.words s.free_page_tail addr) addr null;
    }

-- The layout of arch/x86_64/mmap.h.
abbrev pub p4_pte_addresses : ℕ
p4_pte_addresses = 0x10000000000

abbrev pub kernel_stacks_start : ℕ
kernel_stacks_start = p4_pte_addresses

abbrev pub kernel_stacks_end : ℕ
kernel_stacks_end = 0x2 * p4_pte_addresses

abbrev pub kernel_heap_start : ℕ
kernel_heap_start = 0xF * p4_pte_addresses

abbrev pub kernel_heap_end : ℕ
kernel_heap_end = 0x10 * p4_pte_addresses

abbrev pub kernel_thread_stack_size_pages : ℕ
kernel_thread_stack_size_pages = 10

-- `demanded` are the addresses given to PT_demand_allocate, the first one first.
pub record VirtualState : Type 0 where
  pub next_kernel_heap_vaddr : ℕ
  pub next_kernel_thread_stack_vaddr : ℕ
  pub demanded : List ℕ
  pub irq : IrqState

-- The two addresses that MMU_init starts from.
abbrev pub init_virtual : IrqState → VirtualState
init_virtual irq = record {
  next_kernel_heap_vaddr = kernel_heap_start;
  next_kernel_thread_stack_vaddr = kernel_stacks_end - 8;
  demanded = [];
  irq = irq;
}

unfoldable pub alloc_page : VirtualState → ℕ × VirtualState
unfolding irq_disable irq_enable
alloc_page s =
    if s.next_kernel_heap_vaddr == kernel_heap_end
    then (null, record s { irq = irq_disable s.irq })
    else (
      s.next_kernel_heap_vaddr,
      record s {
        next_kernel_heap_vaddr = (s.next_kernel_heap_vaddr + page_size) % 2 ^ 64;
        demanded = s.demanded ++ s.next_kernel_heap_vaddr ∷ [];
        irq = irq_enable (irq_disable s.irq);
      },
    )

-- The loop of MMU_alloc_pages: whether it got all of the `n` pages.
unfoldable pub alloc_rest : ℕ → VirtualState → Bool × VirtualState
alloc_rest zero s = (true, s)
alloc_rest (suc n) s =
    let (p, s') = alloc_page s in
    let rest = alloc_rest n s' in if p == null then (false, s') else rest

unfoldable pub alloc_pages : ℕ → VirtualState → ℕ × VirtualState
alloc_pages num_pages s =
    if num_pages == 0
    then (null, s)
    else (let (first, s1) = alloc_page (record s { irq = irq_disable s.irq }) in
        if first == null
        then (null, s1)
        else (let (all, s2) = alloc_rest (num_pages - 1) s1 in
            if all then (first, record s2 { irq = irq_enable s2.irq }) else (null, s2)))

-- The loop of MMU_alloc_stack over the pages, downwards.
demand_stack : ℕ → VirtualState → VirtualState
demand_stack zero s = s
demand_stack (suc n) s = demand_stack n (record s {
  demanded = s.demanded ++ s.next_kernel_thread_stack_vaddr ∷ [];
  next_kernel_thread_stack_vaddr = (s.next_kernel_thread_stack_vaddr + 2 ^ 64 - page_size) % 2 ^ 64;
})

unfoldable pub alloc_stack : VirtualState → ℕ × VirtualState
unfolding demand_stack irq_disable irq_enable
alloc_stack s =
    if s.next_kernel_thread_stack_vaddr == kernel_heap_start
    then (null, record s { irq = irq_disable s.irq })
    else (let s' =
          demand_stack kernel_thread_stack_size_pages (record s { irq = irq_disable s.irq }) in
        (s.next_kernel_thread_stack_vaddr, record s' { irq = irq_enable s'.irq }))

-- The addresses that MMU_free_stack gives to PT_free, the first one first.
unfoldable pub freed_from : ℕ → ℕ → List ℕ
freed_from zero vaddr = []
freed_from (suc n) vaddr = vaddr ∷ freed_from n (vaddr + page_size)

unfoldable pub free_stack_pages : ℕ → List ℕ
free_stack_pages rvaddr = freed_from kernel_thread_stack_size_pages (rvaddr - (page_size - 8))
