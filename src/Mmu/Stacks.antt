-- ===== src/Mmu/Stacks.antt =====
-- MMU_alloc_stack and MMU_free_stack of mmu.c: which pages a stack takes, and which are given back.
use marimba.Base.{
  ℕ, zero, suc, ◌+◌, ◌-◌, ◌*◌, ◌%◌, ◌^◌, ◌≤◌, ◌<◌, ◌≡◌, ◌≢◌, refl, sym, ◌∙◌, false, List, [], ◌∷◌,
  ◌++◌, map, append_assoc, append-nil, arith, ◌==◌, get_or, has,
}
use marimba.Interrupts.{irq_disable}
use marimba.Mmu.{
  freed_from, VirtualState, kernel_heap_start, alloc_stack, demand_stack, free_stack_pages,
}

-- Stack addresses are eight bytes below the end of a page.
abbrev pub IsStackAddress : ℕ → Type 0
IsStackAddress a = (a % 4096 ≡ 4088) × (a < 2 ^ 64)

-- MMU_alloc_stack never reports that the stack addresses are used up, however many stacks were made:
-- from an address that is eight bytes below the end of a page it returns that address, and the next
-- one is again eight bytes below the end of a page.
pub alloc_stack-IsStackAddress :
    (s : VirtualState)
    → IsStackAddress s.next_kernel_thread_stack_vaddr
    → let (p, s') = alloc_stack s in
      (p ≡ s.next_kernel_thread_stack_vaddr)
      × IsStackAddress s'.next_kernel_thread_stack_vaddr
      × (s'.next_kernel_thread_stack_vaddr
          ≡ (s.next_kernel_thread_stack_vaddr + 2 ^ 64 - 40960) % 2 ^ 64)
unfolding alloc_stack
alloc_stack-IsStackAddress s h = ground arith

-- The bases of the pages of the stack at `p`, the upper one first.
abbrev pub stack_pages : ℕ → ℕ → List ℕ
stack_pages zero p = []
stack_pages (suc n) p = (p - 4088) ∷ stack_pages n (p - 4096)

get_or-freed_from : (n v i : ℕ) → i < n → get_or (freed_from n v) i 0 ≡ v + 4096 * i
unfolding freed_from
get_or-freed_from zero v i h = absurd (omega arith)
get_or-freed_from (suc n) v zero h = omega arith
get_or-freed_from (suc n) v (suc i) h = omega (arith, get_or-freed_from n (v + 4096) i)

has-freed_from : (n v a : ℕ) → a < v → has a (freed_from n v) ≡ false
unfolding freed_from
has-freed_from zero v a h = refl
has-freed_from (suc n) v a h = ground (arith, has-freed_from n (v + 4096) a)

-- Of the ten pages that MMU_free_stack gives back the first is the upper page of the stack. The
-- others lie above the stack, and none of the stack's lower nine pages is among them.
pub free_stack_pages_lem :
    (p i : ℕ)
    → IsStackAddress p
    → 40960 ≤ p
    → 0 < i
    → i < 10
    → (get_or (free_stack_pages p) 0 0 ≡ p - 4088)
      × (p < get_or (free_stack_pages p) i 0)
      × (has (p - 4088 - 4096 * i) (free_stack_pages p) ≡ false)
unfolding free_stack_pages
free_stack_pages_lem p i h low pos small = (
  omega (arith, get_or-freed_from 10 (p - 4088) 0 (omega arith)),
  omega (arith, get_or-freed_from 10 (p - 4088) i small),
  has-freed_from 10 (p - 4088) (p - 4088 - 4096 * i) (omega arith),
)

demanded-demand_stack :
    (n : ℕ) (s : VirtualState)
    → IsStackAddress s.next_kernel_thread_stack_vaddr
    → 4096 * n ≤ s.next_kernel_thread_stack_vaddr
    → (demand_stack n s).demanded
      ≡ s.demanded ++ map (λ b. b + 4088) (stack_pages n s.next_kernel_thread_stack_vaddr)
unfolding demand_stack
demanded-demand_stack zero s h low = sym (append-nil s.demanded)
demanded-demand_stack (suc n) s h low =
    let p = s.next_kernel_thread_stack_vaddr in
    let down : (p + 2 ^ 64 - 4096) % 2 ^ 64 ≡ p - 4096 = omega (arith, h.0, h.1) in
    let top : p - 4088 + 4088 ≡ p = omega (arith, h.0, h.1) in
    let s' : VirtualState = record s {
      demanded = s.demanded ++ p ∷ [];
      next_kernel_thread_stack_vaddr = p - 4096;
    } in
    rw (down, demand_stack, top)
      (demanded-demand_stack n s' (omega (arith, h.0, h.1), omega (arith, h.1)) (omega arith)
        ∙ append_assoc s.demanded (p ∷ []) (map (λ b. b + 4088) (stack_pages n (p - 4096))))

-- MMU_alloc_stack hands PT_demand_allocate one address in each of the ten pages of its stack, from
-- the upper page down.
pub demanded-alloc_stack :
    (s : VirtualState)
    → IsStackAddress s.next_kernel_thread_stack_vaddr
    → 40960 ≤ s.next_kernel_thread_stack_vaddr
    → s.next_kernel_thread_stack_vaddr ≢ kernel_heap_start
    → (alloc_stack s).1.demanded
      ≡ s.demanded ++ map (λ b. b + 4088) (stack_pages 10 s.next_kernel_thread_stack_vaddr)
unfolding alloc_stack
demanded-alloc_stack s h low room =
    let some_room : (s.next_kernel_thread_stack_vaddr == kernel_heap_start) ≡ false =
      ground arith in
    rw some_room (demanded-demand_stack 10 (record s { irq = irq_disable s.irq }) h low)
