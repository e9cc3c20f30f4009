-- ===== src/Mmu/Heap.antt =====
-- MMU_alloc_page and MMU_alloc_pages of mmu.c: pages of the kernel heap, and what a failure leaves.
use marimba.Base.{
  ℕ, zero, suc, ◌+◌, ◌-◌, ◌*◌, ◌%◌, ◌≤◌, ◌<◌, ◌≡◌, refl, ap, inl, inr, true, false, List, [], ◌∷◌,
  ◌++◌, append_assoc, append-nil, arith, ◌==◌, ==_iff, Bool-cases,
}
use marimba.Interrupts.{IrqState, irq_disable, irq_enable}
use marimba.Interrupts.Nesting.{IsConsistent}
use marimba.Mmu.{
  VirtualState, null, kernel_heap_start, kernel_heap_end, alloc_page, alloc_rest, alloc_pages,
}

-- The next heap address is a page of the heap, or its end.
pub record IsValid (s : VirtualState) : Type 0 where
  pub low : kernel_heap_start ≤ s.next_kernel_heap_vaddr
  pub high : s.next_kernel_heap_vaddr ≤ kernel_heap_end
  pub aligned : s.next_kernel_heap_vaddr % 4096 ≡ 0
  pub consistent : IsConsistent s.irq

-- The `n` pages from `p` on.
abbrev pub pages_from : ℕ → ℕ → List ℕ
pages_from zero p = []
pages_from (suc n) p = p ∷ pages_from n (p + 4096)

-- The state with `n` pages given out.
abbrev pub advanced : ℕ → VirtualState → VirtualState
advanced n s = record s {
  next_kernel_heap_vaddr = s.next_kernel_heap_vaddr + 4096 * n;
  demanded = s.demanded ++ pages_from n s.next_kernel_heap_vaddr;
}

irq_enable-irq_disable : (i : IrqState) → IsConsistent i → irq_enable (irq_disable i) ≡ i
unfolding irq_enable irq_disable
irq_enable-irq_disable i c = ground arith

alloc_page-advanced :
    (s : VirtualState)
    → IsValid s
    → s.next_kernel_heap_vaddr < kernel_heap_end
    → alloc_page s ≡ (s.next_kernel_heap_vaddr, advanced 1 s)
unfolding alloc_page
alloc_page-advanced s v h = ground (arith, irq_enable-irq_disable s.irq v.consistent)

advanced-IsValid :
    (s : VirtualState) (n : ℕ)
    → IsValid s
    → s.next_kernel_heap_vaddr + 4096 * n ≤ kernel_heap_end
    → IsValid (advanced n s)
advanced-IsValid s n v h = record {
  low = omega (arith, v.low);
  high = h;
  aligned = omega (arith, v.aligned);
  consistent = v.consistent;
}

advanced-suc : (n : ℕ) (s : VirtualState) → advanced n (advanced 1 s) ≡ advanced (suc n) s
advanced-suc n s = ground (
  arith,
  append_assoc s.demanded (s.next_kernel_heap_vaddr ∷ [])
      (pages_from n (s.next_kernel_heap_vaddr + 4096)),
)

alloc_rest-advanced :
    (n : ℕ) (s : VirtualState)
    → IsValid s
    → s.next_kernel_heap_vaddr + 4096 * n ≤ kernel_heap_end
    → alloc_rest n s ≡ (true, advanced n s)
unfolding alloc_rest
alloc_rest-advanced zero s v h = ground (arith, append-nil s.demanded)
alloc_rest-advanced (suc n) s v h =
    let one = alloc_page-advanced s v (omega arith) in
    let rest =
      alloc_rest-advanced n (advanced 1 s) (advanced-IsValid s 1 v (omega arith)) (omega arith) in
    let mapped : (s.next_kernel_heap_vaddr == null) ≡ false = ground (arith, v.low) in
    rw (one, mapped, rest) (ap (λ (t : VirtualState). (true, t)) (advanced-suc n s))

irq_disable-IsConsistent : (i : IrqState) → IsConsistent i → IsConsistent (irq_disable i)
unfolding irq_disable
irq_disable-IsConsistent i c = ground arith

abbrev disabled : VirtualState → VirtualState
disabled s = record s { irq = irq_disable s.irq }

disabled-IsValid : (s : VirtualState) → IsValid s → IsValid (disabled s)
disabled-IsValid s v = record {
  low = v.low;
  high = v.high;
  aligned = v.aligned;
  consistent = irq_disable-IsConsistent s.irq v.consistent;
}

-- MMU_alloc_pages with room in the heap: it returns the next `n` pages, which it hands to
-- PT_demand_allocate in their order, each once, and leaves the interrupts as they were.
pub alloc_pages-advanced :
    (n : ℕ) (s : VirtualState)
    → IsValid s
    → 0 < n
    → s.next_kernel_heap_vaddr + 4096 * n ≤ kernel_heap_end
    → (alloc_pages n s ≡ (s.next_kernel_heap_vaddr, advanced n s)) × IsValid (advanced n s)
unfolding alloc_pages
alloc_pages-advanced zero s v p h = absurd (omega arith)
alloc_pages-advanced (suc n) s v p h =
    let v' = disabled-IsValid s v in
    let one = alloc_page-advanced (disabled s) v' (omega arith) in
    let rest =
      alloc_rest-advanced n (advanced 1 (disabled s))
        (advanced-IsValid (disabled s) 1 v' (omega arith)) (omega arith) in
    let mapped : (s.next_kernel_heap_vaddr == null) ≡ false = ground (arith, v.low) in
    let count : suc n - 1 ≡ n = omega arith in
    let some_pages : (suc n == 0) ≡ false = ground arith in
    (
      rw (some_pages, one, mapped, count, rest, irq_enable-irq_disable s.irq v.consistent)
          (ap (λ (t : VirtualState). (s.next_kernel_heap_vaddr, t)) (advanced-suc n s)),
      advanced-IsValid s (suc n) v h,
    )

alloc_page_fails :
    (s : VirtualState)
    → s.next_kernel_heap_vaddr ≡ kernel_heap_end
    → alloc_page s ≡ (null, disabled s)
unfolding alloc_page
alloc_page_fails s e = ground arith

alloc_rest_fails :
    (n : ℕ) (s : VirtualState)
    → IsValid s
    → kernel_heap_end < s.next_kernel_heap_vaddr + 4096 * n
    → ((alloc_rest n s).0 ≡ false) × ((alloc_rest n s).1.irq ≡ irq_disable s.irq)
unfolding alloc_rest
alloc_rest_fails zero s v h = absurd (omega (arith, v.high))
alloc_rest_fails (suc n) s v h = elim (Bool-cases (s.next_kernel_heap_vaddr == kernel_heap_end)) [
  | inl full ↦ rw (alloc_page_fails s ((==_iff _ kernel_heap_end).0 full)) (refl, refl)
  | inr room ↦
      let one = alloc_page-advanced s v (ground (arith, v.high)) in
      let next = advanced-IsValid s 1 v (ground (arith, v.high, v.aligned)) in
      let rest = alloc_rest_fails n (advanced 1 s) next (omega arith) in
      let mapped : (s.next_kernel_heap_vaddr == null) ≡ false = ground (arith, v.low) in
      rw (one, mapped) rest
]

disabled_twice :
    (i : IrqState)
    → IsConsistent i
    → ((irq_disable (irq_disable i)).semaphore ≡ i.semaphore + 2)
      × ((irq_disable (irq_disable i)).accepting ≡ false)
unfolding irq_disable
disabled_twice i c = ground arith

-- MMU_alloc_pages without room in the heap: it returns null, but leaves two more sections open than
-- before, so the processor accepts no interrupt any more.
pub alloc_pages_fails :
    (n : ℕ) (s : VirtualState)
    → IsValid s
    → 0 < n
    → kernel_heap_end < s.next_kernel_heap_vaddr + 4096 * n
    → let (p, s') = alloc_pages n s in
      (p ≡ null) × (s'.irq.semaphore ≡ s.irq.semaphore + 2) × (s'.irq.accepting ≡ false)
unfolding alloc_pages
alloc_pages_fails zero s v p h = absurd (omega arith)
alloc_pages_fails (suc n) s v p h =
    elim (Bool-cases (s.next_kernel_heap_vaddr == kernel_heap_end)) [
      | inl full ↦
          let some_pages : (suc n == 0) ≡ false = ground arith in
          rw (some_pages, alloc_page_fails (disabled s) ((==_iff _ kernel_heap_end).0 full))
            (refl, (disabled_twice s.irq v.consistent).0, (disabled_twice s.irq v.consistent).1)
      | inr room ↦
          let v' = disabled-IsValid s v in
          let one = alloc_page-advanced (disabled s) v' (ground (arith, v.high)) in
          let next = advanced-IsValid (disabled s) 1 v' (ground (arith, v.high, v.aligned)) in
          let rest = alloc_rest_fails n (advanced 1 (disabled s)) next (omega arith) in
          let mapped : (s.next_kernel_heap_vaddr == null) ≡ false = ground (arith, v.low) in
          let count : suc n - 1 ≡ n = omega arith in
          let some_pages : (suc n == 0) ≡ false = ground arith in
          rw (some_pages, one, mapped, count, rest.0, rest.1)
            (refl, (disabled_twice s.irq v.consistent).0, (disabled_twice s.irq v.consistent).1)
    ]
