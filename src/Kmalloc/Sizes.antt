-- ===== src/Kmalloc/Sizes.antt =====
-- Which pool of kmalloc.c serves a size, and what happens where none does.
use marimba.Base.{
  ℕ, zero, suc, ◌+◌, ◌*◌, ◌/◌, ◌%◌, ◌^◌, ◌≤◌, ◌<◌, ◌≡◌, refl, inl, inr, false, none, some, List, [],
  ◌∷◌, arith, leb, ◌==◌, if◌then◌else◌, Bool-cases, length, get_or,
}
use marimba.Base.{get_or, subst}
use marimba.Mmu.{kernel_heap_end}
use marimba.Mmu.Heap.{IsValid, advanced, alloc_pages-advanced}
use marimba.Kmalloc.{
  null, KmallocState, pool_for, alloc_in, alloc_large, kmalloc, block_size, block_sizes,
}
use marimba.Kmalloc.Blocks.{pool_of}

-- Size number `n` is the first of `sizes` that is `need` or more.
abbrev pub IsFirst : ℕ → List ℕ → ℕ → Type 0
IsFirst need sizes n =
    (n < length sizes)
    × (need ≤ get_or sizes n 2048)
    × ((j : ℕ) → j < n → get_or sizes j 2048 < need)

IsFirst-cons :
    (need size : ℕ) (sizes : List ℕ) (n : ℕ)
    → size < need
    → IsFirst need sizes n
    → IsFirst need (size ∷ sizes) (suc n)
IsFirst-cons need size sizes n small first = (omega (arith, first.0), first.1, before)
  where
    before : (j : ℕ) → j < suc n → get_or (size ∷ sizes) j 2048 < need
    before zero h = small
    before (suc j) h = first.2 j (omega arith)

some_same : (a b : ℕ) → some a ≡ some b → a ≡ b
some_same a b e = ground arith

pool_for-IsFirst :
    (need k i : ℕ) (sizes : List ℕ)
    → pool_for need k sizes ≡ some i
    → (n : ℕ) × (k + n ≡ i) × IsFirst need sizes n
unfolding pool_for
pool_for-IsFirst need k i [] e = absurd (ground arith)
pool_for-IsFirst need k i (size ∷ sizes) e = elim (Bool-cases (leb need size)) [
  | inl fits ↦ (
    0,
    omega (arith, some_same k i (rw fits at e)),
    (omega arith, ground arith, λ j h. absurd (omega arith)),
  )
  | inr small ↦
      let rest = pool_for-IsFirst need (k + 1) i sizes (rw small at e) in
      (suc rest.0, omega (arith, rest.1), IsFirst-cons need size sizes rest.0 (ground arith) rest.2)
]

-- The pool that kmalloc finds has blocks with room for the header and `size` bytes, and no pool before
-- it has.
pub pool_of_lem :
    (size i : ℕ)
    → size + 16 < 2 ^ 64
    → pool_of size ≡ some i
    → (i < 6) × (size + 16 ≤ block_size i) × ((j : ℕ) → j < i → block_size j < size + 16)
pool_of_lem size i h e =
    let need : (size + 16) % 2 ^ 64 ≡ size + 16 = omega arith in
    let found = pool_for-IsFirst (size + 16) 0 i block_sizes (rw need at e) in
    let same : found.0 ≡ i = omega (arith, found.1) in
    subst (λ (n : ℕ). IsFirst (size + 16) block_sizes n) same found.2

-- kmalloc of a size that no pool serves, with room in the heap, returns an address 16 bytes behind
-- the first of just enough pages for `size` bytes, so that the 16 bytes of the header are missing at
-- the end whenever `size` fills its pages.
pub kmalloc-large :
    (size : ℕ) (s : KmallocState)
    → 0 < size
    → pool_of size ≡ none
    → IsValid s.mmu
    → s.mmu.next_kernel_heap_vaddr + size + 4096 ≤ kernel_heap_end
    → let (addr, s') = kmalloc size s in
      (n : ℕ) × (addr ≡ s.mmu.next_kernel_heap_vaddr + 16)
      × (s'.mmu ≡ advanced n s.mmu)
      × (size ≤ 4096 * n)
      × (4096 * n < size + 4096)
unfolding kmalloc alloc_in alloc_large
kmalloc-large size s h e v room =
    let n = if size % 4096 == 0 then size / 4096 else size / 4096 + 1 in
    let few : (size ≤ 4096 * n) × (4096 * n < size + 4096) = ground arith in
    let pages = (alloc_pages-advanced n s.mmu v (omega (arith, few.0)) (omega (arith, few.1))).0 in
    let asked : (size == 0) ≡ false = ground arith in
    let mapped : (s.mmu.next_kernel_heap_vaddr == null) ≡ false = ground (arith, v.low) in
    rw (asked, e, pages, mapped) (n, refl, refl, few.0, few.1)
