-- ===== src/Kmalloc/Blocks.antt =====
-- What kmalloc and kfree of kmalloc.c do with the pools.
use marimba.Base.{
  ℕ, zero, suc, ◌+◌, ◌-◌, ◌/◌, ◌%◌, ◌^◌, ◌≤◌, ◌<◌, ◌≡◌, ◌≢◌, refl, sym, ap, ◌∙◌, false, Option,
  none, some, List, ◌∷◌, arith, ◌==◌, has,
}
use marimba.Base.{subst}
use marimba.Mmu.{kernel_heap_end}
use marimba.Mmu.Heap.{IsValid, advanced, alloc_pages-advanced}
use marimba.Kmalloc.{
  null, BlockHeader, KmallocState, put, set_link, add_blocks, increase_pool, take_first,
  kmalloc_alloc, pool_for, alloc_in, kmalloc, free_block, kfree, block_size, block_sizes,
  header_size,
}
use marimba.Kmalloc.Pools.{
  add_blocks-IsPool, IsFree, blocks_from, take_first-IsFree, free_block-IsFree, IsPool,
}

-- The pool that kmalloc looks for.
abbrev pub pool_of : ℕ → Option ℕ
pool_of size = pool_for ((size + header_size) % 2 ^ 64) 0 block_sizes

-- kmalloc where it uses pool `i`.
kmalloc-pool :
    (size i : ℕ) (s : KmallocState)
    → 0 < size
    → pool_of size ≡ some i
    → kmalloc size s ≡ alloc_in (some i) size s
unfolding kmalloc
kmalloc-pool size i s h e = let asked : (size == 0) ≡ false = ground arith in rw (asked, e) refl

alloc_in-take_first :
    (size i : ℕ) (s : KmallocState)
    → s.free_head i ≢ null
    → alloc_in (some i) size s ≡ (s.free_head i + 16, (take_first i s).1)
unfolding alloc_in kmalloc_alloc take_first
alloc_in-take_first size i s h =
    let there : (s.free_head i == null) ≡ false = ground arith in rw (there, there) refl

free_block-pool :
    (b i : ℕ) (header : BlockHeader) (s : KmallocState)
    → header.pool ≡ some i
    → free_block b header s ≡ free_block b (record { pool = some i; next = null }) s
unfolding free_block
free_block-pool b i header s e = rw e refl

kfree-block :
    (b i : ℕ) (s : KmallocState)
    → (s.blocks b).pool ≡ some i
    → kfree (b + 16) s ≡ free_block b (record { pool = some i; next = null }) s
unfolding kfree
kfree-block b i s e =
    let block : b + 16 - 16 ≡ b = omega arith in rw block (free_block-pool b i (s.blocks b) s e)

kfree-IsFree :
    (i b : ℕ) (fs : List ℕ) (s : KmallocState)
    → IsFree s.blocks i (s.free_head i) fs
    → has b fs ≡ false
    → b ≢ null
    → (s.blocks b).pool ≡ some i
    → let s' = kfree (b + 16) s in IsFree s'.blocks i (s'.free_head i) (b ∷ fs)
kfree-IsFree i b fs s free out h e =
    subst (λ (s' : KmallocState). IsFree s'.blocks i (s'.free_head i) (b ∷ fs))
      (sym (kfree-block b i s e)) (free_block-IsFree i b fs s free out h)

kmalloc-take_first :
    (size i f : ℕ) (fs : List ℕ) (s : KmallocState)
    → 0 < size
    → pool_of size ≡ some i
    → IsPool s i (f ∷ fs)
    → kmalloc size s ≡ (f + 16, (take_first i s).1)
kmalloc-take_first size i f fs s h e v =
    let some_head : s.free_head i ≢ null = rw v.0.0 v.0.1 in
    kmalloc-pool size i s h e
    ∙ alloc_in-take_first size i s some_head
    ∙ ap (λ (a : ℕ). (a + 16, (take_first i s).1)) v.0.0

-- kmalloc of a size that pool `i` serves, while the pool has free blocks, returns the address behind
-- the header of the first one, and leaves the others. kfree of that address makes it the first free
-- block again.
pub kfree-kmalloc :
    (size i f : ℕ) (fs : List ℕ) (s : KmallocState)
    → 0 < size
    → pool_of size ≡ some i
    → IsPool s i (f ∷ fs)
    → let (addr, s') = kmalloc size s in
      (addr ≡ f + 16) × IsPool s' i fs × IsPool (kfree addr s') i (f ∷ fs)
kfree-kmalloc size i f fs s h e v =
    let taken = take_first-IsFree i f fs s v.0 v.1 in
    let given = kfree-IsFree i f fs (take_first i s).1 taken.1 v.1.0 v.0.1 taken.2 in
    subst
      (λ (r : ℕ × KmallocState).
        (r.0 ≡ f + 16) × IsPool r.1 i fs × IsPool (kfree r.0 r.1) i (f ∷ fs))
      (sym (kmalloc-take_first size i f fs s h e v)) (refl, (taken.1, v.1.1), (given, v.1))

-- What kmalloc_alloc does with an empty pool, with room for four pages in the heap.
filled : ℕ → KmallocState → KmallocState
filled i s =
    add_blocks (16384 / block_size i) i none s.mmu.next_kernel_heap_vaddr
      (record s { mmu = advanced 4 s.mmu })

kmalloc_alloc-filled :
    (i : ℕ) (s : KmallocState)
    → s.free_head i ≡ null
    → IsValid s.mmu
    → s.mmu.next_kernel_heap_vaddr + 16384 ≤ kernel_heap_end
    → kmalloc_alloc i s ≡ take_first i (filled i s)
unfolding kmalloc_alloc increase_pool filled
kmalloc_alloc-filled i s empty v room =
    let pages = (alloc_pages-advanced 4 s.mmu v (omega arith) room).0 in
    let mapped : (s.mmu.next_kernel_heap_vaddr == null) ≡ false = ground (arith, v.low) in
    rw (empty, pages, mapped) refl

mmu-set_link : (i p : ℕ) (prev : Option ℕ) (s : KmallocState) → (set_link i prev p s).mmu ≡ s.mmu
mmu-set_link i p none s = refl
mmu-set_link i p (some b) s = refl

mmu-add_blocks :
    (n i cur : ℕ) (prev : Option ℕ) (s : KmallocState) → (add_blocks n i prev cur s).mmu ≡ s.mmu
unfolding add_blocks
mmu-add_blocks zero i cur prev s = refl
mmu-add_blocks (suc n) i cur prev s =
    let linked = set_link i prev cur s in
    mmu-add_blocks n i (cur + block_size i) (some cur)
      (record linked { blocks = put linked.blocks cur (record { pool = some i; next = null }) })
    ∙ mmu-set_link i cur prev s

mmu-take_first : (i : ℕ) (s : KmallocState) → (take_first i s).1.mmu ≡ s.mmu
unfolding take_first
mmu-take_first i s = refl

-- Blocks have 32 bytes at least, and some fit into four pages.
block_size-count :
    (i : ℕ) → (0 < block_size i) × (16384 / block_size i ≡ suc (16384 / block_size i - 1))
block_size-count zero = (omega arith, refl)
block_size-count (suc zero) = (omega arith, refl)
block_size-count (suc (suc zero)) = (omega arith, refl)
block_size-count (suc (suc (suc zero))) = (omega arith, refl)
block_size-count (suc (suc (suc (suc zero)))) = (omega arith, refl)
block_size-count (suc (suc (suc (suc (suc zero))))) = (omega arith, refl)
block_size-count (suc (suc (suc (suc (suc (suc i)))))) = (omega arith, refl)

-- The blocks behind the first one in four pages from `p` on.
abbrev pub other_blocks : (i p : ℕ) → List ℕ
other_blocks i p = blocks_from (16384 / block_size i - 1) (block_size i) (p + block_size i)

filled-IsPool :
    (i : ℕ) (s : KmallocState)
    → s.mmu.next_kernel_heap_vaddr ≢ null
    → let p = s.mmu.next_kernel_heap_vaddr in IsPool (filled i s) i (p ∷ other_blocks i p)
unfolding filled
filled-IsPool i s h =
    let (size, count) = block_size-count i in
    let p = s.mmu.next_kernel_heap_vaddr in
    let s' : KmallocState = record s { mmu = advanced 4 s.mmu } in
    subst (λ (n : ℕ). IsPool (add_blocks n i none p s') i (p ∷ other_blocks i p)) (sym count)
      (add_blocks-IsPool (16384 / block_size i - 1) i p s' h size)

mmu-filled : (i : ℕ) (s : KmallocState) → (filled i s).mmu ≡ advanced 4 s.mmu
unfolding filled
mmu-filled i s =
    mmu-add_blocks (16384 / block_size i) i s.mmu.next_kernel_heap_vaddr none
      (record s { mmu = advanced 4 s.mmu })

alloc_in-kmalloc_alloc :
    (size i r : ℕ) (s s' : KmallocState)
    → kmalloc_alloc i s ≡ (r, s')
    → r ≢ null
    → alloc_in (some i) size s ≡ (r + 16, s')
unfolding alloc_in
alloc_in-kmalloc_alloc size i r s s' e h =
    let there : (r == null) ≡ false = ground arith in rw (e, there) refl

-- kmalloc of a size that pool `i` serves, when the pool is empty and the heap has room for four pages,
-- takes four pages, returns the address behind the header of the first block in them, and leaves all
-- the other blocks that fit into the pages as the free list of the pool, each once.
pub kmalloc-filled :
    (size i : ℕ) (s : KmallocState)
    → 0 < size
    → pool_of size ≡ some i
    → s.free_head i ≡ null
    → IsValid s.mmu
    → s.mmu.next_kernel_heap_vaddr + 16384 ≤ kernel_heap_end
    → let p = s.mmu.next_kernel_heap_vaddr in
      let (addr, s') = kmalloc size s in
      (addr ≡ p + 16) × IsPool s' i (other_blocks i p) × (s'.mmu ≡ advanced 4 s.mmu)
kmalloc-filled size i s h e empty v room =
    let p = s.mmu.next_kernel_heap_vaddr in
    let mapped : p ≢ null = omega (arith, v.low) in
    let fill = filled-IsPool i s mapped in
    let taken = take_first-IsFree i p (other_blocks i p) (filled i s) fill.0 fill.1 in
    let s' = (take_first i (filled i s)).1 in
    let first : kmalloc_alloc i s ≡ (p, s') =
      kmalloc_alloc-filled i s empty v room ∙ ap (λ (a : ℕ). (a, s')) taken.0 in
    subst
      (λ (r : ℕ × KmallocState).
        (r.0 ≡ p + 16) × IsPool r.1 i (other_blocks i p) × (r.1.mmu ≡ advanced 4 s.mmu))
      (sym (kmalloc-pool size i s h e ∙ alloc_in-kmalloc_alloc size i p s s' first mapped))
      (refl, (taken.1, fill.1.1), mmu-take_first i (filled i s) ∙ mmu-filled i s)
