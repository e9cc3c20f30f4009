-- ===== src/Kmalloc/Tests.antt =====
-- The pool allocator on small inputs, and the theorems about it there.
use marimba.Base.{◌+◌, ◌≡◌, refl, true, none, some, [], ◌∷◌, arith, ◌==◌, if◌then◌else◌}
use marimba.Mmu.{init_virtual}
use marimba.Mmu.Heap.{IsValid}
use marimba.Kmalloc.{KmallocState, kmalloc, kfree, pool_for}
use marimba.Kmalloc.Pools.{IsPool}
use marimba.Kmalloc.Blocks.{pool_of, kfree-kmalloc}

abbrev at_start : KmallocState
at_start = record {
  free_head = λ i. 0;
  blocks = λ a. record { pool = none; next = 0 };
  mmu = init_virtual (record { semaphore = 0; accepting = true });
  freed = [];
}

at_start-IsValid : IsValid at_start.mmu
at_start-IsValid = record {
  low = omega arith;
  high = omega arith;
  aligned = refl;
  consistent = refl;
}

hundred : pool_of 100 ≡ some 2
unfolding pool_for
hundred = refl

big : pool_of 8192 ≡ none
unfolding pool_for
big = refl

-- Pool 2 has the blocks 0x8000 and 0x8080.
abbrev two_blocks : KmallocState
two_blocks = record at_start {
  free_head = λ i. if i == 2 then 0x8000 else 0;
  blocks = λ a. record { pool = some 2; next = if a == 0x8000 then 0x8080 else 0 };
}

two_blocks-IsPool : IsPool two_blocks 2 (0x8000 ∷ 0x8080 ∷ [])
two_blocks-IsPool = ((refl, omega arith, refl, (refl, omega arith, refl, refl)), (refl, (refl, tt)))

kfree-kmalloc_example :
    let (addr, s') = kmalloc 100 two_blocks in
    (addr ≡ 0x8000 + 16)
    × IsPool s' 2 (0x8080 ∷ [])
    × IsPool (kfree addr s') 2 (0x8000 ∷ 0x8080 ∷ [])
kfree-kmalloc_example =
    kfree-kmalloc 100 2 0x8000 (0x8080 ∷ []) two_blocks (omega arith) hundred two_blocks-IsPool
