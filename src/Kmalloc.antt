-- ===== src/Kmalloc.antt =====
-- src/kmalloc.c: the pool allocator over the heap pages of `Mmu`. A block's header is kept by the
-- block's address; what MMU_free_pages hands to PT_free is recorded. Sizes are below 2 ^ 43, so that
-- the number of pages is an `int`.
pub mod Pools
pub mod Blocks
pub mod Sizes
mod Tests
use marimba.Base.{
  ℕ, zero, suc, ◌+◌, ◌-◌, ◌*◌, ◌/◌, ◌%◌, ◌^◌, ◌≤◌, ◌<◌, ◌≡◌, ◌≢◌, refl, sym, ap, ◌∙◌, ◌⊎◌, inl, inr,
  Bool, true, false, not, ◌&&◌, ◌||◌, Option, none, some, List, [], ◌∷◌, ◌++◌, map, append_assoc,
  append-nil, arith, ltb, leb, ◌==◌, ==_iff, if◌then◌else◌, Bool-cases, length, length-append,
  length-set, get_or, set, has, bit_and, bit_or,
}
use marimba.Mmu.{VirtualState, alloc_pages, freed_from, page_size}

abbrev pub null : ℕ
null = 0

abbrev pub pool_page_increase : ℕ
pool_page_increase = 4

-- The size of a header.
abbrev pub header_size : ℕ
header_size = 16

-- `block_size` of each of the pools.
abbrev pub block_sizes : List ℕ
block_sizes = 32 ∷ 64 ∷ 128 ∷ 512 ∷ 1024 ∷ 2048 ∷ []

abbrev pub block_size : ℕ → ℕ
block_size i = get_or block_sizes i 2048

-- `pool` is the index of a pool, or `none` for NULL.
pub record BlockHeader : Type 0 where
  pub pool : Option ℕ
  pub next : ℕ

pub record KmallocState : Type 0 where
  pub free_head : ℕ → ℕ
  pub blocks : ℕ → BlockHeader
  pub mmu : VirtualState
  pub freed : List ℕ

abbrev pub put : {A : Type 0} → (ℕ → A) → ℕ → A → ℕ → A
put m p v a = if a == p then v else m a

-- `*prev = p`: without a previous block, `prev` is the pool's free_head.
abbrev pub set_link : ℕ → Option ℕ → ℕ → KmallocState → KmallocState
set_link i none p s = record s { free_head = put s.free_head i p }
set_link i (some b) p s = record s {
  blocks = put s.blocks b (record { pool = (s.blocks b).pool; next = p });
}

-- The loop of kmalloc_increase_pool over `n` blocks.
unfoldable pub add_blocks : ℕ → (i : ℕ) (prev : Option ℕ) (cur : ℕ) → KmallocState → KmallocState
add_blocks zero i prev cur s = s
add_blocks (suc n) i prev cur s =
    let linked = set_link i prev cur s in
    add_blocks n i (some cur) (cur + block_size i)
      (record linked { blocks = put linked.blocks cur (record { pool = some i; next = null }) })

-- Whether it succeeded, and the state.
unfoldable pub increase_pool : (i num_pages : ℕ) → KmallocState → Bool × KmallocState
increase_pool i num_pages s =
    if not (s.free_head i == null)
    then (true, s)
    else (let (cur, mmu) = alloc_pages num_pages s.mmu in
        let s' = record s { mmu = mmu } in
        if cur == null
        then (false, s')
        else (true, add_blocks (num_pages * page_size / block_size i) i none cur s'))

-- The end of kmalloc_alloc.
unfoldable pub take_first : ℕ → KmallocState → ℕ × KmallocState
take_first i s =
    let ret = s.free_head i in
    let head = (s.blocks ret).next in
    (
      ret,
      record s {
        free_head = put s.free_head i head;
        blocks = put s.blocks ret (record { pool = (s.blocks ret).pool; next = null });
      },
    )

unfoldable pub kmalloc_alloc : ℕ → KmallocState → ℕ × KmallocState
kmalloc_alloc i s =
    let (ok, s') =
      if s.free_head i == null then increase_pool i pool_page_increase s else (true, s) in
    if ok then take_first i s' else (null, s')

-- The loop of kmalloc: the first pool from `i` on with blocks of at least `need` bytes.
unfoldable pub pool_for : (need i : ℕ) → List ℕ → Option ℕ
pool_for need i [] = none
pool_for need i (size ∷ sizes) = if leb need size then some i else pool_for need (i + 1) sizes

-- The part of kmalloc for a size that no pool has.
unfoldable pub alloc_large : ℕ → KmallocState → ℕ × KmallocState
alloc_large size s =
    let num_pages = if size % page_size == 0 then size / page_size else size / page_size + 1 in
    let (ret, mmu) = alloc_pages num_pages s.mmu in
    if ret == null then (null, record s { mmu = mmu }) else (
      ret + header_size,
      record s { mmu = mmu; blocks = put s.blocks ret (record { pool = none; next = num_pages }) },
    )

unfoldable pub alloc_in : Option ℕ → ℕ → KmallocState → ℕ × KmallocState
alloc_in none size s = alloc_large size s
alloc_in (some i) size s =
    let (ret, s') = kmalloc_alloc i s in if ret == null then (null, s') else (ret + header_size, s')

unfoldable pub kmalloc : ℕ → KmallocState → ℕ × KmallocState
kmalloc size s =
    if size == 0
    then (null, s)
    else alloc_in (pool_for ((size + header_size) % 2 ^ 64) 0 block_sizes) size s

-- kfree of the block whose header is `header`.
unfoldable pub free_block : (block : ℕ) → BlockHeader → KmallocState → KmallocState
free_block block header s = elim header.pool [
  | none ↦ record s { freed = s.freed ++ freed_from header.next block }
  | some i ↦ record s {
    blocks = put s.blocks block (record { pool = some i; next = s.free_head i });
    free_head = put s.free_head i block;
  }
]

unfoldable pub kfree : (addr : ℕ) → KmallocState → KmallocState
kfree addr s = let block = addr - header_size in free_block block (s.blocks block) s
