-- ===== src/Kmalloc/Pools.antt =====
-- The free lists of kmalloc.c.
use marimba.Base.{
  Distinct, ℕ, zero, suc, ◌+◌, ◌<◌, ◌≡◌, ◌≢◌, refl, ap, ◌∙◌, true, false, none, some, List, [], ◌∷◌,
  arith, ◌==◌, has,
}
use marimba.Kmalloc.{
  null, BlockHeader, KmallocState, put, set_link, add_blocks, take_first, free_block, block_size,
}

-- From `p` on the free blocks `fs` of pool `i` are linked, ending with NULL.
abbrev pub IsFree : (ℕ → BlockHeader) → ℕ → ℕ → List ℕ → Type 0
IsFree blocks i p [] = p ≡ null
IsFree blocks i p (f ∷ fs) =
    (p ≡ f) × (f ≢ null) × ((blocks f).pool ≡ some i) × IsFree blocks i (blocks f).next fs

put_ne : {A : Type 0} (m : ℕ → A) (p a : ℕ) (v : A) → a ≢ p → put m p v a ≡ m a
put_ne m p a v h = let other : (a == p) ≡ false = ground arith in rw other refl

put_self : {A : Type 0} (m : ℕ → A) (p : ℕ) (v : A) → put m p v p ≡ v
put_self m p v = let same : (p == p) ≡ true = ground arith in rw same refl

-- A header that is not on the list does not matter to it.
IsFree-put :
    (blocks : ℕ → BlockHeader) (i p : ℕ) (fs : List ℕ) (a : ℕ) (h : BlockHeader)
    → has a fs ≡ false
    → IsFree blocks i p fs
    → IsFree (put blocks a h) i p fs
IsFree-put blocks i p [] a h out free = free
IsFree-put blocks i p (f ∷ fs) a h out free =
    let kept = put_ne blocks a f h (ground arith) in
    rw kept
      (free.0, free.1, free.2, IsFree-put blocks i (blocks f).next fs a h (ground arith) free.3)

-- The addresses of `n` blocks of `size` bytes from `p` on.
abbrev pub blocks_from : ℕ → ℕ → ℕ → List ℕ
blocks_from zero size p = []
blocks_from (suc n) size p = p ∷ blocks_from n size (p + size)

same : (a : ℕ) → (a == a) ≡ true
same a = ground arith

-- Taking the first block off a list.
pub take_first-IsFree :
    (i f : ℕ) (fs : List ℕ) (s : KmallocState)
    → IsFree s.blocks i (s.free_head i) (f ∷ fs)
    → Distinct (f ∷ fs)
    → let (ret, s') = take_first i s in
      (ret ≡ f) × IsFree s'.blocks i (s'.free_head i) fs × ((s'.blocks f).pool ≡ some i)
unfolding take_first
take_first-IsFree i f fs s free apart =
    rw (free.0, same i, same f)
      (
        refl,
        IsFree-put s.blocks i (s.blocks f).next fs f
            (record { pool = (s.blocks f).pool; next = null }) apart.0 free.3,
        free.2,
      )

-- Giving a block back puts it first.
pub free_block-IsFree :
    (i b : ℕ) (fs : List ℕ) (s : KmallocState)
    → IsFree s.blocks i (s.free_head i) fs
    → has b fs ≡ false
    → b ≢ null
    → let s' = free_block b (record { pool = some i; next = null }) s in
      IsFree s'.blocks i (s'.free_head i) (b ∷ fs)
unfolding free_block
free_block-IsFree i b fs s free out h =
    rw (same i, same b)
      (
        refl,
        h,
        refl,
        IsFree-put s.blocks i (s.free_head i) fs b (record { pool = some i; next = s.free_head i })
            out free,
      )

-- add_blocks at and behind `cur` leaves the headers before it alone, but for the link of `prev`.
add_blocks-before :
    (n i b cur a : ℕ) (s : KmallocState)
    → a ≢ b
    → a < cur
    → (add_blocks n i (some b) cur s).blocks a ≡ s.blocks a
unfolding add_blocks
add_blocks-before zero i b cur a s h lt = refl
add_blocks-before (suc n) i b cur a s h lt =
    let not_b : (a == b) ≡ false = ground arith in
    let not_cur : (a == cur) ≡ false = ground arith in
    let linked = set_link i (some b) cur s in
    add_blocks-before n i cur (cur + block_size i) a
      (record linked { blocks = put linked.blocks cur (record { pool = some i; next = null }) })
      (ground arith) (omega arith)
    ∙ rw (not_cur, not_b) refl

-- The blocks that add_blocks links behind `b`.
pub add_blocks-IsFree :
    (n i b cur : ℕ) (s : KmallocState)
    → b ≢ null
    → b < cur
    → 0 < block_size i
    → s.blocks b ≡ record { pool = some i; next = null }
    → IsFree (add_blocks n i (some b) cur s).blocks i b (b ∷ blocks_from n (block_size i) cur)
unfolding add_blocks
add_blocks-IsFree zero i b cur s h lt size at_b = rw at_b (refl, h, refl, refl)
add_blocks-IsFree (suc n) i b cur s h lt size at_b =
    let linked = set_link i (some b) cur s in
    let s' : KmallocState = record linked {
      blocks = put linked.blocks cur (record { pool = some i; next = null });
    } in
    let not_cur : (b == cur) ≡ false = ground arith in
    let kept : (add_blocks n i (some cur) (cur + block_size i) s').blocks b
        ≡ record { pool = some i; next = cur } =
      add_blocks-before n i cur (cur + block_size i) b s' (ground arith) (omega arith)
      ∙ rw (not_cur, same b, at_b) refl in
    let rest =
      add_blocks-IsFree n i cur (cur + block_size i) s' (omega arith) (omega arith) size
        (put_self linked.blocks cur (record { pool = some i; next = null })) in
    rw kept (refl, h, refl, rest)

free_head-add_blocks :
    (n i b cur : ℕ) (s : KmallocState) → (add_blocks n i (some b) cur s).free_head ≡ s.free_head
unfolding add_blocks
free_head-add_blocks zero i b cur s = refl
free_head-add_blocks (suc n) i b cur s =
    let linked = set_link i (some b) cur s in
    free_head-add_blocks n i cur (cur + block_size i)
      (record linked { blocks = put linked.blocks cur (record { pool = some i; next = null }) })

has-blocks_from : (n size p a : ℕ) → a < p → has a (blocks_from n size p) ≡ false
has-blocks_from zero size p a h = refl
has-blocks_from (suc n) size p a h = ground (arith, has-blocks_from n size (p + size) a)

blocks_from-Distinct : (n size p : ℕ) → 0 < size → Distinct (blocks_from n size p)
blocks_from-Distinct zero size p h = tt
blocks_from-Distinct (suc n) size p h =
    (has-blocks_from n size (p + size) p (omega arith), blocks_from-Distinct n size (p + size) h)

-- The free blocks of pool `i` are `fs`, none twice.
abbrev pub IsPool : KmallocState → ℕ → List ℕ → Type 0
IsPool s i fs = IsFree s.blocks i (s.free_head i) fs × Distinct fs

-- The blocks of a pool that add_blocks fills from its head.
pub add_blocks-IsPool :
    (n i cur : ℕ) (s : KmallocState)
    → cur ≢ null
    → 0 < block_size i
    → IsPool (add_blocks (suc n) i none cur s) i (blocks_from (suc n) (block_size i) cur)
unfolding add_blocks
add_blocks-IsPool n i cur s h size =
    let linked = set_link i none cur s in
    let s' : KmallocState = record linked {
      blocks = put linked.blocks cur (record { pool = some i; next = null });
    } in
    let at_cur = put_self linked.blocks cur (record { pool = some i; next = null }) in
    let free = add_blocks-IsFree n i cur (cur + block_size i) s' h (omega arith) size at_cur in
    let head : (add_blocks n i (some cur) (cur + block_size i) s').free_head i ≡ cur =
      ap (λ (q : ℕ → ℕ). q i) (free_head-add_blocks n i cur (cur + block_size i) s')
      ∙ put_self s.free_head i cur in
    (rw head free, blocks_from-Distinct (suc n) (block_size i) cur size)
