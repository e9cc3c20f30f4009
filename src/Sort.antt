-- ===== src/Sort.antt =====
-- src/utils.c: the selection sort and the two orders and swaps that the kernel sorts by. Memory is
-- a map from the indices of 64-bit words to their values: a KernelSection of types.h takes three
-- words (base, length, section_name), an MMapEntry two (base, length), and a pointer to one is the
-- index of its first word.
pub mod Kernel
pub mod Mmap
mod Tests
use marimba.Base.{
  ℕ, zero, suc, ◌+◌, ◌-◌, ◌*◌, ◌<◌, ◌≡◌, Bool, true, false, ltb, leb, ◌==◌, if◌then◌else◌, not,
  ◌&&◌,
}

abbrev pub Words : Type 0
Words = ℕ → ℕ

abbrev pub store : Words → ℕ → ℕ → Words
store m p v a = if a == p then v else m a

pub record KernelSection : Type 0 where
  pub base : ℕ
  pub length : ℕ
  pub section_name : ℕ

abbrev pub section_size : ℕ
section_size = 3

pub record MMapEntry : Type 0 where
  pub base : ℕ
  pub length : ℕ

abbrev pub entry_size : ℕ
entry_size = 2

-- `*p` and `*p = s` for a `struct KernelSection *p`
abbrev pub load_section : Words → ℕ → KernelSection
load_section m p = record { base = m p; length = m (p + 1); section_name = m (p + 2) }

abbrev pub store_section : Words → ℕ → KernelSection → Words
store_section m p s = store (store (store m p s.base) (p + 1) s.length) (p + 2) s.section_name

-- What a compare function returns: -1, 0 or 1.
pub data Cmp : Type 0 where
  minus_one nought one : Cmp

abbrev pub is_negative : Cmp → Bool
is_negative minus_one = true
is_negative nought = false
is_negative one = false

-- The inner loop over `rounds` elements from `temp` on: the address of the least one.
min_from : (cmp : ℕ → ℕ → Words → Cmp) → (el_len rounds temp min : ℕ) → Words → ℕ
min_from cmp el_len zero temp min m = min
min_from cmp el_len (suc rounds) temp min m =
    min_from cmp el_len rounds (temp + el_len) (if is_negative (cmp min temp m) then temp else min)
      m

-- The outer loop over `rounds` elements from `curr` on; one more stands behind them.
sort_from :
    (cmp : ℕ → ℕ → Words → Cmp) (swp : ℕ → ℕ → Words → Words)
    → (el_len rounds curr : ℕ) → Words
    → Words
sort_from cmp swp el_len zero curr m = m
sort_from cmp swp el_len (suc rounds) curr m =
    let min = min_from cmp el_len (suc rounds) (curr + el_len) curr m in
    sort_from cmp swp el_len rounds (curr + el_len) (if min == curr then m else swp curr min m)

unfoldable pub sort :
    (arr num_els el_len : ℕ) (cmp : ℕ → ℕ → Words → Cmp) (swp : ℕ → ℕ → Words → Words)
    → Words
    → Words
unfolding sort_from min_from
sort arr num_els el_len cmp swp m =
    if leb num_els 1 then m else sort_from cmp swp el_len (num_els - 1) arr m

unfoldable pub kernel_mmap_cmp : ℕ → ℕ → Words → Cmp
kernel_mmap_cmp p q m =
    if ltb (load_section m q).base (load_section m p).base
    then minus_one
    else if ltb (load_section m p).base (load_section m q).base
    then one
    else nought

unfoldable pub kernel_mmap_swp : ℕ → ℕ → Words → Words
kernel_mmap_swp p q m =
    let temp = load_section m q in
    let m1 = store_section m q (load_section m p) in store_section m1 p temp

unfoldable pub sort_kernel_section_array : (arr len : ℕ) → Words → Words
unfolding sort kernel_mmap_cmp kernel_mmap_swp
sort_kernel_section_array arr len m = sort arr len section_size kernel_mmap_cmp kernel_mmap_swp m

-- The pair for MMapEntry arrays reads and writes a whole KernelSection at each entry too.
unfoldable pub mmap_entry_cmp : ℕ → ℕ → Words → Cmp
mmap_entry_cmp p q m =
    if ltb (load_section m q).base (load_section m p).base
    then minus_one
    else if ltb (load_section m p).base (load_section m q).base
    then one
    else nought

-- Whether two different sections in memory share a word.
abbrev pub overlaps : ℕ → ℕ → Bool
overlaps p q = not (p == q) && (ltb p (q + section_size) && ltb q (p + section_size))

-- Neighbours in an array of MMapEntry overlap as sections, and C does not define what `*p = *q` does then: `overlap`
-- stands for what the compiled swap makes of the memory.
unfoldable pub mmap_entry_swp : (overlap : ℕ → ℕ → Words → Words) → ℕ → ℕ → Words → Words
mmap_entry_swp overlap p q m =
    let temp = load_section m q in
    let m1 = store_section m q (load_section m p) in
    if overlaps p q then overlap p q m else store_section m1 p temp

unfoldable pub sort_mmap_entry_array :
    (overlap : ℕ → ℕ → Words → Words) → (arr len : ℕ) → Words → Words
unfolding sort mmap_entry_cmp mmap_entry_swp
sort_mmap_entry_array overlap arr len m =
    sort arr len entry_size mmap_entry_cmp (mmap_entry_swp overlap) m
