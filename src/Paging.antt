-- ===== src/Paging.antt =====
-- src/arch/x86_64/paging.c: the four-level page table. Memory is a map from the addresses of table
-- entries to their 64-bit words; `cr3` is the address of the highest table. The frames that
-- MMU_alloc_frame returns are a list, which `Mmu.Frames` shows that the frame allocator is.
pub mod Walk
pub mod Fault
pub mod Chains
pub mod Demand
pub mod Allocate
pub mod Identity
mod Tests
pub mod IdentityTests
use marimba.Base.{
  ℕ, zero, suc, ◌+◌, ◌-◌, ◌*◌, ◌/◌, ◌%◌, ◌^◌, ◌≤◌, ◌<◌, ◌≡◌, ◌≢◌, refl, sym, ap, ◌∙◌, ◌⊎◌, inl, inr,
  Bool, true, false, not, ◌&&◌, ◌||◌, Option, none, some, List, [], ◌∷◌, ◌++◌, map, append_assoc,
  append-nil, arith, ltb, leb, ◌==◌, ==_iff, if◌then◌else◌, Bool-cases, length, length-append,
  length-set, get_or, set, has, bit_and, bit_or,
}

abbrev pub page_table_depth : ℕ
page_table_depth = 3

abbrev pub physical_page_depth : ℕ
physical_page_depth = 4

abbrev pub null : ℕ
null = 0

abbrev pub Words : Type 0
Words = ℕ → ℕ

abbrev pub store : Words → ℕ → ℕ → Words
store m p v a = if a == p then v else m a

-- The fields of `struct PTE` in the word of an entry.
abbrev pub present : ℕ → ℕ
present w = w % 2

abbrev pub demand_allocate : ℕ → ℕ
demand_allocate w = w / 2 ^ 9 % 2

abbrev pub address : ℕ → ℕ
address w = w / 2 ^ 12 % 2 ^ 40

-- `ent->present = 0`, `ent->demand_allocate = 0` and `= 1`
abbrev pub clear_present : ℕ → ℕ
clear_present w = w - present w

abbrev pub clear_demand : ℕ → ℕ
clear_demand w = w - 2 ^ 9 * demand_allocate w

abbrev pub set_demand : ℕ → ℕ
set_demand w = clear_demand w + 2 ^ 9

-- pte_set_addr: the word becomes the address with the bits `present` and `writable` set.
abbrev pub pte_of : ℕ → ℕ
pte_of addr = addr - addr % 4 + 3

abbrev pub pte_get_addr : ℕ → ℕ
pte_get_addr w = address w * 2 ^ 12

abbrev pub pt_offset_for_depth : ℕ → ℕ → ℕ
pt_offset_for_depth vaddr depth =
    if depth == physical_page_depth
    then vaddr % 2 ^ 12
    else vaddr / 2 ^ (12 + 9 * (page_table_depth - depth)) % 2 ^ 9

-- The entry for `vaddr` in the table at `base`. Entries are eight bytes apart.
abbrev pub pte_at : (base vaddr depth : ℕ) → ℕ
pte_at base vaddr depth = base + 8 * pt_offset_for_depth vaddr depth

-- pt_get_next_pte for an entry that is not NULL.
abbrev pub pt_get_next_pte : Words → (pt vaddr depth : ℕ) → ℕ
pt_get_next_pte m pt vaddr depth = pte_at (pte_get_addr (m pt)) vaddr depth

-- The loop of pt_walk over `n` more tables, at the entry of depth `i`: the last entry and its depth.
unfoldable pub walk_from : ℕ → Words → (curr vaddr i : ℕ) → ℕ × ℕ
walk_from zero m curr vaddr i = (curr, i)
walk_from (suc n) m curr vaddr i =
    let rest = walk_from n m (pt_get_next_pte m curr vaddr (i + 1)) vaddr (i + 1) in
    if present (m curr) == 0 then (curr, i) else rest

unfoldable pub pt_walk : Words → (cr3 vaddr : ℕ) → ℕ × ℕ
unfolding walk_from
pt_walk m cr3 vaddr = walk_from 4 m (pte_at cr3 vaddr 0) vaddr 0

-- The frames that are left after one is taken, and the words with the frame in the entry `ent`; with
-- no frame left nothing changes.
unfoldable pub map_frame : List ℕ → ℕ → Words → List ℕ × Words
map_frame [] ent m = ([], m)
map_frame (f ∷ fs) ent m = (fs, store m ent (pte_of f))

-- page_fault_handler: the frames and the words that it leaves.
unfoldable pub page_fault_handler : List ℕ → (cr3 req_addr : ℕ) → Words → List ℕ × Words
page_fault_handler frames cr3 req_addr m =
    let (ent, depth) = pt_walk m cr3 req_addr in
    if depth == physical_page_depth
    then (frames, m)
    else if demand_allocate (m ent) == 0 || not (depth == page_table_depth)
    then (frames, m)
    else map_frame frames ent m

-- init_empty_page_table
abbrev pub clear_table : Words → ℕ → Words
clear_table m base a = if leb base a && ltb a (base + 8 * 512) then 0 else m a

-- What PT_demand_allocate leaves: whether it succeeded, the frames and the words.
pub record Demanded : Type 0 where
  pub success : Bool
  pub frames : List ℕ
  pub words : Words

-- The loop of PT_demand_allocate for `n` missing tables, from the entry `ent` at `depth`.
unfoldable pub add_tables : ℕ → (vaddr ent depth : ℕ) → List ℕ → Words → Demanded
add_tables zero vaddr ent depth frames m = record {
  success = true;
  frames = frames;
  words = store m ent (set_demand (m ent));
}
add_tables (suc n) vaddr ent depth [] m = record { success = false; frames = []; words = m }
add_tables (suc n) vaddr ent depth (f ∷ fs) m =
    let m' = store (clear_table m f) ent (pte_of f) in
    add_tables n vaddr (pt_get_next_pte m' ent vaddr (depth + 1)) (depth + 1) fs m'

unfoldable pub pt_demand_allocate : List ℕ → (cr3 vaddr : ℕ) → Words → Demanded
pt_demand_allocate frames cr3 vaddr m =
    let (ent, depth) = pt_walk m cr3 vaddr in
    if depth == physical_page_depth
    then record { success = false; frames = frames; words = m }
    else add_tables (page_table_depth - depth) vaddr ent depth frames m

unfoldable pub virt_to_phys : Words → (cr3 vaddr : ℕ) → ℕ
virt_to_phys m cr3 vaddr =
    let (ent, depth) = pt_walk m cr3 vaddr in if depth == physical_page_depth then ent else null

-- PT_free behind its test of the address. Its loop stops where pt_walk does.
unfoldable pub pt_free : Words → (cr3 vaddr : ℕ) → ℕ × Words
pt_free m cr3 vaddr =
    if not (vaddr % 4096 == 0)
    then (null, m)
    else (let (curr, depth) = walk_from 3 m (pte_at cr3 vaddr 0) vaddr 0 in
        if not (depth == page_table_depth) || present (m curr) == 0
        then (null, m)
        else (let m' = store m curr (clear_demand (clear_present (m curr))) in
            (pt_get_next_pte m' curr vaddr physical_page_depth, m')))
