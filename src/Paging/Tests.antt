-- ===== src/Paging/Tests.antt =====
-- Page tables with one entry each, and the theorems about them there.
use marimba.Base.{ℕ, ◌+◌, ◌*◌, ◌%◌, ◌≡◌, ◌≢◌, refl, true, [], ◌∷◌, arith, ◌==◌, if◌then◌else◌}
use marimba.Paging.{
  Words, pte_of, pte_at, pt_walk, page_fault_handler, virt_to_phys, pt_free, pt_demand_allocate,
  present,
}
use marimba.Base.{[]}
use marimba.Paging.Fault.{IsFrame, page_fault_handler_lem, pt_free_lem}

-- The tables at 0x1000, 0x2000, 0x3000 and 0x4000 for the address 0x5000; its last entry is at 0x4028
-- and marked for allocation on demand.
abbrev words : Words
words a =
    if a == 0x1000
    then pte_of 0x2000
    else if a == 0x2000
    then pte_of 0x3000
    else if a == 0x3000
    then pte_of 0x4000
    else if a == 0x4028
    then 512
    else 0

words-walk : pt_walk words 0x1000 0x5000 ≡ (0x4028, 3)
unfolding pt_walk
words-walk = refl

-- From an empty table, PT_demand_allocate builds the same tables.
builds :
    let r = pt_demand_allocate (0x2000 ∷ 0x3000 ∷ 0x4000 ∷ 0x6000 ∷ []) 0x1000 0x5000 (λ a. 0) in
    (r.success ≡ true)
    × (r.frames ≡ 0x6000 ∷ [])
    × (r.words 0x2000 ≡ words 0x2000)
    × (r.words 0x4028 ≡ 512)
unfolding pt_demand_allocate pt_walk marimba.Paging.add_tables
builds = (refl, refl, refl, refl)

x7000-IsFrame : IsFrame 0x7000
x7000-IsFrame = (omega arith, refl, omega arith)

page_fault_handler_lem_example :
    let (frames, m') = page_fault_handler (0x7000 ∷ 0x8000 ∷ []) 0x1000 0x5000 words in
    (frames ≡ 0x8000 ∷ [])
    × (virt_to_phys m' 0x1000 0x5000 ≡ 0x7000 + 8 * (0x5000 % 4096))
    × ((a : ℕ) → a ≢ 0x4028 → m' a ≡ words a)
page_fault_handler_lem_example =
    page_fault_handler_lem words 0x1000 0x5000 0x4028 0x7000 (0x8000 ∷ []) words-walk (omega arith)
      x7000-IsFrame

pt_free_lem_example :
    let m' = (page_fault_handler (0x7000 ∷ []) 0x1000 0x5000 words).1 in
    let (frame, m'') = pt_free m' 0x1000 0x5000 in
    (frame ≡ 0x7000)
    × (pt_walk m'' 0x1000 0x5000 ≡ (0x4028, 3))
    × (page_fault_handler (0x8000 ∷ []) 0x1000 0x5000 m'' ≡ (0x8000 ∷ [], m''))
pt_free_lem_example =
    pt_free_lem words 0x1000 0x5000 0x4028 0x7000 [] (0x8000 ∷ []) words-walk (omega arith)
      x7000-IsFrame refl
