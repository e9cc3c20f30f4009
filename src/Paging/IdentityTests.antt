-- ===== src/Paging/IdentityTests.antt =====
-- The identity tables at concrete addresses, for a processor that only knows pages of 2 megabytes.
use marimba.Base.{
  ◌^◌, ℕ, ◌+◌, ◌-◌, ◌%◌, ◌≡◌, refl, Option, some, none, arith, ◌&&◌, ◌==◌, if◌then◌else◌,
}
use marimba.Paging.{Words, pte_at, present, pte_get_addr}
use marimba.Paging.Identity.{
  huge_page, pt_init, pt_page_table_init, IsProcessor, pt_page_table_init-pt_init,
}

abbrev pub huge_only : Words → (cr3 vaddr : ℕ) → Option ℕ
huge_only m cr3 vaddr =
    let first = m (pte_at cr3 vaddr 0) in
    let second = m (pte_at (pte_get_addr first) vaddr 1) in
    let third = m (pte_at (pte_get_addr second) vaddr 2) in
    let base = pte_get_addr third in
    if (present first == 1)
      && ((present second == 1) && ((present third == 1) && (huge_page third == 1)))
    then some (base - base % 2 ^ 21 + vaddr % 2 ^ 21)
    else none

pub huge_only-IsProcessor : IsProcessor huge_only
huge_only-IsProcessor = record {
  huge = λ m cr3 v p3 p2 base there1 to3 there2 small to2 there3 huge to_base.
      rw (there1, to3, there2, to2, there3, huge, to_base) refl;
}

pt_page_table_init-pt_init_example :
    huge_only
      (pt_page_table_init 0x2000 0x1000
        (pt_init 0x2000 0x3000 0x100 (λ a. a) (λ i. record { handler = 0; arg = 0 })).0)
      0x1000
      0x12345678
    ≡ some 0x12345678
pt_page_table_init-pt_init_example =
    pt_page_table_init-pt_init huge_only 0x1000 0x2000 0x3000 0x100 0x12345678 (λ a. a)
      (λ i. record { handler = 0; arg = 0 }) huge_only-IsProcessor (omega arith) refl
      (omega arith, refl, omega arith) (omega arith, refl, omega arith) (omega arith) (omega arith)
      (omega arith)
