-- ===== src/Paging/Identity.antt =====
-- PT_init and PT_page_table_init of src/arch/x86_64/paging.c: the two tables that map the first gigabyte to itself.
use marimba.Base.{
  subst, ℕ, zero, suc, ◌+◌, ◌-◌, ◌*◌, ◌/◌, ◌%◌, ◌^◌, ◌≤◌, ◌<◌, ◌≡◌, ◌≢◌, refl, ap, ◌∙◌, ◌⊎◌, inl,
  inr, true, false, Option, some, arith, ltb, ◌==◌, ==_iff, Bool-cases,
}
use marimba.Interrupts.{IrqHandler, irq_set_handler}
use marimba.Paging.Fault.{IsFrame, pte_of-frame}
use marimba.Paging.{Words, store, present, pte_of, pte_at, pte_get_addr, clear_table}

abbrev pub huge_page_frame_size : ℕ
huge_page_frame_size = 0x200000

abbrev pub page_fault_irq : ℕ
page_fault_irq = 0xE

-- `ent->huge_page`, and `ent->huge_page = 1`
abbrev pub huge_page : ℕ → ℕ
huge_page w = w / 2 ^ 7 % 2

abbrev pub set_huge_page : ℕ → ℕ
set_huge_page w = w - 2 ^ 7 * huge_page w + 2 ^ 7

-- The loop of PT_init from the entry `i` on.
unfoldable pub fill_identity : (n i identity_p2 : ℕ) → Words → Words
fill_identity zero i identity_p2 m = m
fill_identity (suc n) i identity_p2 m =
    let ent = identity_p2 + 8 * i in
    let m' = store m ent (pte_of (i * huge_page_frame_size)) in
    fill_identity n (i + 1) identity_p2 (store m' ent (set_huge_page (m' ent)))

-- PT_init, with the addresses of the tables and of page_fault_handler.
unfoldable pub pt_init :
    (identity_p3 identity_p2 page_fault_handler : ℕ)
    → Words
    → (ℕ → IrqHandler)
    → Words × (ℕ → IrqHandler)
unfolding fill_identity irq_set_handler
pt_init identity_p3 identity_p2 page_fault_handler m handlers =
    let m' = store (clear_table m identity_p3) identity_p3 (pte_of identity_p2) in
    (
      fill_identity 512 0 identity_p2 m',
      irq_set_handler page_fault_irq (record { handler = page_fault_handler; arg = 0 }) handlers,
    )

unfoldable pub pt_page_table_init : (identity_p3 addr : ℕ) → Words → Words
pt_page_table_init identity_p3 addr m = store (clear_table m addr) addr (pte_of identity_p3)

-- The translation of addresses by the processor, as far as the identity tables need it: an entry of the third table
-- on the way with the bit `huge_page` maps 2 megabytes.
pub record IsProcessor (translate : Words → (cr3 vaddr : ℕ) → Option ℕ) : Type 0 where
  pub huge :
      (m : Words) (cr3 v p3 p2 base : ℕ)
      → present (m (pte_at cr3 v 0)) ≡ 1
      → pte_get_addr (m (pte_at cr3 v 0)) ≡ p3
      → present (m (pte_at p3 v 1)) ≡ 1
      → huge_page (m (pte_at p3 v 1)) ≡ 0
      → pte_get_addr (m (pte_at p3 v 1)) ≡ p2
      → present (m (pte_at p2 v 2)) ≡ 1
      → huge_page (m (pte_at p2 v 2)) ≡ 1
      → pte_get_addr (m (pte_at p2 v 2)) ≡ base
      → translate m cr3 v ≡ some (base - base % 2 ^ 21 + v % 2 ^ 21)

-- The word of an entry that maps the i-th 2 megabytes.
identity_entry : ℕ → ℕ
identity_entry i = set_huge_page (pte_of (i * huge_page_frame_size))

identity_entry_lem :
    (i : ℕ)
    → i < 512
    → (present (identity_entry i) ≡ 1)
      × (huge_page (identity_entry i) ≡ 1)
      × (pte_get_addr (identity_entry i) ≡ i * 2 ^ 21)
unfolding identity_entry
identity_entry_lem i small = (omega arith, omega arith, omega arith)

fill_identity-other :
    (n i p2 a : ℕ) (m : Words)
    → (a < p2 + 8 * i) ⊎ (p2 + 8 * (i + n) ≤ a)
    → fill_identity n i p2 m a ≡ m a
unfolding fill_identity
fill_identity-other zero i p2 a m out = refl
fill_identity-other (suc n) i p2 a m out =
    let ent = p2 + 8 * i in
    let m' = store m ent (pte_of (i * huge_page_frame_size)) in
    let away : (a == ent) ≡ false = ground (arith, out) in
    let later : (a < p2 + 8 * (i + 1)) ⊎ (p2 + 8 * (i + 1 + n) ≤ a) = elim out [
      | inl below ↦ inl (omega (arith, below))
      | inr above ↦ inr (omega (arith, above))
    ] in
    fill_identity-other n (i + 1) p2 a (store m' ent (set_huge_page (m' ent))) later ∙ rw away refl

fill_identity-at :
    (n i p2 j : ℕ) (m : Words)
    → i ≤ j
    → j < i + n
    → fill_identity n i p2 m (p2 + 8 * j) ≡ identity_entry j
unfolding fill_identity identity_entry
fill_identity-at zero i p2 j m lo hi = absurd (omega arith)
fill_identity-at (suc n) i p2 j m lo hi =
    let ent = p2 + 8 * i in
    let m' = store m ent (pte_of (i * huge_page_frame_size)) in
    let m'' = store m' ent (set_huge_page (m' ent)) in
    let here : (ent == ent) ≡ true = ground arith in
    elim (Bool-cases (i == j)) [
      | inl now ↦
          let same : i ≡ j = (==_iff i j).0 now in
          subst (λ (k : ℕ). fill_identity n (i + 1) p2 m'' (p2 + 8 * k) ≡ identity_entry k) same
            (fill_identity-other n (i + 1) p2 ent m'' (inl (omega arith)) ∙ rw here refl)
      | inr later ↦
          fill_identity-at n (i + 1) p2 j m'' (ground (arith, later, lo)) (omega (arith, hi))
    ]

-- The words behind PT_init.
abbrev with_p3 : Words → (p3 p2 : ℕ) → Words
with_p3 m p3 p2 = store (clear_table m p3) p3 (pte_of p2)

pt_init-words :
    (p3 p2 handler : ℕ) (m : Words) (handlers : ℕ → IrqHandler)
    → (pt_init p3 p2 handler m handlers).0 ≡ fill_identity 512 0 p2 (with_p3 m p3 p2)
unfolding pt_init
pt_init-words p3 p2 handler m handlers = refl

pt_init-p3 :
    (p3 p2 handler : ℕ) (m : Words) (handlers : ℕ → IrqHandler)
    → p3 % 4096 ≡ 0
    → p2 % 4096 ≡ 0
    → p3 ≢ p2
    → (pt_init p3 p2 handler m handlers).0 p3 ≡ pte_of p2
pt_init-p3 p3 p2 handler m handlers page3 page2 apart =
    let here : (p3 == p3) ≡ true = ground arith in
    ap (λ (w : Words). w p3) (pt_init-words p3 p2 handler m handlers)
    ∙ fill_identity-other 512 0 p2 p3 (with_p3 m p3 p2) (outside p3 p2 page3 page2 apart)
    ∙ rw here refl
  where
    outside :
        (a b : ℕ) → a % 4096 ≡ 0 → b % 4096 ≡ 0 → a ≢ b → (a < b + 8 * 0) ⊎ (b + 8 * (0 + 512) ≤ a)
    outside a b page page' ne = elim (Bool-cases (ltb a b)) [
      | inl below ↦ inl (ground (arith, below))
      | inr above ↦ inr (ground (arith, above, page, page', ne))
    ]

pt_init-p2 :
    (p3 p2 handler j : ℕ) (m : Words) (handlers : ℕ → IrqHandler)
    → j < 512
    → (pt_init p3 p2 handler m handlers).0 (p2 + 8 * j) ≡ identity_entry j
pt_init-p2 p3 p2 handler j m handlers small =
    ap (λ (w : Words). w (p2 + 8 * j)) (pt_init-words p3 p2 handler m handlers)
    ∙ fill_identity-at 512 0 p2 j (with_p3 m p3 p2) (omega arith) (omega arith)

pt_page_table_init-at : (p3 addr : ℕ) (m : Words) → pt_page_table_init p3 addr m addr ≡ pte_of p3
unfolding pt_page_table_init
pt_page_table_init-at p3 addr m = ground arith

pt_page_table_init-other :
    (p3 addr base a : ℕ) (m : Words)
    → addr % 4096 ≡ 0
    → base % 4096 ≡ 0
    → base ≢ addr
    → base ≤ a
    → a < base + 4096
    → pt_page_table_init p3 addr m a ≡ m a
unfolding pt_page_table_init
pt_page_table_init-other p3 addr base a m page page' apart lo hi = ground arith

-- Neither of them writes outside of the three tables.
pub pt_page_table_init-away :
    (p4 p3 p2 handler a : ℕ) (m : Words) (handlers : ℕ → IrqHandler)
    → (a < p4) ⊎ (p4 + 4096 ≤ a)
    → (a < p3) ⊎ (p3 + 4096 ≤ a)
    → (a < p2) ⊎ (p2 + 4096 ≤ a)
    → pt_page_table_init p3 p4 (pt_init p3 p2 handler m handlers).0 a ≡ m a
unfolding pt_page_table_init
pt_page_table_init-away p4 p3 p2 handler a m handlers out4 out3 out2 =
    let out : (a < p2 + 8 * 0) ⊎ (p2 + 8 * (0 + 512) ≤ a) = elim out2 [
      | inl below ↦ inl (omega (arith, below))
      | inr above ↦ inr (omega (arith, above))
    ] in
    let m1 = (pt_init p3 p2 handler m handlers).0 in
    let fourth : pt_page_table_init p3 p4 m1 a ≡ m1 a = away p4 (pte_of p3) m1 out4 in
    fourth
    ∙ ap (λ (w : Words). w a) (pt_init-words p3 p2 handler m handlers)
    ∙ fill_identity-other 512 0 p2 a (with_p3 m p3 p2) out
    ∙ away p3 (pte_of p2) m out3
  where
    away : (f w : ℕ) (n : Words) → (a < f) ⊎ (f + 4096 ≤ a) → store (clear_table n f) f w a ≡ n a
    away f w n off = ground (arith, off)

-- Behind PT_init and PT_page_table_init, a processor that knows pages of 2 megabytes translates each address of
-- the first gigabyte to itself, where the three tables are different pages below 2 ^ 52.
pub pt_page_table_init-pt_init :
    (translate : Words → (cr3 vaddr : ℕ) → Option ℕ) (p4 p3 p2 handler v : ℕ) (m : Words)
    (handlers : ℕ → IrqHandler)
    → IsProcessor translate
    → v < 2 ^ 30
    → p4 % 4096 ≡ 0
    → IsFrame p3
    → IsFrame p2
    → p3 ≢ p4
    → p2 ≢ p4
    → p3 ≢ p2
    → translate (pt_page_table_init p3 p4 (pt_init p3 p2 handler m handlers).0) p4 v ≡ some v
pt_page_table_init-pt_init translate p4 p3 p2 handler v m handlers cpu small page4 frame3 frame2
      ne34 ne24 ne32 =
    let m1 = (pt_init p3 p2 handler m handlers).0 in
    let made = pt_page_table_init p3 p4 m1 in
    let j = v / 2 ^ 21 in
    let at4 : pte_at p4 v 0 ≡ p4 = omega (arith, small) in
    let at3 : pte_at p3 v 1 ≡ p3 = omega (arith, small) in
    let at2 : pte_at p2 v 2 ≡ p2 + 8 * j = omega (arith, small) in
    let first : made (pte_at p4 v 0) ≡ pte_of p3 = ap made at4 ∙ pt_page_table_init-at p3 p4 m1 in
    let second : made (pte_at p3 v 1) ≡ pte_of p2 =
      ap made at3
      ∙ pt_page_table_init-other p3 p4 p3 p3 m1 page4 frame3.1 ne34 (omega arith) (omega arith)
      ∙ pt_init-p3 p3 p2 handler m handlers frame3.1 frame2.1 ne32 in
    let third : made (pte_at p2 v 2) ≡ identity_entry j =
      ap made at2
      ∙ pt_page_table_init-other p3 p4 p2 (p2 + 8 * j) m1 page4 frame2.1 ne24 (omega arith)
          (omega (arith, small))
      ∙ pt_init-p2 p3 p2 handler j m handlers (omega (arith, small)) in
    let small_page : huge_page (pte_of p2) ≡ 0 = omega (arith, frame2.1) in
    let (there, huge, base) = identity_entry_lem j (omega (arith, small)) in
    cpu.huge made p4 v p3 p2 (j * 2 ^ 21) (ap present first ∙ (pte_of-frame p3 frame3).0)
      (ap pte_get_addr first ∙ (pte_of-frame p3 frame3).1)
      (ap present second ∙ (pte_of-frame p2 frame2).0) (ap huge_page second ∙ small_page)
      (ap pte_get_addr second ∙ (pte_of-frame p2 frame2).1) (ap present third ∙ there)
      (ap huge_page third ∙ huge) (ap pte_get_addr third ∙ base)
    ∙ ap some (omega arith)
