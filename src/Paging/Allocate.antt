-- ===== src/Paging/Allocate.antt =====
-- PT_demand_allocate of paging.c, and the page fault behind it.
use marimba.Base.{
  subst, Distinct, ℕ, zero, suc, ◌+◌, ◌-◌, ◌*◌, ◌%◌, ◌≤◌, ◌<◌, ◌≡◌, sym, ap, ◌∙◌, false, List, ◌∷◌,
  arith, ◌==◌, length, has,
}
use marimba.Paging.{
  Words, present, pte_at, pte_get_addr, pt_walk, add_tables, pt_demand_allocate, page_fault_handler,
  virt_to_phys,
}
use marimba.Paging.Fault.{IsFrame, page_fault_handler_lem}
use marimba.Paging.Chains.{Chain, Chain-walk_from}
use marimba.Paging.Demand.{IsFresh, AreFrames, Built, drop, add_tables-Built}

-- Where a chain ends: in a table that is none of the fresh frames.
record EndsIn (v e j : ℕ) (fs : List ℕ) : Type 0 where
  base : ℕ
  entry : e ≡ pte_at base v j
  page : base % 4096 ≡ 0
  apart : has base fs ≡ false

Chain-EndsIn :
    (k : ℕ) (m : Words) (base v i e j : ℕ) (fs : List ℕ)
    → ((a : ℕ) → present (m a) ≡ 1 → has (pte_get_addr (m a)) fs ≡ false)
    → base % 4096 ≡ 0
    → has base fs ≡ false
    → Chain k m v (pte_at base v i) i e j
    → EndsIn v e j fs
Chain-EndsIn zero m base v i e j fs used page apart c = record {
  base = base;
  entry = sym c.0 ∙ ap (λ (d : ℕ). pte_at base v d) c.1;
  page = page;
  apart = apart;
}
Chain-EndsIn (suc k) m base v i e j fs used page apart c =
    let a = pte_at base v i in
    Chain-EndsIn k m (pte_get_addr (m a)) v (i + 1) e j fs used (omega arith) (used a c.0) c.1

-- PT_demand_allocate of an address at which the walk stops at depth `d`, above the page: with a frame
-- for each of the 3 - d missing tables, none of them in use, it succeeds and takes these frames, in
-- their order. A walk then goes through to the last entry, which is not present and is marked for
-- allocation on demand.
pub pt_demand_allocate-Built :
    (m : Words) (cr3 v e d : ℕ) (fs : List ℕ)
    → pt_walk m cr3 v ≡ (e, d)
    → d < 4
    → cr3 % 4096 ≡ 0
    → IsFresh cr3 m fs
    → AreFrames fs
    → Distinct fs
    → 3 - d ≤ length fs
    → Built cr3 v (drop (3 - d) fs) (pt_demand_allocate fs cr3 v m)
unfolding pt_demand_allocate pt_walk
pt_demand_allocate-Built m cr3 v e d fs w small page fresh frames apart enough =
    let (k, depth, chain, absent) = Chain-walk_from 4 m v (pte_at cr3 v 0) 0 e d w (omega arith) in
    let ends = Chain-EndsIn k m cr3 v 0 e d fs fresh.used page fresh.root chain in
    let not_mapped : (d == 4) ≡ false = ground arith in
    rw (w, not_mapped)
      (subst (λ (a : ℕ). Built cr3 v (drop (3 - d) fs) (add_tables (3 - d) v a d fs m))
        (sym ends.entry)
        (add_tables-Built (3 - d) k d ends.base v cr3 fs m (omega arith) (omega (arith, depth)) page
          ends.page ends.apart fresh frames apart enough
          (subst (λ (a : ℕ). Chain k m v (pte_at cr3 v 0) 0 a d) ends.entry chain)
          (subst (λ (a : ℕ). present (m a) ≡ 0) ends.entry absent)))

-- A page fault at the address then takes the next frame, and a translation of the address finds it.
pub pt_demand_allocate-fault :
    (m : Words) (cr3 v e d f : ℕ) (fs gs : List ℕ)
    → pt_walk m cr3 v ≡ (e, d)
    → d < 4
    → cr3 % 4096 ≡ 0
    → IsFresh cr3 m fs
    → AreFrames fs
    → Distinct fs
    → 3 - d ≤ length fs
    → drop (3 - d) fs ≡ f ∷ gs
    → IsFrame f
    → let built = pt_demand_allocate fs cr3 v m in
      let (frames, m') = page_fault_handler built.frames cr3 v built.words in
      (frames ≡ gs) × (virt_to_phys m' cr3 v ≡ f + 8 * (v % 4096))
pt_demand_allocate-fault m cr3 v e d f fs gs w small page fresh frames apart enough next frame =
    let b = pt_demand_allocate-Built m cr3 v e d fs w small page fresh frames apart enough in
    let built = pt_demand_allocate fs cr3 v m in
    let mapped =
      page_fault_handler_lem built.words cr3 v b.entry f gs b.leads (omega (arith, b.marked))
        frame in
    rw (b.left, next) (mapped.0, mapped.1)
