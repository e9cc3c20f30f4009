-- ===== src/Paging/Demand.antt =====
-- The loop of PT_demand_allocate of paging.c hangs empty tables at the end of a chain.
use marimba.Base.{
  subst, Distinct, ℕ, zero, suc, ◌+◌, ◌*◌, ◌%◌, ◌≤◌, ◌<◌, ◌≡◌, ◌≢◌, refl, sym, ap, ◌∙◌, inl, inr,
  true, false, ◌&&◌, List, [], ◌∷◌, arith, ltb, leb, ◌==◌, Bool-cases, length, has,
}
use marimba.Paging.{
  Words, store, present, demand_allocate, set_demand, clear_table, pte_at, pte_of, pte_get_addr,
  pt_get_next_pte, pt_walk, Demanded, add_tables,
}
use marimba.Paging.Fault.{IsFrame, pte_of-frame}
use marimba.Paging.Chains.{
  Chain, Chain-snoc, Chain-store, pte_at-range, clear_table-other, clear_table-own,
  Chain-clear_table, pt_walk-Chain,
}

-- The frames `fs` hold no table that is in use.
pub record IsFresh (cr3 : ℕ) (m : Words) (fs : List ℕ) : Type 0 where
  pub root : has cr3 fs ≡ false
  pub used : (a : ℕ) → present (m a) ≡ 1 → has (pte_get_addr (m a)) fs ≡ false

abbrev pub AreFrames : List ℕ → Type 0
AreFrames [] = Unit
AreFrames (f ∷ fs) = IsFrame f × AreFrames fs

-- The memory with the empty table `f` behind the entry `ent`.
abbrev with_table : Words → (f ent : ℕ) → Words
with_table m f ent = store (clear_table m f) ent (pte_of f)

IsFresh-with_table :
    (cr3 : ℕ) (m : Words) (f ent : ℕ) (fs : List ℕ)
    → IsFrame f
    → has f fs ≡ false
    → IsFresh cr3 m (f ∷ fs)
    → IsFresh cr3 (with_table m f ent) fs
IsFresh-with_table cr3 m f ent fs frame apart fresh = record {
  root = ground (arith, fresh.root);
  used = still;
}
  where
    still :
        (a : ℕ)
        → present (with_table m f ent a) ≡ 1
        → has (pte_get_addr (with_table m f ent a)) fs ≡ false
    still a p = elim (Bool-cases (a == ent)) [
      | inl here ↦ rw (here, (pte_of-frame f frame).1) apart
      | inr there ↦ rw there (elim (Bool-cases (leb f a && ltb a (f + 8 * 512))) [
        | inl inside ↦ absurd (omega (arith, rw inside at (rw there at p)))
        | inr outside ↦ rw outside (ground (arith, fresh.used a (rw outside at (rw there at p))))
      ])
    ]

-- What the loop of PT_demand_allocate leaves.
pub record Built (cr3 v : ℕ) (rest : List ℕ) (d : Demanded) : Type 0 where
  pub success : d.success ≡ true
  pub left : d.frames ≡ rest
  pub entry : ℕ
  pub leads : pt_walk d.words cr3 v ≡ (entry, 3)
  pub marked : demand_allocate (d.words entry) ≡ 1

abbrev pub drop : ℕ → List ℕ → List ℕ
drop zero fs = fs
drop (suc n) [] = []
drop (suc n) (f ∷ fs) = drop n fs

set_demand-bits :
    (w : ℕ) → (present (set_demand w) ≡ present w) × (demand_allocate (set_demand w) ≡ 1)
set_demand-bits w = omega arith

-- Entries of different tables are different.
pte_at_ne :
    (base f v i j : ℕ)
    → i < 4
    → j < 4
    → base % 4096 ≡ 0
    → f % 4096 ≡ 0
    → base ≢ f
    → pte_at f v j ≢ pte_at base v i
pte_at_ne base f v i j hi hj page page' apart same =
    differ (pte_at base v i) (pte_at-range base v i hi)
      (subst (λ (a : ℕ). (f ≤ a) × (a < f + 4096)) same (pte_at-range f v j hj))
  where
    differ : (a : ℕ) → (base ≤ a) × (a < base + 4096) → (f ≤ a) × (a < f + 4096) → ⊥
    differ a own other = ground arith

-- A new table hangs at the end of the chain.
record Extended (l k cr3 v f ent : ℕ) (m : Words) : Type 0 where
  chain : Chain (suc l) m v (pte_at cr3 v 0) 0 (pte_at f v (k + 1)) (k + 1)
  absent : present (m (pte_at f v (k + 1))) ≡ 0
  next : pt_get_next_pte m ent v (k + 1) ≡ pte_at f v (k + 1)

with_table-Extended :
    (l k base v cr3 f : ℕ) (m : Words)
    → l ≡ k
    → k < 3
    → cr3 % 4096 ≡ 0
    → base % 4096 ≡ 0
    → base ≢ f
    → cr3 ≢ f
    → ((a : ℕ) → present (m a) ≡ 1 → pte_get_addr (m a) ≢ f)
    → IsFrame f
    → Chain l m v (pte_at cr3 v 0) 0 (pte_at base v k) k
    → present (m (pte_at base v k)) ≡ 0
    → Extended l k cr3 v f (pte_at base v k) (with_table m f (pte_at base v k))
with_table-Extended l k base v cr3 f m count small page page' base_ne root_ne used frame chain
      absent =
    let ent = pte_at base v k in
    let m' = with_table m f ent in
    let at_ent : m' ent ≡ pte_of f =
      let here : (ent == ent) ≡ true = ground arith in rw here refl in
    let kept : clear_table m f ent ≡ m ent =
      clear_table-other m f base v k (omega arith) (frame.1) page' base_ne in
    let cleared : present (clear_table m f ent) ≡ 0 = ap present kept ∙ absent in
    let upper = Chain-store l (clear_table m f) v (pte_at cr3 v 0) 0 ent k ent (pte_of f) cleared (
      Chain-clear_table l m f cr3 v 0 ent k (frame.1) used page root_ne (omega (arith, count))
        (omega arith) chain) in
    let there : present (m' ent) ≡ 1 = ap present at_ent ∙ (pte_of-frame f frame).0 in
    let address : pte_get_addr (m' ent) ≡ f = ap pte_get_addr at_ent ∙ (pte_of-frame f frame).1 in
    let to_f : pt_get_next_pte m' ent v (k + 1) ≡ pte_at f v (k + 1) =
      ap (λ (b : ℕ). pte_at b v (k + 1)) address in
    let away : (pte_at f v (k + 1) == ent) ≡ false =
      differs (pte_at_ne base f v k (k + 1) (omega arith) (omega arith) page' (frame.1) base_ne) in
    record {
      chain =
          subst (λ (e : ℕ). Chain (suc l) m' v (pte_at cr3 v 0) 0 e (k + 1)) to_f
            (Chain-snoc l m' v (pte_at cr3 v 0) 0 ent k upper there);
      absent = rw away (ap present (clear_table-own m f v (k + 1) (omega arith)));
      next = to_f;
    }
  where
    differs : {a b : ℕ} → a ≢ b → (a == b) ≡ false
    differs {a} {b} h = ground arith

not_has : (a : ℕ) (f : ℕ) (fs : List ℕ) → has a (f ∷ fs) ≡ false → (a ≢ f) × (has a fs ≡ false)
not_has a f fs h = (λ e. ground (arith, e), ground arith)

pub add_tables-Built :
    (n l k base v cr3 : ℕ) (fs : List ℕ) (m : Words)
    → k + n ≡ 3
    → l ≡ k
    → cr3 % 4096 ≡ 0
    → base % 4096 ≡ 0
    → has base fs ≡ false
    → IsFresh cr3 m fs
    → AreFrames fs
    → Distinct fs
    → n ≤ length fs
    → Chain l m v (pte_at cr3 v 0) 0 (pte_at base v k) k
    → present (m (pte_at base v k)) ≡ 0
    → Built cr3 v (drop n fs) (add_tables n v (pte_at base v k) k fs m)
unfolding add_tables
add_tables-Built zero l k base v cr3 fs m count same page page' out fresh frames apart enough chain
      absent =
    let ent = pte_at base v k in
    let w = set_demand (m ent) in
    let here : store m ent w ent ≡ w = let at : (ent == ent) ≡ true = ground arith in rw at refl in
    let bits = set_demand-bits (m ent) in
    let depth : k ≡ 3 = omega (arith, count) in
    record {
      success = refl;
      left = refl;
      entry = ent;
      leads =
          pt_walk-Chain l (store m ent w) cr3 v ent k
            (Chain-store l m v (pte_at cr3 v 0) 0 ent k ent w absent chain)
            (ap present here ∙ bits.0 ∙ absent) (omega (arith, same, count))
          ∙ ap (λ (d : ℕ). (ent, d)) depth;
      marked = ap demand_allocate here ∙ bits.1;
    }
add_tables-Built (suc n) l k base v cr3 [] m count same page page' out fresh frames apart enough
      chain absent =
    absurd (omega arith)
add_tables-Built (suc n) l k base v cr3 (f ∷ fs) m count same page page' out fresh frames apart
      enough chain absent =
    let ent = pte_at base v k in
    let frame = frames.0 in
    let extended =
      with_table-Extended l k base v cr3 f m same (omega (arith, count)) page page'
        (not_has base f fs out).0 (not_has cr3 f fs fresh.root).0
        (λ a p. (not_has (pte_get_addr (m a)) f fs (fresh.used a p)).0) frame chain absent in
    subst (λ (e : ℕ). Built cr3 v (drop n fs) (add_tables n v e (k + 1) fs (with_table m f ent)))
      (sym extended.next)
      (add_tables-Built n (suc l) (k + 1) f v cr3 fs (with_table m f ent) (omega (arith, count))
        (omega (arith, same)) page frame.1 apart.0
        (IsFresh-with_table cr3 m f ent fs frame apart.0 fresh) frames.1 apart.1
        (omega (arith, enough)) extended.chain extended.absent)
