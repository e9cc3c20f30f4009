-- ===== src/Paging/Walk.antt =====
-- How pt_walk of paging.c goes through the tables.
use marimba.Base.{
  ℕ, ◌≡◌, ◌≢◌, refl, ap, inl, inr, false, arith, ◌==◌, ==_iff, if◌then◌else◌, Bool-cases,
}
use marimba.Paging.{Words, present, pte_at, pt_get_next_pte, pt_walk}

-- The entries for `v` in the three upper tables are present and lead to the entry `e` of the lowest.
pub record Leads (m : Words) (cr3 v e : ℕ) : Type 0 where
  pub second : ℕ
  pub third : ℕ
  pub first_present : present (m (pte_at cr3 v 0)) ≡ 1
  pub to_second : pt_get_next_pte m (pte_at cr3 v 0) v 1 ≡ second
  pub second_present : present (m second) ≡ 1
  pub to_third : pt_get_next_pte m second v 2 ≡ third
  pub third_present : present (m third) ≡ 1
  pub to_last : pt_get_next_pte m third v 3 ≡ e

-- With the upper tables there, pt_walk ends at the last entry, or at the page that it maps.
pub pt_walk-Leads :
    (m : Words) (cr3 v e : ℕ)
    → Leads m cr3 v e
    → pt_walk m cr3 v ≡ (if present (m e) == 0 then (e, 3) else (pt_get_next_pte m e v 4, 4))
unfolding pt_walk
pt_walk-Leads m cr3 v e l =
    rw (l.first_present, l.to_second, l.second_present, l.to_third, l.third_present, l.to_last) refl

not_three : {a e : ℕ} (d : ℕ) → d ≢ 3 → ◌≡◌ {A = ℕ × ℕ} (a, d) (e, 3) → ⊥
not_three d ne h = ne (ap (λ (r : ℕ × ℕ). r.1) h)

set_of : (w : ℕ) → (present w == 0) ≡ false → present w ≡ 1
set_of w h = ground arith

-- pt_walk ends at depth 3 only where the upper tables are there and the last entry is not present.
pub Leads-of_pt_walk :
    (m : Words) (cr3 v e : ℕ) → pt_walk m cr3 v ≡ (e, 3) → Leads m cr3 v e × (present (m e) ≡ 0)
unfolding pt_walk
Leads-of_pt_walk m cr3 v e h =
    let a = pte_at cr3 v 0 in
    let b = pt_get_next_pte m a v 1 in
    let c = pt_get_next_pte m b v 2 in
    let d = pt_get_next_pte m c v 3 in
    elim (Bool-cases (present (m a) == 0)) [
      | inl no_first ↦ absurd (not_three 0 (omega arith) (rw no_first at h))
      | inr first ↦
          let h1 = rw first at h in
          elim (Bool-cases (present (m b) == 0)) [
            | inl no_second ↦ absurd (not_three 1 (omega arith) (rw no_second at h1))
            | inr second ↦
                let h2 = rw second at h1 in
                elim (Bool-cases (present (m c) == 0)) [
                  | inl no_third ↦ absurd (not_three 2 (omega arith) (rw no_third at h2))
                  | inr third ↦
                      let h3 = rw third at h2 in
                      elim (Bool-cases (present (m d) == 0)) [
                        | inl last ↦
                            let same : d ≡ e = ap (λ (r : ℕ × ℕ). r.0) (rw last at h3) in
                            (
                              record {
                                second = b;
                                third = c;
                                first_present = set_of (m a) first;
                                to_second = refl;
                                second_present = set_of (m b) second;
                                to_third = refl;
                                third_present = set_of (m c) third;
                                to_last = same;
                              },
                              rw (← same) ((==_iff _ 0).0 last),
                            )
                        | inr mapped ↦ absurd (not_three 4 (omega arith) (rw mapped at h3))
                      ]
                ]
          ]
    ]
