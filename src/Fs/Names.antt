-- ===== src/Fs/Names.antt =====
-- src/fs.c: finding a device by its name.
use marimba.Base.{
  ℕ, ◌≡◌, refl, inl, inr, true, none, some, List, [], ◌∷◌, ◌++◌, arith, ◌==◌, Bool-cases,
}
use marimba.Fs.{Name, same_name, BlockDev, info, part_name, blk_open}

pub same_name_self : (a : Name) → same_name a a ≡ true
unfolding same_name
same_name_self [] = refl
same_name_self (c ∷ cs) = ground (arith, same_name_self cs)

-- Two partitions of a disk have the same name only if they have the same index.
pub same_name-part_name :
    (name : Name) (i k : ℕ) → same_name (part_name name i) (part_name name k) ≡ (i == k)
unfolding same_name
same_name-part_name [] i k = ground arith
same_name-part_name (c ∷ cs) i k = ground (arith, same_name-part_name cs i k)

-- A device that is found stays found behind whom it stands, and one that is not is looked for further on.
pub blk_open-append :
    (name : Name) (xs ys : List BlockDev)
    → blk_open name (xs ++ ys)
      ≡ elim (blk_open name xs) [ none ↦ blk_open name ys | some d ↦ some d ]
unfolding blk_open
blk_open-append name [] ys = refl
blk_open-append name (x ∷ xs) ys = elim (Bool-cases (same_name name (info x).name)) [
  | inl here ↦ rw here refl
  | inr there ↦ rw there (blk_open-append name xs ys)
]
