-- ===== src/Fs/Partitions.antt =====
-- FS_process_mbr of src/fs.c: the partitions that a master boot record adds.
use marimba.Base.{
  if◌then◌else◌, length, leb, ◌≤◌, subst, get_elem?, ℕ, zero, suc, ◌+◌, ◌%◌, ◌^◌, ◌<◌, ◌≡◌, refl,
  sym, ap, inl, inr, true, false, none, some, List, [], ◌∷◌, ◌++◌, arith, ◌==◌, Bool-cases,
}
use marimba.Fs.{
  BlockDev, info, fits, PartitionRecord, MasterBootRecord, read_block, part_name, part_dev,
  blk_register, blk_open, process_parts, process_mbr,
}
use marimba.Fs.Names.{same_name_self, same_name-part_name, blk_open-append}

module _ (dev : BlockDev) where
  abbrev name_of : ℕ → List ℕ
  name_of = part_name (info dev).name

  -- The devices behind the loop, with memory and a name that fits.
  left : (k : ℕ) → List PartitionRecord → List BlockDev → List BlockDev
  left k [] blocks = blocks
  left k (p ∷ ps) blocks =
      let skipped = left (k + 1) ps blocks in
      let added = left (k + 1) ps (blocks ++ part_dev dev k p ∷ []) in
      if leb 4 k then blocks else if p.start_lba == 0 then skipped else added

  process_parts-left :
      (k : ℕ) (parts : List PartitionRecord) (blocks : List BlockDev)
      → 0 < length (info dev).name
      → length (info dev).name ≤ 17
      → process_parts k parts dev [] blocks ≡ some (true, left k parts blocks)
  unfolding process_parts blk_register left
  process_parts-left k [] blocks named short = refl
  process_parts-left k (p ∷ ps) blocks named short =
      let fitting : fits (info dev).name ≡ true = ground arith in
      elim (Bool-cases (leb 4 k)) [
        | inl over ↦ rw over refl
        | inr here ↦ rw here (elim (Bool-cases (p.start_lba == 0)) [
          | inl skipped ↦ rw skipped (process_parts-left (k + 1) ps blocks named short)
          | inr added ↦ rw added (
              rw fitting
                (process_parts-left (k + 1) ps (blocks ++ part_dev dev k p ∷ []) named short))
        ])
      ]

  -- What is open already stays so.
  left-found :
      (k : ℕ) (parts : List PartitionRecord) (blocks : List BlockDev) (name : List ℕ) (d : BlockDev)
      → blk_open name blocks ≡ some d
      → blk_open name (left k parts blocks) ≡ some d
  unfolding left
  left-found k [] blocks name d found = found
  left-found k (p ∷ ps) blocks name d found = elim (Bool-cases (leb 4 k)) [
    | inl over ↦ rw over found
    | inr here ↦ rw here (elim (Bool-cases (p.start_lba == 0)) [
      | inl skipped ↦ rw skipped (left-found (k + 1) ps blocks name d found)
      | inr added ↦
          let still = blk_open-append name blocks (part_dev dev k p ∷ []) in
          rw added (
            left-found (k + 1) ps (blocks ++ part_dev dev k p ∷ []) name d
              (rw still (rw found refl)))
    ])
  ]

  -- The new device is not that of another index.
  blk_open-other :
      (i k : ℕ) (p : PartitionRecord) (blocks : List BlockDev)
      → (i == k) ≡ false
      → blk_open (name_of i) blocks ≡ none
      → blk_open (name_of i) (blocks ++ part_dev dev k p ∷ []) ≡ none
  unfolding blk_open
  blk_open-other i k p blocks other fresh =
      rw (blk_open-append (name_of i) blocks (part_dev dev k p ∷ []))
        (rw fresh (rw (same_name-part_name (info dev).name i k) (rw other refl)))

  blk_open-new :
      (k : ℕ) (p : PartitionRecord) (blocks : List BlockDev)
      → blk_open (name_of k) blocks ≡ none
      → blk_open (name_of k) (blocks ++ part_dev dev k p ∷ []) ≡ some (part_dev dev k p)
  unfolding blk_open
  blk_open-new k p blocks fresh =
      rw (blk_open-append (name_of k) blocks (part_dev dev k p ∷ []))
        (rw fresh (rw (same_name_self (name_of k)) refl))

  left-first :
      (k : ℕ) (p : PartitionRecord) (ps : List PartitionRecord) (blocks : List BlockDev)
      → k < 4
      → (p.start_lba == 0) ≡ false
      → blk_open (name_of k) blocks ≡ none
      → blk_open (name_of k) (left k (p ∷ ps) blocks) ≡ some (part_dev dev k p)
  unfolding left
  left-first k p ps blocks small used fresh =
      let here : leb 4 k ≡ false = ground arith in
      rw here (
        rw used (
          left-found (k + 1) ps (blocks ++ part_dev dev k p ∷ []) (name_of k) (part_dev dev k p)
            (blk_open-new k p blocks fresh)))

  left-opens :
      (k j i : ℕ) (parts : List PartitionRecord) (part : PartitionRecord) (blocks : List BlockDev)
      → i ≡ k + j
      → i < 4
      → get_elem? parts j ≡ some part
      → (part.start_lba == 0) ≡ false
      → blk_open (name_of i) blocks ≡ none
      → blk_open (name_of i) (left k parts blocks) ≡ some (part_dev dev i part)
  unfolding left
  left-opens k j i [] part blocks e small at used fresh = absurd (ground arith)
  left-opens k zero i (p ∷ ps) part blocks e small at used fresh =
      let same : p ≡ part = ground arith in
      let here : k ≡ i = omega arith in
      let own : (p.start_lba == 0) ≡ false =
        subst (λ q. (q.start_lba == 0) ≡ false) (sym same) used in
      let new = subst (λ n. blk_open (name_of n) blocks ≡ none) (sym here) fresh in
      subst (λ q. blk_open (name_of i) (left k (p ∷ ps) blocks) ≡ some (part_dev dev i q)) same
        (subst (λ n. blk_open (name_of n) (left k (p ∷ ps) blocks) ≡ some (part_dev dev n p)) here
          (left-first k p ps blocks (omega arith) own new))
  left-opens k (suc j) i (p ∷ ps) part blocks e small at used fresh =
      let here : leb 4 k ≡ false = ground arith in
      rw here (elim (Bool-cases (p.start_lba == 0)) [
        | inl skipped ↦
            rw skipped (left-opens (k + 1) j i ps part blocks (omega arith) small at used fresh)
        | inr added ↦ rw added (
            left-opens (k + 1) j i ps part (blocks ++ part_dev dev k p ∷ []) (omega arith) small at
              used (blk_open-other i k p blocks (ground arith) fresh))
      ])

-- With memory, a valid boot record and a disk whose name has one to 17 characters: FS_process_mbr succeeds. The used
-- partition at index `i` below 4 can then be opened by the name of the disk with an underscore and its number,
-- unless a device had that name before; and its block `n` is the block of the disk at `n` behind its start,
-- where that does not exceed 64 bits.
pub process_mbr-blk_open :
    {A : Type 0} (disks : ℕ → ℕ → A) (dev : BlockDev) (mbr : MasterBootRecord)
    (part : PartitionRecord) (blocks : List BlockDev) (i n : ℕ)
    → mbr.boot_sig ≡ 0xAA55
    → 0 < length (info dev).name
    → length (info dev).name ≤ 17
    → i < 4
    → get_elem? mbr.parts i ≡ some part
    → (part.start_lba == 0) ≡ false
    → blk_open (part_name (info dev).name i) blocks ≡ none
    → n + part.start_lba < 2 ^ 64
    → (blocks' : List BlockDev) × (process_mbr dev mbr [] blocks ≡ some (true, blocks'))
      × (blk_open (part_name (info dev).name i) blocks' ≡ some (part_dev dev i part))
      × (read_block disks (part_dev dev i part) n ≡ read_block disks dev (n + part.start_lba))
unfolding process_mbr read_block
process_mbr-blk_open disks dev mbr part blocks i n valid named short small at used fresh fits =
    let signed : (mbr.boot_sig == 0xAA55) ≡ true = ground arith in
    let there : (n + part.start_lba) % 2 ^ 64 ≡ n + part.start_lba = omega arith in
    (
      left dev 0 mbr.parts blocks,
      rw signed (process_parts-left dev 0 mbr.parts blocks named short),
      left-opens dev 0 i i mbr.parts part blocks (omega arith) small at used fresh,
      ap (λ m. read_block disks dev m) there,
    )
