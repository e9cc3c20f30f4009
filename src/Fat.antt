-- ===== src/Fat.antt =====
-- src/fs/fat.c: reading a FAT32 file system. An `int` is its 32-bit word. What is read from the disk is a
-- list of the sectors and of the places in the buffer that they go to.
mod Tests
use marimba.Base.{
  ℕ, zero, suc, ◌+◌, ◌-◌, ◌*◌, ◌/◌, ◌%◌, ◌^◌, ◌≤◌, ◌<◌, ◌≡◌, ◌≢◌, refl, sym, ap, ◌∙◌, ◌⊎◌, inl, inr,
  Bool, true, false, not, ◌&&◌, ◌||◌, Option, none, some, List, [], ◌∷◌, ◌++◌, map, append_assoc,
  append-nil, arith, ltb, leb, ◌==◌, ==_iff, if◌then◌else◌, Bool-cases, length, length-append,
  length-set, get_or, set, has, bit_and, bit_or,
}

-- `a < b` for two `int`s.
abbrev pub signed_less : ℕ → ℕ → Bool
signed_less a b = ltb ((a + 2 ^ 31) % 2 ^ 32) ((b + 2 ^ 31) % 2 ^ 32)

pub record Fat : Type 0 where
  pub sects_per_clust : ℕ
  pub rsvd_sects : ℕ
  pub root_clust : ℕ
  pub num_fats : ℕ
  pub tot_sects : ℕ
  pub sects_per_fat : ℕ
  pub sect_size : ℕ
  pub num_fat_entries : ℕ
  pub table : ℕ → ℕ

-- The loop of fat32_next_cluster over `n` entries from `i` on; a cluster is its 32-bit word.
unfoldable pub next_from : (n i : ℕ) → Fat → (clust : ℕ) → ℕ
next_from zero i fat clust = 0
next_from (suc n) i fat clust =
    let rest = next_from n (i + 1) fat clust in
    if fat.table i == clust then fat.table (i + 1) else rest

unfoldable pub next_cluster : Fat → (clust : ℕ) → ℕ
unfolding next_from
next_cluster fat clust = next_from fat.num_fat_entries 0 fat clust

abbrev pub start_sect : Fat → (clust : ℕ) → ℕ
start_sect fat clust =
    (fat.rsvd_sects
      + fat.num_fats * fat.sects_per_fat
      + (clust + 2 ^ 32 - 2) % 2 ^ 32 * fat.sects_per_clust)
    % 2 ^ 32

-- The reads of fat32_read_clust from the sector `i` on: each sector and its place in `clust_buff`.
-- `none` where the fuel runs out.
unfoldable pub clust_reads : (fuel i : ℕ) → Fat → Option (List (ℕ × ℕ))
clust_reads zero i fat = none
clust_reads (suc fuel) i fat =
    let rest : Option (List (ℕ × ℕ)) = elim (clust_reads fuel ((i + 1) % 2 ^ 32) fat) [
      | none ↦ none
      | some reads ↦ some ((i, i * fat.sect_size % 2 ^ 32) ∷ reads)
    ] in
    if signed_less i fat.sects_per_clust then rest else some []

unfoldable pub read_clust : (fuel : ℕ) → Fat → (clust : ℕ) → Option (List (ℕ × ℕ))
unfolding clust_reads
read_clust fuel fat clust = clust_reads fuel (start_sect fat clust) fat

-- The members of the boot sector that are used.
pub record Fat32 : Type 0 where
  pub sectors_per_cluster : ℕ
  pub reserved_sectors : ℕ
  pub num_fats : ℕ
  pub tot_sectors : ℕ
  pub large_sector_count : ℕ
  pub bpb_sectors_per_fat : ℕ
  pub sectors_per_fat : ℕ
  pub root_cluster_number : ℕ
  pub signature : ℕ

abbrev pub or_else : ℕ → ℕ → ℕ
or_else a b = if a == 0 then b else a

-- The members that FS_register_fat32 computes from the boot sector, before the table is read.
abbrev pub fat_of : Fat32 → (blk_size : ℕ) → Fat
fat_of fat blk_size =
    let sects_per_fat = or_else fat.bpb_sectors_per_fat fat.sectors_per_fat in
    record {
      sects_per_clust = fat.sectors_per_cluster;
      rsvd_sects = fat.reserved_sectors;
      root_clust = fat.root_cluster_number;
      num_fats = fat.num_fats;
      tot_sects = or_else fat.tot_sectors fat.large_sector_count;
      sects_per_fat = sects_per_fat;
      sect_size = blk_size;
      num_fat_entries = fat.num_fats * sects_per_fat % 2 ^ 32 * blk_size % 2 ^ 32 / 4;
      table = λ i. 0;
    }

-- The sectors that the table is read from, and the entry that each one is put at.
unfoldable pub table_reads : (n i : ℕ) → Fat → List (ℕ × ℕ)
table_reads zero i tbl = []
table_reads (suc n) i tbl =
    (i + (1 + tbl.rsvd_sects), i * (tbl.sect_size / 4)) ∷ table_reads n (i + 1) tbl

-- FS_register_fat32, with the boot sector if it could be read and whether all the calls of kmalloc have
-- memory: what it reads, or `none` for -1.
unfoldable pub register_fat32 :
    Option Fat32 → (blk_size : ℕ) (memory : Bool) → Option (Fat × List (ℕ × ℕ))
unfolding table_reads
register_fat32 none blk_size memory = none
register_fat32 (some fat) blk_size memory =
    let tbl = fat_of fat blk_size in
    if not ((fat.signature == 0x28) || (fat.signature == 0x29))
    then none
    else if memory
    then some (tbl, table_reads (tbl.num_fats * tbl.sects_per_fat) 0 tbl)
    else none
