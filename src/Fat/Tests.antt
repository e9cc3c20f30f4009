-- ===== src/Fat/Tests.antt =====
-- The FAT32 code on a small file system.
use marimba.Base.{◌≡◌, refl, true, none, some, [], ◌∷◌, get_or}
use marimba.Fat.{
  Fat, Fat32, fat_of, next_cluster, next_from, read_clust, clust_reads, register_fat32, table_reads,
}

abbrev boot_sector : Fat32
boot_sector = record {
  sectors_per_cluster = 8;
  reserved_sectors = 32;
  num_fats = 2;
  tot_sectors = 0;
  large_sector_count = 1000;
  bpb_sectors_per_fat = 0;
  sectors_per_fat = 1;
  root_cluster_number = 2;
  signature = 0x29;
}

abbrev small : Fat
small = fat_of boot_sector 512

registered : register_fat32 (some boot_sector) 512 true ≡ some (small, (33, 0) ∷ (34, 128) ∷ [])
unfolding register_fat32 table_reads
registered = refl

other_signature : register_fat32 (some (record boot_sector { signature = 0 })) 512 true ≡ none
unfolding register_fat32
other_signature = refl

-- The first sector of a cluster is beyond the bound of the loop: nothing is read.
nothing_read : read_clust 1 small 2 ≡ some []
unfolding read_clust clust_reads
nothing_read = refl

-- The chain from 2 to 5 to 7: the entry that holds 5 is followed by that of cluster 3.
next_of_5 :
    next_cluster (record small { table = λ i. get_or (0 ∷ 0 ∷ 5 ∷ 9 ∷ 0 ∷ 7 ∷ []) i 0 }) 5 ≡ 9
unfolding next_cluster next_from
next_of_5 = refl
