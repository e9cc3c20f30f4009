-- ===== src/Fs/Tests.antt =====
-- Devices and files on small inputs, and the theorems about them there.
use marimba.Fat.{Fat32}
use marimba.Base.{List, ◌==◌, if◌then◌else◌}
use marimba.Fs.Startup.{Disks, dump_files}
use marimba.Base.{true, none, get_or, ◌≡◌, refl, false, some, [], ◌∷◌, arith}
use marimba.LinkedList.{Memory, LinkedList, for_each, enqueue, ndata}
use marimba.Fs.{
  BlockDev, mass_storage, info, PartitionRecord, MasterBootRecord, part_name, part_dev, process_mbr,
  blk_open, read_block, CharDev, same_name,
}
use marimba.Fs.Partitions.{process_mbr-blk_open}
use marimba.Strings.{Bytes, strcmp}
use marimba.Fs.Compare.{IsText, Tells, strcmp-same_name}
use marimba.Fs.Chars.{for_each-enqueue_chars}

abbrev ata : BlockDev
ata =
    mass_storage
      (record { name = b'a' ∷ b't' ∷ b'a' ∷ []; blk_size = 512; total_len = 0x100000; fs_type = 0 })
      0

abbrev second_part : PartitionRecord
second_part = record { partition_type = 0x0C; start_lba = 2048; num_sectors = 1000 }

-- The first record is not used.
abbrev boot_record : MasterBootRecord
boot_record = record {
  parts = record { partition_type = 0; start_lba = 0; num_sectors = 0 } ∷ second_part ∷ [];
  boot_sig = 0xAA55;
}

process_mbr-blk_open_example :
    (blocks' : List BlockDev) × (process_mbr ata boot_record [] (ata ∷ []) ≡ some (true, blocks'))
    × (blk_open (part_name (info ata).name 1) blocks' ≡ some (part_dev ata 1 second_part))
    × (read_block (λ disk n. n) (part_dev ata 1 second_part) 7 ≡ read_block (λ disk n. n) ata 2055)
unfolding blk_open same_name
process_mbr-blk_open_example =
    process_mbr-blk_open (λ disk n. n) ata boot_record second_part (ata ∷ []) 1 7 refl (omega arith)
      (omega arith) (omega arith) refl refl refl (omega arith)

read_there : read_block (λ disk n. n) (part_dev ata 1 second_part) 7 ≡ 2055
unfolding read_block
read_there = refl

no_signature : process_mbr ata (record boot_record { boot_sig = 0 }) [] [] ≡ some (false, [])
unfolding process_mbr
no_signature = refl

-- Only four records are looked at, and a name of 18 characters does not fit.
abbrev many : MasterBootRecord
many = record {
  parts =
      record { partition_type = 0; start_lba = 0; num_sectors = 0 }
      ∷ record { partition_type = 0; start_lba = 0; num_sectors = 0 }
      ∷ record { partition_type = 0; start_lba = 0; num_sectors = 0 }
      ∷ record { partition_type = 0; start_lba = 0; num_sectors = 0 }
      ∷ second_part
      ∷ [];
  boot_sig = 0xAA55;
}

four_at_most : process_mbr ata many [] [] ≡ some (true, [])
unfolding process_mbr
four_at_most = refl

abbrev long_name : BlockDev
long_name =
    mass_storage
      (record {
        name =
            97 ∷ 97 ∷ 97 ∷ 97 ∷ 97 ∷ 97 ∷ 97 ∷ 97 ∷ 97 ∷ 97 ∷ 97 ∷ 97 ∷ 97 ∷ 97 ∷ 97 ∷ 97 ∷ 97 ∷ 97
            ∷ [];
        blk_size = 512;
        total_len = 0x100000;
        fs_type = 0;
      })
      0

name_too_long : process_mbr long_name boot_record [] [] ≡ none
unfolding process_mbr
name_too_long = refl

abbrev keyboard : CharDev
keyboard = record { fops = 3; cdev = 4 }

abbrev blocks : LinkedList
blocks = record { head = 100; head_offset = 48 }

abbrev chars : LinkedList
chars = record { head = 200; head_offset = 16 }

abbrev at_start : Memory
at_start a = record { next = 100; prev = 100 }

for_each-enqueue_chars_example :
    for_each 3 blocks (enqueue chars 5000 (enqueue blocks 4000 at_start))
    ≡ some (ndata blocks 5016 ∷ ndata blocks 200 ∷ [])
for_each-enqueue_chars_example =
    for_each-enqueue_chars blocks chars 4000 5000 at_start 0
      (record { of_blocks = refl; of_chars = refl }) (λ e. absurd (omega arith))
      (λ e. absurd (omega arith)) (λ e. absurd (omega arith)) (λ e. absurd (omega arith))
      (λ e. absurd (omega arith)) (λ e. absurd (omega arith))

-- Two names behind each other in memory.
abbrev names : Bytes
names a = get_or (b'a' ∷ b'b' ∷ 0 ∷ b'a' ∷ 0 ∷ []) a 0

strcmp-same_name_example : Tells (strcmp 3 0 3 names) (same_name (b'a' ∷ b'b' ∷ []) (b'a' ∷ []))
unfolding IsText
strcmp-same_name_example =
    strcmp-same_name (b'a' ∷ b'b' ∷ []) (b'a' ∷ []) names 0 3 3
      (refl, omega arith, omega arith, (refl, omega arith, omega arith, refl))
      (refl, omega arith, omega arith, refl) (omega arith)

-- The first partition has a FAT32 file system.
abbrev fat_record : MasterBootRecord
fat_record = record { parts = second_part ∷ []; boot_sig = 0xAA55 }

abbrev boot_sector : Fat32
boot_sector = record {
  sectors_per_cluster = 8;
  reserved_sectors = 32;
  num_fats = 2;
  tot_sectors = 0;
  large_sector_count = 1000;
  bpb_sectors_per_fat = 0;
  sectors_per_fat = 1;
  root_cluster_number = 2;
  signature = 0x29;
}

abbrev disk_blocks : Disks
disk_blocks = record {
  records = λ disk n. fat_record;
  boot_sectors = λ disk n. if n == 2048 then some boot_sector else none;
}

dumped :
    dump_files (record { fops = 1; cdev = 2; name = b'p' ∷ b's' ∷ b'2' ∷ [] } ∷ [])
    ≡ b'p' ∷ b's' ∷ b'2' ∷ 10 ∷ []
unfolding dump_files
dumped = refl
