-- ===== src/Fs/Startup.antt =====
-- FS_cdev_init, FS_read, FS_close and FS_dump_files of src/fs.c, and filesystem_init of src/procs/fs.c: from a disk to
-- its file system.
use marimba.Base.{ℕ, Bool, Option, some, none, List, [], ◌∷◌, ◌++◌}
use marimba.Fs.{
  Name, BlockDev, CharDev, INode, OFile, MasterBootRecord, blk_open, process_mbr, register_fs,
  read_block,
}
use marimba.Fat.{Fat, Fat32}

-- The device without its inode and its place in the list.
abbrev pub cdev_init : (cdev fops : ℕ) → CharDev
cdev_init cdev fops = record { fops = fops; cdev = cdev }

-- The operations of a device, by the number of its table.
pub record FileOps (State : Type 0) : Type 0 where
  pub read : OFile → (len : ℕ) → State → List ℕ × State
  pub close : OFile → State → State

abbrev pub fs_read : {State : Type 0} → (ℕ → FileOps State) → OFile → ℕ → State → List ℕ × State
fs_read ops file len s = (ops file.fops).read file len s

abbrev pub fs_close : {State : Type 0} → (ℕ → FileOps State) → OFile → State → State
fs_close ops file s = (ops file.fops).close file s

-- The text that FS_dump_files prints.
unfoldable pub dump_files : List INode → List ℕ
dump_files [] = []
dump_files (inode ∷ inodes) = inode.name ++ 10 ∷ dump_files inodes

-- "ata" and "ata_1"
abbrev pub ata_name : Name
ata_name = b'a' ∷ b't' ∷ b'a' ∷ []

abbrev pub first_part_name : Name
first_part_name = b'a' ∷ b't' ∷ b'a' ∷ b'_' ∷ b'1' ∷ []

-- What FS_register_fat32 keeps of a file system, and the sectors of the table that it reads, each with its place.
abbrev pub FileSystem : Type 0
FileSystem = Fat × List (ℕ × ℕ)

-- What filesystem_init comes to before it only yields: no disk, a name behind its memory, no partition, or the partition
-- and its file system, if that was registered; the devices then.
pub data FilesystemInit : Type 0 where
  no_disk : FilesystemInit
  overrun : FilesystemInit
  no_partition : List BlockDev → FilesystemInit
  registered : BlockDev → Option FileSystem → List BlockDev → FilesystemInit

-- The blocks of the disks, as boot records and as boot sectors.
pub record Disks : Type 0 where
  pub records : ℕ → ℕ → MasterBootRecord
  pub boot_sectors : ℕ → ℕ → Option Fat32

-- What follows the opening of the partition, the boot record, and the opening of the disk, whose block 0 is the boot
-- record. `memory` is for the partitions, `fat_memory` for the file system.
unfoldable pub register_part :
    Disks → (fat_memory : Bool) → List BlockDev → Option BlockDev → FilesystemInit
unfolding register_fs
register_part disks fat_memory blocks none = no_partition blocks
register_part disks fat_memory blocks (some part) =
    registered part (register_fs disks.boot_sectors fat_memory part) blocks

unfoldable pub open_part :
    Disks → (fat_memory : Bool) → Option (Bool × List BlockDev) → FilesystemInit
unfolding blk_open register_part
open_part disks fat_memory none = overrun
open_part disks fat_memory (some (through, blocks)) =
    register_part disks fat_memory blocks (blk_open first_part_name blocks)

unfoldable pub process_disk :
    Disks
    → (memory : List Bool) (fat_memory : Bool) → List BlockDev
    → Option BlockDev
    → FilesystemInit
unfolding process_mbr read_block open_part
process_disk disks memory fat_memory blocks none = no_disk
process_disk disks memory fat_memory blocks (some blk) =
    open_part disks fat_memory (process_mbr blk (read_block disks.records blk 0) memory blocks)

unfoldable pub filesystem_init :
    Disks → (memory : List Bool) (fat_memory : Bool) → List BlockDev → FilesystemInit
unfolding blk_open process_disk
filesystem_init disks memory fat_memory blocks =
    process_disk disks memory fat_memory blocks (blk_open ata_name blocks)
