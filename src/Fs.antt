-- ===== src/Fs.antt =====
-- src/fs.c and fs.h: block devices, their partitions, and the files of character devices. A list of
-- devices is the sequence that its linked list holds, a name the bytes of its text; whether kmalloc has
-- memory is an argument, in the order of its calls. `Chars` is about the linked lists themselves.
pub mod Names
pub mod Compare
pub mod Partitions
pub mod Files
pub mod Chars
pub mod Startup
mod Tests
use marimba.Fat.{Fat, Fat32, register_fat32}
use marimba.Base.{
  ℕ, zero, suc, ◌+◌, ◌-◌, ◌*◌, ◌/◌, ◌%◌, ◌^◌, ◌≤◌, ◌<◌, ◌≡◌, ◌≢◌, refl, sym, ap, ◌∙◌, ◌⊎◌, inl, inr,
  Bool, true, false, not, ◌&&◌, ◌||◌, Option, none, some, List, [], ◌∷◌, ◌++◌, map, append_assoc,
  append-nil, arith, ltb, leb, ◌==◌, ==_iff, if◌then◌else◌, Bool-cases, length, length-append,
  length-set, get_or, set, has, bit_and, bit_or,
}

abbrev pub Name : Type 0
Name = List ℕ

-- `!strcmp(a, b)`
unfoldable pub same_name : Name → Name → Bool
same_name [] [] = true
same_name [] (d ∷ ds) = false
same_name (c ∷ cs) [] = false
same_name (c ∷ cs) (d ∷ ds) = (c == d) && same_name cs ds

-- The members of `struct BlockDev` that are data, without the list.
pub record BlockInfo : Type 0 where
  pub name : Name
  pub blk_size : ℕ
  pub total_len : ℕ
  pub fs_type : ℕ

-- A disk, with its own number, or a partition of another device.
pub data BlockDev : Type 0 where
  mass_storage : BlockInfo → (disk : ℕ) → BlockDev
  partition : BlockInfo → (phys_dev : BlockDev) (sect_start : ℕ) → BlockDev

abbrev pub info : BlockDev → BlockInfo
info (mass_storage i disk) = i
info (partition i phys_dev sect_start) = i

-- `dev->read_block(dev, blk_num, dst)`, with the reads of the disks as an argument.
unfoldable pub read_block {ℓ} : {A : Type ℓ} → (ℕ → ℕ → A) → BlockDev → ℕ → A
read_block disks (mass_storage i disk) blk_num = disks disk blk_num
read_block disks (partition i phys_dev sect_start) blk_num =
    read_block disks phys_dev ((blk_num + sect_start) % 2 ^ 64)

pub record PartitionRecord : Type 0 where
  pub partition_type : ℕ
  pub start_lba : ℕ
  pub num_sectors : ℕ

pub record MasterBootRecord : Type 0 where
  pub parts : List PartitionRecord
  pub boot_sig : ℕ

-- `name_1` and so on, for the partition at index `i`.
abbrev pub part_name : Name → ℕ → Name
part_name name i = name ++ b'_' ∷ (b'1' + i) ∷ []

abbrev pub part_dev : BlockDev → ℕ → PartitionRecord → BlockDev
part_dev dev i part =
    partition
      (record {
        name = part_name (info dev).name i;
        blk_size = (info dev).blk_size;
        total_len = part.num_sectors * (info dev).blk_size % 2 ^ 64;
        fs_type = part.partition_type;
      })
      dev part.start_lba

unfoldable pub blk_register : BlockDev → List BlockDev → List BlockDev
blk_register dev blocks = blocks ++ dev ∷ []

unfoldable pub blk_open : Name → List BlockDev → Option BlockDev
blk_open name [] = none
blk_open name (dev ∷ devs) =
    let rest = blk_open name devs in if same_name name (info dev).name then some dev else rest

-- Two calls of kmalloc: whether both succeed. Behind the end of the list there is memory.
abbrev pub has_two : List Bool → Bool
has_two [] = true
has_two (first ∷ []) = first
has_two (first ∷ second ∷ rest) = first && second

abbrev pub after_two : List Bool → List Bool
after_two [] = []
after_two (first ∷ []) = []
after_two (first ∷ second ∷ rest) = rest

-- Whether a disk's name can be copied into the 20 bytes of a partition's name, with three more behind it. strcpy does
-- not stop on an empty one.
abbrev pub fits : Name → Bool
fits name = ltb 0 (length name) && leb (length name + 3) 20

-- The loop of FS_process_mbr from the partition `i` on, four of them at most: whether it got through, and
-- `files.blocks`. `none` is a name that strcpy and what follows write behind its memory.
unfoldable pub process_parts :
    (i : ℕ)
    → List PartitionRecord
    → BlockDev
    → (memory : List Bool) → List BlockDev
    → Option (Bool × List BlockDev)
unfolding blk_register
process_parts i [] dev memory blocks = some (true, blocks)
process_parts i (part ∷ parts) dev memory blocks =
    let skipped = process_parts (i + 1) parts dev memory blocks in
    let added =
      process_parts (i + 1) parts dev (after_two memory)
        (blk_register (part_dev dev i part) blocks) in
    if leb 4 i
    then some (true, blocks)
    else if part.start_lba == 0
    then skipped
    else if not (has_two memory)
    then some (false, blocks)
    else if fits (info dev).name
    then added
    else none

unfoldable pub process_mbr :
    BlockDev
    → MasterBootRecord
    → (memory : List Bool) → List BlockDev
    → Option (Bool × List BlockDev)
unfolding process_parts
process_mbr dev mbr memory blocks =
    if mbr.boot_sig == 0xAA55
    then process_parts 0 mbr.parts dev memory blocks
    else some (false, blocks)

-- The operations of a file, each with the number of the device that it belongs to.
pub record CharDev : Type 0 where
  pub fops : ℕ
  pub cdev : ℕ

pub record INode : Type 0 where
  pub fops : ℕ
  pub cdev : ℕ
  pub name : Name

pub record OFile : Type 0 where
  pub inode : INode
  pub fops : ℕ

-- Whether there was memory, `files.inodes` and `files.chars`.
unfoldable pub register_cdev :
    CharDev → Name → (memory : Bool) → List INode → List CharDev → Bool × List INode × List CharDev
register_cdev dev name memory inodes chars =
    let new : INode = record { fops = dev.fops; cdev = dev.cdev; name = name } in
    if memory then (true, inodes ++ new ∷ [], chars ++ dev ∷ []) else (false, inodes, chars)

-- FS_open, with the operation `open` of the device as the result that it returns, below 0 or not. The
-- file is returned whatever that result is.
unfoldable pub fs_open :
    Name → (memory : Bool) → (open_fails : ℕ → INode → Bool) → List INode → Option OFile × Bool
fs_open name memory open_fails [] = (none, false)
fs_open name memory open_fails (inode ∷ inodes) =
    let rest = fs_open name memory open_fails inodes in
    if same_name name inode.name
    then (if memory
        then (some (record { inode = inode; fops = inode.fops }), not (open_fails inode.fops inode))
        else (none, false))
    else rest

-- FS_register_fs: what FS_register_fat32 returns, or `none` for -1. `boot_sectors` are the blocks of the disks as boot
-- sectors, where they can be read.
unfoldable pub register_fs :
    (boot_sectors : ℕ → ℕ → Option Fat32) (memory : Bool) → BlockDev → Option (Fat × List (ℕ × ℕ))
unfolding read_block register_fat32
register_fs boot_sectors memory dev =
    if (info dev).fs_type == 0x0C
    then register_fat32 (read_block boot_sectors dev 0) (info dev).blk_size memory
    else none
