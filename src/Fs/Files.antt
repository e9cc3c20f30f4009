-- ===== src/Fs/Files.antt =====
-- FS_register_cdev and FS_open of src/fs.c.
use marimba.Base.{ℕ, ◌≡◌, refl, Bool, true, false, not, ◌&&◌, some, List, [], ◌∷◌, ◌++◌, arith}
use marimba.Fs.{Name, same_name, CharDev, INode, register_cdev, fs_open}
use marimba.Fs.Names.{same_name_self}

-- No file has this name.
unfoldable pub is_new : Name → List INode → Bool
is_new name [] = true
is_new name (inode ∷ inodes) = not (same_name name inode.name) && is_new name inodes

fs_open-behind :
    (name : Name) (memory : Bool) (open_fails : ℕ → INode → Bool) (xs ys : List INode)
    → is_new name xs ≡ true
    → fs_open name memory open_fails (xs ++ ys) ≡ fs_open name memory open_fails ys
unfolding fs_open is_new
fs_open-behind name memory open_fails [] ys fresh = refl
fs_open-behind name memory open_fails (x ∷ xs) ys fresh =
    let other : same_name name x.name ≡ false = ground arith in
    let others : is_new name xs ≡ true = ground arith in
    rw other (fs_open-behind name memory open_fails xs ys others)

-- A device registered under a new name, with memory, is the one that FS_open opens by that name. Where
-- the device's own `open` fails the file is returned all the same.
pub fs_open-register_cdev :
    (dev : CharDev) (name : Name) (open_fails : ℕ → INode → Bool) (inodes : List INode)
    (chars : List CharDev)
    → is_new name inodes ≡ true
    → let inode : INode = record { fops = dev.fops; cdev = dev.cdev; name = name } in
      fs_open name true open_fails (register_cdev dev name true inodes chars).1
      ≡ (some (record { inode = inode; fops = dev.fops }), not (open_fails dev.fops inode))
unfolding register_cdev fs_open
fs_open-register_cdev dev name open_fails inodes chars fresh =
    rw
      (fs_open-behind name true open_fails inodes
        (record { fops = dev.fops; cdev = dev.cdev; name = name } ∷ []) fresh)
      (rw (same_name_self name) refl)
