-- ===== src/Inode/Special.antt =====
-- Symbolic links, devices and fifos (src/special.c).
use Prim.Native.Nat.{bit_or}
use libsqfs.Prelude.{
  ℕ, ◌-◌, ◌*◌, ◌%◌, ◌^◌, Bool, false, Option, List, [], ◌∷◌, ◌++◌, ◌==◌, length, if◌then◌else◌,
}
use libsqfs.Prelude.Fields.{Fields}
use libsqfs.Memory.{Memory}
use libsqfs.Metatable.Defs.{Metatable, append}
use libsqfs.Inode.Defs.{
  Inode, common_fields, xattr_field, has_xattrs, store_header, symlink_type, blkdev_type,
  chrdev_type, fifo_type, lblkdev_type, lchrdev_type, lfifo_type,
}

-- The structures `squashfs_symlink_inode_header`, `squashfs_(l)dev_inode_header` and
-- `squashfs_(l)ipc_inode_header`.
abbrev pub symlink_fields : Inode → List ℕ → Fields
symlink_fields inode name = common_fields inode ++ ((4, inode.nlink) ∷ (4, length name) ∷ [])

abbrev device_fields : Inode → ℕ → Fields
device_fields inode rdev = common_fields inode ++ ((4, inode.nlink) ∷ (4, rdev) ∷ [])

abbrev ipc_fields : Inode → Fields
ipc_fields inode = common_fields inode ++ ((4, inode.nlink) ∷ [])

-- The extended structures have a field more.
abbrev with_xattr : Fields → Option ℕ → Fields
with_xattr fields xattrset = fields ++ ((4, xattr_field xattrset) ∷ [])

-- libsqfs_symlink_inode_serialize
unfoldable pub symlink_serialize :
    Memory → Metatable → Inode → List ℕ → Bool × Memory × Metatable × Inode
unfolding store_header append
symlink_serialize mem tab lnk name =
    let typed = record lnk { encoded_type = symlink_type; encoded_base_type = symlink_type } in
    let (ok, mem', tab', stored) = store_header mem tab typed (symlink_fields typed name) in
    let (ok', mem'', tab'') = append mem' tab' name in
    if ok then (ok', mem'', tab'', stored) else (false, mem', tab', stored)

-- `type` is the character `c` or `b`.
pub record Device : Type 0 where
  pub type : ℕ
  pub major : ℕ
  pub minor : ℕ

-- The number of a device, from `unsigned int`s.
unfoldable pub rdev : ℕ → ℕ → ℕ
rdev major minor =
    bit_or (bit_or (major * 2 ^ 8 % 2 ^ 32) (minor % 2 ^ 8))
      ((minor - minor % 2 ^ 8) * 2 ^ 12 % 2 ^ 32)

-- libsqfs_device_inode_serialize
unfoldable pub device_serialize :
    Memory → Metatable → Inode → Device → Bool × Memory × Metatable × Inode
unfolding store_header rdev
device_serialize mem tab dev d =
    let base = if d.type == 99 then chrdev_type else blkdev_type in
    let long = if d.type == 99 then lchrdev_type else lblkdev_type in
    let short = record dev { encoded_type = base; encoded_base_type = base } in
    let extended = record dev { encoded_type = long; encoded_base_type = base } in
    let number = rdev d.major d.minor in
    if has_xattrs dev.attr.xattrset
    then store_header mem tab extended
        (with_xattr (device_fields extended number) dev.attr.xattrset)
    else store_header mem tab short (device_fields short number)

-- libsqfs_fifo_inode_serialize
unfoldable pub fifo_serialize : Memory → Metatable → Inode → Bool × Memory × Metatable × Inode
unfolding store_header
fifo_serialize mem tab fifo =
    let short = record fifo { encoded_type = fifo_type; encoded_base_type = fifo_type } in
    let extended = record fifo { encoded_type = lfifo_type; encoded_base_type = fifo_type } in
    if has_xattrs fifo.attr.xattrset
    then store_header mem tab extended (with_xattr (ipc_fields extended) fifo.attr.xattrset)
    else store_header mem tab short (ipc_fields short)
