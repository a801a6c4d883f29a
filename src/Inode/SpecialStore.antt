-- ===== src/Inode/SpecialStore.antt =====
-- Which structure is stored for symbolic links, devices and fifos (src/special.c).
use libsqfs.Prelude.{
  ℕ, ◌^◌, ◌<◌, ◌≡◌, inl, inr, refl, Bool, true, false, Option, none, some, List, [], ◌∷◌, ◌++◌,
  ◌==◌, if◌then◌else◌, Bool-cases, Option-cases, arith,
}
use libsqfs.Prelude.Fields.{Fields, widths, Fit}
use libsqfs.Memory.{Memory}
use libsqfs.Metatable.Defs.{Metatable, append}
use libsqfs.Inode.Defs.{
  Inode, store_header, common_fields, has_xattrs, symlink_type, blkdev_type, chrdev_type,
  lblkdev_type, lchrdev_type, fifo_type, lfifo_type,
}
use libsqfs.Inode.Special.{
  Device, rdev, device_serialize, fifo_serialize, symlink_serialize, symlink_fields,
}
use libsqfs.Inode.Reader.{own_layout, IsSmall, XattrFits}

abbrev pub xattr_own : Option ℕ → Fields
xattr_own none = []
xattr_own (some id) = (4, id) ∷ []

-- The inode with the types that are chosen for it.
abbrev pub typed : ℕ → ℕ → Inode → Inode
typed base long inode = record inode {
  encoded_type = if has_xattrs inode.attr.xattrset then long else base;
  encoded_base_type = base;
}

abbrev pub device_base : Device → ℕ
device_base d = if d.type == 99 then chrdev_type else blkdev_type

abbrev pub device_long : Device → ℕ
device_long d = if d.type == 99 then lchrdev_type else lblkdev_type

pub typed-IsSmall :
    (base long : ℕ) (inode : Inode) → IsSmall inode → IsSmall (typed base long inode)
typed-IsSmall base long inode s = record {
  mode_fits = s.mode_fits;
  uid_fits = s.uid_fits;
  gid_fits = s.gid_fits;
  ctime_fits = s.ctime_fits;
  number_fits = s.number_fits;
  nlink_fits = s.nlink_fits;
}

pub symlink-IsSmall :
    (lnk : Inode)
    → IsSmall lnk
    → IsSmall (record lnk { encoded_type = symlink_type; encoded_base_type = symlink_type })
symlink-IsSmall lnk s = record {
  mode_fits = s.mode_fits;
  uid_fits = s.uid_fits;
  gid_fits = s.gid_fits;
  ctime_fits = s.ctime_fits;
  number_fits = s.number_fits;
  nlink_fits = s.nlink_fits;
}

pub fifo_store :
    (mem : Memory) (tab : Metatable) (fifo : Inode)
    → let t = typed fifo_type lfifo_type fifo in
      fifo_serialize mem tab fifo
      ≡ store_header mem tab t (common_fields t ++ ((4, fifo.nlink) ∷ xattr_own fifo.attr.xattrset))
unfolding fifo_serialize
fifo_store mem tab fifo = elim (Option-cases fifo.attr.xattrset) [
  | inl e ↦ ground (arith, e)
  | inr (id, e) ↦ ground (arith, e)
]

pub device_store :
    (mem : Memory) (tab : Metatable) (dev : Inode) (d : Device)
    → let t = typed (device_base d) (device_long d) dev in
      device_serialize mem tab dev d
      ≡ store_header mem tab t (
          common_fields t
          ++ ((4, dev.nlink) ∷ (4, rdev d.major d.minor) ∷ xattr_own dev.attr.xattrset))
unfolding device_serialize
device_store mem tab dev d = elim (Option-cases dev.attr.xattrset) [
  | inl e ↦ ground (arith, e)
  | inr (id, e) ↦ ground (arith, e)
]

pub xattr_own-Fit : (o : Option ℕ) → XattrFits o → Fit (xattr_own o)
xattr_own-Fit none h = tt
xattr_own-Fit (some id) h = (omega (arith, h), tt)

-- The type that is chosen fits its field and has the fields that are written.
pub fifo_layout :
    (o : Option ℕ)
    → let type = if has_xattrs o then lfifo_type else fifo_type in
      (type < 2 ^ 16) × (4 ∷ widths (xattr_own o) ≡ own_layout type)
fifo_layout none = (omega arith, refl)
fifo_layout (some id) = (omega arith, refl)

pub device_layout :
    (o : Option ℕ) (is_char : Bool)
    → let base = if is_char then chrdev_type else blkdev_type in
      let long = if is_char then lchrdev_type else lblkdev_type in
      let type = if has_xattrs o then long else base in
      (type < 2 ^ 16) × (4 ∷ 4 ∷ widths (xattr_own o) ≡ own_layout type)
device_layout none true = (omega arith, refl)
device_layout none false = (omega arith, refl)
device_layout (some id) true = (omega arith, refl)
device_layout (some id) false = (omega arith, refl)

pub symlink_done :
    (mem : Memory) (tab : Metatable) (lnk : Inode) (name : List ℕ)
    → (symlink_serialize mem tab lnk name).0 ≡ true
    → let t = record lnk { encoded_type = symlink_type; encoded_base_type = symlink_type } in
      let (ok, mem', tab', stored) = store_header mem tab t (symlink_fields t name) in
      (ok ≡ true)
      × ((append mem' tab' name).0 ≡ true)
      × ((symlink_serialize mem tab lnk name).2 ≡ (append mem' tab' name).2)
      × ((symlink_serialize mem tab lnk name).3 ≡ stored)
unfolding symlink_serialize
symlink_done mem tab lnk name done =
    let t = record lnk { encoded_type = symlink_type; encoded_base_type = symlink_type } in
    elim (Bool-cases (store_header mem tab t (symlink_fields t name)).0) [
      | inl ok ↦ (ok, rw ok at done, rw ok refl, rw ok refl)
      | inr failed ↦ absurd (ground (arith, rw failed at done))
    ]
