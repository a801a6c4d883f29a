-- ===== src/Tests/AttrRuns.antt =====
-- The attributes of an inode of user 1000 and group 33 (src/inodes.c).
use libsqfs.Prelude.{◌^◌, ◌<◌, ◌≡◌, refl, some, [], ◌∷◌, get_elem?, arith}
use libsqfs.Memory.{unlimited}
use libsqfs.IdTable.Defs.{IdTable, idtable_map}
use libsqfs.Inode.Defs.{InodeAttr}
use libsqfs.Inode.Attr.{inodeattr_create_simple, inodeattr_create_simple-maps}

abbrev ids : IdTable
ids = record { ids = 0 ∷ 1000 ∷ []; nids = 2; offset = 0 }

inodeattr_create_simple-maps_example :
    let (created, _, tab') = inodeattr_create_simple unlimited ids 1000 33 33188 5 in
    (attr : InodeAttr) × (created ≡ some attr)
    × (get_elem? tab'.ids attr.mapped_uid ≡ some 1000)
    × (get_elem? tab'.ids attr.mapped_gid ≡ some 33)
    × (attr.mode < 2 ^ 12)
unfolding inodeattr_create_simple idtable_map
inodeattr_create_simple-maps_example =
    inodeattr_create_simple-maps unlimited ids 1000 33 33188 5 (λ n. refl) refl (omega arith)
