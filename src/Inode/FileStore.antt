-- ===== src/Inode/FileStore.antt =====
-- Which structure is stored for a regular file (src/regular.c).
use libsqfs.Prelude.{
  ◌^◌, ◌<◌, ◌≡◌, ◌⊎◌, inl, inr, refl, true, none, List, [], ◌∷◌, ◌++◌, ◌==◌, if◌then◌else◌,
  Bool-cases, Option-cases, arith,
}
use libsqfs.Prelude.Fields.{Fields, encode_fields, widths, Fit}
use libsqfs.Memory.{Memory}
use libsqfs.Metatable.Defs.{Metatable, append}
use libsqfs.Inode.Defs.{Inode, store_header, common_fields, xattr_field, file_type, lreg_type}
use libsqfs.Inode.Regular.{
  StoredBlock, RegularFile, start_block, fragment_index, fragment_offset, regular_type, reg_fields,
  lreg_fields, block_fields, append_infos, regular_serialize,
}
use libsqfs.Inode.Reader.{xattr_field-fits, own_layout, IsSmall, XattrFits}

-- What the fields of the extended structure have to hold.
pub record FileFits (file : RegularFile) : Type 0 where
  pub start_fits : start_block file.blocks < 2 ^ 64
  pub size_fits : file.file_size < 2 ^ 64
  pub sparse_fits : file.sparse_size < 2 ^ 64
  pub index_fits : fragment_index file.tail_piece < 2 ^ 32
  pub offset_fits : fragment_offset file.tail_piece < 2 ^ 32
  pub infos_fit : Fit (block_fields file.blocks)

-- The fields behind the common ones.
abbrev reg_own : RegularFile → Fields
reg_own file =
    (4, start_block file.blocks)
    ∷ (4, fragment_index file.tail_piece)
    ∷ (4, fragment_offset file.tail_piece)
    ∷ (4, file.file_size)
    ∷ []

abbrev lreg_own : Inode → RegularFile → Fields
lreg_own inode file =
    (8, start_block file.blocks)
    ∷ (8, file.file_size)
    ∷ (8, file.sparse_size)
    ∷ (4, inode.nlink)
    ∷ (4, fragment_index file.tail_piece)
    ∷ (4, fragment_offset file.tail_piece)
    ∷ (4, xattr_field inode.attr.xattrset)
    ∷ []

-- The structure that is chosen, with the two that there are.
abbrev pub file_own : Inode → RegularFile → Fields
file_own inode file =
    if regular_type inode file == file_type then reg_own file else lreg_own inode file

abbrev pub file_typed : Inode → RegularFile → Inode
file_typed inode file = record inode {
  encoded_type = regular_type inode file;
  encoded_base_type = file_type;
}

-- The shorter structure is chosen only where its fields hold what there is, and nothing is lost.
regular_type-cases :
    (inode : Inode) (file : RegularFile)
    → ((regular_type inode file ≡ file_type)
        × (start_block file.blocks < 2 ^ 32)
        × (file.file_size < 2 ^ 32)
        × (file.sparse_size ≡ 0)
        × (inode.nlink ≡ 1)
        × (inode.attr.xattrset ≡ none))
      ⊎ (regular_type inode file ≡ lreg_type)
unfolding regular_type
regular_type-cases inode file = elim (Option-cases inode.attr.xattrset) [
  | inl e ↦ ground (arith, e)
  | inr (id, e) ↦ ground (arith, e)
]

append_infos-append :
    (mem : Memory) (tab : Metatable) (bs : List StoredBlock)
    → append_infos mem tab bs ≡ append mem tab (encode_fields (block_fields bs))
unfolding append_infos append
append_infos-append mem tab [] = unfold encode_fields in refl
append_infos-append mem tab (b ∷ bs) = refl

abbrev pub regular_fields : Inode → RegularFile → Fields
regular_fields inode file =
    let t = file_typed inode file in
    if regular_type inode file == file_type then reg_fields t file else lreg_fields t file

pub regular_fields-own :
    (inode : Inode) (file : RegularFile)
    → regular_fields inode file ≡ common_fields (file_typed inode file) ++ file_own inode file
regular_fields-own inode file = elim (Bool-cases (regular_type inode file == file_type)) [
  | inl e ↦ rw e refl
  | inr e ↦ rw e refl
]

-- The end of a call that returned true: the structure and the block sizes were appended.
pub regular_done :
    (mem : Memory) (tab : Metatable) (inode : Inode) (file : RegularFile)
    → (regular_serialize mem tab inode file).0 ≡ true
    → let (ok, mem', tab', stored) =
        store_header mem tab (file_typed inode file) (regular_fields inode file) in
      let infos = encode_fields (block_fields file.blocks) in
      (ok ≡ true)
      × ((append mem' tab' infos).0 ≡ true)
      × ((regular_serialize mem tab inode file).2 ≡ (append mem' tab' infos).2)
      × ((regular_serialize mem tab inode file).3 ≡ stored)
unfolding regular_serialize
regular_done mem tab inode file done =
    let r = store_header mem tab (file_typed inode file) (regular_fields inode file) in
    elim (Bool-cases r.0) [
      | inr failed ↦ absurd (ground (arith, rw failed at done))
      | inl ok ↦
          let infos = append_infos-append r.1 r.2 file.blocks in
          (ok, rw (← infos) (rw ok at done), rw (ok, infos) refl, rw ok refl)
    ]

pub file_own-Fit :
    (inode : Inode) (file : RegularFile)
    → IsSmall inode
    → XattrFits inode.attr.xattrset
    → FileFits file
    → Fit (file_own inode file)
      × (widths (file_own inode file) ≡ own_layout (regular_type inode file))
      × (regular_type inode file < 2 ^ 16)
file_own-Fit inode file s xs f =
    let xattr = xattr_field-fits inode.attr.xattrset xs in
    elim (regular_type-cases inode file) [
      | inl (e, start, size, _, _, _) ↦ rw e (
        (
          omega (arith, start),
          (omega (arith, f.index_fits), (omega (arith, f.offset_fits), (omega (arith, size), tt))),
        ),
        refl,
        omega arith,
      )
      | inr e ↦ rw e (
        (
          omega (arith, f.start_fits),
          (
            omega (arith, f.size_fits),
            (
              omega (arith, f.sparse_fits),
              (
                omega (arith, s.nlink_fits),
                (
                  omega (arith, f.index_fits),
                  (omega (arith, f.offset_fits), (omega (arith, xattr), tt)),
                ),
              ),
            ),
          ),
        ),
        refl,
        omega arith,
      )
    ]

pub file_typed-IsSmall :
    (inode : Inode) (file : RegularFile) → IsSmall inode → IsSmall (file_typed inode file)
file_typed-IsSmall inode file s = record {
  mode_fits = s.mode_fits;
  uid_fits = s.uid_fits;
  gid_fits = s.gid_fits;
  ctime_fits = s.ctime_fits;
  number_fits = s.number_fits;
  nlink_fits = s.nlink_fits;
}
