-- ===== src/Image/Recursion.antt =====
-- The recursion of `libsqfs_inode_serialize` (src/inodes.c) over the entries of directories ends.
use libsqfs.Prelude.{
  ℕ, zero, suc, ◌+◌, ◌<◌, ◌≡◌, ◌≢◌, ◌∙◌, refl, sym, subst, ap, Bool, true, false, Option, some,
  List, [], ◌∷◌, ◌==◌, ==_iff, Bool-cases, inl, inr, All, arith,
}
use libsqfs.Memory.{Memory}
use libsqfs.Metatable.Defs.{Metatable}
use libsqfs.Directory.Entries.{DirEntry}
use libsqfs.Directory.Table.{Directory}
use libsqfs.Inode.Defs.{Inode}
use libsqfs.Bulkdata.Defs.{update}
use libsqfs.Inode.Folder.{directory_finish}
use libsqfs.Image.Defs.{Image, Content}
use libsqfs.Image.Serialize.{
  and_then, stored, stored_file, target_of, parent_number, finish_directory, finish_content,
  serialize_entries, serialize_content, inode_serialize,
}
use libsqfs.Image.Types.{
  HasType, symlink_serialize-type, device_serialize-type, fifo_serialize-type,
  regular_serialize-type, directory_finish-type,
}
use libsqfs.Image.Visits.{IsDone, AllDone, Underway, After, After-refl, After-trans, visit}

-- The entries of what is a directory.
abbrev pub entries_of : Content → List DirEntry
entries_of (Content.folder dir parent) = dir.entries
entries_of (Content.symlink name) = []
entries_of (Content.device d) = []
entries_of Content.fifo = []
entries_of (Content.regular size sparse blocks tail) = []

module _ {Disk C : Type 0} (next : Image Disk C → Option (Bool × Image Disk C)) where
  then_failed :
      {result : Option (Bool × Image Disk C)} (ok : Bool) (image : Image Disk C)
      → result ≡ some (ok, image)
      → ok ≡ false
      → and_then result next ≡ some (false, image)
  then_failed ok image e f = rw (e, f) refl

  then_next :
      {result : Option (Bool × Image Disk C)} (ok : Bool) (image : Image Disk C)
      → result ≡ some (ok, image)
      → ok ≡ true
      → and_then result next ≡ next image
  then_next ok image e f = rw (e, f) refl

module _ {Disk C : Type 0} (rank : ℕ → ℕ) (origin : Image Disk C) where
  -- A call that has a result; where that is success, `i` is serialized.
  abbrev Visited : Image Disk C → ℕ → Option (Bool × Image Disk C) → Type 0
  Visited image i result =
      (r : Bool × Image Disk C) × (result ≡ some r)
      × (r.0 ≡ true → After rank (rank i + 1) origin image r.1 × IsDone r.1 i)

  abbrev AllVisited : ℕ → Image Disk C → List DirEntry → Option (Bool × Image Disk C) → Type 0
  AllVisited bound image es result =
      (r : Bool × Image Disk C) × (result ≡ some r)
      × (r.0 ≡ true → After rank bound origin image r.1 × AllDone r.1 es)

  -- Every directory has a rank above those of its entries.
  abbrev pub IsRanked : Type 0
  IsRanked =
      (j : ℕ) (dir : Directory) (parent : Option ℕ)
      → origin.content j ≡ Content.folder dir parent
      → All (λ (e : DirEntry). rank e.inode < rank j) dir.entries

  entries-Visited :
      (serialize : Image Disk C → ℕ → Option (Bool × Image Disk C)) (bound : ℕ)
      (image : Image Disk C) (es : List DirEntry)
      → ((image : Image Disk C) (j : ℕ)
          → Underway origin image
          → rank j < bound
          → Visited image j (serialize image j))
      → Underway origin image
      → All (λ (e : DirEntry). rank e.inode < bound) es
      → AllVisited bound image es (serialize_entries serialize image es)
  unfolding serialize_entries
  entries-Visited serialize bound image [] call u h =
      ((true, image), refl, λ _. (After-refl rank bound origin image u, tt))
  entries-Visited serialize bound image (e ∷ es) call u (low, h) =
      let ((ok, image'), result, there) = call image e.inode u low in
      let next : Image Disk C → Option (Bool × Image Disk C) =
        λ t. serialize_entries serialize t es in
      elim (Bool-cases ok) [
        | inr failed ↦
            ((false, image'), then_failed next ok image' result failed, λ no. absurd (cc no))
        | inl fine ↦
            let (first, done) = there fine in
            let (r, result', rest) =
              entries-Visited serialize bound image' es call first.underway h in
            (
              r,
              then_next next ok image' result fine ∙ result',
              λ good.
                  let (after, all) = rest good in
                  (
                    After-trans first after (omega (arith, low)) (omega arith),
                    (after.more e.inode done, all),
                  ),
            )
      ]

  -- A leaf, or a directory behind its entries.
  stored-Visited :
      (image : Image Disk C) (i : ℕ) (inode : Inode) (ok : Bool) (image' : Image Disk C)
      → (ok ≡ true → HasType inode)
      → image'.base ≡ update image.base i inode
      → ((j : ℕ) → (i == j) ≡ false → image'.content j ≡ image.content j)
      → Underway origin image
      → (ok ≡ true
          → (dir : Directory) (parent : Option ℕ) → origin.content i ≡ Content.folder dir parent
          → AllDone image dir.entries)
      → Visited image i (some (ok, image'))
  stored-Visited image i inode ok image' typed based others u entries = (
    (ok, image'),
    refl,
    λ good. visit rank origin image image' i inode (typed good) based others u (entries good),
  )

  -- A leaf has no entries.
  leaf-Visited :
      (image : Image Disk C) (i : ℕ) (r : Bool × Memory × Metatable × Inode)
      → HasType r.3
      → Underway origin image
      → ((dir : Directory) (parent : Option ℕ) → origin.content i ≢ Content.folder dir parent)
      → Visited image i (some (stored image i r))
  leaf-Visited image i (ok, mem, tab, inode) typed u leaf =
      stored-Visited image i inode ok (stored image i (ok, mem, tab, inode)).1 (λ _. typed) refl
        (λ j other. refl) u (λ _ dir parent e. absurd (leaf dir parent e))

  -- A directory whose entries are serialized.
  directory-Visited :
      (image : Image Disk C) (i : ℕ) (dir : Directory) (parent : Option ℕ)
      → Underway origin image
      → origin.content i ≡ Content.folder dir parent
      → AllDone image dir.entries
      → Visited image i (some (finish_directory image i dir parent))
  unfolding finish_directory
  directory-Visited image i dir parent u here all =
      let result =
        directory_finish (target_of image) image.system.mem image.dir_table image.inode_table
          (image.base i) dir (parent_number image parent) in
      stored-Visited image i result.4 result.0 (finish_directory image i dir parent).1
        (directory_finish-type (target_of image) image.system.mem image.dir_table image.inode_table
          (image.base i) dir (parent_number image parent))
        refl (λ j other. rw other refl) u
        (λ _ dir' parent' e. subst (AllDone image) (ap entries_of (sym here ∙ e)) all)

  folder-Visited :
      (serialize : Image Disk C → ℕ → Option (Bool × Image Disk C)) (image : Image Disk C) (i : ℕ)
      (dir : Directory) (parent : Option ℕ)
      → ((image : Image Disk C) (j : ℕ)
          → Underway origin image
          → rank j < rank i
          → Visited image j (serialize image j))
      → IsRanked
      → Underway origin image
      → origin.content i ≡ Content.folder dir parent
      → image.content i ≡ Content.folder dir parent
      → Visited image i (serialize_content serialize image i (Content.folder dir parent))
  unfolding serialize_content
  folder-Visited serialize image i dir parent call ranked u first same =
      let next : Image Disk C → Option (Bool × Image Disk C) =
        λ t. some (finish_content t i (t.content i)) in
      let ((ok, image'), result, there) =
        entries-Visited serialize (rank i) image dir.entries call u (ranked i dir parent first) in
      elim (Bool-cases ok) [
        | inr failed ↦
            ((false, image'), then_failed next ok image' result failed, λ no. absurd (cc no))
        | inl fine ↦
            let (before, all) = there fine in
            let again : image'.content i ≡ Content.folder dir parent =
              (before.above i (omega arith)).1 ∙ same in
            let (r, stored_now, rest) =
              directory-Visited image' i dir parent before.underway first all in
            (
              r,
              then_next next ok image' result fine
                  ∙ (ap (λ c. some (finish_content image' i c)) again
                      ∙ (unfold finish_content in stored_now)),
              λ good.
                  let (after, done) = rest good in
                  (After-trans before after (omega arith) (omega arith), done),
            )
      ]

  content-Visited :
      (serialize : Image Disk C → ℕ → Option (Bool × Image Disk C)) (image : Image Disk C) (i : ℕ)
      (c : Content)
      → ((image : Image Disk C) (j : ℕ)
          → Underway origin image
          → rank j < rank i
          → Visited image j (serialize image j))
      → IsRanked
      → Underway origin image
      → origin.content i ≡ c
      → image.content i ≡ c
      → Visited image i (serialize_content serialize image i c)
  unfolding serialize_content
  content-Visited serialize image i (Content.folder dir parent) call ranked u first same =
      folder-Visited serialize image i dir parent call ranked u first same
  content-Visited serialize image i (Content.symlink name) call ranked u first same =
      leaf-Visited image i _
        (symlink_serialize-type image.system.mem image.inode_table (image.base i) name) u
        (λ dir parent e. cc (sym first ∙ e))
  content-Visited serialize image i (Content.device d) call ranked u first same =
      leaf-Visited image i _
        (device_serialize-type image.system.mem image.inode_table (image.base i) d) u
        (λ dir parent e. cc (sym first ∙ e))
  content-Visited serialize image i Content.fifo call ranked u first same =
      leaf-Visited image i _ (fifo_serialize-type image.system.mem image.inode_table (image.base i))
        u (λ dir parent e. cc (sym first ∙ e))
  content-Visited serialize image i (Content.regular size sparse blocks tail) call ranked u first
        same =
      leaf-Visited image i _
        (regular_serialize-type image.system.mem image.inode_table (image.base i)
          (stored_file image.system.bd size sparse blocks tail))
        u (λ dir parent e. cc (sym first ∙ e))

  pub inode-Visited :
      (fuel : ℕ) (image : Image Disk C) (i : ℕ)
      → IsRanked
      → Underway origin image
      → rank i < fuel
      → Visited image i (inode_serialize fuel image i)
  unfolding inode_serialize
  inode-Visited zero image i ranked u h = absurd (omega arith)
  inode-Visited (suc fuel) image i ranked u h =
      elim (Bool-cases ((image.base i).encoded_type == 0)) [
        | inr done ↦ rw done (
          (true, image),
          refl,
          λ _. (After-refl rank (rank i + 1) origin image u, λ e. absurd (ground (arith, done, e))),
        )
        | inl fresh ↦ elim (u.kept i) [
          | inl d ↦ absurd (d ((==_iff _ _).0 fresh))
          | inr same ↦ rw fresh (
              content-Visited (inode_serialize fuel) image i (image.content i)
                (λ t j v low. inode-Visited fuel t j ranked v (omega (arith, h, low))) ranked u
                (sym same) refl)
        ]
      ]
