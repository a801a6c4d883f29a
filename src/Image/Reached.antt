-- ===== src/Image/Reached.antt =====
-- `libsqfs_inode_serialize` (src/inodes.c) ends, and serializes all that a directory leads to.
use libsqfs.Prelude.{
  ℕ, zero, suc, ◌<◌, ◌≡◌, ◌≢◌, refl, subst, Bool, true, Option, some, List, [], ◌∷◌, inr, get_elem?,
}
use libsqfs.Directory.Entries.{DirEntry}
use libsqfs.Directory.Table.{Directory}
use libsqfs.Image.Defs.{Image, Content}
use libsqfs.Image.Serialize.{inode_serialize}
use libsqfs.Image.Visits.{IsDone, AllDone, Underway}
use libsqfs.Image.Recursion.{IsRanked, inode-Visited}

-- Inode `j` is where a path of entries leads from inode `i`.
pub data Leads {Disk C : Type 0} (image : Image Disk C) (i : ℕ) : ℕ → Type 0 where
  itself : Leads image i i
  through :
      {j : ℕ} (dir : Directory) (parent : Option ℕ) (n : ℕ) (e : DirEntry)
      → Leads image i j
      → image.content j ≡ Content.folder dir parent
      → get_elem? dir.entries n ≡ some e
      → Leads image i e.inode

all_get :
    {Disk C : Type 0} (image : Image Disk C) (es : List DirEntry) (n : ℕ) (e : DirEntry)
    → AllDone image es
    → get_elem? es n ≡ some e
    → IsDone image e.inode
all_get image [] n e h there = cc there
all_get image (x ∷ es) zero e (d, h) there =
    let same : x ≡ e = cc there in subst (λ (t : DirEntry). IsDone image t.inode) same d
all_get image (x ∷ es) (suc n) e (d, h) there = all_get image es n e h there

Leads-IsDone :
    {Disk C : Type 0} (origin image : Image Disk C) (i : ℕ) {j : ℕ}
    → Underway origin image
    → IsDone image i
    → Leads origin i j
    → IsDone image j
Leads-IsDone origin image i u d Leads.itself = d
Leads-IsDone origin image i u d (Leads.through {j} dir parent n e path here there) =
    all_get image dir.entries n e
      (u.closed j dir parent (Leads-IsDone origin image i u d path) here) there

-- Where no directory leads to itself, which the ranks say, and no inode has been serialized: the
-- recursion over the entries ends, with fuel above the rank of the inode it begins with. If it ends with
-- success, then it has serialized every inode that paths of entries lead to from there.
pub inode_serialize-reaches :
    {Disk C : Type 0} (rank : ℕ → ℕ) (image : Image Disk C) (fuel i : ℕ)
    → IsRanked rank image
    → ((j : ℕ) → (image.base j).encoded_type ≡ 0)
    → rank i < fuel
    → (r : Bool × Image Disk C) × (inode_serialize fuel image i ≡ some r)
      × (r.0 ≡ true → (j : ℕ) → Leads image i j → (r.1.base j).encoded_type ≢ 0)
inode_serialize-reaches rank image fuel i ranked fresh enough =
    let start : Underway image image = record {
      kept = λ j. inr refl;
      closed = λ j dir parent d e. absurd (d (fresh j));
    } in
    let (r, result, there) = inode-Visited rank image fuel image i ranked start enough in
    (
      r,
      result,
      λ good j path.
          let (after, done) = there good in Leads-IsDone image r.1 i after.underway done path,
    )
