-- ===== src/Image/Visits.antt =====
-- What serializing inodes changes in an image (src/inodes.c): the inodes that it visits.
use libsqfs.Prelude.{
  ℕ, ◌+◌, ◌≤◌, ◌≡◌, ◌∙◌, refl, sym, subst, ap, true, false, Option, List, [], ◌∷◌, ◌==◌, ==_iff,
  Bool-cases, inl, inr, ◌⊎◌, All, arith,
}
use libsqfs.Directory.Entries.{DirEntry}
use libsqfs.Directory.Table.{Directory}
use libsqfs.Inode.Defs.{Inode}
use libsqfs.Bulkdata.Defs.{update}
use libsqfs.Image.Defs.{Image, Content}
use libsqfs.Image.Types.{HasType}

module _ {Disk C : Type 0} where
  -- Inode `j` has been serialized.
  abbrev pub IsDone : Image Disk C → ℕ → Type 0
  IsDone image j = HasType (image.base j)

  abbrev pub AllDone : Image Disk C → List DirEntry → Type 0
  AllDone image = All (λ (e : DirEntry). IsDone image e.inode)

  -- An image on the way, from that in which it began: what is not serialized is unchanged, and a directory is
  -- serialized after the inodes of its entries.
  pub record Underway (origin image : Image Disk C) : Type 0 where
    pub kept : (j : ℕ) → IsDone image j ⊎ (image.content j ≡ origin.content j)
    pub closed :
        (j : ℕ) (dir : Directory) (parent : Option ℕ)
        → IsDone image j
        → origin.content j ≡ Content.folder dir parent
        → AllDone image dir.entries

  -- How calls have changed an image: inodes of rank `bound` and above are as they were.
  pub record After (rank : ℕ → ℕ) (bound : ℕ) (origin image image' : Image Disk C) : Type 0 where
    pub underway : Underway origin image'
    pub more : (j : ℕ) → IsDone image j → IsDone image' j
    pub above :
        (j : ℕ)
        → bound ≤ rank j
        → (image'.base j ≡ image.base j) × (image'.content j ≡ image.content j)

  pub After-refl :
      (rank : ℕ → ℕ) (bound : ℕ) (origin image : Image Disk C)
      → Underway origin image
      → After rank bound origin image image
  After-refl rank bound origin image u = record {
    underway = u;
    more = λ j d. d;
    above = λ j h. (refl, refl);
  }

  pub After-trans :
      {rank : ℕ → ℕ} {m n bound : ℕ} {origin s t u : Image Disk C}
      → After rank m origin s t
      → After rank n origin t u
      → m ≤ bound
      → n ≤ bound
      → After rank bound origin s u
  After-trans a b p q = record {
    underway = b.underway;
    more = λ j d. b.more j (a.more j d);
    above = λ j h.
        let (base, content) = a.above j (omega arith) in
        let (base', content') = b.above j (omega arith) in (base' ∙ base, content' ∙ content);
  }

  all_more :
      (image image' : Image Disk C)
      → ((j : ℕ) → IsDone image j → IsDone image' j)
      → (es : List DirEntry) → AllDone image es
      → AllDone image' es
  all_more image image' more [] h = tt
  all_more image image' more (e ∷ es) (d, h) = (more e.inode d, all_more image image' more es h)

  -- Storing inode `i`.
  module _ (rank : ℕ → ℕ) (origin image image' : Image Disk C) (i : ℕ) (inode : Inode)
      (typed : HasType inode) (based : image'.base ≡ update image.base i inode)
      (others : (j : ℕ) → (i == j) ≡ false → image'.content j ≡ image.content j) where
    base_at : (j : ℕ) → image'.base j ≡ update image.base i inode j
    base_at j = ap (λ (f : ℕ → Inode). f j) based

    visited : IsDone image' i
    visited e =
        let same : (i == i) ≡ true = ground arith in
        typed (sym (ap (λ (n : Inode). n.encoded_type) (rw same at (base_at i))) ∙ e)

    at_other : (j : ℕ) → (i == j) ≡ false → image'.base j ≡ image.base j
    at_other j other = rw other at (base_at j)

    grows : (j : ℕ) → IsDone image j → IsDone image' j
    grows j d e = elim (Bool-cases (i == j)) [
      | inl same ↦
          let there : i ≡ j = (==_iff _ _).0 same in
          visited (subst (λ k. (image'.base k).encoded_type ≡ 0) (sym there) e)
      | inr other ↦ d (sym (ap (λ (n : Inode). n.encoded_type) (at_other j other)) ∙ e)
    ]

    pub visit :
        Underway origin image
        → ((dir : Directory) (parent : Option ℕ)
            → origin.content i ≡ Content.folder dir parent
            → AllDone image dir.entries)
        → After rank (rank i + 1) origin image image' × IsDone image' i
    visit u entries = (
      record {
        underway = record {
          kept = λ j. elim (Bool-cases (i == j)) [
            | inl same ↦
                let there : i ≡ j = (==_iff _ _).0 same in
                inl (λ e. visited (subst (λ k. (image'.base k).encoded_type ≡ 0) (sym there) e))
            | inr other ↦ elim (u.kept j) [
              | inl d ↦ inl (grows j d)
              | inr c ↦ inr (others j other ∙ c)
            ]
          ];
          closed = λ j dir parent d e. elim (Bool-cases (i == j)) [
            | inl same ↦
                let there : i ≡ j = (==_iff _ _).0 same in
                all_more image image' grows dir.entries
                  (entries dir parent (ap origin.content there ∙ e))
            | inr other ↦
                let before : IsDone image j =
                  λ z. d (ap (λ (n : Inode). n.encoded_type) (at_other j other) ∙ z) in
                all_more image image' grows dir.entries (u.closed j dir parent before e)
          ];
        };
        more = grows;
        above = λ j h. elim (Bool-cases (i == j)) [
          | inl same ↦
              let there : i ≡ j = (==_iff _ _).0 same in absurd (omega (arith, h, ap rank there))
          | inr other ↦ (at_other j other, others j other)
        ];
      },
      visited,
    )
