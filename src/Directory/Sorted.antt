-- ===== src/Directory/Sorted.antt =====
-- The order of names, and what insertion does to a directory's list (src/directory.c).
use libsqfs.Prelude.{
  ℕ, ◌≡◌, ◌↔◌, ◌⊎◌, inl, inr, refl, sym, ◌∙◌, true, false, some, List, [], ◌∷◌, if◌then◌else◌,
  Bool-cases, arith,
}
use libsqfs.Directory.Entries.{DirEntry, strcmp, is_greater, is_equal, insert_entry, lookup_entry}

strcmp_eq : (xs ys : List ℕ) → (is_equal (strcmp xs ys) ≡ true) ↔ (xs ≡ ys)
unfolding strcmp
strcmp_eq [] [] = ground arith
strcmp_eq [] (y ∷ ys) = ground arith
strcmp_eq (x ∷ xs) [] = ground arith
strcmp_eq (x ∷ xs) (y ∷ ys) = ground (arith, strcmp_eq xs ys)

strcmp_swap :
    (xs ys : List ℕ) → is_greater (strcmp xs ys) ≡ true → is_greater (strcmp ys xs) ≡ false
unfolding strcmp
strcmp_swap [] [] h = ground arith
strcmp_swap [] (y ∷ ys) h = ground arith
strcmp_swap (x ∷ xs) [] h = ground arith
strcmp_swap (x ∷ xs) (y ∷ ys) h = ground (arith, strcmp_swap xs ys)

-- Two names that are neither equal nor the first greater are in order.
strcmp_total :
    (xs ys : List ℕ)
    → is_greater (strcmp xs ys) ≡ false
    → (xs ≡ ys) ⊎ (is_greater (strcmp ys xs) ≡ true)
unfolding strcmp
strcmp_total [] [] h = inl refl
strcmp_total [] (y ∷ ys) h = inr refl
strcmp_total (x ∷ xs) [] h = ground arith
strcmp_total (x ∷ xs) (y ∷ ys) h = ground (arith, strcmp_total xs ys)

-- No name is greater than the one behind it.
abbrev pub IsSorted : List DirEntry → Type 0
IsSorted [] = Unit
IsSorted (e ∷ []) = Unit
IsSorted (e ∷ f ∷ es) = (is_greater (strcmp e.name f.name) ≡ false) × IsSorted (f ∷ es)

-- Insertion keeps the list sorted.
pub insert_entry-IsSorted :
    (entry : DirEntry) (es : List DirEntry) → IsSorted es → IsSorted (insert_entry entry es)
unfolding insert_entry
insert_entry-IsSorted entry [] s = tt
insert_entry-IsSorted entry (e ∷ []) s = ground (arith, strcmp_swap entry.name e.name)
insert_entry-IsSorted entry (e ∷ f ∷ es) s =
    ground (arith, strcmp_swap entry.name e.name, insert_entry-IsSorted entry (f ∷ es) s.1)

greater-ne :
    (xs ys zs : List ℕ)
    → is_greater (strcmp xs ys) ≡ true
    → is_equal (strcmp xs zs) ≡ true
    → is_equal (strcmp ys zs) ≡ false
greater-ne xs ys zs g e = elim (Bool-cases (is_equal (strcmp ys zs))) [
  | inr ne ↦ ne
  | inl e' ↦
      let same : xs ≡ ys = (strcmp_eq xs zs).0 e ∙ sym ((strcmp_eq ys zs).0 e') in
      let refl_eq : is_equal (strcmp ys ys) ≡ true = (strcmp_eq ys ys).1 refl in
      let greater : is_greater (strcmp ys ys) ≡ true = rw same at g in
      ground (arith, greater, refl_eq)
]

-- A lookup after an insertion finds the new inode under its name, and the old ones under the others.
pub lookup-insert :
    (entry : DirEntry) (es : List DirEntry) (name : List ℕ)
    → lookup_entry name (insert_entry entry es)
      ≡ (if is_equal (strcmp entry.name name) then some entry.inode else lookup_entry name es)
unfolding insert_entry lookup_entry
lookup-insert entry [] name = refl
lookup-insert entry (e ∷ es) name = ground (
  arith,
  lookup-insert entry es name,
  strcmp_eq entry.name name,
  strcmp_eq e.name name,
  greater-ne entry.name e.name name,
)
