-- ===== src/IdTable/Mapping.antt =====
-- What `libsqfs_idtable_map` (src/idtable.c) promises.
use libsqfs.Prelude.{
  ℕ, zero, suc, ◌+◌, ◌<◌, ◌≡◌, inl, inr, refl, sym, ap, ◌∙◌, true, false, none, some, List, [], ◌∷◌,
  ◌++◌, length, length-append, get_elem?, ◌==◌, ==_iff, Bool-cases, Option-cases, append-nil, arith,
}
use libsqfs.Memory.{Memory, malloc}
use libsqfs.IdTable.Defs.{IdTable, index_of, add_id, idtable_map}

pub index_of-same : (n id x : ℕ) (xs : List ℕ) → (x == id) ≡ true → index_of n id (x ∷ xs) ≡ some n
unfolding index_of
index_of-same n id x xs e = rw e refl

pub index_of-other :
    (n id x : ℕ) (xs : List ℕ) → (x == id) ≡ false → index_of n id (x ∷ xs) ≡ index_of (n + 1) id xs
unfolding index_of
index_of-other n id x xs e = rw e refl

pub index_of-nil : (n id : ℕ) → index_of n id [] ≡ none
unfolding index_of
index_of-nil n id = refl

-- What is found is the id, at a number counted from `n`.
index_of-found :
    (n id m : ℕ) (ids : List ℕ)
    → index_of n id ids ≡ some m
    → (k : ℕ) × (m ≡ n + k) × (get_elem? ids k ≡ some id)
index_of-found n id m [] h = absurd (ground (arith, h, index_of-nil n id))
index_of-found n id m (x ∷ xs) h = elim (Bool-cases (x == id)) [
  | inl e ↦
      let here : m ≡ n = ground (arith, h, index_of-same n id x xs e) in
      (0, omega (arith, here), ap some ((==_iff x id).0 e))
  | inr e ↦
      let (k, at, there) = index_of-found (n + 1) id m xs (sym (index_of-other n id x xs e) ∙ h) in
      (suc k, omega (arith, at), there)
]

-- An id not found before is found where it was added.
index_of-added :
    (n id : ℕ) (ids : List ℕ)
    → index_of n id ids ≡ none
    → index_of n id (ids ++ (id ∷ [])) ≡ some (n + length ids)
unfolding index_of
index_of-added n id [] h = ground (arith, ==_iff id id)
index_of-added n id (x ∷ xs) h = ground (arith, index_of-added (n + 1) id xs)

-- Numbers are those of the array.
abbrev pub IsValid : IdTable → Type 0
IsValid tab = tab.nids ≡ length tab.ids

-- How a call ends: with the number of an id that was there, with a new one, or without storage.
pub data Outcome (mem : Memory) (tab : IdTable) (id : ℕ) : Type 0 where
  found :
      (n : ℕ)
      → index_of 0 id tab.ids ≡ some n
      → idtable_map mem tab id ≡ (some n, mem, tab)
      → Outcome mem tab id
  added :
      index_of 0 id tab.ids ≡ none
      → idtable_map mem tab id ≡ (
        some tab.nids,
        (malloc mem).1,
        record tab { ids = tab.ids ++ (id ∷ []); nids = tab.nids + 1 },
      )
      → Outcome mem tab id
  refused :
      mem.grant mem.calls ≡ false
      → idtable_map mem tab id ≡ (none, (malloc mem).1, tab)
      → Outcome mem tab id

pub outcome : (mem : Memory) (tab : IdTable) (id : ℕ) → Outcome mem tab id
unfolding idtable_map add_id
outcome mem tab id = elim (Option-cases (index_of 0 id tab.ids)) [
  | inr (n, e) ↦ Outcome.found n e (ground arith)
  | inl e ↦ elim (Bool-cases (mem.grant mem.calls)) [
    | inl got ↦ Outcome.added e (ground arith)
    | inr no_storage ↦ Outcome.refused no_storage (ground arith)
  ]
]

get_elem?-end : (xs : List ℕ) (x : ℕ) → get_elem? (xs ++ (x ∷ [])) (length xs) ≡ some x
get_elem?-end [] x = refl
get_elem?-end (y ∷ xs) x = get_elem?-end xs x

pub get_elem?-lt : (xs : List ℕ) (i x : ℕ) → get_elem? xs i ≡ some x → i < length xs
get_elem?-lt [] i x h = ground (arith, h)
get_elem?-lt (y ∷ xs) zero x h = omega arith
get_elem?-lt (y ∷ xs) (suc i) x h = omega (arith, get_elem?-lt xs i x h)

-- On success the number is that of the id in the table, and the table has grown at its end at most.
pub map-found :
    (mem : Memory) (tab : IdTable) (id n : ℕ)
    → IsValid tab
    → let (number, _, tab') = idtable_map mem tab id in
      number ≡ some n
      → IsValid tab'
        × (get_elem? tab'.ids n ≡ some id)
        × ((more : List ℕ) × (tab'.ids ≡ tab.ids ++ more))
        × (index_of 0 id tab'.ids ≡ some n)
map-found mem tab id n v h = elim (outcome mem tab id) [
  | Outcome.refused _ e ↦ absurd (ground (arith, h, e))
  | Outcome.found m i e ↦
      let same : n ≡ m = ground (arith, h, e) in
      let (k, at, there) = index_of-found 0 id m tab.ids i in
      let same' : n ≡ k = omega (arith, same, at) in
      rw e (v, rw same' there, ([], sym (append-nil tab.ids)), rw same i)
  | Outcome.added i e ↦
      let same : n ≡ length tab.ids = ground (arith, h, e, v) in
      rw (e, same)
        (
          omega (arith, v, length-append tab.ids (id ∷ [])),
          get_elem?-end tab.ids id,
          (id ∷ [], refl),
          index_of-added 0 id tab.ids i ∙ ap some (omega arith),
        )
]
