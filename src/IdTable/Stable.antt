-- ===== src/IdTable/Stable.antt =====
-- Numbers that `libsqfs_idtable_map` (src/idtable.c) has given stay what they are, over any later calls.
use libsqfs.Prelude.{
  ℕ, ◌+◌, ◌≡◌, ◌↔◌, inl, inr, refl, sym, ap, ◌∙◌, some, List, [], ◌∷◌, ◌++◌, get_elem?,
  get_elem?-append_left, ◌==◌, Bool-cases, append-nil, append_assoc, arith,
}
use libsqfs.Memory.{Memory}
use libsqfs.IdTable.Defs.{IdTable, index_of, idtable_map}
use libsqfs.IdTable.Mapping.{
  IsValid, Outcome, outcome, map-found, index_of-same, index_of-other, index_of-nil, get_elem?-lt,
}

-- `tab'` is what calls for any ids make of `tab`, whether or not they get storage.
pub data Reaches (tab : IdTable) : IdTable → Type 0 where
  here : Reaches tab tab
  call :
      {t : IdTable} (mem : Memory) (id : ℕ) → Reaches tab t → Reaches tab (idtable_map mem t id).2

-- One call, whatever its outcome.
map-IsValid :
    (mem : Memory) (tab : IdTable) (id : ℕ)
    → IsValid tab
    → IsValid (idtable_map mem tab id).2
      × ((more : List ℕ) × ((idtable_map mem tab id).2.ids ≡ tab.ids ++ more))
map-IsValid mem tab id v = elim (outcome mem tab id) [
  | Outcome.refused _ e ↦ rw e (v, ([], sym (append-nil tab.ids)))
  | Outcome.found m i e ↦ rw e (v, ([], sym (append-nil tab.ids)))
  | Outcome.added i e ↦
      let done : (idtable_map mem tab id).0 ≡ some tab.nids = rw e refl in
      let (v', _, more, _) = map-found mem tab id tab.nids v done in (v', more)
]

Reaches-IsValid :
    {tab t : IdTable}
    → IsValid tab
    → Reaches tab t
    → IsValid t × ((more : List ℕ) × (t.ids ≡ tab.ids ++ more))
Reaches-IsValid {tab} v Reaches.here = (v, ([], sym (append-nil tab.ids)))
Reaches-IsValid {tab} v (Reaches.call {t} mem id r) =
    let (v', (more, e)) = Reaches-IsValid v r in
    let (v'', (later, e')) = map-IsValid mem t id v' in
    (v'', (more ++ later, cc (e, e', append_assoc tab.ids more later)))

index_of-append :
    (n id m : ℕ) (xs ys : List ℕ) → index_of n id xs ≡ some m → index_of n id (xs ++ ys) ≡ some m
index_of-append n id m [] ys h = absurd (ground (arith, h, index_of-nil n id))
index_of-append n id m (x ∷ xs) ys h = elim (Bool-cases (x == id)) [
  | inl e ↦ index_of-same n id x (xs ++ ys) e ∙ (sym (index_of-same n id x xs e) ∙ h)
  | inr e ↦
      index_of-other n id x (xs ++ ys) e
      ∙ index_of-append (n + 1) id m xs ys (sym (index_of-other n id x xs e) ∙ h)
]

get_elem?-append :
    (xs ys : List ℕ) (i x : ℕ) → get_elem? xs i ≡ some x → get_elem? (xs ++ ys) i ≡ some x
get_elem?-append xs ys i x h = get_elem?-append_left xs ys i (get_elem?-lt xs i x h) ∙ h

map-again :
    (mem : Memory) (tab : IdTable) (id n : ℕ)
    → index_of 0 id tab.ids ≡ some n
    → idtable_map mem tab id ≡ (some n, mem, tab)
unfolding idtable_map
map-again mem tab id n h = rw (h, idtable_map) refl

-- The number that a call gave for `id` stands for `id` in the table after any later calls, and is what
-- a call for `id` then returns, without storage.
pub map-stable :
    (mem mem' : Memory) (tab t : IdTable) (id n : ℕ)
    → IsValid tab
    → let (number, _, tab') = idtable_map mem tab id in
      number ≡ some n
      → Reaches tab' t
      → (get_elem? t.ids n ≡ some id) × (idtable_map mem' t id ≡ (some n, mem', t))
map-stable mem mem' tab t id n v done r =
    let (v', there, _, found) = map-found mem tab id n v done in
    let (_, (more, grown)) = Reaches-IsValid v' r in
    let ids = (idtable_map mem tab id).2.ids in
    (
      rw grown (get_elem?-append ids more n id there),
      map-again mem' t id n (rw grown (index_of-append 0 id n ids more found)),
    )

-- Two calls, any others between them, return the same number exactly when the ids are the same.
pub map-injective :
    (mem mem' : Memory) (tab t : IdTable) (id id' n n' : ℕ)
    → IsValid tab
    → let (number, _, tab') = idtable_map mem tab id in
      let (number', _, _) = idtable_map mem' t id' in
      number ≡ some n → Reaches tab' t → number' ≡ some n' → (n ≡ n') ↔ (id ≡ id')
map-injective mem mem' tab t id id' n n' v done r done' =
    let (v', _, _, _) = map-found mem tab id n v done in
    let (vt, _) = Reaches-IsValid v' r in
    let (there, again) = map-stable mem mem' tab t id n v done r in
    let (_, there', (more, grown), _) = map-found mem' t id' n' vt done' in
    let kept = get_elem?-append t.ids more n id there in
    let t' = (idtable_map mem' t id').2 in
    (
      λ e.
          let both : get_elem? t'.ids n ≡ some id = rw grown kept in
          ground (arith, both, there', e),
      λ e. ground (arith, done', ap (λ i. (idtable_map mem' t i).0) e, again),
    )
