-- ===== src/IdTable/Defs.antt =====
-- The id table: ids get small numbers in the order of their first use (src/internal.h, src/idtable.c).
use libsqfs.Prelude.{
  ℕ, ◌+◌, ◌-◌, Bool, false, Option, none, some, List, [], ◌∷◌, ◌++◌, ◌==◌, if◌then◌else◌,
}
use libsqfs.Prelude.Words.{words}
use libsqfs.Memory.{Memory, malloc}
use libsqfs.Output.{Destination, Output, off_mod}
use libsqfs.Metatable.Defs as Metatable
use libsqfs.Metatable.Defs.{append}
use libsqfs.Metatable.Write.{write_with_index}

pub record IdTable : Type 0 where
  pub ids : List ℕ
  pub nids : ℕ
  pub offset : ℕ

unfoldable pub init : IdTable
init = record { ids = []; nids = 0; offset = off_mod - 1 }

-- The search of `libsqfs_idtable_map`, from the number `n` on.
unfoldable pub index_of : (n id : ℕ) → List ℕ → Option ℕ
index_of n id [] = none
index_of n id (x ∷ xs) = let rest = index_of (n + 1) id xs in if x == id then some n else rest

-- An id that is new goes to the end.
unfoldable pub add_id : Memory → IdTable → ℕ → Option ℕ × Memory × IdTable
add_id mem tab id =
    let (got, mem') = malloc mem in
    if got
    then (some tab.nids, mem', record tab { ids = tab.ids ++ (id ∷ []); nids = tab.nids + 1 })
    else (none, mem', tab)

-- libsqfs_idtable_map; `none` is -1.
unfoldable pub idtable_map : Memory → IdTable → ℕ → Option ℕ × Memory × IdTable
unfolding index_of add_id
idtable_map mem tab id = elim (index_of 0 id tab.ids) [
  | some n ↦ (some n, mem, tab)
  | none ↦ add_id mem tab id
]

-- The array that is written.
abbrev pub id_bytes : List ℕ → List ℕ
id_bytes = words 4

unfoldable pub idtable_write :
    {Disk : Type 0}
    → Destination Disk
    → Memory
    → IdTable
    → Output Disk
    → Bool × Memory × IdTable × Output Disk
unfolding append write_with_index words
idtable_write dst mem tab out =
    let (ok, mem', stored) = append mem (Metatable.init none) (id_bytes tab.ids) in
    let (written, indexed, out') = write_with_index dst stored out in
    if ok
    then (written, mem', record tab { offset = indexed.offset }, out')
    else (false, mem', record tab { offset = stored.offset }, out)
