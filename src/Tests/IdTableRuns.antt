-- ===== src/Tests/IdTableRuns.antt =====
-- An id table with two ids (src/idtable.c).
use libsqfs.Prelude.{
  ℕ, ◌+◌, ◌*◌, ◌≡◌, ◌↔◌, refl, none, some, [], ◌∷◌, get_elem?, length, take, drop, arith,
}
use libsqfs.Prelude.Bytes.{read_le, le_bytes}
use libsqfs.Memory.{unlimited}
use libsqfs.Metatable.Defs as Metatable
use libsqfs.Metatable.Defs.{append, flush, position}
use libsqfs.Metatable.Invariant.{stored_size}
use libsqfs.Metatable.OnDisk.{encode}
use libsqfs.Metatable.Reader.{resolve}
use libsqfs.IdTable.Defs.{IdTable, idtable_map, id_bytes, idtable_write}
use libsqfs.IdTable.Stable.{Reaches, map-stable, map-injective}
use libsqfs.IdTable.Stored.{idtable_write-reads}
use libsqfs.Tests.Storage.{storage, read, blank, storage-IsFile}
use libsqfs.Tests.MetatableRuns.{no_codec, runs, starved}

-- Root, and the first user.
abbrev two_ids : IdTable
two_ids = record { ids = 0 ∷ 1000 ∷ []; nids = 2; offset = 0 }

abbrev three_ids : IdTable
three_ids = (idtable_map unlimited two_ids 33).2

-- A call for another id, without storage, changes nothing.
later : Reaches three_ids (idtable_map starved three_ids 44).2
later = Reaches.call starved 44 Reaches.here

mapped : (idtable_map unlimited two_ids 33).0 ≡ some 2
unfolding idtable_map
mapped = refl

map-stable_example :
    let t = (idtable_map starved three_ids 44).2 in
    (get_elem? t.ids 2 ≡ some 33) × (idtable_map starved t 33 ≡ (some 2, starved, t))
map-stable_example =
    map-stable unlimited starved two_ids (idtable_map starved three_ids 44).2 33 2 refl mapped later

found : (idtable_map starved (idtable_map starved three_ids 44).2 1000).0 ≡ some 1
unfolding idtable_map
found = refl

map-injective_example : let two : ℕ = 2 in let id : ℕ = 33 in (two ≡ 1) ↔ (id ≡ 1000)
map-injective_example =
    map-injective unlimited starved two_ids (idtable_map starved three_ids 44).2 33 1000 2 1 refl
      mapped later found

idtable_write-reads_example :
    let (done, _, tab', out') = idtable_write storage unlimited two_ids blank in
    let blocks = (flush (append unlimited (Metatable.init none) (id_bytes two_ids.ids)).2).blocks in
    let size = length (encode blocks) in
    (tab'.offset ≡ 96 + size)
    × (read_le 4 (
          drop (4 * 1) (resolve no_codec (read out'.disk 96 size) (position (Metatable.init none))))
        ≡ 1000)
    × (read_le 8 (drop (8 * 0) (read out'.disk tab'.offset (8 * length blocks)))
        ≡ 96 + stored_size (take 0 blocks))
unfolding runs idtable_write storage le_bytes
idtable_write-reads_example =
    idtable_write-reads storage read storage-IsFile unlimited two_ids blank 1 1000 0 no_codec
      (omega arith, (omega arith, tt)) refl (omega arith) (omega arith) refl (omega arith)
