-- ===== src/Inode/Attr.antt =====
-- The attributes of inodes (`libsqfs_inodeattr_create_simple` and `_extended`, src/inodes.c).
use libsqfs.Prelude.{
  ℕ, ◌-◌, ◌%◌, ◌^◌, ◌≤◌, ◌<◌, ◌≡◌, refl, Option, none, some, length, get_elem?, if◌then◌else◌,
  arith,
}
use libsqfs.Memory.{Memory, malloc, IsPlentiful}
use libsqfs.IdTable.Defs.{IdTable, idtable_map}
use libsqfs.IdTable.Mapping.{IsValid, Outcome, outcome, map-found, get_elem?-lt}
use libsqfs.IdTable.Stable.{Reaches, map-stable}
use libsqfs.Inode.Defs.{InodeAttr}

-- The result of the mapping in `uint16_t`; -1 becomes 65535.
abbrev stored_id : Option ℕ → ℕ
stored_id none = 2 ^ 16 - 1
stored_id (some n) = n % 2 ^ 16

-- The mapped ids are compared with -1 as values of 16 bits, which they never are, so there is no way out
-- behind the mapping. SQUASHFS_MODE keeps 12 bits of the mode.
unfoldable pub inodeattr_create_simple :
    Memory → IdTable → (uid gid mode ctime : ℕ) → Option InodeAttr × Memory × IdTable
unfolding idtable_map
inodeattr_create_simple mem tab uid gid mode ctime =
    let (got, mem') = malloc mem in
    let (u, mem_u, tab_u) = idtable_map mem' tab uid in
    let (g, mem_g, tab_g) = idtable_map mem_u tab_u gid in
    let attr : InodeAttr = record {
      uid = uid;
      gid = gid;
      mode = mode % 2 ^ 12;
      ctime = ctime;
      mapped_uid = stored_id u;
      mapped_gid = stored_id g;
      xattrset = none;
    } in
    if got then (some attr, mem_g, tab_g) else (none, mem', tab)

unfoldable inodeattr_create_extended :
    Memory → IdTable → (uid gid mode ctime : ℕ) → Option ℕ → Option InodeAttr × Memory × IdTable
unfolding inodeattr_create_simple
inodeattr_create_extended mem tab uid gid mode ctime xattrset =
    let (created, mem', tab') = inodeattr_create_simple mem tab uid gid mode ctime in
    elim created [
      | none ↦ (none, mem', tab')
      | some attr ↦ (some (record attr { xattrset = xattrset }), mem', tab')
    ]

-- With storage a call returns a number.
map-IsPlentiful :
    (mem : Memory) (tab : IdTable) (id : ℕ)
    → IsPlentiful mem
    → ((n : ℕ) × ((idtable_map mem tab id).0 ≡ some n)) × IsPlentiful (idtable_map mem tab id).1
map-IsPlentiful mem tab id plenty = elim (outcome mem tab id) [
  | Outcome.refused no_storage _ ↦ absurd (ground (arith, no_storage, plenty mem.calls))
  | Outcome.found n _ e ↦ ((n, rw e refl), rw e plenty)
  | Outcome.added _ e ↦ ((tab.nids, rw e refl), rw e plenty)
]

-- Where no allocation fails and the table has at most 65536 ids afterwards, the attributes are created, and
-- their mapped ids stand for the user and the group in the table.
pub inodeattr_create_simple-maps :
    (mem : Memory) (tab : IdTable) (uid gid mode ctime : ℕ)
    → IsPlentiful mem
    → IsValid tab
    → let (created, _, tab') = inodeattr_create_simple mem tab uid gid mode ctime in
      length tab'.ids ≤ 2 ^ 16
      → (attr : InodeAttr) × (created ≡ some attr)
        × (get_elem? tab'.ids attr.mapped_uid ≡ some uid)
        × (get_elem? tab'.ids attr.mapped_gid ≡ some gid)
        × (attr.mode < 2 ^ 12)
unfolding inodeattr_create_simple
inodeattr_create_simple-maps mem tab uid gid mode ctime plenty v small =
    let got = plenty mem.calls in
    let mem' = (malloc mem).1 in
    let ((n, mapped), plenty') = map-IsPlentiful mem' tab uid plenty in
    let mem_u = (idtable_map mem' tab uid).1 in
    let tab_u = (idtable_map mem' tab uid).2 in
    let ((m, mapped'), _) = map-IsPlentiful mem_u tab_u gid plenty' in
    let tab_g = (idtable_map mem_u tab_u gid).2 in
    let (v', _, _, _) = map-found mem' tab uid n v mapped in
    let (_, there', _, _) = map-found mem_u tab_u gid m v' mapped' in
    let (there, _) =
      map-stable mem' mem tab tab_g uid n v mapped (Reaches.call mem_u gid Reaches.here) in
    let few : length tab_g.ids ≤ 2 ^ 16 = rw got at small in
    let first : n % 2 ^ 16 ≡ n = omega (arith, few, get_elem?-lt tab_g.ids n uid there) in
    let second : m % 2 ^ 16 ≡ m = omega (arith, few, get_elem?-lt tab_g.ids m gid there') in
    rw (got, mapped, mapped') (_, refl, rw first there, rw second there', omega arith)
