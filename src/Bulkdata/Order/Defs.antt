-- ===== src/Bulkdata/Order/Defs.antt =====
-- Where the chunks of a `libsqfs_bulkdata` (src/bulkdata.c) stand while nothing has been aborted.
use libsqfs.Prelude.{
  ℕ, ◌+◌, ◌≤◌, ◌<◌, ◌≡◌, Bool, true, false, Option, none, some, List, [], ◌∷◌, ◌==◌, ltb,
  if◌then◌else◌, arith, refl, Bool-cases, inl, inr, ◌++◌, ◌⊎◌,
}
use libsqfs.Bulkdata.Defs.{ChunkState, Kind, Bulkdata, is_finished}
use libsqfs.Bulkdata.Work.{waits_for}
use libsqfs.Bulkdata.System.{System, remove}
use libsqfs.Bulkdata.Run.{bit, occ}

-- How often a chunk in a given state stands in the queue for that state, or is being worked on from there.
abbrev unread_slot : Bool → ChunkState → ℕ
unread_slot known ChunkState.unread = bit known
unread_slot known ChunkState.was_read = 0
unread_slot known ChunkState.deduplicated = 0
unread_slot known ChunkState.assigned = 0
unread_slot known ChunkState.writable = 0
unread_slot known ChunkState.finished = 0

abbrev pub read_slot : ChunkState → ℕ
read_slot ChunkState.unread = 0
read_slot ChunkState.was_read = 1
read_slot ChunkState.deduplicated = 0
read_slot ChunkState.assigned = 0
read_slot ChunkState.writable = 0
read_slot ChunkState.finished = 0

-- A piece waits outside until the piece before it is assigned.
abbrev pub dedup_slot : Bool → ChunkState → ℕ
dedup_slot blocked ChunkState.unread = 0
dedup_slot blocked ChunkState.was_read = 0
dedup_slot blocked ChunkState.deduplicated = if blocked then 0 else 1
dedup_slot blocked ChunkState.assigned = 0
dedup_slot blocked ChunkState.writable = 0
dedup_slot blocked ChunkState.finished = 0

abbrev assigned_slot : ChunkState → ℕ
assigned_slot ChunkState.unread = 0
assigned_slot ChunkState.was_read = 0
assigned_slot ChunkState.deduplicated = 0
assigned_slot ChunkState.assigned = 1
assigned_slot ChunkState.writable = 0
assigned_slot ChunkState.finished = 0

-- A chunk waits outside until it is next.
abbrev pub writable_slot : Bool → ChunkState → ℕ
writable_slot is_next ChunkState.unread = 0
writable_slot is_next ChunkState.was_read = 0
writable_slot is_next ChunkState.deduplicated = 0
writable_slot is_next ChunkState.assigned = 0
writable_slot is_next ChunkState.writable = bit is_next
writable_slot is_next ChunkState.finished = 0

-- The chain of pieces. Only fragment pieces have a next one.
pub record IsLinked (kind : ℕ → Kind) (prev_piece next_piece : ℕ → Option ℕ) (last_piece : Option ℕ)
    (count : ℕ) (may_add_chunks : Bool) : Type 0 where
  pub forth : (j p : ℕ) → prev_piece j ≡ some p → (next_piece p ≡ some j) × (p < j) × (j < count)
  pub back : (p n : ℕ) → next_piece p ≡ some n → (prev_piece n ≡ some p) × (n < count)
  pub at_end : (p : ℕ) → last_piece ≡ some p → (next_piece p ≡ none) × (p < count)
  pub alone : (j : ℕ) → kind j ≡ Kind.full_block → prev_piece j ≡ none
  pub inner : (p n : ℕ) → next_piece p ≡ some n → kind p ≡ Kind.fragment_piece
  pub open_end :
      may_add_chunks ≡ true → (p : ℕ) → last_piece ≡ some p → kind p ≡ Kind.fragment_piece

abbrev pub Linked : Bulkdata → Type 0
Linked bd = IsLinked bd.kind bd.prev_piece bd.next_piece bd.last_piece bd.count bd.may_add_chunks

-- Each chunk stands where its state says, once. The finished chunks are the first ones.
pub record Ordered (readq reading dedupq assignq compressq compressing writeq writing : List ℕ)
    (state : ℕ → ChunkState) (prev_piece : ℕ → Option ℕ) (count finished : ℕ) : Type 0 where
  pub in_read : (j : ℕ) → occ j readq + occ j reading ≡ unread_slot (ltb j count) (state j)
  pub in_dedup : (j : ℕ) → occ j dedupq ≡ read_slot (state j)
  pub in_assign : (j : ℕ) → occ j assignq ≡ dedup_slot (waits_for state (prev_piece j)) (state j)
  pub in_compress : (j : ℕ) → occ j compressq + occ j compressing ≡ assigned_slot (state j)
  pub in_write : (j : ℕ) → occ j writeq + occ j writing ≡ writable_slot (j == finished) (state j)
  pub done : (j : ℕ) → is_finished (state j) ≡ ltb j finished
  pub unseen : (j : ℕ) → count ≤ j → state j ≡ ChunkState.unread

abbrev pub OrderedBd : Bulkdata → List ℕ → List ℕ → List ℕ → Type 0
OrderedBd bd reading compressing writing =
    Ordered bd.readq reading bd.dedupq bd.assignq bd.compressq compressing bd.writeq writing
      bd.state bd.prev_piece bd.count bd.finished

abbrev pub IsOrdered : {Disk : Type 0} → System Disk → Type 0
IsOrdered s = OrderedBd s.bd s.reading s.compressing s.writing

pub occ-append : (j : ℕ) (xs ys : List ℕ) → occ j (xs ++ ys) ≡ occ j xs + occ j ys
occ-append j [] ys = omega arith
occ-append j (x ∷ xs) ys = omega (arith, occ-append j xs ys)

-- Taking out one of the occurrences.
pub occ-remove :
    (i j : ℕ) (xs : List ℕ) → 0 < occ i xs → occ j xs ≡ bit (i == j) + occ j (remove i xs)
unfolding remove
occ-remove i j [] h = absurd (omega arith)
occ-remove i j (x ∷ xs) h = elim (Bool-cases (x == i)) [
  | inl same ↦ rw same (ground (arith, same))
  | inr other ↦ rw other (ground (arith, occ-remove i j xs (ground (arith, h, other))))
]

pub unread_slot-one : (k : Bool) (st : ChunkState) → 0 < unread_slot k st → st ≡ ChunkState.unread
unread_slot-one k st h = ground arith

pub read_slot-one : (st : ChunkState) → 0 < read_slot st → st ≡ ChunkState.was_read
read_slot-one st h = ground arith

pub dedup_slot-one :
    (b : Bool) (st : ChunkState)
    → 0 < dedup_slot b st
    → (st ≡ ChunkState.deduplicated) × (b ≡ false)
dedup_slot-one b st h = ground arith

pub assigned_slot-one : (st : ChunkState) → 0 < assigned_slot st → st ≡ ChunkState.assigned
assigned_slot-one st h = ground arith

pub writable_slot-one :
    (b : Bool) (st : ChunkState) → 0 < writable_slot b st → (st ≡ ChunkState.writable) × (b ≡ true)
writable_slot-one b st h = ground arith

pub Kind-cases :
    (k : Kind) → (k ≡ Kind.full_block) ⊎ ((k ≡ Kind.fragment_piece) ⊎ (k ≡ Kind.closing_piece))
Kind-cases Kind.full_block = inl refl
Kind-cases Kind.fragment_piece = inr (inl refl)
Kind-cases Kind.closing_piece = inr (inr refl)
