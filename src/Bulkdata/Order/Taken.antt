-- ===== src/Bulkdata/Order/Taken.antt =====
-- What `libsqfs_bulkdata_process_single_locked` (src/bulkdata.c) leaves: one chunk at work at most.
use libsqfs.Prelude.{ℕ, ◌≡◌, List, [], ◌∷◌, ◌||◌, refl, ap, ◌∙◌, Bool-cases, inl, inr, ◌⊎◌}
use libsqfs.Memory.{Memory}
use libsqfs.Bulkdata.Defs.{bulkdata_abort, Bulkdata, update}
use libsqfs.Bulkdata.Work.{
  mark_finished, deduplicate, assign, assign_block, assign_piece, assign_closing, settle, wake_next,
  place_piece, previous_block, overflows, is_some,
}
use libsqfs.Bulkdata.Blocks.{written_block, writes_block}
use libsqfs.Bulkdata.System.{
  System, with_bd, set_offset, begin_read, begin_compress, begin_write, pop_read, pop_dedup,
  pop_assign, pop_compress, pop_write, process_single,
}
use libsqfs.Bulkdata.Order.Ends.{set_written_block-changes}
use libsqfs.Bulkdata.Order.Pieces.{assign_piece_cases}
use libsqfs.Bulkdata.Order.Ending.{flags}
use libsqfs.Bulkdata.Order.Defs.{Kind-cases}

-- All work was aborted, and nothing has been queued since.
abbrev pub Stopped : Bulkdata → Type 0
Stopped bd = (before : Bulkdata) × (bd ≡ bulkdata_abort before)

deduplicate-flags : (bd : Bulkdata) (i : ℕ) → flags (deduplicate bd i) ≡ flags bd
unfolding deduplicate
deduplicate-flags bd i = elim (Kind-cases (bd.kind i)) [
  | inl e ↦ rw (e, deduplicate) refl
  | inr (inl e) ↦ rw (e, deduplicate) refl
  | inr (inr e) ↦ rw (e, deduplicate) refl
]

settle-flags : (bd : Bulkdata) (i : ℕ) → flags (settle bd i) ≡ flags bd
unfolding settle
settle-flags bd i = elim (Bool-cases (bd.flush_previous_block i)) [
  | inl e ↦ rw (e, settle) refl
  | inr e ↦ rw (e, settle) refl
]

-- The flags are kept, or all work is aborted.
abbrev Kept : Bulkdata → Bulkdata → Type 0
Kept before after = (flags after ≡ flags before) ⊎ Stopped after

assign_piece-Kept :
    (block_size : ℕ) (mem : Memory) (bd : Bulkdata) (i : ℕ)
    → Kept bd (assign_piece block_size mem bd i).2
assign_piece-Kept block_size mem bd i =
    let block = previous_block bd i in
    let placed = place_piece bd i (overflows block_size bd i block) block in
    elim (assign_piece_cases block_size mem bd i) [
      | inr e ↦ inr (bd, e)
      | inl e ↦ rw e (inl (unfold wake_next place_piece in settle-flags placed i))
    ]

assign-Kept :
    (block_size : ℕ) (mem : Memory) (bd : Bulkdata) (i : ℕ) → Kept bd (assign block_size mem bd i).2
unfolding assign assign_block assign_closing
assign-Kept block_size mem bd i = elim (Kind-cases (bd.kind i)) [
  | inl e ↦ rw (e, assign) (inl refl)
  | inr (inl e) ↦ rw (e, assign) (assign_piece-Kept block_size mem bd i)
  | inr (inr e) ↦
      rw (e, assign)
        (inl (
          settle-flags
            (record bd {
              flush_previous_block =
                  update bd.flush_previous_block i
                    (is_some (bd.prev_piece i) || bd.flush_previous_block i);
            })
            i))
]

module _ {Disk : Type 0} where
  -- No chunk is being worked on.
  pub record IsIdle (s : System Disk) : Type 0 where
    pub no_reading : s.reading ≡ []
    pub no_compressing : s.compressing ≡ []
    pub no_writing : s.writing ≡ []

  -- One chunk is being worked on at most.
  pub data Working (s : System Disk) : Type 0 where
    idle : IsIdle s → Working s
    reads : (i : ℕ) → s.reading ≡ i ∷ [] → s.compressing ≡ [] → s.writing ≡ [] → Working s
    compresses : (i : ℕ) → s.reading ≡ [] → s.compressing ≡ i ∷ [] → s.writing ≡ [] → Working s
    writes : (i : ℕ) → s.reading ≡ [] → s.compressing ≡ [] → s.writing ≡ i ∷ [] → Working s

  -- What a worker leaves that found nothing at work.
  abbrev Taken : System Disk → System Disk → Type 0
  Taken s t = ((flags t.bd ≡ flags s.bd) × Working t) ⊎ (Stopped t.bd × IsIdle t)

module _ {Disk : Type 0} (s : System Disk) (free : IsIdle s) where
  open s use {bd}

  same_jobs :
      {t : System Disk}
      → t.reading ≡ s.reading
      → t.compressing ≡ s.compressing
      → t.writing ≡ s.writing
      → IsIdle t
  same_jobs r c w = record {
    no_reading = r ∙ free.no_reading;
    no_compressing = c ∙ free.no_compressing;
    no_writing = w ∙ free.no_writing;
  }

  begin_read-Taken :
      (i : ℕ) (q : List ℕ) → Taken s (begin_read (with_bd s (record bd { readq = q })) i)
  unfolding begin_read
  begin_read-Taken i q = elim (Kind-cases (bd.kind i)) [
    | inl e ↦
        rw (e, begin_read)
          (inl (
            refl,
            Working.reads i (ap (◌∷◌ i) free.no_reading) free.no_compressing free.no_writing,
          ))
    | inr (inl e) ↦
        rw (e, begin_read)
          (inl (
            refl,
            Working.reads i (ap (◌∷◌ i) free.no_reading) free.no_compressing free.no_writing,
          ))
    | inr (inr e) ↦ rw (e, begin_read) (inl (refl, Working.idle (same_jobs refl refl refl)))
  ]

  begin_write-Taken :
      (i : ℕ) (q : List ℕ) → Taken s (begin_write (with_bd s (record bd { writeq = q })) i)
  unfolding begin_write
  begin_write-Taken i q =
      let bd' = record bd { writeq = q } in
      let block = set_offset (written_block bd' i) s.out.size in
      let (_, _, same) = set_written_block-changes (with_bd s bd') i block in
      elim (Bool-cases (writes_block (bd.kind i) (bd.flush_previous_block i))) [
        | inl e ↦
            rw (e, begin_write, same)
              (inl (
                refl,
                Working.writes i free.no_reading free.no_compressing (ap (◌∷◌ i) free.no_writing),
              ))
        | inr e ↦
            rw (e, begin_write)
              (inl (unfold mark_finished in refl, Working.idle (same_jobs refl refl refl)))
      ]

  read-Taken : (q : List ℕ) → Taken s (pop_read s q).1
  unfolding pop_read
  read-Taken [] = inl (refl, Working.idle free)
  read-Taken (i ∷ q) = begin_read-Taken i q

  dedup-Taken : (q : List ℕ) → Taken s (pop_dedup s q).1
  unfolding pop_dedup
  dedup-Taken [] = read-Taken bd.readq
  dedup-Taken (i ∷ q) =
      inl (deduplicate-flags (record bd { dedupq = q }) i, Working.idle (same_jobs refl refl refl))

  assign-Taken : (block_size : ℕ) (q : List ℕ) → Taken s (pop_assign block_size s q).1
  unfolding pop_assign
  assign-Taken block_size [] = dedup-Taken bd.dedupq
  assign-Taken block_size (i ∷ q) =
      elim (assign-Kept block_size s.mem (record bd { assignq = q }) i) [
        | inl e ↦ inl (e, Working.idle (same_jobs refl refl refl))
        | inr stopped ↦ inr (stopped, same_jobs refl refl refl)
      ]

  compress-Taken : (block_size : ℕ) (q : List ℕ) → Taken s (pop_compress block_size s q).1
  unfolding pop_compress begin_compress
  compress-Taken block_size [] = assign-Taken block_size bd.assignq
  compress-Taken block_size (i ∷ q) =
      inl (
        refl,
        Working.compresses i free.no_reading (ap (◌∷◌ i) free.no_compressing) free.no_writing,
      )

  write-Taken : (block_size : ℕ) (q : List ℕ) → Taken s (pop_write block_size s q).1
  unfolding pop_write
  write-Taken block_size [] = compress-Taken block_size bd.compressq
  write-Taken block_size (i ∷ q) = begin_write-Taken i q

  pub process_single-Taken : (block_size : ℕ) → Taken s (process_single block_size s).1
  unfolding process_single
  process_single-Taken block_size = write-Taken block_size bd.writeq
