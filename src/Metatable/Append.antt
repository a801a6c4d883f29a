-- ===== src/Metatable/Append.antt =====
-- `libsqfs_metatable_append` (src/metatable.c) as a whole: what it leaves in the table, and when it
-- fails.
use mathlib.Core.List.{append-nil}
use libsqfs.Prelude.{
  ℕ, zero, suc, ◌+◌, ◌≤◌, ◌<◌, ◌≡◌, refl, ◌∙◌, Bool, true, false, List, [], ◌∷◌, ◌++◌, ◌⊎◌, ◌==◌,
  Bool-cases, inl, inr, length, length-drop, take, drop, take_all, take_add, arith,
}
use libsqfs.Memory.{Memory, IsPlentiful}
use libsqfs.Metatable.Defs.{
  metadata_size, Metablock, Metatable, getblock, flush_block, fill_block, room, store_chunk,
  append_loop, append,
}
use libsqfs.Metatable.Invariant.{IsValid}
use libsqfs.Metatable.Rounds.{
  IsReady, getblock-IsReady, getblock-fails, store_chunk-open, store_chunk-IsValid, filled_block,
}
use libsqfs.Metatable.Stream.{
  IsCodecOf, stream, stream-Extends, Extends, Extends-refl, Extends-trans, flush_block-Extends,
  getblock-Extends, fill_block-Extends,
}

grant-getblock : (mem : Memory) (tab : Metatable) → (getblock mem tab).1.grant ≡ mem.grant
unfolding getblock
grant-getblock mem tab = ground arith

module _ (expand : List ℕ → List ℕ) where
  store_chunk-Extends :
      (tab : Metatable) (b : Metablock) (bytes : List ℕ)
      → IsCodecOf tab.compressor expand
      → IsReady tab b
      → Extends expand tab (take (room tab bytes) bytes) (store_chunk tab bytes)
  store_chunk-Extends tab b bytes codec r =
      rw (store_chunk-open tab b bytes r.is_open)
        (elim (Bool-cases (tab'.opened_block_fill == metadata_size)) [
          | inl full ↦ rw full (rw (append-nil chunk) at (Extends-trans expand filled flushed))
          | inr more ↦ rw more filled
        ])
    where
      chunk : List ℕ
      chunk = take (room tab bytes) bytes

      tab' : Metatable
      tab' = fill_block tab b chunk

      filled : Extends expand tab chunk tab'
      filled = fill_block-Extends expand tab b chunk r

      flushed : Extends expand tab' [] (flush_block tab' (filled_block tab b chunk))
      flushed =
          unfold fill_block in
          flush_block-Extends expand tab' (filled_block tab b chunk) codec refl r.plain

  -- What a run of the loop from `tab` has done, whether it returns `true` or `false`.
  pub record Outcome (mem : Memory) (tab : Metatable) (bytes : List ℕ)
      (r : Bool × Memory × Metatable) : Type 0 where
    pub valid : IsValid r.2
    pub stored : ℕ
    pub extends : Extends expand tab (take stored bytes) r.2
    pub complete : r.0 ≡ true → length bytes ≤ stored
    pub refused : r.0 ≡ false → (n : ℕ) × (mem.grant n ≡ false)
    pub same_grant : r.1.grant ≡ mem.grant

  -- A round stores as much as the opened block takes, at least one byte.
  round-Extends :
      (mem : Memory) (tab : Metatable) (bytes : List ℕ)
      → IsCodecOf tab.compressor expand
      → IsValid tab
      → (getblock mem tab).0 ≡ true
      → let (got, mem', tab') = getblock mem tab in
        Extends expand tab (take (room tab' bytes) bytes) (store_chunk tab' bytes)
  round-Extends mem tab bytes codec v got =
      let opened = getblock-Extends expand mem tab got in
      let (b, ready) = getblock-IsReady mem tab v got in
      Extends-trans expand opened
        (store_chunk-Extends (getblock mem tab).2 b bytes (rw opened.same_compressor codec) ready)

  room-pos :
      (mem : Memory) (tab : Metatable) (b : ℕ) (bytes : List ℕ)
      → IsValid tab
      → (getblock mem tab).0 ≡ true
      → 0 < room (getblock mem tab).2 (b ∷ bytes)
  unfolding room
  room-pos mem tab b bytes v got =
      let (block, ready) = getblock-IsReady mem tab v got in omega (arith, ready.has_room)

  -- A round, and what the loop does with the rest.
  round-Outcome :
      (mem : Memory) (tab : Metatable) (bytes : List ℕ) {r : Bool × Memory × Metatable}
      → IsCodecOf tab.compressor expand
      → IsValid tab
      → (getblock mem tab).0 ≡ true
      → let (got, mem', tab') = getblock mem tab in
        Outcome mem' (store_chunk tab' bytes) (drop (room tab' bytes) bytes) r
        → Outcome mem tab bytes r
  round-Outcome mem tab bytes codec v got h =
      let n = room (getblock mem tab).2 bytes in
      record {
        valid = h.valid;
        stored = n + h.stored;
        extends =
            rw (take_add n h.stored bytes)
              (Extends-trans expand (round-Extends mem tab bytes codec v got) h.extends);
        complete = λ e. omega (arith, h.complete e, length-drop {0} n bytes);
        refused =
            λ e. let (k, no_grant) = h.refused e in (k, rw (grant-getblock mem tab) at no_grant);
        same_grant = h.same_grant ∙ grant-getblock mem tab;
      }

  failed-Outcome :
      (mem : Memory) (tab : Metatable) (bytes : List ℕ)
      → IsValid tab
      → (getblock mem tab).0 ≡ false
      → Outcome mem tab bytes (false, (getblock mem tab).1, (getblock mem tab).2)
  failed-Outcome mem tab bytes v failed =
      let (no_grant, same) = getblock-fails mem tab failed in
      record {
        valid = rw same v;
        stored = 0;
        extends = rw same (Extends-refl expand tab);
        complete = λ e. cc;
        refused = λ e. (mem.calls, no_grant);
        same_grant = grant-getblock mem tab;
      }

  append_loop-Outcome :
      (fuel : ℕ) (mem : Memory) (tab : Metatable) (bytes : List ℕ)
      → IsCodecOf tab.compressor expand
      → IsValid tab
      → length bytes ≤ fuel
      → Outcome mem tab bytes (append_loop fuel mem tab bytes)
  unfolding append_loop
  append_loop-Outcome fuel mem tab [] codec v enough = record {
    valid = v;
    stored = 0;
    extends = Extends-refl expand tab;
    complete = λ e. omega arith;
    refused = λ e. cc;
    same_grant = refl;
  }
  append_loop-Outcome zero mem tab (b ∷ bytes) codec v enough = absurd (omega arith)
  append_loop-Outcome (suc fuel) mem tab (b ∷ bytes) codec v enough =
      elim (Bool-cases (getblock mem tab).0) [
        | inl got ↦
            let tab' = (getblock mem tab).2 in
            let n = room tab' (b ∷ bytes) in
            let (block, ready) = getblock-IsReady mem tab v got in
            rw got (
              round-Outcome mem tab (b ∷ bytes) codec v got (
                append_loop-Outcome fuel (getblock mem tab).1 (store_chunk tab' (b ∷ bytes))
                  (drop n (b ∷ bytes))
                  (rw ((round-Extends mem tab (b ∷ bytes) codec v got).same_compressor) codec)
                  (store_chunk-IsValid tab' block (b ∷ bytes) ready (omega arith))
                  (omega (arith, length-drop {0} n (b ∷ bytes), room-pos mem tab b bytes v got))))
        | inr failed ↦ rw failed (failed-Outcome mem tab (b ∷ bytes) v failed)
      ]

  pub append-Outcome :
      (mem : Memory) (tab : Metatable) (bytes : List ℕ)
      → IsCodecOf tab.compressor expand
      → IsValid tab
      → Outcome mem tab bytes (append mem tab bytes)
  unfolding append
  append-Outcome mem tab bytes codec v =
      append_loop-Outcome (length bytes) mem tab bytes codec v (omega arith)

  -- A successful append has stored all of the data.
  pub append-Extends :
      (mem : Memory) (tab : Metatable) (bytes : List ℕ)
      → IsCodecOf tab.compressor expand
      → IsValid tab
      → (append mem tab bytes).0 ≡ true
      → Extends expand tab bytes (append mem tab bytes).2
  append-Extends mem tab bytes codec v ok =
      let o = append-Outcome mem tab bytes codec v in
      rw (take_all o.stored bytes (o.complete ok)) at o.extends

  -- From a valid table, whichever calls of `malloc` fail: either all of the data stand behind what the
  -- table held, or some call failed and a prefix of them does. The table stays valid.
  pub append_cases :
      (mem : Memory) (tab : Metatable) (bytes : List ℕ)
      → IsCodecOf tab.compressor expand
      → IsValid tab
      → let (ok, _, tab') = append mem tab bytes in
        IsValid tab'
        × (((ok ≡ true) × (stream expand tab' ≡ stream expand tab ++ bytes))
            ⊎ ((n : ℕ) × (k : ℕ) × (ok ≡ false)
                × (mem.grant n ≡ false)
                × (stream expand tab' ≡ stream expand tab ++ take k bytes)))
  append_cases mem tab bytes codec v =
      let o = append-Outcome mem tab bytes codec v in
      (
        o.valid,
        elim (Bool-cases (append mem tab bytes).0) [
          | inl ok ↦ inl (ok, stream-Extends expand (append-Extends mem tab bytes codec v ok))
          | inr failed ↦
              let (n, no_grant) = o.refused failed in
              inr (n, o.stored, failed, no_grant, stream-Extends expand o.extends)
        ],
      )

  -- The loop ends with success where no allocation fails: its rounds are enough.
  pub append-plentiful :
      (mem : Memory) (tab : Metatable) (bytes : List ℕ)
      → IsCodecOf tab.compressor expand
      → IsValid tab
      → IsPlentiful mem
      → (append mem tab bytes).0 ≡ true
  append-plentiful mem tab bytes codec v plenty = elim (Bool-cases (append mem tab bytes).0) [
    | inl ok ↦ ok
    | inr failed ↦
        let (n, no_grant) = (append-Outcome mem tab bytes codec v).refused failed in cc (plenty n)
  ]
