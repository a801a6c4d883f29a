-- ===== src/Directory/Listing.antt =====
-- The listing of a whole directory (`libsqfs_directory_encode`, src/directory.c), as a reader finds it.
use mathlib.Core.List.{map-append}
use libsqfs.Prelude.{
  ℕ, ◌≤◌, ◌≡◌, inl, inr, refl, sym, subst, ap, ◌∙◌, true, false, List, [], ◌∷◌, ◌++◌, length, All,
  All-append, map, append_assoc, append-nil, Bool-cases, arith,
}
use libsqfs.Memory.{Memory, malloc, IsPlentiful}
use libsqfs.Directory.Entries.{DirEntry}
use libsqfs.Directory.Encode.{
  Target, Encoder, new_encoder, placed, set_count, start_group, join_group, encode_entry,
  encode_entries, finish_groups,
}
use libsqfs.Directory.Groups.{
  coded_bytes, concat, IsEncodable, IsClosed, IsEncoded, set_count-IsClosed,
}
use libsqfs.Directory.Limits.{Step, Step-of, encode_entry-IsEncoded, concat-snoc}
use libsqfs.Directory.Decode.{Listed, listed, decode_listing}
use libsqfs.Directory.Roundtrip.{groups-decode}

module _ (target : ℕ → Target) where
  -- What the entries handled so far are to list.
  abbrev handled : Encoder → List Listed
  handled st = map (listed target) st.finished ++ map (listed target) st.group

  listed-set_count :
      (count : ℕ) (g : List DirEntry)
      → map (listed target) (set_count count g) ≡ map (listed target) g
  unfolding set_count
  listed-set_count count [] = refl
  listed-set_count count (e ∷ es) = refl

  finish_groups-listed : (st : Encoder) → map (listed target) (finish_groups st) ≡ handled st
  unfolding finish_groups
  finish_groups-listed st =
      map-append (listed target) st.finished (set_count st.count st.group)
      ∙ ap (λ l. map (listed target) st.finished ++ l) (listed-set_count st.count st.group)

  start_group-handled :
      (st : Encoder) (e : DirEntry)
      → handled (start_group target st (placed st e)) ≡ handled st ++ (listed target e ∷ [])
  unfolding start_group placed finish_groups
  start_group-handled st e = ap (λ l. l ++ (listed target e ∷ [])) (finish_groups-listed st)

  join_group-handled :
      (st : Encoder) (reference e : DirEntry)
      → handled (join_group target st reference (placed st e))
        ≡ handled st ++ (listed target e ∷ [])
  unfolding join_group placed
  join_group-handled st reference e = rw (map-append (listed target) st.group _) (
      sym (
        append_assoc (map (listed target) st.finished) (map (listed target) st.group)
          (listed target e ∷ [])))

  encode_entry-handled :
      (st : Encoder) (e : DirEntry)
      → handled (encode_entry target st e) ≡ handled st ++ (listed target e ∷ [])
  encode_entry-handled st e = elim (Step-of target st e) [
    | Step.fresh eq ↦ rw eq (start_group-handled st e)
    | Step.joined reference es g same eq ↦ rw eq (join_group-handled st reference e)
  ]

  abbrev pub AllEncodable : List DirEntry → Type 0
  AllEncodable = All (λ e. IsEncodable (target e.inode) e.name)

  encode_entries_nil :
      (mem : Memory) (st : Encoder)
      → IsEncoded target st
      → IsEncoded target (encode_entries target mem st []).2
        × (handled (encode_entries target mem st []).2 ≡ handled st ++ [])
  unfolding encode_entries
  encode_entries_nil mem st h = (h, sym (append-nil (handled st)))

  pub encode_entries_granted :
      (mem : Memory) (st : Encoder) (e : DirEntry) (es : List DirEntry)
      → mem.grant mem.calls ≡ true
      → encode_entries target mem st (e ∷ es)
        ≡ encode_entries target (malloc mem).1 (encode_entry target st e) es
  unfolding encode_entries
  encode_entries_granted mem st e es h = rw h refl

  pub encode_entries_refused :
      (mem : Memory) (st : Encoder) (e : DirEntry) (es : List DirEntry)
      → mem.grant mem.calls ≡ false
      → (encode_entries target mem st (e ∷ es)).0 ≡ false
  unfolding encode_entries
  encode_entries_refused mem st e es h = rw h refl

  -- The whole loop.
  pub encode_entries_lem :
      (mem : Memory) (st : Encoder) (es : List DirEntry)
      → AllEncodable es
      → IsEncoded target st
      → (encode_entries target mem st es).0 ≡ true
      → IsEncoded target (encode_entries target mem st es).2
        × (handled (encode_entries target mem st es).2 ≡ handled st ++ map (listed target) es)
  encode_entries_lem mem st [] f h ok = encode_entries_nil mem st h
  encode_entries_lem mem st (e ∷ es) (f, fs) h ok = elim (Bool-cases (mem.grant mem.calls)) [
    | inr refused ↦ absurd (ground (arith, ok, encode_entries_refused mem st e es refused))
    | inl granted ↦
        let step = encode_entries_granted mem st e es granted in
        let rest =
          encode_entries_lem (malloc mem).1 (encode_entry target st e) es fs
            (encode_entry-IsEncoded target st e f h) (rw step at ok) in
        rw step (
          rest.0,
          rest.1
              ∙ (ap (λ l. l ++ map (listed target) es) (encode_entry-handled st e)
                  ∙ append_assoc (handled st) (listed target e ∷ []) (map (listed target) es)),
        )
  ]

  -- With storage for every entry the loop comes to its end.
  pub encode_entries-IsPlentiful :
      (mem : Memory) (st : Encoder) (es : List DirEntry)
      → IsPlentiful mem
      → ((encode_entries target mem st es).0 ≡ true)
        × IsPlentiful (encode_entries target mem st es).1
  unfolding encode_entries
  encode_entries-IsPlentiful mem st [] h = (refl, h)
  encode_entries-IsPlentiful mem st (e ∷ es) h =
      rw (h mem.calls) (encode_entries-IsPlentiful (malloc mem).1 (encode_entry target st e) es h)

  pub new_encoder-IsEncoded : IsEncoded target new_encoder
  new_encoder-IsEncoded = record { groups = []; split = refl; closed = tt; open_group = tt }

  -- When the loop has come to its end, the groups of entries have the form and the limits of the format:
  -- one inode block, inode numbers within 16 signed bits, at most 256 entries, and at most 8192 bytes
  -- unless the group is a single entry.
  pub encode-IsClosed :
      (mem : Memory) (es : List DirEntry)
      → AllEncodable es
      → (encode_entries target mem new_encoder es).0 ≡ true
      → (gs : List (List DirEntry)) × All (IsClosed target) gs
        × (finish_groups (encode_entries target mem new_encoder es).2 ≡ concat gs)
  unfolding finish_groups
  encode-IsClosed mem es f ok =
      let st = (encode_entries target mem new_encoder es).2 in
      let h = (encode_entries_lem mem new_encoder es f new_encoder-IsEncoded ok).0 in
      let last = set_count st.count st.group in
      (
        h.groups ++ (last ∷ []),
        All-append (IsClosed target) h.groups (last ∷ []) h.closed
            (set_count-IsClosed target st.count st.serialno st.offset st.group h.open_group, tt),
        ap (λ l. l ++ last) h.split ∙ sym (concat-snoc h.groups last),
      )

  -- A reader of the listing finds the entries, all of them and in their order, each with its name and
  -- the place, number and type of its inode.
  pub decode-encode :
      (mem : Memory) (es : List DirEntry) (fuel : ℕ)
      → AllEncodable es
      → (encode_entries target mem new_encoder es).0 ≡ true
      → length (coded_bytes (finish_groups (encode_entries target mem new_encoder es).2)) ≤ fuel
      → decode_listing fuel
          (coded_bytes (finish_groups (encode_entries target mem new_encoder es).2))
        ≡ map (listed target) es
  decode-encode mem es fuel f ok enough =
      let st = (encode_entries target mem new_encoder es).2 in
      let (gs, closed, split) = encode-IsClosed mem es f ok in
      let sized : length (coded_bytes (concat gs)) ≤ fuel = rw (sym split) enough in
      let found : decode_listing fuel (coded_bytes (finish_groups st))
          ≡ map (listed target) (finish_groups st) =
        subst (λ l. decode_listing fuel (coded_bytes l) ≡ map (listed target) l) (sym split)
          (groups-decode target fuel gs sized closed) in
      found
      ∙ (finish_groups-listed st
          ∙ (encode_entries_lem mem new_encoder es f new_encoder-IsEncoded ok).1)
