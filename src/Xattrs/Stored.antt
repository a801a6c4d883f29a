-- ===== src/Xattrs/Stored.antt =====
-- What the loop of `libsqfs_xattrset_serialize_data` (src/xattrs.c) leaves in the table of the data.
use libsqfs.Prelude.{
  ℕ, ◌+◌, ◌<◌, ◌≡◌, ◌∙◌, inl, inr, refl, ap, Bool, true, false, List, [], ◌∷◌, ◌++◌, append-nil,
  length, length-append, Bool-cases, arith, if◌then◌else◌,
}
use libsqfs.Prelude.Fields.{encode_fields, length-encode_fields}
use libsqfs.Memory.{Memory}
use libsqfs.Metatable.Defs.{Metatable, append, position}
use libsqfs.Metatable.Invariant.{IsValid}
use libsqfs.Metatable.Stream.{IsCodecOf, Extends, Extends-refl, Extends-trans}
use libsqfs.Metatable.Append.{append-Outcome, append-Extends}
use libsqfs.Xattrs.Defs.{Xattr, XattrSet, entry_fields, val_fields, append_all, serialize_attrs}
use libsqfs.Xattrs.Decode.{attr_bytes, attrs_bytes}

abbrev concat : List (List ℕ) → List ℕ
concat [] = []
concat (p ∷ ps) = p ++ concat ps

-- A table that has been filled further.
pub record Grows (expand : List ℕ → List ℕ) (tab : Metatable) (bytes : List ℕ) (tab' : Metatable)
    : Type 0 where
  pub valid : IsValid tab'
  pub codec : IsCodecOf tab'.compressor expand
  pub extends : Extends expand tab bytes tab'

module _ (expand : List ℕ → List ℕ) where
  pub append-Grows :
      (mem : Memory) (tab : Metatable) (bytes : List ℕ)
      → IsCodecOf tab.compressor expand
      → IsValid tab
      → (append mem tab bytes).0 ≡ true
      → Grows expand tab bytes (append mem tab bytes).2
  append-Grows mem tab bytes codec v ok =
      let x = append-Extends expand mem tab bytes codec v ok in
      record {
        valid = (append-Outcome expand mem tab bytes codec v).valid;
        codec = rw x.same_compressor codec;
        extends = x;
      }

  Grows-trans :
      {s t u : Metatable} {xs ys : List ℕ}
      → Grows expand s xs t
      → Grows expand t ys u
      → Grows expand s (xs ++ ys) u
  Grows-trans p q = record {
    valid = q.valid;
    codec = q.codec;
    extends = Extends-trans expand p.extends q.extends;
  }

  append_all-Grows :
      (mem : Memory) (tab : Metatable) (parts : List (List ℕ))
      → IsCodecOf tab.compressor expand
      → IsValid tab
      → (append_all mem tab parts).0 ≡ true
      → Grows expand tab (concat parts) (append_all mem tab parts).2
  unfolding append_all
  append_all-Grows mem tab [] codec v ok = record {
    valid = v;
    codec = codec;
    extends = Extends-refl expand tab;
  }
  append_all-Grows mem tab (part ∷ parts) codec v ok = elim (Bool-cases (append mem tab part).0) [
    | inr failed ↦ absurd (ground (arith, rw failed at ok))
    | inl stored ↦
        let first = append-Grows mem tab part codec v stored in
        rw stored (
          Grows-trans first (
            append_all-Grows (append mem tab part).1 (append mem tab part).2 parts first.codec
              first.valid (rw stored at ok)))
  ]

  abbrev tail_parts : Xattr → List (List ℕ)
  tail_parts x = x.suffix ∷ encode_fields (val_fields x) ∷ x.value ∷ []

  abbrev round_set : Metatable → XattrSet → Bool → Xattr → XattrSet
  round_set tab set first x = record set {
    stored_pos = if first then position tab else set.stored_pos;
    stored_size = set.stored_size + (4 + length x.suffix + 4 + length x.value);
  }

  serialize_attrs-cons :
      (mem : Memory) (tab : Metatable) (set : XattrSet) (first : Bool) (x : Xattr) (xs : List Xattr)
      → let (ok, mem', tab') = append mem tab (encode_fields (entry_fields x)) in
        let (ok', mem'', tab'') = append_all mem' tab' (tail_parts x) in
        serialize_attrs mem tab set first (x ∷ xs) ≡ (
          if ok
          then (if ok' then serialize_attrs mem'' tab'' (round_set tab set first x) false xs else (
            false,
            mem'',
            tab'',
            record set { stored_pos = if first then position tab else set.stored_pos },
          ))
          else (false, mem', tab', set))
  unfolding serialize_attrs
  serialize_attrs-cons mem tab set first x xs = refl

  -- A round that succeeds.
  round_done :
      (mem : Memory) (tab : Metatable) (set : XattrSet) (first : Bool) (x : Xattr) (xs : List Xattr)
      → (serialize_attrs mem tab set first (x ∷ xs)).0 ≡ true
      → let (ok, mem', tab') = append mem tab (encode_fields (entry_fields x)) in
        let (ok', mem'', tab'') = append_all mem' tab' (tail_parts x) in
        (ok ≡ true)
        × (ok' ≡ true)
        × (serialize_attrs mem tab set first (x ∷ xs)
            ≡ serialize_attrs mem'' tab'' (round_set tab set first x) false xs)
  round_done mem tab set first x xs done =
      let step = serialize_attrs-cons mem tab set first x xs in
      let one = append mem tab (encode_fields (entry_fields x)) in
      let two = append_all one.1 one.2 (tail_parts x) in
      elim (Bool-cases one.0) [
        | inr failed ↦ absurd (ground (arith, rw (step, failed) at done))
        | inl ok ↦ elim (Bool-cases two.0) [
          | inr failed ↦ absurd (ground (arith, rw (step, ok, failed) at done))
          | inl ok' ↦ (ok, ok', rw (step, ok, ok') refl)
        ]
      ]

  length-attr_bytes : (x : Xattr) → length (attr_bytes x) ≡ 4 + length x.suffix + 4 + length x.value
  length-attr_bytes x = omega (
    arith,
    length-append (encode_fields (entry_fields x))
        (x.suffix ++ (encode_fields (val_fields x) ++ x.value)),
    length-append x.suffix (encode_fields (val_fields x) ++ x.value),
    length-append (encode_fields (val_fields x)) x.value,
    length-encode_fields (entry_fields x),
    length-encode_fields (val_fields x),
  )

  -- What the loop leaves: the attributes behind what was there, and in the set where they begin and their size.
  pub record Serialized (tab : Metatable) (set : XattrSet) (first : Bool) (xs : List Xattr)
      (tab' : Metatable) (set' : XattrSet) : Type 0 where
    pub grows : Grows expand tab (attrs_bytes xs) tab'
    pub same_attrs : set'.attrs ≡ set.attrs
    pub same_id : set'.id ≡ set.id
    pub sized : set'.stored_size ≡ set.stored_size + length (attrs_bytes xs)
    pub kept : first ≡ false → set'.stored_pos ≡ set.stored_pos
    pub placed : first ≡ true → 0 < length xs → set'.stored_pos ≡ position tab

  empty-Serialized :
      (tab : Metatable) (set : XattrSet) (first : Bool)
      → IsCodecOf tab.compressor expand
      → IsValid tab
      → Serialized tab set first [] tab set
  empty-Serialized tab set first codec v = record {
    grows = record { valid = v; codec = codec; extends = Extends-refl expand tab };
    same_attrs = refl;
    same_id = refl;
    sized = omega arith;
    kept = λ _. refl;
    placed = λ _ h. absurd (omega arith);
  }

  more-Serialized :
      (tab mid last : Metatable) (set set' : XattrSet) (first : Bool) (x : Xattr) (xs : List Xattr)
      → Grows expand tab (attr_bytes x) mid
      → Serialized mid (round_set tab set first x) false xs last set'
      → Serialized tab set first (x ∷ xs) last set'
  more-Serialized tab mid last set set' first x xs g s = record {
    grows = Grows-trans g s.grows;
    same_attrs = s.same_attrs;
    same_id = s.same_id;
    sized =
        omega (arith, s.sized, length-attr_bytes x, length-append (attr_bytes x) (attrs_bytes xs));
    kept = λ e. s.kept refl ∙ ap (λ b. if b then position tab else set.stored_pos) e;
    placed = λ e h. s.kept refl ∙ ap (λ b. if b then position tab else set.stored_pos) e;
  }

  pub serialize_attrs-Serialized :
      (mem : Memory) (tab : Metatable) (set : XattrSet) (first : Bool) (xs : List Xattr)
      → IsCodecOf tab.compressor expand
      → IsValid tab
      → let (ok, _, tab', set') = serialize_attrs mem tab set first xs in
        ok ≡ true → Serialized tab set first xs tab' set'
  serialize_attrs-Serialized mem tab set first [] codec v ok =
      unfold serialize_attrs in empty-Serialized tab set first codec v
  serialize_attrs-Serialized mem tab set first (x ∷ xs) codec v ok =
      let (stored, stored', same) = round_done mem tab set first x xs ok in
      let one = append mem tab (encode_fields (entry_fields x)) in
      let two = append_all one.1 one.2 (tail_parts x) in
      let g = append-Grows mem tab (encode_fields (entry_fields x)) codec v stored in
      let g' = append_all-Grows one.1 one.2 (tail_parts x) g.codec g.valid stored' in
      let whole : Grows expand tab (attr_bytes x) two.2 =
        rw (append-nil x.value) at (Grows-trans g g') in
      rw same (
        more-Serialized tab two.2 _ set _ first x xs whole (
          serialize_attrs-Serialized two.1 two.2 (round_set tab set first x) false xs whole.codec
            whole.valid (rw same at ok)))
