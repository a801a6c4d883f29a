-- ===== src/DataSource/Compound.antt =====
-- The rounds of the loop of `libsqfs_compounddata_pread` (src/datasource.c).
use libsqfs.Prelude.{
  ℕ, ◌+◌, ◌-◌, ◌%◌, ◌^◌, ◌≤◌, ◌<◌, ◌≡◌, inl, inr, refl, sym, ap, ap₂, ◌∙◌, true, false, min, some,
  List, [], ◌∷◌, ◌++◌, ◌==◌, ==_iff, ltb, leb, length, length-append, length-take, length-drop,
  take, drop, take_all, take-append_length, take-append_le, drop-append_le, drop_add,
  drop-append_ge, append-nil, append_assoc, All, if◌then◌else◌, Bool-cases, arith,
}
use libsqfs.DataSource.Defs.{Piece, put, compound_loop, compound_size}
use libsqfs.DataSource.Slices.{take-append_more, take-drop-take}

-- A piece with the bytes of its source: reads within the source return the bytes there.
pub record Source (p : Piece) : Type 0 where
  pub bytes : List ℕ
  pub inside : p.offset + p.size ≤ length bytes
  pub reads :
      (n o : ℕ) → o + n ≤ length bytes → p.data_source.pread n o ≡ some (take n (drop o bytes))

abbrev pub chunk : (p : Piece) → Source p → List ℕ
chunk p s = take p.size (drop p.offset s.bytes)

-- The bytes of a compound.
abbrev pub content : (ps : List Piece) → All Source ps → List ℕ
content [] h = []
content (p ∷ ps) (s, h) = chunk p s ++ content ps h

pub length-chunk : (p : Piece) (s : Source p) → length (chunk p s) ≡ p.size
length-chunk p s =
    omega
      (arith, length-take p.size (drop p.offset s.bytes), length-drop p.offset s.bytes, s.inside)

length-content : (ps : List Piece) (h : All Source ps) → length (content ps h) ≡ compound_size ps
length-content [] h = refl
length-content (p ∷ ps) (s, h) =
    omega (arith, length-append (chunk p s) (content ps h), length-chunk p s, length-content ps h)

-- A read of a part of a piece.
piece-reads :
    (p : Piece) (s : Source p) (n o : ℕ)
    → o + n ≤ p.size
    → p.data_source.pread n (p.offset + o) ≡ some (take n (drop o (chunk p s)))
piece-reads p s n o h =
    s.reads n (p.offset + o) (omega (arith, s.inside))
    ∙ ap (λ l. some (take n l)) (drop_add p.offset o s.bytes)
    ∙ ap some (sym (take-drop-take n o p.size (drop p.offset s.bytes) h))

put-append :
    (done rest bytes : List ℕ)
    → put (done ++ rest) (length done) bytes ≡ (done ++ bytes) ++ drop (length bytes) rest
unfolding put
put-append done rest bytes =
    rw (take-append_length done rest, drop-append_ge (length bytes) done rest)
      (sym (append_assoc done bytes (drop (length bytes) rest)))

-- The three ways of a round.
module _ (offset size current written : ℕ) (buffer : List ℕ) (p : Piece) (ps : List Piece)
    (fits : offset + size < 2 ^ 64) where
  pub loop_skips :
      current + p.size ≤ offset
      → compound_loop offset size current written buffer (p ∷ ps)
        ≡ compound_loop offset size (current + p.size) written buffer ps
  unfolding compound_loop
  loop_skips h = let t : leb (current + p.size) offset ≡ true = ground arith in rw t refl

  pub loop_ends :
      offset < current + p.size
      → offset + size ≤ current
      → compound_loop offset size current written buffer (p ∷ ps) ≡ (written, buffer)
  unfolding compound_loop
  loop_ends h k =
      let t : leb (current + p.size) offset ≡ false = ground arith in
      let stop : (offset + size) % 2 ^ 64 ≡ offset + size = omega arith in
      let u : leb (offset + size) current ≡ true = ground arith in rw (t, stop, u) refl

  -- Where the part of the piece that is asked for begins and ends.
  abbrev from : ℕ
  from = if ltb current offset then offset else current

  abbrev to : ℕ
  to =
      if ltb ((offset + size) % 2 ^ 64) (current + p.size)
      then (offset + size) % 2 ^ 64
      else current + p.size

  loop_copies :
      (bytes : List ℕ)
      → offset < current + p.size
      → current < offset + size
      → p.data_source.pread (to - from) (p.offset + from - current) ≡ some bytes
      → length bytes ≡ to - from
      → compound_loop offset size current written buffer (p ∷ ps)
        ≡ compound_loop offset size
            (current + p.size)
            (written + length bytes)
            (put buffer (from - offset) bytes)
            ps
  unfolding compound_loop
  loop_copies bytes h k read whole =
      let t : leb (current + p.size) offset ≡ false = ground arith in
      let u : leb ((offset + size) % 2 ^ 64) current ≡ false = ground arith in
      let w : (length bytes == to - from) ≡ true = (==_iff (length bytes) (to - from)).1 whole in
      rw (t, u, read, w) refl

module _ (current offset size done n o : ℕ) (xs rest : List ℕ) where
  -- The slice that is still to be read: the part of the piece `xs`, and what follows the piece.
  pub slice_step :
      done ≡ min (current - offset) size
      → offset < current + length xs
      → current < offset + size
      → o ≡ offset - current
      → n ≡ min (offset + size) (current + length xs) - (current + o)
      → take (size - done) (drop (offset - current) (xs ++ rest))
        ≡ take n (drop o xs) ++ take (size - (done + n)) rest
  slice_step d h k eo en =
      let left = drop o xs in
      let sized : length left ≡ length xs - o = length-drop o xs in
      let cut : drop (offset - current) (xs ++ rest) ≡ left ++ rest =
        rw (← eo) (drop-append_le o xs rest (omega (arith, eo))) in
      elim (Bool-cases (leb (current + length xs) (offset + size))) [
        | inl whole ↦
            let more : length left ≤ size - done = ground (arith, whole, sized, eo, d) in
            let all : take n left ≡ left = take_all n left (ground (arith, whole, sized, eo, en)) in
            let count : size - done - length left ≡ size - (done + n) =
              ground (arith, whole, sized, eo, en, d) in
            rw (cut, all, take-append_more (size - done) left rest more, count) refl
        | inr part ↦
            let same : size - done ≡ n = ground (arith, part, eo, en, d) in
            let none_left : size - (done + n) ≡ 0 = omega (arith, same) in
            let short : n ≤ length left = ground (arith, part, sized, eo, en) in
            rw (cut, same, none_left, take-append_le n left rest short)
              (sym (append-nil (take n left)))
      ]

pub length-zero : (xs : List ℕ) → length xs ≡ 0 → xs ≡ []
length-zero [] h = refl
length-zero (x ∷ xs) h = absurd (omega (arith, h))

pub loop_nil :
    (offset size current written : ℕ) (buffer : List ℕ)
    → compound_loop offset size current written buffer [] ≡ (written, buffer)
unfolding compound_loop
loop_nil offset size current written buffer = refl

-- A round that copies: the bytes, and the loop goes on behind them.
pub round_copies :
    (offset size current : ℕ) (done rest : List ℕ) (p : Piece) (ps : List Piece) (s : Source p)
    → offset + size < 2 ^ 64
    → length done ≡ min (current - offset) size
    → offset < current + p.size
    → current < offset + size
    → let n = min (offset + size) (current + p.size) - (current + (offset - current)) in
      let bytes = take n (drop (offset - current) (chunk p s)) in
      (compound_loop offset size current (length done) (done ++ rest) (p ∷ ps)
        ≡ compound_loop offset size
            (current + p.size)
            (length (done ++ bytes))
            ((done ++ bytes) ++ drop (length bytes) rest)
            ps)
      × (length bytes ≡ n)
round_copies offset size current done rest p ps s fits d reached within =
    let o = offset - current in
    let n = min (offset + size) (current + p.size) - (current + o) in
    let bytes = take n (drop o (chunk p s)) in
    let a = from offset size current (length done) (done ++ rest) p ps fits in
    let b = to offset size current (length done) (done ++ rest) p ps fits in
    let starts : a ≡ current + o = ground arith in
    let stop : (offset + size) % 2 ^ 64 ≡ offset + size = omega arith in
    let ends : b ≡ min (offset + size) (current + p.size) = rw stop (ground arith) in
    let asked : b - a ≡ n = omega (arith, starts, ends) in
    let there : p.offset + a - current ≡ p.offset + o = omega (arith, starts) in
    let place : a - offset ≡ length done = omega (arith, starts, d) in
    let read : p.data_source.pread (b - a) (p.offset + a - current) ≡ some bytes =
      ap₂ p.data_source.pread asked there ∙ piece-reads p s n o (omega arith) in
    let size_of : length bytes ≡ n =
      omega
        (arith, length-take n (drop o (chunk p s)), length-drop o (chunk p s), length-chunk p s) in
    let round =
      loop_copies offset size current (length done) (done ++ rest) p ps fits bytes reached within
        read (size_of ∙ sym asked) in
    (
      round
          ∙ ap₂ (λ w l. compound_loop offset size (current + p.size) w l ps)
              (sym (length-append done bytes))
              (ap (λ k. put (done ++ rest) k bytes) place ∙ put-append done rest bytes),
      size_of,
    )
