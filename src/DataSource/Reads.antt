-- ===== src/DataSource/Reads.antt =====
-- A read of a compound of pieces gets what a read of the pieces' bytes, one behind the other, would get
-- (`libsqfs_compounddata_pread`, src/datasource.c).
use libsqfs.Prelude.{
  ℕ, ◌+◌, ◌-◌, ◌%◌, ◌^◌, ◌≤◌, ◌<◌, ◌≡◌, inl, inr, refl, sym, ap, ap₂, ◌∙◌, min, some, List, [], ◌∷◌,
  ◌++◌, ltb, leb, length, length-append, length-take, length-drop, take, drop, take_all, take-nil,
  drop_all, drop-append_le, take-append-drop, append_assoc, All, if◌then◌else◌, Bool-cases, arith,
}
use libsqfs.DataSource.Defs.{
  Piece, compound_loop, compound_size, compound_pread, memory_pread, memory_data,
}
use libsqfs.DataSource.Slices.{drop-append_skip}
use libsqfs.DataSource.Compound.{
  Source, chunk, content, length-chunk, length-zero, loop_nil, loop_skips, loop_ends, round_copies,
  slice_step,
}

-- A read of a block of memory gets the bytes from the offset on, as many as there are and asked for.
pub memory_pread-reads :
    (buffer : List ℕ) (size offset : ℕ)
    → offset + size < 2 ^ 64
    → memory_pread buffer size offset ≡ some (take size (drop offset buffer))
unfolding memory_pread
memory_pread-reads buffer size offset fits =
    let stop : (offset + size) % 2 ^ 64 ≡ offset + size = omega arith in
    elim (Bool-cases (ltb (length buffer) offset)) [
      | inl e ↦
          let past : drop offset buffer ≡ [] = drop_all offset buffer (ground (arith, e)) in
          rw (e, past, take-nil size) refl
      | inr e ↦ elim (Bool-cases (ltb (length buffer) (offset + size))) [
        | inr enough ↦ rw (e, stop, enough) refl
        | inl short ↦
            let left : length (drop offset buffer) ≡ length buffer - offset =
              length-drop offset buffer in
            let all =
              take_all (length buffer - offset) (drop offset buffer) (omega (arith, left)) in
            let all' = take_all size (drop offset buffer) (ground (arith, left, short)) in
            rw (e, stop, short, all, all') refl
      ]
    ]

-- So a block of memory is what a compound asks of the source of a piece.
pub memory_data-Source :
    (buffer : List ℕ) (offset size : ℕ)
    → length buffer < 2 ^ 64
    → offset + size ≤ length buffer
    → Source (record { data_source = memory_data buffer; offset = offset; size = size })
unfolding memory_data
memory_data-Source buffer offset size small inside = record {
  bytes = buffer;
  inside = inside;
  reads = λ n o h. memory_pread-reads buffer n o (omega arith);
}

-- From any round on, the rest of the slice comes behind what was copied.
loop_reads :
    (offset size current : ℕ) (done rest back : List ℕ) (ps : List Piece) (h : All Source ps)
    → offset + size < 2 ^ 64
    → length done ≡ min (current - offset) size
    → length done + length rest ≡ size
    → offset + size ≤ current + compound_size ps
    → compound_loop offset size current (length done) (done ++ (rest ++ back)) ps
      ≡ (size, done ++ (take (size - length done) (drop (offset - current) (content ps h)) ++ back))
loop_reads offset size current done rest back [] h fits d r t =
    let full : length done ≡ size = omega (arith, d) in
    let empty : rest ≡ [] = length-zero rest (omega (arith, full, r)) in
    let zero_left : size - size ≡ 0 = omega arith in
    rw (loop_nil offset size current (length done) (done ++ (rest ++ back)), empty, full, zero_left)
      refl
loop_reads offset size current done rest back (p ∷ ps) (s, h) fits d r t =
    elim (Bool-cases (leb (current + p.size) offset)) [
      | inl e ↦
          let before : current + p.size ≤ offset = ground (arith, e) in
          let skipped =
            drop-append_skip (offset - current) (chunk p s) (content ps h)
              (omega (arith, length-chunk p s)) in
          let same : offset - current - length (chunk p s) ≡ offset - (current + p.size) =
            omega (arith, length-chunk p s) in
          loop_skips offset size current (length done) (done ++ (rest ++ back)) p ps fits before
          ∙ (loop_reads offset size (current + p.size) done rest back ps h fits (omega arith) r
                (omega arith)
              ∙ rw (skipped, same) refl)
      | inr e ↦
          let reached : offset < current + p.size = ground (arith, e) in
          elim (Bool-cases (leb (offset + size) current)) [
            | inl behind ↦
                let full : length done ≡ size = ground (arith, d, behind) in
                let empty : rest ≡ [] = length-zero rest (omega (arith, full, r)) in
                let zero_left : size - size ≡ 0 = omega arith in
                loop_ends offset size current (length done) (done ++ (rest ++ back)) p ps fits
                  reached (ground (arith, behind))
                ∙ rw (empty, full, zero_left) refl
            | inr more ↦
                let within : current < offset + size = ground (arith, more) in
                let o = offset - current in
                let n = min (offset + size) (current + p.size) - (current + o) in
                let bytes = take n (drop o (chunk p s)) in
                let (round, sized) =
                  round_copies offset size current done (rest ++ back) p ps s fits d reached
                    within in
                let longer : length (done ++ bytes) ≡ length done + n =
                  omega (arith, length-append done bytes, sized) in
                let over : offset - (current + p.size) ≡ 0 = omega arith in
                let next =
                  loop_reads offset size (current + p.size) (done ++ bytes)
                    (drop (length bytes) rest) back ps h fits (omega (arith, longer))
                    (omega (arith, longer, sized, length-drop (length bytes) rest)) (omega arith) in
                let slice =
                  slice_step current offset size (length done) n o (chunk p s) (content ps h) d
                    (omega (arith, length-chunk p s)) within refl
                    (ap (λ k. min (offset + size) (current + k) - (current + o))
                      (sym (length-chunk p s))) in
                let kept = drop-append_le (length bytes) rest back (omega (arith, sized, d, r)) in
                let remaining = take (size - (length done + n)) (content ps h) in
                round
                ∙ (ap
                      (λ l.
                        compound_loop offset size (current + p.size) (length (done ++ bytes))
                          ((done ++ bytes) ++ l) ps)
                      kept
                    ∙ (next
                        ∙ rw (over, longer, slice)
                            (ap (λ l. (size, l))
                              (append_assoc done bytes (remaining ++ back)
                                ∙ ap (λ l. done ++ l) (sym (append_assoc bytes remaining back))))))
          ]
    ]

-- A read of a compound of pieces, each inside its source, copies as many bytes as lie in the compound from
-- the offset on, at most `size`. They are those of the pieces, one behind the other, and the rest of
-- the buffer stays.
pub compound_pread-reads :
    (pieces : List Piece) (h : All Source pieces) (buffer : List ℕ) (size offset : ℕ)
    → offset + size < 2 ^ 64
    → size ≤ length buffer
    → let n = min size (compound_size pieces - offset) in
      compound_pread pieces buffer size offset
      ≡ (n, take n (drop offset (content pieces h)) ++ drop n buffer)
unfolding compound_pread
compound_pread-reads pieces h buffer size offset fits room =
    let total = compound_size pieces in
    let stop : (offset + size) % 2 ^ 64 ≡ offset + size = omega arith in
    elim (Bool-cases (ltb total offset)) [
      | inl e ↦
          let zero_left : min size (total - offset) ≡ 0 = ground (arith, e) in
          rw (e, zero_left) refl
      | inr e ↦
          let n = min size (total - offset) in
          let count : (if ltb total ((offset + size) % 2 ^ 64) then total - offset else size) ≡ n =
            rw stop (ground (arith, e)) in
          let split = take-append-drop n buffer in
          let sized : length (take n buffer) ≡ n = omega (arith, length-take n buffer) in
          let loop =
            loop_reads offset n 0 [] (take n buffer) (drop n buffer) pieces h (omega arith)
              (omega arith) (omega (arith, sized)) (ground (arith, e)) in
          let all : (n, take (n - 0) (drop (offset - 0) (content pieces h)) ++ drop n buffer)
              ≡ (n, take n (drop offset (content pieces h)) ++ drop n buffer) =
            ap₂ (λ k o. (n, take k (drop o (content pieces h)) ++ drop n buffer)) (omega arith)
              (omega arith) in
          rw (e, count) (ap (λ l. compound_loop offset n 0 0 l pieces) (sym split) ∙ (loop ∙ all))
    ]
