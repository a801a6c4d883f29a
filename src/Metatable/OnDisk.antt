-- ===== src/Metatable/OnDisk.antt =====
-- What the file holds after `libsqfs_metatable_write` (src/metatable.c): the blocks in order, each
-- behind its header, at the place that `libsqfs_image_reserve` gave out.
use libsqfs.Prelude.{
  ℕ, ◌+◌, ◌%◌, ◌≤◌, ◌<◌, ◌≡◌, refl, subst, sym, ◌∙◌, true, Option, none, some, List, [], ◌∷◌, ◌++◌,
  length, length-append, arith,
}
use libsqfs.Prelude.Bytes.{le16, length-le_bytes}
use libsqfs.Output.{Destination, Output, IsFile, is_count, off_mod}
use libsqfs.Metatable.Defs.{u32_mod, Metablock, Metatable, flush}
use libsqfs.Metatable.Invariant.{stored_size, IsChain, IsValid, flush-IsValid}
use libsqfs.Metatable.Write.{block_header, write_blocks, write}

-- A block as it is stored.
abbrev pub encode_block : Metablock → List ℕ
encode_block b = le16 (block_header b) ++ b.contents

abbrev pub encode : List Metablock → List ℕ
encode [] = []
encode (b ∷ bs) = encode_block b ++ encode bs

is_count→eq : (o : Option ℕ) (n : ℕ) → is_count o n ≡ true → o ≡ some n
is_count→eq none n h = cc
is_count→eq (some m) n h = ground arith

pub length-encode :
    (start : ℕ) (bs : List Metablock) → IsChain start bs → length (encode bs) ≡ stored_size bs
length-encode start [] h = refl
length-encode start (b ∷ bs) h = omega (
  arith,
  length-append (encode_block b) (encode bs),
  length-append (le16 (block_header b)) b.contents,
  length-le_bytes 2 (block_header b),
  length-encode (start + (b.size + 2)) bs h.3,
  h.1,
)

module _ {Disk : Type 0} (dst : Destination Disk) (read : Disk → ℕ → ℕ → List ℕ)
    (file : IsFile dst read) where
  -- `disk'` holds `bytes` at `offset`, and what `disk` held before it.
  pub record Holds (disk disk' : Disk) (offset : ℕ) (bytes : List ℕ) : Type 0 where
    pub there : read disk' offset (length bytes) ≡ bytes
    pub before : (p n : ℕ) → p + n ≤ offset → read disk' p n ≡ read disk p n

  pub pwrite-Holds :
      (disk : Disk) (bytes : List ℕ) (offset n : ℕ)
      → n ≡ length bytes
      → is_count (dst.pwrite disk bytes offset).0 n ≡ true
      → Holds disk (dst.pwrite disk bytes offset).1 offset bytes
  pwrite-Holds disk bytes offset n e h = record {
    there = file.read_written disk _ bytes offset whole;
    before = λ p k. file.read_before disk _ bytes offset p k whole;
  }
    where
      whole : dst.pwrite disk bytes offset ≡ (some (length bytes), (dst.pwrite disk bytes offset).1)
      whole = cc (is_count→eq (dst.pwrite disk bytes offset).0 n h)

  Holds-append :
      {d d' d'' : Disk} (offset next : ℕ) (xs ys : List ℕ)
      → offset + length xs ≡ next
      → Holds d d' offset xs
      → Holds d' d'' next ys
      → Holds d d'' offset (xs ++ ys)
  Holds-append {d} {d'} {d''} offset next xs ys e h k = record {
    there = cc (
      length-append xs ys,
      e,
      file.read_add d'' offset (length xs) (length ys),
      k.before offset (length xs) (omega arith),
    );
    before = λ p n le. k.before p n (omega arith) ∙ h.before p n le;
  }

  -- A run of the loop that ends well has taken each step well.
  write_blocks_done :
      (b : Metablock) (bs : List Metablock) (offset : ℕ) (disk : Disk)
      → (write_blocks dst (b ∷ bs) offset disk).0 ≡ true
      → let (w, disk') = dst.pwrite disk (le16 (block_header b)) offset in
        let (w', disk'') = dst.pwrite disk' b.contents ((offset + 2) % off_mod) in
        let rest = write_blocks dst bs ((offset + (b.size + 2)) % off_mod) disk'' in
        (is_count w 2 ≡ true)
        × (is_count w' b.size ≡ true)
        × (write_blocks dst (b ∷ bs) offset disk ≡ rest)
  unfolding write_blocks
  write_blocks_done b bs offset disk h = ground arith

  write_blocks-Holds :
      (start : ℕ) (bs : List Metablock) (offset : ℕ) (disk : Disk)
      → IsChain start bs
      → offset + stored_size bs < off_mod
      → (write_blocks dst bs offset disk).0 ≡ true
      → Holds disk (write_blocks dst bs offset disk).1 offset (encode bs)
  write_blocks-Holds start [] offset disk chain fits done =
      unfold write_blocks in record { there = file.read_none disk offset; before = λ p n le. refl }
  write_blocks-Holds start (b ∷ bs) offset disk chain fits done =
      let (w, w', e) = write_blocks_done b bs offset disk done in
      let sum : (offset + 2) % off_mod ≡ offset + 2 = omega arith in
      let sum' : (offset + (b.size + 2)) % off_mod ≡ offset + (b.size + 2) = omega arith in
      let header = le16 (block_header b) in
      let disk' = (dst.pwrite disk header offset).1 in
      let disk'' = (dst.pwrite disk' b.contents ((offset + 2) % off_mod)).1 in
      let placed : Holds disk' disk'' (offset + 2) b.contents =
        subst (λ o. Holds disk' disk'' o b.contents) sum
          (pwrite-Holds disk' b.contents ((offset + 2) % off_mod) b.size chain.1 w') in
      let rest : Holds disk'' (write_blocks dst bs ((offset + (b.size + 2)) % off_mod) disk'').1
          (offset + (b.size + 2)) (encode bs) =
        subst
          (λ o.
            Holds disk'' (write_blocks dst bs ((offset + (b.size + 2)) % off_mod) disk'').1 o
              (encode bs))
          sum'
          (write_blocks-Holds (start + (b.size + 2)) bs ((offset + (b.size + 2)) % off_mod) disk''
            chain.3 (omega arith) (rw e at done)) in
      rw e (
        Holds-append offset (offset + (b.size + 2)) (encode_block b) (encode bs)
          (omega
            (arith, length-append header b.contents, length-le_bytes 2 (block_header b), chain.1))
          (Holds-append offset (offset + 2) header b.contents
            (omega (arith, length-le_bytes 2 (block_header b)))
            (pwrite-Holds disk header offset 2 (sym (length-le_bytes 2 (block_header b))) w) placed)
          rest)

  -- A table that fits 32 bits, written into an image that fits 64 bits: on success the file holds its
  -- blocks from the old end of the image on, `offset` points there, and the image has grown by them.
  pub write-Holds :
      (tab : Metatable) (out : Output Disk)
      → IsValid tab
      → stored_size (flush tab).blocks < u32_mod
      → out.size + stored_size (flush tab).blocks < off_mod
      → (write dst tab out).0 ≡ true
      → let (done, tab', out') = write dst tab out in
        Holds out.disk out'.disk out.size (encode (flush tab).blocks)
        × (tab' ≡ record (flush tab) { offset = out.size })
        × (out'.size ≡ out.size + length (encode (flush tab).blocks))
  unfolding write
  write-Holds tab out v small fits done =
      let f = flush-IsValid tab v in
      let exact : (flush tab).size ≡ stored_size (flush tab).blocks = omega (arith, f.sized) in
      (
        write_blocks-Holds 0 (flush tab).blocks out.size out.disk f.chain fits done,
        rw done,
        omega (arith, exact, length-encode 0 (flush tab).blocks f.chain),
      )
