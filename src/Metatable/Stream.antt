-- ===== src/Metatable/Stream.antt =====
-- The stream of bytes that a metadata table stands for, and that `append` (src/metatable.c) extends it
-- by the data, or by a part of them where `malloc` fails.
use mathlib.Core.List.{append-nil, append_assoc}
use libsqfs.Prelude.{
  ℕ, ◌≡◌, ap, refl, ◌∙◌, sym, true, false, Option, none, some, List, [], ◌∷◌, ◌++◌, if◌then◌else◌,
  inl, inr, Option-cases, arith,
}
use libsqfs.Memory.{Memory}
use libsqfs.Compressor.{Compressor, IsCodec}
use libsqfs.Metatable.Defs.{
  metadata_size, Metablock, Metatable, try_compress, store_compressed, flush_block, flush,
  new_block, getblock, fill_block,
}
use libsqfs.Metatable.Invariant.{IsValid, IsOpened, flush-none, flush-some}
use libsqfs.Metatable.Rounds.{
  IsReady, getblock-some, getblock-none, getblock-grant, contents-filled_block,
}

-- What a table's compressor, if it has one, is assumed to be.
abbrev pub IsCodecOf : Option Compressor → (List ℕ → List ℕ) → Type 0
IsCodecOf none expand = Unit
IsCodecOf (some c) expand = IsCodec c expand

-- The bytes of the block that is being filled.
abbrev pub opened_bytes : Option Metablock → List ℕ
opened_bytes none = []
opened_bytes (some b) = b.contents

module _ (expand : List ℕ → List ℕ) where
  -- The bytes that a reader gets from a finished block.
  abbrev pub expanded : Metablock → List ℕ
  expanded b = if b.compressed then expand b.contents else b.contents

  abbrev pub streamed : List Metablock → List ℕ
  streamed [] = []
  streamed (b ∷ bs) = expanded b ++ streamed bs

  abbrev pub stream : Metatable → List ℕ
  stream tab = streamed tab.blocks ++ opened_bytes tab.opened_block

  streamed-append : (xs ys : List Metablock) → streamed (xs ++ ys) ≡ streamed xs ++ streamed ys
  streamed-append [] ys = refl
  streamed-append (b ∷ xs) ys = simp (streamed-append xs ys, append_assoc)

  -- `tab'` comes from `tab` by finishing blocks and storing `bytes` behind what was there.
  pub record Extends (tab : Metatable) (bytes : List ℕ) (tab' : Metatable) : Type 0 where
    pub added : List Metablock
    pub grown : tab'.blocks ≡ tab.blocks ++ added
    pub tail :
        streamed added ++ opened_bytes tab'.opened_block ≡ opened_bytes tab.opened_block ++ bytes
    pub same_compressor : tab'.compressor ≡ tab.compressor

  pub Extends-refl : (tab : Metatable) → Extends tab [] tab
  Extends-refl tab = record {
    added = [];
    grown = sym (append-nil tab.blocks);
    tail = sym (append-nil (opened_bytes tab.opened_block));
    same_compressor = refl;
  }

  pub Extends-trans :
      {s t u : Metatable} {xs ys : List ℕ}
      → Extends s xs t
      → Extends t ys u
      → Extends s (xs ++ ys) u
  Extends-trans {s} {t} {u} {xs} {ys} p q = record {
    added = p.added ++ q.added;
    grown = cc (append_assoc s.blocks p.added q.added);
    tail = cc (
      streamed-append p.added q.added,
      append_assoc (streamed p.added) (streamed q.added) (opened_bytes u.opened_block),
      append_assoc (streamed p.added) (opened_bytes t.opened_block) ys,
      append_assoc (opened_bytes s.opened_block) xs ys,
    );
    same_compressor = q.same_compressor ∙ p.same_compressor;
  }

  pub stream-Extends :
      {s t : Metatable} {bytes : List ℕ} → Extends s bytes t → stream t ≡ stream s ++ bytes
  stream-Extends {s} {t} {bytes} p = cc (
    streamed-append s.blocks p.added,
    append_assoc (streamed s.blocks) (streamed p.added) (opened_bytes t.opened_block),
    append_assoc (streamed s.blocks) (opened_bytes s.opened_block) bytes,
  )

  expanded-store_compressed :
      (b : Metablock) (c : Option Compressor)
      → IsCodecOf c expand
      → b.compressed ≡ false
      → expanded (store_compressed b (try_compress c b.contents)) ≡ b.contents
  unfolding store_compressed try_compress
  expanded-store_compressed b none codec e = ground arith
  expanded-store_compressed b (some c) codec e =
      elim (Option-cases (c.compress_meta b.contents metadata_size)) [
        | inl none_out ↦ rw none_out (ground arith)
        | inr (out, packed) ↦ ground (arith, codec.meta_expands b.contents metadata_size out packed)
      ]

  pub flush_block-Extends :
      (tab : Metatable) (b : Metablock)
      → IsCodecOf tab.compressor expand
      → tab.opened_block ≡ some b
      → b.compressed ≡ false
      → Extends tab [] (flush_block tab b)
  unfolding flush_block
  flush_block-Extends tab b codec e plain = record {
    added = stored ∷ [];
    grown = refl;
    tail = rw e (
        append-nil (expanded stored ++ [])
        ∙ ap (λ (l : List ℕ). l ++ [])
            (expanded-store_compressed (record b { size = tab.opened_block_fill }) tab.compressor
              codec plain));
    same_compressor = refl;
  }
    where
      stored : Metablock
      stored =
          store_compressed (record b { size = tab.opened_block_fill })
            (try_compress tab.compressor b.contents)

  pub flush-Extends :
      (tab : Metatable) → IsCodecOf tab.compressor expand → IsValid tab → Extends tab [] (flush tab)
  flush-Extends tab codec v = elim (Option-cases tab.opened_block) [
    | inl e ↦ rw (flush-none tab e) (Extends-refl tab)
    | inr (b, e) ↦
        let opened : IsOpened (some b) tab.opened_block_fill tab.size = rw e at v.opened in
        rw (flush-some tab b e) (flush_block-Extends tab b codec e opened.2)
  ]

  pub getblock-Extends :
      (mem : Memory) (tab : Metatable)
      → (getblock mem tab).0 ≡ true
      → Extends tab [] (getblock mem tab).2
  getblock-Extends mem tab got = elim (Option-cases tab.opened_block) [
    | inl e ↦ rw (getblock-none mem tab e (getblock-grant mem tab e got)) (
        unfold new_block in
        record {
          added = [];
          grown = sym (append-nil tab.blocks);
          tail = rw e;
          same_compressor = refl;
        })
    | inr (b, e) ↦ rw (getblock-some mem tab b e) (Extends-refl tab)
  ]

  -- The copy of a round, before a full block is flushed.
  pub fill_block-Extends :
      (tab : Metatable) (b : Metablock) (chunk : List ℕ)
      → IsReady tab b
      → Extends tab chunk (fill_block tab b chunk)
  unfolding fill_block
  fill_block-Extends tab b chunk r = record {
    added = [];
    grown = sym (append-nil tab.blocks);
    tail = rw r.is_open (contents-filled_block tab b chunk r.filled);
    same_compressor = refl;
  }
