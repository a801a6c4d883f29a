-- ===== src/Compressor.antt =====
-- Compressor instances (src/compressor.h, src/compressor.c). The codecs behind them are zlib,
-- liblzma and libzstd; an instance is a record of functions, as its `vmt` is.
use libsqfs.Prelude.{ℕ, ◌≤◌, ◌≡◌, Option, some, List, length}

-- `compress` and `compress_meta` take the source bytes and the size of the output buffer; `none`
-- stands for the return value -1, else the list is what was written to the buffer.
pub record Compressor : Type 0 where
  pub compress : List ℕ → ℕ → Option (List ℕ)
  pub compress_meta : List ℕ → ℕ → Option (List ℕ)

unfoldable pub instance_compress : Compressor → List ℕ → ℕ → Option (List ℕ)
instance_compress c src dst_size = c.compress src dst_size

unfoldable pub instance_compress_meta : Compressor → List ℕ → ℕ → Option (List ℕ)
instance_compress_meta c src dst_size = c.compress_meta src dst_size

-- What the codecs document: the output fits the buffer, and `expand`, the decoder of a reader of the
-- image, gives the source back.
pub record IsCodec (c : Compressor) (expand : List ℕ → List ℕ) : Type 0 where
  pub fits : (src : List ℕ) (n : ℕ) (out : List ℕ) → c.compress src n ≡ some out → length out ≤ n
  pub meta_fits :
      (src : List ℕ) (n : ℕ) (out : List ℕ) → c.compress_meta src n ≡ some out → length out ≤ n
  pub expands :
      (src : List ℕ) (n : ℕ) (out : List ℕ) → c.compress src n ≡ some out → expand out ≡ src
  pub meta_expands :
      (src : List ℕ) (n : ℕ) (out : List ℕ) → c.compress_meta src n ≡ some out → expand out ≡ src
