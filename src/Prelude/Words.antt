-- ===== src/Prelude/Words.antt =====
-- Arrays of integers of one width, in memory.
use Prim.Native.Nat.{ℕ, zero, suc, ◌+◌, ◌*◌, ◌^◌, ◌<◌}
use mathlib.Core.Path.{◌≡◌, ap, ◌∙◌}
use mathlib.Core.Option.{some}
use mathlib.Core.List.{List, [], ◌∷◌, ◌++◌}
use native.Mathlib.Nat.{mul-suc}
use native.Mathlib.Omega.{arith}
use libsqfs.Prelude.Lists.{length, get_elem?, drop, drop_add, drop-append_length, All}
use libsqfs.Prelude.Bytes.{le_bytes, read_le, length-le_bytes, read_le-le_bytes}

unfoldable pub words : ℕ → List ℕ → List ℕ
words w [] = []
words w (v ∷ vs) = le_bytes w v ++ words w vs

pub words-get :
    (w : ℕ) (vs : List ℕ) (n v : ℕ)
    → All (λ i. i < 256 ^ w) vs
    → get_elem? vs n ≡ some v
    → read_le w (drop (w * n) (words w vs)) ≡ v
unfolding words
words-get w [] n v small h = absurd (ground (arith, h))
words-get w (x ∷ vs) zero v (small, _) h =
    let start : w * 0 ≡ 0 = omega arith in
    let same : x ≡ v = ground (arith, h) in
    ap (λ k. read_le w (drop k (le_bytes w x ++ words w vs))) start
    ∙ (read_le-le_bytes w x (words w vs) small ∙ same)
words-get w (x ∷ vs) (suc n) v (_, small) h =
    let first = le_bytes w x in
    let split : w * suc n ≡ length first + w * n =
      omega (arith, mul-suc w n, length-le_bytes w x) in
    ap (λ k. read_le w (drop k (first ++ words w vs))) split
    ∙ (ap (read_le w) (drop_add (length first) (w * n) (first ++ words w vs))
        ∙ (ap (λ l. read_le w (drop (w * n) l)) (drop-append_length first (words w vs))
            ∙ words-get w vs n v small h))
