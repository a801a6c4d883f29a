-- ===== src/Image/BlockSize.antt =====
-- The block size of an image (`libsqfs_image_options_set_block_size`, src/image.c).
use Prim.Native.Nat.{bit_and}
use native.Mathlib.Nat.{pow-suc}
use libsqfs.Prelude.{
  ℕ, zero, suc, ◌+◌, ◌-◌, ◌*◌, ◌/◌, ◌%◌, ◌^◌, ◌≤◌, ◌<◌, ◌≡◌, ◌∙◌, ap, inl, inr, true, false, Option,
  Option-cases, List, [], ◌∷◌, ltb, ◌==◌, ==_iff, Bool-cases, arith, refl,
}
use libsqfs.Prelude.Powers.{bit_and_pred-half, bit_and_pred-pow, pow-half}
use libsqfs.Memory.{Memory}
use libsqfs.Image.Options.{
  ImageOptions, count_shifts, set_block_size, Setting, set_option, set_options, set_compressor,
  options_defaults,
}

-- The block size is the power of two that `block_size_log` says, from 4 KiB to 1 MiB.
pub record IsValid {C : Type 0} (o : ImageOptions C) : Type 0 where
  pub power : o.block_size ≡ 2 ^ o.block_size_log
  pub least : 4096 ≤ o.block_size
  pub most : o.block_size ≤ 1048576

double : (m log : ℕ) → 2 * m * 2 ^ log ≡ m * 2 ^ (log + 1)
double m log =
    let e : log + 1 ≡ suc log = omega arith in
    rw e (omega (arith, ap (λ (t : ℕ). m * t) (pow-suc 2 log)))

-- The loop counts to the exponent of a power of two.
count_shifts_lem :
    (fuel n log : ℕ)
    → 0 < n
    → n < 2 ^ fuel
    → bit_and n (n - 1) ≡ 0
    → n * 2 ^ log ≡ 2 ^ count_shifts fuel n log
unfolding count_shifts
count_shifts_lem zero n log pos small e = absurd (omega arith)
count_shifts_lem (suc fuel) n log pos small e = elim (Bool-cases (n / 2 == 0)) [
  | inl last ↦ let one : n ≡ 1 = ground (arith, last) in rw one (omega arith)
  | inr more ↦
      let big : 1 < n = ground (arith, more) in
      let (even, half) = bit_and_pred-half n big e in
      let below : n / 2 < 2 ^ fuel = omega (arith, pow-suc 2 fuel) in
      let ih = count_shifts_lem fuel (n / 2) (log + 1) (omega arith) below half in
      let doubled : n * 2 ^ log ≡ n / 2 * 2 ^ (log + 1) =
        ap (λ (m : ℕ). m * 2 ^ log) even ∙ double (n / 2) log in
      rw more (doubled ∙ ih)
]

count_shifts-pow : (fuel k log : ℕ) → k < fuel → count_shifts fuel (2 ^ k) log ≡ log + k
unfolding count_shifts
count_shifts-pow zero k log h = absurd (omega arith)
count_shifts-pow (suc fuel) zero log h = omega arith
count_shifts-pow (suc fuel) (suc k) log h =
    let (half, pos) = pow-half k in
    let more : (2 ^ k == 0) ≡ false = ground (arith, pos) in
    rw half (rw more (omega (arith, count_shifts-pow fuel k (log + 1) (omega arith))))

pow_mono : (j k : ℕ) → j ≤ k → 2 ^ j ≤ 2 ^ k
pow_mono zero k h = (pow-half k).1
pow_mono (suc j) zero h = absurd (omega arith)
pow_mono (suc j) (suc k) h = omega (arith, pow-suc 2 j, pow-suc 2 k, pow_mono j k (omega arith))

-- What a call does that takes the size.
sized-IsValid :
    {C : Type 0} (o : ImageOptions C) (n : ℕ)
    → bit_and n (n - 1) ≡ 0
    → 4096 ≤ n
    → n ≤ 1048576
    → IsValid (record o { block_size = n; block_size_log = count_shifts 64 n 0 })
sized-IsValid o n e least most = record {
  power = omega (arith, count_shifts_lem 64 n 0 (omega arith) (omega arith) e);
  least = least;
  most = most;
}

wrapped_pred : (n : ℕ) → 0 < n → n < 2 ^ 64 → (n + (2 ^ 64 - 1)) % 2 ^ 64 ≡ n - 1
wrapped_pred n pos small = omega arith

set_block_size-IsValid :
    {C : Type 0} (o : ImageOptions C) (n : ℕ) → IsValid o → IsValid (set_block_size o n)
unfolding set_block_size
set_block_size-IsValid o n v = elim (Bool-cases (bit_and n ((n + (2 ^ 64 - 1)) % 2 ^ 64) == 0)) [
  | inr e ↦ rw e v
  | inl e ↦ elim (Bool-cases (ltb n 4096)) [
    | inl small ↦ rw (e, small) v
    | inr least ↦ elim (Bool-cases (ltb 1048576 n)) [
      | inl large ↦ rw (e, least, large) v
      | inr most ↦
          let at_least : 4096 ≤ n = ground (arith, least) in
          let at_most : n ≤ 1048576 = ground (arith, most) in
          let p = wrapped_pred n (omega arith) (omega arith) in
          let e' : bit_and n (n - 1) ≡ 0 = rw p at ((==_iff _ _).0 e) in
          rw (e, least, most) (sized-IsValid o n e' at_least at_most)
    ]
  ]
]

-- A power of two in the range is taken.
pub set_block_size-takes :
    {C : Type 0} (o : ImageOptions C) (k : ℕ)
    → 12 ≤ k
    → k ≤ 20
    → set_block_size o (2 ^ k) ≡ record o { block_size = 2 ^ k; block_size_log = k }
unfolding set_block_size
set_block_size-takes o k low high =
    let least : 4096 ≤ 2 ^ k = pow_mono 12 k low in
    let most : 2 ^ k ≤ 1048576 = pow_mono k 20 high in
    let p = wrapped_pred (2 ^ k) (omega arith) (omega arith) in
    let e : (bit_and (2 ^ k) ((2 ^ k + (2 ^ 64 - 1)) % 2 ^ 64) == 0) ≡ true =
      rw p ((==_iff _ _).1 (bit_and_pred-pow k)) in
    let small : ltb (2 ^ k) 4096 ≡ false = ground (arith, least) in
    let large : ltb 1048576 (2 ^ k) ≡ false = ground (arith, most) in
    let counted : count_shifts 64 (2 ^ k) 0 ≡ k =
      omega (arith, count_shifts-pow 64 k 0 (omega arith)) in
    rw (e, small, large) (rw counted refl)

module _ {C : Type 0} (copy : C → Memory → Option C × Memory) where
  set_option-IsValid :
      (o : ImageOptions C) (s : Setting C) (mem : Memory)
      → IsValid o
      → IsValid (set_option copy o s mem).0
  unfolding set_option set_compressor
  set_option-IsValid o (Setting.block_size n) mem v = set_block_size-IsValid o n v
  set_option-IsValid o (Setting.compressor c) mem v = elim (Option-cases (copy c mem).0) [
    | inl none_left ↦ rw (none_left, set_compressor) v
    | inr (c', e) ↦
        rw (e, set_compressor) (record { power = v.power; least = v.least; most = v.most })
  ]
  set_option-IsValid o (Setting.inode_compression b) mem v = record {
    power = v.power;
    least = v.least;
    most = v.most;
  }
  set_option-IsValid o (Setting.data_compression b) mem v = record {
    power = v.power;
    least = v.least;
    most = v.most;
  }
  set_option-IsValid o (Setting.fragment_compression b) mem v = record {
    power = v.power;
    least = v.least;
    most = v.most;
  }
  set_option-IsValid o (Setting.exportable b) mem v = record {
    power = v.power;
    least = v.least;
    most = v.most;
  }
  set_option-IsValid o (Setting.padding b) mem v = record {
    power = v.power;
    least = v.least;
    most = v.most;
  }
  set_option-IsValid o (Setting.creation_time t) mem v = record {
    power = v.power;
    least = v.least;
    most = v.most;
  }
  set_option-IsValid o (Setting.fragment_option f) mem v = record {
    power = v.power;
    least = v.least;
    most = v.most;
  }

  all-IsValid :
      (o : ImageOptions C) (ss : List (Setting C)) (mem : Memory)
      → IsValid o
      → IsValid (set_options copy o ss mem).0
  unfolding set_options
  all-IsValid o [] mem v = v
  all-IsValid o (s ∷ ss) mem v =
      let (o', mem') = set_option copy o s mem in
      all-IsValid o' ss mem' (set_option-IsValid o s mem v)

  -- After any calls that change them, whatever sizes they ask for, the options of an image that began with the
  -- defaults have a block size that is the power of two `block_size_log` says, from 4 KiB to 1 MiB.
  pub set_options-IsValid :
      (c : C) (ss : List (Setting C)) (mem : Memory)
      → IsValid (set_options copy (options_defaults copy c) ss mem).0
  set_options-IsValid c ss mem =
      all-IsValid (options_defaults copy c) ss mem
        (record { power = refl; least = omega arith; most = omega arith })
