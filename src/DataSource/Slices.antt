-- ===== src/DataSource/Slices.antt =====
-- Slices of lists that stand behind one another.
use libsqfs.Prelude.{
  ℕ, zero, suc, ◌+◌, ◌-◌, ◌≤◌, ◌≡◌, refl, ap, ap₂, ◌∙◌, List, [], ◌∷◌, ◌++◌, length, take, drop,
  take_add, take-append_length, drop-append_length, drop-append_ge, arith,
}

module _ {ℓ} {A : Type ℓ} where
  -- What lies wholly in front is left out.
  pub drop-append_skip :
      (n : ℕ) (xs ys : List A) → length xs ≤ n → drop n (xs ++ ys) ≡ drop (n - length xs) ys
  drop-append_skip n xs ys h =
      let split : n ≡ length xs + (n - length xs) = omega arith in
      ap (λ k. drop k (xs ++ ys)) split ∙ drop-append_ge (n - length xs) xs ys

  -- A slice that goes on behind the first list.
  pub take-append_more :
      (n : ℕ) (xs ys : List A) → length xs ≤ n → take n (xs ++ ys) ≡ xs ++ take (n - length xs) ys
  take-append_more n xs ys h =
      let split : n ≡ length xs + (n - length xs) = omega arith in
      ap (λ k. take k (xs ++ ys)) split
      ∙ (take_add (length xs) (n - length xs) (xs ++ ys)
          ∙ ap₂ ◌++◌ (take-append_length xs ys)
              (ap (take (n - length xs)) (drop-append_length xs ys)))

  -- A slice of a slice.
  pub take-drop-take :
      (n m k : ℕ) (xs : List A) → m + n ≤ k → take n (drop m (take k xs)) ≡ take n (drop m xs)
  take-drop-take zero m k xs h = refl
  take-drop-take (suc n) zero zero xs h = absurd (omega arith)
  take-drop-take (suc n) (suc m) zero xs h = absurd (omega arith)
  take-drop-take (suc n) zero (suc k) [] h = refl
  take-drop-take (suc n) zero (suc k) (x ∷ xs) h =
      ap (λ l. x ∷ l) (take-drop-take n zero k xs (omega arith))
  take-drop-take (suc n) (suc m) (suc k) [] h = refl
  take-drop-take (suc n) (suc m) (suc k) (x ∷ xs) h = take-drop-take (suc n) m k xs (omega arith)
