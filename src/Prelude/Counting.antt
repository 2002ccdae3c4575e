-- ===== src/Prelude/Counting.antt =====
-- Counting the rows of a table that pass a test.
use Prim.Native.Nat.{ℕ, zero, suc, ◌+◌, ◌≤◌, min}
use mathlib.Core.Path.{◌≡◌, refl}
use mathlib.Core.Bool.{Bool, false, not, ◌&&◌}
use mathlib.Core.List.{List, [], ◌∷◌}
use native.Mathlib.Omega.{arith}
use hybrid_cloud_with_claude.Prelude.Lists.{length, take}
use hybrid_cloud_with_claude.Prelude.Rows.{select_where, count_where, All, insert_by, sort_by}

module _ {ℓ} {A : Type ℓ} where
  pub count-select :
      (p q : A → Bool) (xs : List A)
      → count_where q (select_where p xs) ≡ count_where (λ x. p x && q x) xs
  count-select p q [] = refl
  count-select p q (x ∷ xs) = ground (arith, count-select p q xs)

  pub count-insert_by :
      (q : A → Bool) (before : A → A → Bool) (a : A) (xs : List A)
      → count_where q (insert_by before a xs) ≡ count_where q (a ∷ xs)
  count-insert_by q before a [] = refl
  count-insert_by q before a (x ∷ xs) = ground (arith, count-insert_by q before a xs)

  pub count-sort_by :
      (q : A → Bool) (before : A → A → Bool) (xs : List A)
      → count_where q (sort_by before xs) ≡ count_where q xs
  count-sort_by q before [] = refl
  count-sort_by q before (x ∷ xs) =
      ground (arith, count-insert_by q before x (sort_by before xs), count-sort_by q before xs)

  pub count-take :
      (q : A → Bool) (n : ℕ) (xs : List A) → count_where q (take n xs) ≤ count_where q xs
  count-take q zero xs = omega arith
  count-take q (suc n) [] = omega arith
  count-take q (suc n) (x ∷ xs) = ground (arith, count-take q n xs)

  pub count-and-not :
      (p q : A → Bool) (xs : List A)
      → count_where q xs ≡ count_where (λ x. p x && q x) xs + count_where (λ x. not (p x) && q x) xs
  count-and-not p q [] = omega arith
  count-and-not p q (x ∷ xs) = ground (arith, count-and-not p q xs)

  -- Two tests that agree count alike.
  pub count-congr :
      (p q : A → Bool) (xs : List A) → All (λ x. p x ≡ q x) xs → count_where p xs ≡ count_where q xs
  count-congr p q [] h = refl
  count-congr p q (x ∷ xs) h = ground (arith, count-congr p q xs h.1)

  pub All-of_count : (p : A → Bool) (xs : List A) → count_where p xs ≡ 0 → All (λ x. p x ≡ false) xs
  All-of_count p [] h = tt
  All-of_count p (x ∷ xs) h = ground (arith, All-of_count p xs)

  pub length-take-le : (n : ℕ) (xs : List A) → length (take n xs) ≤ n
  length-take-le zero xs = omega arith
  length-take-le (suc n) [] = omega arith
  length-take-le (suc n) (x ∷ xs) = omega (arith, length-take-le n xs)

  pub length-insert_by :
      (before : A → A → Bool) (a : A) (xs : List A)
      → length (insert_by before a xs) ≡ suc (length xs)
  length-insert_by before a [] = refl
  length-insert_by before a (x ∷ xs) = ground (arith, length-insert_by before a xs)

  pub length-sort_by :
      (before : A → A → Bool) (xs : List A) → length (sort_by before xs) ≡ length xs
  length-sort_by before [] = refl
  length-sort_by before (x ∷ xs) =
      ground (arith, length-insert_by before x (sort_by before xs), length-sort_by before xs)

  pub length-select : (p : A → Bool) (xs : List A) → length (select_where p xs) ≡ count_where p xs
  length-select p [] = refl
  length-select p (x ∷ xs) = ground (arith, length-select p xs)

  pub length-take : (n : ℕ) (xs : List A) → length (take n xs) ≡ min n (length xs)
  length-take zero xs = omega arith
  length-take (suc n) [] = omega arith
  length-take (suc n) (x ∷ xs) = omega (arith, length-take n xs)
