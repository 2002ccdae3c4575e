-- ===== src/Prelude/Kept.antt =====
-- Properties of the rows that a deletion keeps and a search finds.
use mathlib.Core.Path.{◌≡◌, ◌∙◌, ap, sym, subst}
use mathlib.Core.Logic.{inl, inr}
use mathlib.Core.Bool.{Bool, true}
use mathlib.Core.Option.{some}
use mathlib.Core.List.{List, [], ◌∷◌}
use native.Mathlib.Omega.{arith}
use hybrid_cloud_with_claude.Prelude.Tests.{Bool-cases}
use hybrid_cloud_with_claude.Prelude.Rows.{All, delete_where, find_where}

module _ {A : Type 0} (P : A → Type 0) (p : A → Bool) where
  pub All-delete : (xs : List A) → All P xs → All P (delete_where p xs)
  All-delete [] h = tt
  All-delete (x ∷ xs) h = elim (Bool-cases (p x)) [
    | inl t ↦ rw t (All-delete xs h.1)
    | inr f ↦ rw f (h.0, All-delete xs h.1)
  ]

  -- What holds of every row holds of the one that is found.
  pub All-find : (xs : List A) (x : A) → find_where p xs ≡ some x → All P xs → P x × (p x ≡ true)
  All-find [] x e h = ground arith
  All-find (y ∷ xs) x e h = elim (Bool-cases (p y)) [
    | inl t ↦ let same : y ≡ x = ground arith in (subst P same h.0, ap p (sym same) ∙ t)
    | inr f ↦ All-find xs x (ground arith) h.1
  ]
