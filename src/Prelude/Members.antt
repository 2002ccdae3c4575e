-- ===== src/Prelude/Members.antt =====
-- The rows that a statement selects and sorts, one by one.
use mathlib.Core.Path.{◌≡◌, sym, ap, ◌∙◌}
use mathlib.Core.Bool.{Bool, true}
use mathlib.Core.Logic.{◌⊎◌, inl, inr}
use mathlib.Core.List.{List, [], ◌∷◌, Memᴰ}
use mathlib.Core.List.Memᴰ
use hybrid_cloud_with_claude.Prelude.Tests.{Bool-cases}
use hybrid_cloud_with_claude.Prelude.Rows.{select_where, insert_by, sort_by}

module _ {ℓ} {A : Type ℓ} where
  pub mem-select :
      (p : A → Bool) (xs : List A) {x : A} → Memᴰ x (select_where p xs) → Memᴰ x xs × (p x ≡ true)
  mem-select p [] m = absurd (Memᴰ.not-nil m)
  mem-select p (y ∷ xs) m = elim (Bool-cases (p y)) [
    | inl t ↦ elim (Memᴰ.cases_cons (rw t at m)) [
      | inl e ↦ (Memᴰ.head e, ap p e ∙ t)
      | inr m' ↦ let (inside, h) = mem-select p xs m' in (Memᴰ.tail inside, h)
    ]
    | inr f ↦ let (inside, h) = mem-select p xs (rw f at m) in (Memᴰ.tail inside, h)
  ]

  pub select-mem :
      (p : A → Bool) (xs : List A) {x : A} → Memᴰ x xs → p x ≡ true → Memᴰ x (select_where p xs)
  select-mem p [] m h = absurd (Memᴰ.not-nil m)
  select-mem p (y ∷ xs) m h = elim (Memᴰ.cases_cons m) [
    | inl e ↦ rw (ap p (sym e) ∙ h) (Memᴰ.head e)
    | inr m' ↦ elim (Bool-cases (p y)) [
      | inl t ↦ rw t (Memᴰ.tail (select-mem p xs m' h))
      | inr f ↦ rw f (select-mem p xs m' h)
    ]
  ]

  pub mem-insert_by :
      (before : A → A → Bool) (a : A) (xs : List A) {x : A}
      → Memᴰ x (insert_by before a xs)
      → (x ≡ a) ⊎ Memᴰ x xs
  mem-insert_by before a [] m = Memᴰ.cases_cons m
  mem-insert_by before a (y ∷ xs) m = elim (Bool-cases (before a y)) [
    | inl t ↦ Memᴰ.cases_cons (rw t at m)
    | inr f ↦ elim (Memᴰ.cases_cons (rw f at m)) [
      | inl e ↦ inr (Memᴰ.head e)
      | inr m' ↦ elim (mem-insert_by before a xs m') [
        | inl e ↦ inl e
        | inr m'' ↦ inr (Memᴰ.tail m'')
      ]
    ]
  ]

  pub insert_by-mem :
      (before : A → A → Bool) (a : A) (xs : List A) {x : A}
      → (x ≡ a) ⊎ Memᴰ x xs
      → Memᴰ x (insert_by before a xs)
  insert_by-mem before a [] (inl e) = Memᴰ.head e
  insert_by-mem before a [] (inr m) = absurd (Memᴰ.not-nil m)
  insert_by-mem before a (y ∷ xs) (inl e) = elim (Bool-cases (before a y)) [
    | inl t ↦ rw t (Memᴰ.head e)
    | inr f ↦ rw f (Memᴰ.tail (insert_by-mem before a xs (inl e)))
  ]
  insert_by-mem before a (y ∷ xs) (inr m) = elim (Bool-cases (before a y)) [
    | inl t ↦ rw t (Memᴰ.tail m)
    | inr f ↦ rw f (elim (Memᴰ.cases_cons m) [
      | inl e ↦ Memᴰ.head e
      | inr m' ↦ Memᴰ.tail (insert_by-mem before a xs (inr m'))
    ])
  ]

  pub mem-sort_by :
      (before : A → A → Bool) (xs : List A) {x : A} → Memᴰ x (sort_by before xs) → Memᴰ x xs
  mem-sort_by before [] m = m
  mem-sort_by before (y ∷ xs) m = elim (mem-insert_by before y (sort_by before xs) m) [
    | inl e ↦ Memᴰ.head e
    | inr m' ↦ Memᴰ.tail (mem-sort_by before xs m')
  ]

  pub sort_by-mem :
      (before : A → A → Bool) (xs : List A) {x : A} → Memᴰ x xs → Memᴰ x (sort_by before xs)
  sort_by-mem before [] m = m
  sort_by-mem before (y ∷ xs) m = elim (Memᴰ.cases_cons m) [
    | inl e ↦ insert_by-mem before y (sort_by before xs) (inl e)
    | inr m' ↦ insert_by-mem before y (sort_by before xs) (inr (sort_by-mem before xs m'))
  ]
