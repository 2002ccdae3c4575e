-- ===== src/Api/Keys.antt =====
-- The union of two lists of SSH keys (mergeSSHPubkeys of services/main-api/internal/api/admin_instances.go).
use hybrid_cloud_with_claude.Prelude.{
  ◌+◌, ◌≤◌, ◌≡◌, refl, ◌∙◌, inl, inr, true, false, ◌||◌, String, str_eq, str_eq_iff, List, [], ◌∷◌,
  ◌++◌, any_where, count_where, Bool-cases, arith,
}
use hybrid_cloud_with_claude.Api.View.{merge_into, merge_ssh_pubkeys}

any-append :
    (k : String) (xs : List String) (x : String)
    → any_where (str_eq k) (xs ++ x ∷ []) ≡ (any_where (str_eq k) xs || str_eq k x)
any-append k [] x = ground arith
any-append k (y ∷ xs) x = ground (arith, any-append k xs x)

count-append :
    (k : String) (xs : List String) (x : String)
    → count_where (str_eq k) (xs ++ x ∷ [])
      ≡ count_where (str_eq k) xs + count_where (str_eq k) (x ∷ [])
count-append k [] x = ground arith
count-append k (y ∷ xs) x = ground (arith, count-append k xs x)

count_of_any :
    (k : String) (xs : List String)
    → any_where (str_eq k) xs ≡ false
    → count_where (str_eq k) xs ≡ 0
count_of_any k [] h = refl
count_of_any k (y ∷ xs) h = ground (arith, count_of_any k xs)

any_of_eq :
    (k x : String) (xs : List String)
    → str_eq k x ≡ true
    → any_where (str_eq x) xs ≡ any_where (str_eq k) xs
any_of_eq k x xs h = let e : k ≡ x = ground (arith, str_eq_iff k x) in rw e refl

any-merge_into :
    (k : String) (out ks : List String)
    → any_where (str_eq k) (merge_into out ks)
      ≡ (any_where (str_eq k) out || any_where (str_eq k) ks)
unfolding merge_into
any-merge_into k out [] = ground arith
any-merge_into k out (x ∷ ks) = elim (Bool-cases (any_where (str_eq x) out)) [
  | inl t ↦ rw t (any-merge_into k out ks ∙ ground (arith, any_of_eq k x out))
  | inr f ↦ rw f (any-merge_into k (out ++ x ∷ []) ks ∙ ground (arith, any-append k out x))
]

abbrev pub NoDuplicates : List String → Type 0
NoDuplicates xs = (k : String) → count_where (str_eq k) xs ≤ 1

added-NoDuplicates :
    (x : String) (out : List String)
    → any_where (str_eq x) out ≡ false
    → NoDuplicates out
    → NoDuplicates (out ++ x ∷ [])
added-NoDuplicates x out f h k =
    ground (arith, count-append k out x, h k, any_of_eq k x out, count_of_any k out)

merge_into-NoDuplicates :
    (out ks : List String) → NoDuplicates out → NoDuplicates (merge_into out ks)
unfolding merge_into
merge_into-NoDuplicates out [] h = h
merge_into-NoDuplicates out (x ∷ ks) h = elim (Bool-cases (any_where (str_eq x) out)) [
  | inl t ↦ rw t (merge_into-NoDuplicates out ks h)
  | inr f ↦ rw f (merge_into-NoDuplicates (out ++ x ∷ []) ks (added-NoDuplicates x out f h))
]

-- The merged list holds a key just when one of the two lists does, and each key once.
pub merge_ssh_pubkeys-union :
    (a b : List String)
    → NoDuplicates (merge_ssh_pubkeys a b)
      × ((k : String)
          → any_where (str_eq k) (merge_ssh_pubkeys a b)
            ≡ (any_where (str_eq k) a || any_where (str_eq k) b))
unfolding merge_ssh_pubkeys
merge_ssh_pubkeys-union a b = (
  merge_into-NoDuplicates (merge_into [] a) b (merge_into-NoDuplicates [] a (λ k. omega arith)),
  λ k. any-merge_into k (merge_into [] a) b ∙ ground (arith, any-merge_into k [] a),
)
