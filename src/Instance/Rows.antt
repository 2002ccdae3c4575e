-- ===== src/Instance/Rows.antt =====
-- What the statements on `instances` do to the row that a lookup by id finds.
use hybrid_cloud_with_claude.Prelude.{
  ℕ, ◌≡◌, ◌==◌, refl, true, false, Option, some, none, List, [], ◌∷◌, ◌++◌, find_where,
  update_where, delete_where, any_where, if◌then◌else◌, arith,
}
use hybrid_cloud_with_claude.Schema.{Instance, InstanceState}
use hybrid_cloud_with_claude.Instance.Queries.{has_id, UpdateInstanceStateParams, with_state}

abbrev pub row_of : ℕ → List Instance → Option Instance
row_of id rows = find_where (has_id id) rows

abbrev pub state_in : Option Instance → Option InstanceState
state_in none = none
state_in (some i) = some i.state

abbrev pub state_of : ℕ → List Instance → Option InstanceState
state_of id rows = state_in (row_of id rows)

pub row_of-append :
    (id : ℕ) (rows : List Instance) (i : Instance)
    → row_of id (rows ++ i ∷ [])
      ≡ (elim (row_of id rows) [ some j ↦ some j | none ↦ if i.id == id then some i else none ])
row_of-append id [] i = ground arith
row_of-append id (x ∷ rows) i = ground (arith, row_of-append id rows i)

pub row_of-update :
    (now id : ℕ) (p : UpdateInstanceStateParams) (rows : List Instance)
    → row_of id (update_where (has_id p.id) (with_state now p) rows) ≡ (elim (row_of id rows) [
      | none ↦ none
      | some i ↦ some (if p.id == id then with_state now p i else i)
    ])
row_of-update now id p [] = refl
row_of-update now id p (x ∷ rows) = ground (arith, row_of-update now id p rows)

pub row_of-delete :
    (id k : ℕ) (rows : List Instance)
    → row_of id (delete_where (has_id k) rows) ≡ (if k == id then none else row_of id rows)
row_of-delete id k [] = ground arith
row_of-delete id k (x ∷ rows) = ground (arith, row_of-delete id k rows)

pub any-row_of :
    (id : ℕ) (rows : List Instance)
    → any_where (has_id id) rows ≡ (elim (row_of id rows) [ none ↦ false | some _ ↦ true ])
any-row_of id [] = refl
any-row_of id (x ∷ rows) = ground (arith, any-row_of id rows)
