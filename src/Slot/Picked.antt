-- ===== src/Slot/Picked.antt =====
-- Which rows the common table expression of ReserveFreeSlots picks
-- (services/main-api/internal/db/dbstore/slots.sql.go).
use hybrid_cloud_with_claude.Prelude.{
  ℕ, ◌+◌, ◌≤◌, ◌==◌, ◌≡◌, refl, false, not, ◌&&◌, List, [], ◌∷◌, length, select_where, count_where,
  any_where, sort_by, All, ℕ_discrete, min, arith,
}
use hybrid_cloud_with_claude.Prelude.Counting.{
  count-select, count-sort_by, count-take, count-and-not, All-of_count, length-take, length-sort_by,
  length-select,
}
use hybrid_cloud_with_claude.Prelude.Int.{ℤ, pos_part}
use hybrid_cloud_with_claude.Schema.{GpuSlot}
use hybrid_cloud_with_claude.Slot.Queries.{
  Collation, slot_at, id_in, slot_ids, picked, is_candidate, reserve_order,
}

-- The primary key: no id stands in two rows.
abbrev pub DistinctIds : List GpuSlot → Type 0
DistinctIds slots = (u : ℕ) → count_where (slot_at u) slots ≤ 1

abbrev Within : List GpuSlot → List GpuSlot → Type 0
Within ps slots = (u : ℕ) → count_where (slot_at u) ps ≤ count_where (slot_at u) slots

id_in-of_count :
    (u : ℕ) (ps : List GpuSlot)
    → count_where (slot_at u) ps ≡ 0
    → any_where (λ v. u == v) (slot_ids ps) ≡ false
id_in-of_count u [] h = refl
id_in-of_count u (p ∷ ps) h = ground (arith, id_in-of_count u ps)

count-id_in_cons :
    (p : GpuSlot) (ids : List ℕ) (slots : List GpuSlot)
    → any_where (λ v. p.id == v) ids ≡ false
    → count_where (id_in (p.id ∷ ids)) slots
      ≡ count_where (slot_at p.id) slots + count_where (id_in ids) slots
count-id_in_cons p ids [] h = omega arith
count-id_in_cons p ids (s ∷ slots) h = elim (ℕ_discrete s.id p.id) [
  | yes e ↦ ground (arith, count-id_in_cons p ids slots h)
  | no ne ↦ ground (arith, count-id_in_cons p ids slots h)
]

count-id_in_none : (slots : List GpuSlot) → count_where (id_in []) slots ≡ 0
count-id_in_none [] = refl
count-id_in_none (s ∷ slots) = count-id_in_none slots

Within-tail : (p : GpuSlot) (ps slots : List GpuSlot) → Within (p ∷ ps) slots → Within ps slots
Within-tail p ps slots sub u = ground (arith, sub u)

alone :
    (p : GpuSlot) (ps slots : List GpuSlot)
    → DistinctIds slots
    → Within (p ∷ ps) slots
    → (count_where (slot_at p.id) ps ≡ 0) × (count_where (slot_at p.id) slots ≡ 1)
alone p ps slots d sub = ground (arith, d p.id, sub p.id)

-- Rows of a table are found in it by their ids, each once.
pub count-id_in :
    (ps slots : List GpuSlot)
    → DistinctIds slots
    → Within ps slots
    → count_where (id_in (slot_ids ps)) slots ≡ length ps
count-id_in [] slots d sub = count-id_in_none slots
count-id_in (p ∷ ps) slots d sub =
    let (none_left, one) = alone p ps slots d sub in
    omega (
      arith,
      count-id_in_cons p (slot_ids ps) slots (id_in-of_count p.id ps none_left),
      count-id_in ps slots d (Within-tail p ps slots sub),
      one,
    )

module _ (text_le : Collation) (node_id : ℕ) (size limit : ℤ) (slots : List GpuSlot) where
  abbrev candidates : List GpuSlot
  candidates = select_where (is_candidate node_id size) slots

  abbrev rows : List GpuSlot
  rows = picked text_le node_id size limit slots

  rows-Within : Within rows candidates
  rows-Within u = omega (
    arith,
    count-take (slot_at u) (pos_part limit) (sort_by (reserve_order text_le) candidates),
    count-sort_by (slot_at u) (reserve_order text_le) candidates,
  )

  candidates-Within : Within candidates slots
  candidates-Within u = omega (
    arith,
    count-select (is_candidate node_id size) (slot_at u) slots,
    count-and-not (is_candidate node_id size) (slot_at u) slots,
  )

  pub count-picked : DistinctIds slots → count_where (id_in (slot_ids rows)) slots ≡ length rows
  count-picked d = count-id_in rows slots d (λ u. omega (arith, rows-Within u, candidates-Within u))

  -- The ids of the picked rows pick out candidates alone.
  pub picked-candidates :
      DistinctIds slots
      → All (λ s. (not (is_candidate node_id size s) && id_in (slot_ids rows) s) ≡ false) slots
  picked-candidates d = All-of_count _ slots (
      omega (
        arith,
        count-picked d,
        count-id_in rows candidates (λ u. omega (arith, d u, candidates-Within u)) rows-Within,
        count-select (is_candidate node_id size) (id_in (slot_ids rows)) slots,
        count-and-not (is_candidate node_id size) (id_in (slot_ids rows)) slots,
      ))

  pub length-picked :
      length rows ≡ min (pos_part limit) (count_where (is_candidate node_id size) slots)
  length-picked = rw (
    length-take (pos_part limit) (sort_by (reserve_order text_le) candidates),
    length-sort_by (reserve_order text_le) candidates,
    length-select (is_candidate node_id size) slots,
  )
