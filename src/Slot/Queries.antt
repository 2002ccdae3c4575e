-- ===== src/Slot/Queries.antt =====
-- The statements of services/main-api/internal/db/dbstore/slots.sql.go on the tables.
use hybrid_cloud_with_claude.Prelude.{
  ℕ, ◌==◌, Bool, true, false, not, ◌&&◌, ◌||◌, String, str_eq, Option, some, none, List, [], ◌∷◌,
  ◌++◌, map, take, find_where, update_where, delete_where, select_where, count_where, any_where,
  sort_by, if◌then◌else◌,
}
use hybrid_cloud_with_claude.Prelude.Int.{ℤ, pos, pos_part, ltb_ℤ, leb_ℤ, eq_ℤ}
use hybrid_cloud_with_claude.Schema.{
  SlotStatus, free, reserved, in_use, slot_status_eq, GpuSlot, Node, Db,
}
use hybrid_cloud_with_claude.Store.{
  Result, ok, err, no_rows, unique_violation, check_violation, foreign_key_violation,
}
use hybrid_cloud_with_claude.Instance.Queries.{holds}

-- `id = any(ids)`
abbrev pub id_in : List ℕ → GpuSlot → Bool
id_in ids s = any_where (λ u. s.id == u) ids

abbrev pub has_status : SlotStatus → GpuSlot → Bool
has_status status s = slot_status_eq s.status status

abbrev pub on_node : ℕ → GpuSlot → Bool
on_node node_id s = s.node_id == node_id

abbrev pub slot_at : ℕ → GpuSlot → Bool
slot_at id s = s.id == id

-- How the server's collation orders two texts is a parameter.
abbrev pub Collation : Type 0
Collation = String → String → Bool

-- `node_id = $1 and status = 'free' and gpu_count = $2`
unfoldable pub is_candidate : ℕ → ℤ → GpuSlot → Bool
unfolding slot_status_eq
is_candidate node_id size s = on_node node_id s && has_status free s && eq_ℤ s.gpu_count size

abbrev pub has_domain : GpuSlot → Bool
has_domain s = not (str_eq s.nvlink_domain "")

-- `order by case when nvlink_domain <> '' then 0 else 1 end, nvlink_domain, slot_index`
unfoldable pub reserve_order : Collation → GpuSlot → GpuSlot → Bool
reserve_order text_le a b =
    if has_domain a && not (has_domain b)
    then true
    else if has_domain b && not (has_domain a)
    then false
    else if str_eq a.nvlink_domain b.nvlink_domain
    then leb_ℤ a.slot_index b.slot_index
    else text_le a.nvlink_domain b.nvlink_domain

-- The common table expression `picked`.
abbrev pub picked : Collation → ℕ → ℤ → ℤ → List GpuSlot → List GpuSlot
picked text_le node_id size limit slots =
    take (pos_part limit)
      (sort_by (reserve_order text_le) (select_where (is_candidate node_id size) slots))

abbrev pub slot_ids : List GpuSlot → List ℕ
slot_ids = map (λ s. s.id)

abbrev pub reserve_row : GpuSlot → GpuSlot
reserve_row s = record s { status = reserved }

-- ReserveFreeSlots
unfoldable pub reserve_free_slots : Collation → ℕ → ℤ → ℤ → Db → Result (List GpuSlot) × Db
reserve_free_slots text_le node_id size limit db =
    let ids = slot_ids (picked text_le node_id size limit db.slots) in
    let rows = update_where (id_in ids) reserve_row db.slots in
    (ok (select_where (id_in ids) rows), record db { slots = rows })

abbrev pub bind_row : ℕ → GpuSlot → GpuSlot
bind_row instance_id s = record s { status = in_use; current_instance_id = some instance_id }

abbrev pub is_reserved_at : ℕ → GpuSlot → Bool
is_reserved_at id s = slot_at id s && has_status reserved s

abbrev bind_found : Option GpuSlot → ℕ → ℕ → Db → Result GpuSlot × Db
bind_found none id instance_id db = (err no_rows, db)
bind_found (some s) id instance_id db =
    if any_where (λ i. i.id == instance_id) db.instances
    then (
      ok (bind_row instance_id s),
      record db { slots = update_where (is_reserved_at id) (bind_row instance_id) db.slots },
    )
    else (err foreign_key_violation, db)

-- BindSlotToInstance
unfoldable pub bind_slot_to_instance : ℕ → ℕ → Db → Result GpuSlot × Db
unfolding slot_status_eq
bind_slot_to_instance id instance_id db =
    bind_found (find_where (is_reserved_at id) db.slots) id instance_id db

-- CountNonFreeSlotsForNode
unfoldable pub count_non_free_slots_for_node : ℕ → Db → Result ℕ × Db
unfolding slot_status_eq
count_non_free_slots_for_node node_id db =
    (ok (count_where (λ s. on_node node_id s && not (has_status free s)) db.slots), db)

-- DeleteSlotsForNode
unfoldable pub delete_slots_for_node : ℕ → Db → Result (Unit {0}) × Db
delete_slots_for_node node_id db =
    (ok tt, record db { slots = delete_where (on_node node_id) db.slots })

pub record InsertSlotParams : Type 0 where
  pub node_id : ℕ
  pub slot_index : ℤ
  pub gpu_count : ℤ
  pub gpu_indices : List ℤ
  pub nvlink_domain : String

abbrev pub new_slot : ℕ → InsertSlotParams → GpuSlot
new_slot uuid p = record {
  id = uuid;
  node_id = p.node_id;
  slot_index = p.slot_index;
  gpu_count = p.gpu_count;
  gpu_indices = p.gpu_indices;
  nvlink_domain = p.nvlink_domain;
  status = free;
  current_instance_id = none;
}

-- InsertSlot, with the constraints of the table's definition.
unfoldable pub insert_slot : ℕ → InsertSlotParams → Db → Result (Unit {0}) × Db
insert_slot uuid p db =
    if not (ltb_ℤ (pos 0) p.gpu_count)
    then (err check_violation, db)
    else if any_where (λ s. s.id == uuid || (on_node p.node_id s && eq_ℤ s.slot_index p.slot_index))
        db.slots
    then (err unique_violation, db)
    else if not (any_where (λ n. n.id == p.node_id) db.nodes)
    then (err foreign_key_violation, db)
    else (ok tt, record db { slots = db.slots ++ new_slot uuid p ∷ [] })

abbrev pub free_row : GpuSlot → GpuSlot
free_row s = record s { status = free; current_instance_id = none }

abbrev is_null {ℓ} : {A : Type ℓ} → Option A → Bool
is_null none = true
is_null (some _) = false

-- ReleaseAllOrphanReservedSlots
unfoldable pub release_all_orphan_reserved_slots : Db → Result ℕ × Db
unfolding slot_status_eq
release_all_orphan_reserved_slots db =
    let p = λ (s : GpuSlot). has_status reserved s && is_null s.current_instance_id in
    (ok (count_where p db.slots), record db { slots = update_where p free_row db.slots })

-- ReleaseReservedSlots
unfoldable pub release_reserved_slots : List ℕ → Db → Result ℕ × Db
unfolding slot_status_eq
release_reserved_slots ids db =
    let p = λ (s : GpuSlot). id_in ids s && has_status reserved s in
    (ok (count_where p db.slots), record db { slots = update_where p free_row db.slots })

-- ReleaseSlotsForInstance
unfoldable pub release_slots_for_instance : ℕ → Db → Result ℕ × Db
release_slots_for_instance instance_id db = (
  ok (count_where (holds instance_id) db.slots),
  record db { slots = update_where (holds instance_id) free_row db.slots },
)

-- GetNode and UpdateNodeProfileHash (nodes.sql.go, slots.sql.go)
abbrev one_node : Option Node → Result Node
one_node none = err no_rows
one_node (some n) = ok n

unfoldable pub get_node : ℕ → Db → Result Node × Db
get_node id db = (one_node (find_where (λ n. n.id == id) db.nodes), db)

unfoldable pub update_node_profile_hash : ℕ → ℕ → String → Db → Result (Unit {0}) × Db
update_node_profile_hash now id hash db = (
  ok tt,
  record db {
    nodes =
        update_where (λ n. n.id == id) (λ n. record n { profile_hash = hash; updated_at = now })
          db.nodes;
  },
)
