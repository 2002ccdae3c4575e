-- ===== src/Instance/Queries.antt =====
-- The statements of services/main-api/internal/db/dbstore/instances.sql.go on the tables.
use hybrid_cloud_with_claude.Prelude.{
  ℕ, ◌==◌, Bool, true, false, not, ◌&&◌, ◌||◌, String, Option, some, none, List, [], ◌∷◌, ◌++◌,
  find_where, update_where, delete_where, select_where, any_where, sort_by, leb, if◌then◌else◌,
}
use hybrid_cloud_with_claude.Prelude.Int.{ℤ, pos, ltb_ℤ, leb_ℤ}
use hybrid_cloud_with_claude.Schema.{
  InstanceState, pending, provisioning, running, state_eq, Instance, InstanceEvent, GpuSlot, Db,
}
use hybrid_cloud_with_claude.Store.{
  Result, ok, err, no_rows, unique_violation, check_violation, foreign_key_violation,
}

pub record CreateInput : Type 0 where
  pub owner_id : Option ℕ
  pub node_id : ℕ
  pub name : String
  pub memory_mib : ℤ
  pub vcpus : ℤ
  pub gpu_count : ℤ
  pub slot_indices : List ℤ
  pub ssh_pubkeys : List String
  pub image_ref : String

-- `id = $1`
abbrev pub has_id : ℕ → Instance → Bool
has_id id i = i.id == id

-- The foreign key of a nullable column.
abbrev references : Option ℕ → List ℕ → Bool
references none ids = true
references (some u) ids = any_where (λ v. v == u) ids

abbrev pub new_instance : ℕ → ℕ → CreateInput → Instance
new_instance uuid now input = record {
  id = uuid;
  owner_id = input.owner_id;
  node_id = input.node_id;
  name = input.name;
  state = pending;
  memory_mb = input.memory_mib;
  vcpus = input.vcpus;
  gpu_count = input.gpu_count;
  slot_indices = input.slot_indices;
  ssh_pubkeys = input.ssh_pubkeys;
  vm_internal_ip = none;
  image_ref = input.image_ref;
  error_message = "";
  created_at = now;
  updated_at = now;
}

-- CreateInstance, with the constraints of the table's definition.
unfoldable pub create_instance : ℕ → ℕ → CreateInput → Db → Result Instance × Db
create_instance uuid now input db =
    if not
      (ltb_ℤ (pos 0) input.memory_mib && ltb_ℤ (pos 0) input.vcpus && leb_ℤ (pos 0) input.gpu_count)
    then (err check_violation, db)
    else if any_where (has_id uuid) db.instances
    then (err unique_violation, db)
    else if not
        (any_where (λ n. n.id == input.node_id) db.nodes && references input.owner_id db.users)
    then (err foreign_key_violation, db)
    else (
      ok (new_instance uuid now input),
      record db { instances = db.instances ++ new_instance uuid now input ∷ [] },
    )

abbrev one_row {ℓ} : {A : Type ℓ} → Option A → Result A
one_row none = err no_rows
one_row (some a) = ok a

-- GetInstance
unfoldable pub get_instance : ℕ → Db → Result Instance × Db
get_instance id db = (one_row (find_where (has_id id) db.instances), db)

abbrev coalesce {ℓ} : {A : Type ℓ} → Option A → A → A
coalesce none a = a
coalesce (some b) a = b

abbrev coalesce_null {ℓ} : {A : Type ℓ} → Option A → Option A → Option A
coalesce_null none a = a
coalesce_null (some b) a = some b

pub record UpdateInstanceStateParams : Type 0 where
  pub id : ℕ
  pub state : InstanceState
  pub error_message : Option String
  pub vm_internal_ip : Option String

abbrev pub with_state : ℕ → UpdateInstanceStateParams → Instance → Instance
with_state now p i = record i {
  state = p.state;
  error_message = coalesce p.error_message i.error_message;
  vm_internal_ip = coalesce_null p.vm_internal_ip i.vm_internal_ip;
  updated_at = now;
}

-- UpdateInstanceState: `returning` gives the new row, or no row.
unfoldable pub update_instance_state : ℕ → UpdateInstanceStateParams → Db → Result Instance × Db
update_instance_state now p db =
    let rows = update_where (has_id p.id) (with_state now p) db.instances in
    (one_row (find_where (has_id p.id) rows), record db { instances = rows })

-- InsertInstanceEvent
unfoldable pub insert_instance_event : InstanceEvent → Db → Result (Unit {0}) × Db
insert_instance_event e db =
    if any_where (has_id e.instance_id) db.instances
    then (ok tt, record db { events = db.events ++ e ∷ [] })
    else (err foreign_key_violation, db)

-- `on delete set null`: only the reference goes, the slot's status stays.
abbrev is_current : ℕ → Option ℕ → Bool
is_current id none = false
is_current id (some j) = j == id

abbrev pub holds : ℕ → GpuSlot → Bool
holds id s = is_current id s.current_instance_id

-- DeleteInstance, with what the foreign keys do to the other tables.
unfoldable pub delete_instance : ℕ → Db → Result (Unit {0}) × Db
delete_instance id db = (
  ok tt,
  record db {
    instances = delete_where (has_id id) db.instances;
    events = delete_where (λ e. e.instance_id == id) db.events;
    slots = update_where (holds id) (λ s. record s { current_instance_id = none }) db.slots;
  },
)

-- ListNonTerminalInstancesForNode (nodes.sql.go)
unfoldable pub list_non_terminal_instances_for_node : ℕ → Db → Result (List Instance) × Db
unfolding state_eq
list_non_terminal_instances_for_node node_id db = (
  ok (
      select_where
        (λ i.
          i.node_id == node_id
          && (state_eq i.state pending
              || state_eq i.state provisioning
              || state_eq i.state running))
        db.instances),
  db,
)

abbrev pub owned_by : Option ℕ → Instance → Bool
owned_by none i = true
owned_by (some u) i = elim i.owner_id [ none ↦ false | some v ↦ v == u ]

-- ListInstances: newest first; a null owner lists all.
unfoldable pub list_instances : Option ℕ → Db → Result (List Instance) × Db
list_instances owner db = (
  ok (sort_by (λ a b. leb b.created_at a.created_at) (select_where (owned_by owner) db.instances)),
  db,
)
