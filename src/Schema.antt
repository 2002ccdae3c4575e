-- ===== src/Schema.antt =====
-- The rows of the database: the enums and tables of
-- services/main-api/internal/db/dbstore/models.go, and one record for all the tables together.
-- A uuid is a number, a timestamp a number of seconds, an int32 or int64 a ℤ, a nullable column an
-- Option. JSON columns hold their text.
use hybrid_cloud_with_claude.Prelude.{ℕ, Bool, true, false, String, str_eq, Option, List}
use hybrid_cloud_with_claude.Prelude.Int.{ℤ}

-- `InstanceState` is a string type; `unknown` is any string outside the enum.
pub data InstanceState : Type 0 where
  pending provisioning running stopping stopped failed : InstanceState
  unknown : String → InstanceState

pub data SlotStatus : Type 0 where
  free reserved in_use slot_draining : SlotStatus

pub data NodeStatus : Type 0 where
  offline online degraded draining : NodeStatus

pub record Instance : Type 0 where
  pub id : ℕ
  pub owner_id : Option ℕ
  pub node_id : ℕ
  pub name : String
  pub state : InstanceState
  pub memory_mb : ℤ
  pub vcpus : ℤ
  pub gpu_count : ℤ
  pub slot_indices : List ℤ
  pub ssh_pubkeys : List String
  pub vm_internal_ip : Option String
  pub image_ref : String
  pub error_message : String
  pub created_at : ℕ
  pub updated_at : ℕ

-- The row's own id is a serial number that no code reads: rows stand in order of insertion.
pub record InstanceEvent : Type 0 where
  pub instance_id : ℕ
  pub from_state : Option InstanceState
  pub to_state : InstanceState
  pub reason : String
  pub metadata : String
  pub created_at : ℕ

pub record GpuSlot : Type 0 where
  pub id : ℕ
  pub node_id : ℕ
  pub slot_index : ℤ
  pub gpu_count : ℤ
  pub gpu_indices : List ℤ
  pub nvlink_domain : String
  pub status : SlotStatus
  pub current_instance_id : Option ℕ

pub record Node : Type 0 where
  pub id : ℕ
  pub zone_id : ℕ
  pub node_name : String
  pub hostname : String
  pub agent_version : String
  pub status : NodeStatus
  pub topology_json : String
  pub profile_hash : String
  pub last_heartbeat_at : Option ℕ
  pub updated_at : ℕ
  pub access_policy : String
  pub owner_team_id : Option ℕ

pub record Credit : Type 0 where
  pub user_id : ℕ
  pub balance_milli : ℤ
  pub updated_at : ℕ

pub record CreditLedger : Type 0 where
  pub user_id : ℕ
  pub delta_milli : ℤ
  pub reason : String
  pub instance_id : Option ℕ
  pub idempotency_key : String
  pub metadata : String
  pub created_at : ℕ

-- The tables. Of `users` only the ids are kept, which the foreign keys refer to.
pub record Db : Type 0 where
  pub users : List ℕ
  pub nodes : List Node
  pub instances : List Instance
  pub events : List InstanceEvent
  pub slots : List GpuSlot
  pub credits : List Credit
  pub ledger : List CreditLedger

-- `==` on InstanceState values.
unfoldable pub state_eq : InstanceState → InstanceState → Bool
state_eq pending pending = true
state_eq provisioning provisioning = true
state_eq running running = true
state_eq stopping stopping = true
state_eq stopped stopped = true
state_eq failed failed = true
state_eq (unknown s) (unknown t) = str_eq s t
state_eq _ _ = false

unfoldable pub slot_status_eq : SlotStatus → SlotStatus → Bool
slot_status_eq free free = true
slot_status_eq reserved reserved = true
slot_status_eq in_use in_use = true
slot_status_eq slot_draining slot_draining = true
slot_status_eq _ _ = false

unfoldable pub node_status_eq : NodeStatus → NodeStatus → Bool
node_status_eq offline offline = true
node_status_eq online online = true
node_status_eq degraded degraded = true
node_status_eq draining draining = true
node_status_eq _ _ = false
