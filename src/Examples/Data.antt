-- ===== src/Examples/Data.antt =====
-- Small tables for the examples: one node with three slots, one user, one running instance.
use hybrid_cloud_with_claude.Prelude.{◌+◌, ℕ, true, false, Option, some, none, [], ◌∷◌}
use hybrid_cloud_with_claude.Prelude.Int.{pos, negsuc}
use hybrid_cloud_with_claude.Schema.{
  InstanceState, pending, provisioning, running, Instance, InstanceEvent, GpuSlot, SlotStatus, free,
  in_use, Node, online, Credit, CreditLedger, Db,
}
use hybrid_cloud_with_claude.Store.{World}

abbrev pub slot_row : ℕ → SlotStatus → Option ℕ → GpuSlot
slot_row id status holder = record {
  id = id;
  node_id = 1;
  slot_index = pos id;
  gpu_count = pos 1;
  gpu_indices = pos id ∷ [];
  nvlink_domain = "";
  status = status;
  current_instance_id = holder;
}

abbrev pub node_row : Node
node_row = record {
  id = 1;
  zone_id = 1;
  node_name = "n1";
  hostname = "h1";
  agent_version = "1";
  status = online;
  topology_json = "topology";
  profile_hash = "";
  last_heartbeat_at = some 0;
  updated_at = 0;
  access_policy = "public";
  owner_team_id = none;
}

abbrev pub instance_row : Instance
instance_row = record {
  id = 10;
  owner_id = some 7;
  node_id = 1;
  name = "vm";
  state = running;
  memory_mb = pos 1024;
  vcpus = pos 2;
  gpu_count = pos 1;
  slot_indices = pos 100 ∷ [];
  ssh_pubkeys = [];
  vm_internal_ip = none;
  image_ref = "ubuntu";
  error_message = "";
  created_at = 0;
  updated_at = 0;
}

abbrev event_row : Option InstanceState → InstanceState → InstanceEvent
event_row from to = record {
  instance_id = 10;
  from_state = from;
  to_state = to;
  reason = "";
  metadata = "{}";
  created_at = 0;
}

abbrev pub credit_row : Credit
credit_row = record { user_id = 7; balance_milli = negsuc 4; updated_at = 0 }

abbrev entry_row : CreditLedger
entry_row = record {
  user_id = 7;
  delta_milli = negsuc 4;
  reason = "running_minute";
  instance_id = some 10;
  idempotency_key = "old";
  metadata = "{}";
  created_at = 0;
}

-- The instance holds slot 100; slots 101 and 102 are free.
abbrev pub busy_db : Db
busy_db = record {
  users = 7 ∷ [];
  nodes = node_row ∷ [];
  instances = instance_row ∷ [];
  events =
      event_row none pending
      ∷ event_row (some pending) provisioning
      ∷ event_row (some provisioning) running
      ∷ [];
  slots = slot_row 100 in_use (some 10) ∷ slot_row 101 free none ∷ slot_row 102 free none ∷ [];
  credits = credit_row ∷ [];
  ledger = entry_row ∷ [];
}

abbrev pub world_of : Db → ℕ → World
world_of db now = record { db = db; faults = []; uuids = λ n. 1000 + n; drawn = 0; now = now }

abbrev pub busy : World
busy = world_of busy_db 600

-- The same tables, over a connection that fails at the fourth statement.
abbrev pub failing : World
failing = record busy { faults = false ∷ false ∷ false ∷ true ∷ [] }
