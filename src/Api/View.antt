-- ===== src/Api/View.antt =====
-- Requests, replies and messages of services/main-api/internal/api/admin_instances.go.
use hybrid_cloud_with_claude.Prelude.{
  ℕ, Bool, ◌||◌, String, str_eq, Option, some, none, List, [], ◌∷◌, ◌++◌, any_where, if◌then◌else◌,
}
use hybrid_cloud_with_claude.Prelude.Int.{ℤ, eq_ℤ}
use hybrid_cloud_with_claude.Schema.{
  InstanceState, pending, provisioning, running, stopping, stopped, failed, unknown, Instance,
  GpuSlot,
}
use hybrid_cloud_with_claude.Store.{Error, Result, ok, err, no_topology, bad_topology, unknown_gpu}

pub record CreateInstanceRequest : Type 0 where
  pub node_id : String
  pub name : String
  pub memory_mb : ℤ
  pub vcpus : ℤ
  pub gpu_count : ℤ
  pub ssh_pubkeys : List String
  pub image_ref : String

pub record InstanceView : Type 0 where
  pub id : ℕ
  pub node_id : ℕ
  pub name : String
  pub state : String
  pub memory_mb : ℤ
  pub vcpus : ℤ
  pub gpu_count : ℤ
  pub ssh_pubkeys : List String
  pub vm_internal_ip : String
  pub error_message : String
  pub created_at : ℕ
  pub updated_at : ℕ

-- `string(in.State)`
abbrev state_name : InstanceState → String
state_name pending = "pending"
state_name provisioning = "provisioning"
state_name running = "running"
state_name stopping = "stopping"
state_name stopped = "stopped"
state_name failed = "failed"
state_name (unknown s) = s

abbrev text_or_empty : Option String → String
text_or_empty none = ""
text_or_empty (some s) = s

abbrev pub to_instance_view : Instance → InstanceView
to_instance_view i = record {
  id = i.id;
  node_id = i.node_id;
  name = i.name;
  state = state_name i.state;
  memory_mb = i.memory_mb;
  vcpus = i.vcpus;
  gpu_count = i.gpu_count;
  ssh_pubkeys = i.ssh_pubkeys;
  vm_internal_ip = text_or_empty i.vm_internal_ip;
  error_message = i.error_message;
  created_at = i.created_at;
  updated_at = i.updated_at;
}

-- What a handler writes: `writeError` with its status and code (its text is left out), or a success.
pub data Reply : Type 0 where
  refused : ℕ → String → Reply
  created : InstanceView → Reply
  accepted no_content : Reply
  shown : InstanceView → Reply
  listed : List InstanceView → Reply

-- The CreateInstance and DestroyInstance messages to an agent.
pub data ControlMessage : Type 0 where
  create_instance : Instance → List ℤ → List String → ControlMessage
  destroy_instance : ℕ → ControlMessage

-- AgentDispatcher: which nodes have an open stream, and what `Send` answers.
pub record Dispatcher : Type 0 where
  pub connected : ℕ → Bool
  pub send : ℕ → ControlMessage → Result (Unit {0})

-- A GPU of the stored topology.
pub record Gpu : Type 0 where
  pub index : ℤ
  pub pci_address : String
  pub companion_pci_addresses : List String

-- json.Unmarshal of a request, uuid.Parse, protojson.Unmarshal of a topology, and the text of an error.
pub record Codec : Type 0 where
  pub decode_request : String → Option CreateInstanceRequest
  pub parse_uuid : String → Option ℕ
  pub parse_topology : String → Option (List Gpu)
  pub error_text : Error → String

-- The map `byIndex`: of two GPUs with one index the later one stays.
unfoldable pub gpu_at : List Gpu → ℤ → Option Gpu
gpu_at [] idx = none
gpu_at (g ∷ rest) idx = elim (gpu_at rest idx) [
  | some later ↦ some later
  | none ↦ if eq_ℤ g.index idx then some g else none
]

abbrev pub add_addresses : Option Gpu → Result (List String) → Result (List String)
add_addresses none rest = err unknown_gpu
add_addresses (some g) (err e) = err e
add_addresses (some g) (ok pcis) = ok (g.pci_address ∷ g.companion_pci_addresses ++ pcis)

unfoldable pub addresses : List Gpu → List ℤ → Result (List String)
unfolding gpu_at
addresses gpus [] = ok []
addresses gpus (idx ∷ rest) = add_addresses (gpu_at gpus idx) (addresses gpus rest)

abbrev pub join_addresses : Result (List String) → Result (List String) → Result (List String)
join_addresses (err e) rest = err e
join_addresses (ok xs) (err e) = err e
join_addresses (ok xs) (ok ys) = ok (xs ++ ys)

unfoldable pub slot_addresses : List Gpu → List GpuSlot → Result (List String)
unfolding addresses
slot_addresses gpus [] = ok []
slot_addresses gpus (s ∷ rest) =
    join_addresses (addresses gpus s.gpu_indices) (slot_addresses gpus rest)

abbrev parsed_addresses : Option (List Gpu) → List GpuSlot → Result (List String)
parsed_addresses none slots = err bad_topology
parsed_addresses (some gpus) slots = slot_addresses gpus slots

unfoldable pub resolve_passthrough_pci : Codec → String → List GpuSlot → Result (List String)
unfolding slot_addresses
resolve_passthrough_pci codec topology_json slots =
    if str_eq topology_json "" || str_eq topology_json "{}"
    then err no_topology
    else parsed_addresses (codec.parse_topology topology_json) slots

-- The loop of mergeSSHPubkeys over one of its lists; `out` holds the keys kept so far, which are
-- those of `seen`.
unfoldable pub merge_into : List String → List String → List String
merge_into out [] = out
merge_into out (k ∷ ks) = merge_into (if any_where (str_eq k) out then out else out ++ k ∷ []) ks

unfoldable pub merge_ssh_pubkeys : List String → List String → List String
unfolding merge_into
merge_ssh_pubkeys a b = merge_into (merge_into [] a) b
