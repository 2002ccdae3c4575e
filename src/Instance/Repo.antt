-- ===== src/Instance/Repo.antt =====
-- services/main-api/internal/instance/repo.go: a row and its audit event in one transaction.
use hybrid_cloud_with_claude.Prelude.{
  ℕ, Bool, false, ◌&&◌, not, String, str_eq, Option, some, none, if◌then◌else◌,
}
use hybrid_cloud_with_claude.Schema.{InstanceState, pending, state_eq, Instance, InstanceEvent}
use hybrid_cloud_with_claude.Store.{
  Result, ok, err, Q, ◌>>=◌, ◌>>◌, pure, lift, statement, fresh_uuid, clock, in_tx,
  invalid_transition,
}
use hybrid_cloud_with_claude.Instance.Machine.{validate, can_transition}
use hybrid_cloud_with_claude.Instance.Queries.{
  CreateInput, UpdateInstanceStateParams, create_instance, get_instance, update_instance_state,
  insert_instance_event, delete_instance,
}

pub record TransitionOptions : Type 0 where
  pub reason : String
  pub error_message : String
  pub vm_internal_ip : Option String
  pub event_metadata : String
  pub skip_idempotent : Bool

abbrev pub because : String → TransitionOptions
because reason = record {
  reason = reason;
  error_message = "";
  vm_internal_ip = none;
  event_metadata = "";
  skip_idempotent = false;
}

abbrev pub created_event : ℕ → ℕ → InstanceEvent
created_event id now = record {
  instance_id = id;
  from_state = none;
  to_state = pending;
  reason = "created";
  metadata = "{}";
  created_at = now;
}

unfoldable pub create_body : CreateInput → Q Instance
unfolding create_instance insert_instance_event statement fresh_uuid clock
create_body input = do
  uuid ← fresh_uuid
  now ← clock
  created ← statement (create_instance uuid now input)
  statement (insert_instance_event (created_event created.id now))
  pure created

unfoldable pub create : CreateInput → Q Instance
unfolding create_body in_tx
create input = in_tx (create_body input)

-- The two guards of Transition.
unfoldable pub check_transition : InstanceState → InstanceState → Bool → Result (Unit {0})
unfolding state_eq can_transition
check_transition from to skip_idempotent =
    if state_eq from to && skip_idempotent
    then err invalid_transition
    else if not (can_transition from to)
    then err invalid_transition
    else ok tt

abbrev non_empty : String → Option String
non_empty s = if str_eq s "" then none else some s

abbrev json_or_empty : String → String
json_or_empty s = if str_eq s "" then "{}" else s

abbrev pub params_of : ℕ → InstanceState → TransitionOptions → UpdateInstanceStateParams
params_of id to opts = record {
  id = id;
  state = to;
  error_message = non_empty opts.error_message;
  vm_internal_ip = opts.vm_internal_ip;
}

abbrev pub event_of : ℕ → ℕ → InstanceState → InstanceState → TransitionOptions → InstanceEvent
event_of now id from to opts = record {
  instance_id = id;
  from_state = some from;
  to_state = to;
  reason = opts.reason;
  metadata = json_or_empty opts.event_metadata;
  created_at = now;
}

unfoldable pub transition_body : ℕ → InstanceState → TransitionOptions → Q Instance
unfolding get_instance update_instance_state insert_instance_event statement clock
transition_body id to opts = do
  now ← clock
  current ← statement (get_instance id)
  lift (check_transition current.state to opts.skip_idempotent)
  updated ← statement (update_instance_state now (params_of id to opts))
  statement (insert_instance_event (event_of now id current.state to opts))
  pure updated

unfoldable pub transition : ℕ → InstanceState → TransitionOptions → Q Instance
unfolding transition_body in_tx
transition id to opts = do lift (validate to); in_tx (transition_body id to opts)

unfoldable pub get : ℕ → Q Instance
unfolding get_instance statement
get id = statement (get_instance id)

unfoldable pub delete : ℕ → Q (Unit {0})
unfolding delete_instance statement
delete id = statement (delete_instance id)
