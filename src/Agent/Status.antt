-- ===== src/Agent/Status.antt =====
-- The agent's messages after Register: handleAgentMessage and applyInstanceStatus of
-- services/main-api/internal/grpc/agent_stream.go, with the updater and the slot releaser wired as in
-- production.
use hybrid_cloud_with_claude.Prelude.{ℕ, false, String, str_eq, Option, some, none, if◌then◌else◌}
use hybrid_cloud_with_claude.Schema.{
  InstanceState, provisioning, running, stopping, stopped, failed, Instance,
}
use hybrid_cloud_with_claude.Store.{
  Result, ok, err, Q, ◌>>=◌, pure, fail, lift, attempt, bad_uuid, unknown_agent_state,
  register_again, unknown_payload, invalid_transition,
}
use hybrid_cloud_with_claude.Instance.Machine.{is_terminal}
use hybrid_cloud_with_claude.Instance.Repo.{TransitionOptions, transition}
use hybrid_cloud_with_claude.Slot.Repo.{release_for_instance}
use hybrid_cloud_with_claude.Agent.Nodes.{touch_heartbeat}

-- agentv1.InstanceState; `other` is unspecified or a number that the enum does not name.
pub data ReportedState : Type 0 where
  reported_provisioning reported_running reported_stopping : ReportedState
  reported_stopped reported_failed other : ReportedState

unfoldable pub map_instance_state : ReportedState → Result InstanceState
map_instance_state reported_provisioning = ok provisioning
map_instance_state reported_running = ok running
map_instance_state reported_stopping = ok stopping
map_instance_state reported_stopped = ok stopped
map_instance_state reported_failed = ok failed
map_instance_state other = err unknown_agent_state

pub record InstanceStatus : Type 0 where
  pub instance_id : String
  pub state : ReportedState
  pub error_message : String
  pub vm_internal_ip : String

pub data AgentMessage : Type 0 where
  heartbeat : AgentMessage
  topology : AgentMessage
  instance_status : InstanceStatus → AgentMessage
  ack : AgentMessage
  register : AgentMessage
  unknown_message : AgentMessage

-- uuid.Parse and netip.ParseAddr.
pub record Parsers : Type 0 where
  pub parse_uuid : String → Option ℕ
  pub parse_addr : String → Option String

abbrev pub parsed_uuid : Option ℕ → Result ℕ
parsed_uuid none = err bad_uuid
parsed_uuid (some id) = ok id

abbrev pub report_options : Parsers → InstanceStatus → TransitionOptions
report_options p st = record {
  reason = "agent_report";
  error_message = st.error_message;
  vm_internal_ip = if str_eq st.vm_internal_ip "" then none else p.parse_addr st.vm_internal_ip;
  event_metadata = "";
  skip_idempotent = false;
}

-- A failed release is logged.
abbrev pub release_quietly : ℕ → Q (Unit {0})
release_quietly id = attempt (release_for_instance id) (λ _. pure tt)

unfoldable pub release_if_terminal : ℕ → InstanceState → Q (Unit {0})
release_if_terminal id to = if is_terminal to then release_quietly id else pure tt

-- A transition that the state machine refuses is swallowed; any other error is returned.
abbrev pub after_report : ℕ → InstanceState → Result Instance → Q (Unit {0})
after_report id to (ok inst) = release_if_terminal id to
after_report id to (err invalid_transition) = release_if_terminal id to
after_report id to (err e) = fail e

unfoldable pub apply_instance_status : Parsers → InstanceStatus → Q (Unit {0})
apply_instance_status p st = do
  id ← lift (parsed_uuid (p.parse_uuid st.instance_id))
  to ← lift (map_instance_state st.state)
  attempt (transition id to (report_options p st)) (after_report id to)

-- Topology updates are not stored yet (node.DBRepo.UpdateTopology).
unfoldable pub handle_agent_message : Parsers → ℕ → AgentMessage → Q (Unit {0})
unfolding apply_instance_status touch_heartbeat
handle_agent_message p node_id heartbeat = touch_heartbeat node_id
handle_agent_message p node_id topology = pure tt
handle_agent_message p node_id (instance_status st) = apply_instance_status p st
handle_agent_message p node_id ack = pure tt
handle_agent_message p node_id register = fail register_again
handle_agent_message p node_id unknown_message = fail unknown_payload
