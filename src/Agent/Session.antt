-- ===== src/Agent/Session.antt =====
-- A stream of an agent from its first message to its end: Stream and receiveLoop of
-- services/main-api/internal/grpc/agent_stream.go, with the registry and the profile syncer wired. A
-- profile holds the slots as toProfileSlots takes them from the message, field by field. The stream's
-- statements run in their order, and `others` is what other streams do to the registry between its
-- registration and its end. The send loop is the field `sent` of its result.
use hybrid_cloud_with_claude.Prelude.{
  ℕ, not, ◌||◌, String, str_eq, Option, some, none, List, [], ◌∷◌, if◌then◌else◌,
}
use hybrid_cloud_with_claude.Schema.{Node}
use hybrid_cloud_with_claude.Store.{World, Result, ok, err, Q, ◌>>◌, pure, attempt}
use hybrid_cloud_with_claude.Slot.Repo.{ProfileSlot, sync_from_profile}
use hybrid_cloud_with_claude.Agent.Nodes.{UpsertInput, upsert_online}
use hybrid_cloud_with_claude.Agent.Registry.{AgentRegistry, register, cleanup, Step, after}
use hybrid_cloud_with_claude.Agent.Status.{Parsers, AgentMessage, handle_agent_message}

pub record Profile : Type 0 where
  pub hash : String
  pub slots : List ProfileSlot

-- `text` is what protojson makes of the message, if it can.
pub record Topology : Type 0 where
  pub text : Option String
  pub profile : Option Profile

pub record Register : Type 0 where
  pub node_name : String
  pub hostname : String
  pub agent_version : String
  pub agent_token : String
  pub agent_tunnel_endpoint : String
  pub topology : Option Topology

-- The first `Recv`.
pub data First : Type 0 where
  no_message other_message : First
  register_message : Register → First

-- How a stream ends: by a status, or without an error.
pub data Status : Type 0 where
  fine canceled invalid_argument unauthenticated internal failed : Status

-- What the receive loop gets after its messages: the end, a cancellation, or another error.
pub data Last : Type 0 where
  end_of_file cancellation broken : Last

pub record Service : Type 0 where
  pub expected_token : String
  pub default_zone_id : ℕ
  pub parsers : Parsers

-- The other side of the stream: the messages, their end, whether the acknowledgement can be sent, and
-- whether the send loop ends with an error.
pub record Peer : Type 0 where
  pub first : First
  pub messages : List AgentMessage
  pub last : Last
  pub ack_sent : Result (Unit {0})
  pub sent : Result (Unit {0})

abbrev marshal_topology : Option Topology → Option String
marshal_topology none = some "{}"
marshal_topology (some t) = t.text

-- A stream that is refused, or one whose node is known.
pub data Joined : Type 0 where
  refused : Status → Joined
  joined : Node → Register → Joined

module _ (s : Service) where
  abbrev pub after_ack : Node → Register → Result (Unit {0}) → Q Joined
  after_ack n reg (ok _) = pure (joined n reg)
  after_ack n reg (err e) = pure (refused canceled)

  abbrev pub after_upsert : Register → Result (Unit {0}) → Result Node → Q Joined
  after_upsert reg ack (err e) = pure (refused internal)
  after_upsert reg ack (ok n) = after_ack n reg ack

  abbrev pub upsert_input : Register → String → UpsertInput
  upsert_input reg topology = record {
    zone_id = s.default_zone_id;
    node_name = reg.node_name;
    hostname = reg.hostname;
    agent_version = reg.agent_version;
    topology_json = topology;
  }

  abbrev pub with_topology : Register → Result (Unit {0}) → Option String → Q Joined
  with_topology reg ack none = pure (refused invalid_argument)
  with_topology reg ack (some text) =
      attempt (upsert_online (upsert_input reg text)) (after_upsert reg ack)

  abbrev pub join_first : First → Result (Unit {0}) → Q Joined
  join_first no_message ack = pure (refused canceled)
  join_first other_message ack = pure (refused invalid_argument)
  join_first (register_message reg) ack =
      if str_eq reg.agent_token "" || not (str_eq reg.agent_token s.expected_token)
      then pure (refused unauthenticated)
      else with_topology reg ack (marshal_topology reg.topology)

  -- The handshake, up to the acknowledgement.
  unfoldable pub handshake : Peer → Q Joined
  unfolding upsert_online
  handshake p = join_first p.first p.ack_sent

  abbrev pub sync_profile : ℕ → Option Profile → Q (Unit {0})
  sync_profile id none = pure tt
  sync_profile id (some p) = attempt (sync_from_profile id p.hash p.slots) (λ _. pure tt)

  -- A sync that fails is logged.
  unfoldable pub sync_topology : ℕ → Option Topology → Q (Unit {0})
  unfolding sync_from_profile
  sync_topology id none = pure tt
  sync_topology id (some t) = sync_profile id t.profile

  -- receiveLoop: a message that fails is logged.
  unfoldable pub receive_loop : ℕ → List AgentMessage → Q (Unit {0})
  unfolding handle_agent_message
  receive_loop id [] = pure tt
  receive_loop id (m ∷ rest) =
      attempt (handle_agent_message s.parsers id m) (λ _. pure tt) >> receive_loop id rest

  abbrev status_of : Last → Result (Unit {0}) → Status
  status_of broken sent = failed
  status_of _ (err e) = failed
  status_of _ (ok _) = fine

  -- After the handshake: the registration, the messages and the cleanup; `others` is what other streams
  -- do to the registry meanwhile, and `ch` the number of the new channel.
  abbrev pub run_joined :
      Peer → List Step → ℕ → Joined → AgentRegistry → World → Status × AgentRegistry × World
  run_joined p others ch (refused status) r w = (status, r, w)
  run_joined p others ch (joined n reg) r w =
      let synced = (sync_topology n.id reg.topology w).1 in
      let entered = register n.id ch reg.agent_tunnel_endpoint r in
      let received = (receive_loop n.id p.messages synced).1 in
      (status_of p.last p.sent, cleanup n.id r.next (after others entered), received)

  abbrev pub after_handshake :
      Peer → List Step → ℕ → AgentRegistry → Result Joined × World → Status × AgentRegistry × World
  after_handshake p others ch r (ok j, w) = run_joined p others ch j r w
  after_handshake p others ch r (err e, w) = (internal, r, w)

  -- Stream
  unfoldable pub stream :
      Peer → List Step → ℕ → AgentRegistry → World → Status × AgentRegistry × World
  unfolding handshake sync_topology receive_loop register cleanup after
  stream p others ch r w = after_handshake p others ch r (handshake p w)
