-- ===== src/Agent/Served.antt =====
-- What a whole stream of an agent keeps (Stream of services/main-api/internal/grpc/agent_stream.go).
use hybrid_cloud_with_claude.Prelude.{
  ℕ, ◌+◌, ltb, not, ◌&&◌, String, str_eq, some, none, Option, find_where, List, [], ◌∷◌, arith,
}
use hybrid_cloud_with_claude.Schema.{Node, Db}
use hybrid_cloud_with_claude.Store.{World, Result, ok, err, pure, attempt, statement, fresh_uuid}
use hybrid_cloud_with_claude.Store.Keeps.{
  Keeps, statement-Keeps, bind-Keeps, if-Keeps, in_tx-Keeps, attempt-Keeps,
}
use hybrid_cloud_with_claude.Instance.Audit.{Audited}
use hybrid_cloud_with_claude.Invariant.{Sound, both-Sound}
use hybrid_cloud_with_claude.Slot.Queries.{
  InsertSlotParams, insert_slot, get_node, count_non_free_slots_for_node, delete_slots_for_node,
  update_node_profile_hash,
}
use hybrid_cloud_with_claude.Slot.Repo.{
  ProfileSlot, insert_params, insert_all, replace_slots, sync_body, sync_from_profile,
}
use hybrid_cloud_with_claude.Slot.Invariant.{sync_from_profile-SlotsValid}
use hybrid_cloud_with_claude.Agent.Nodes.{
  UpsertInput, upsert_node, upsert_online, upsert_found, named,
}
use hybrid_cloud_with_claude.Agent.Registry.{AgentRegistry, Step}
use hybrid_cloud_with_claude.Agent.Status.{AgentMessage, handle_agent_message}
use hybrid_cloud_with_claude.Agent.Invariant.{handle_agent_message-Sound}
use hybrid_cloud_with_claude.Agent.Session.{
  Topology, Register, First, no_message, other_message, register_message, unauthenticated, Service,
  Peer, Joined, refused, joined, after_upsert, upsert_input, Profile, sync_profile, with_topology,
  join_first, handshake, sync_topology, receive_loop, run_joined, after_handshake, stream,
}

insert_slot-Audited :
    (uuid : ℕ) (p : InsertSlotParams) (db : Db) → Audited db → Audited (insert_slot uuid p db).1
unfolding insert_slot
insert_slot-Audited uuid p db a = λ id. ground (arith, a id)

insert_all-Audited :
    (node_id : ℕ) (specs : List ProfileSlot) → Keeps Audited (insert_all node_id specs)
unfolding insert_all fresh_uuid
insert_all-Audited node_id [] = λ w a. a
insert_all-Audited node_id (s ∷ rest) = λ w a.
    bind-Keeps Audited (statement (insert_slot (w.uuids w.drawn) (insert_params node_id s)))
      (λ _. insert_all node_id rest)
      (statement-Keeps Audited (insert_slot (w.uuids w.drawn) (insert_params node_id s))
        (insert_slot-Audited (w.uuids w.drawn) (insert_params node_id s)))
      (λ _. insert_all-Audited node_id rest) (record w { drawn = w.drawn + 1 }) a

replace_slots-Audited :
    (node_id : ℕ) (hash : String) (specs : List ProfileSlot)
    → Keeps Audited (replace_slots node_id hash specs)
unfolding replace_slots
replace_slots-Audited node_id hash specs = λ w a.
    bind-Keeps Audited (statement (delete_slots_for_node node_id)) _
      (statement-Keeps Audited (delete_slots_for_node node_id)
        (unfold delete_slots_for_node in λ db b. b))
      (λ _. bind-Keeps Audited (insert_all node_id specs) _ (insert_all-Audited node_id specs) λ _.
        bind-Keeps Audited (statement (update_node_profile_hash w.now node_id hash)) _
          (statement-Keeps Audited (update_node_profile_hash w.now node_id hash)
            (unfold update_node_profile_hash in λ db b. b))
          (λ _ w' b. b))
      w a

sync_body-Audited :
    (node_id : ℕ) (hash : String) (specs : List ProfileSlot)
    → Keeps Audited (sync_body node_id hash specs)
unfolding sync_body
sync_body-Audited node_id hash specs =
    bind-Keeps Audited (statement (count_non_free_slots_for_node node_id)) _
      (statement-Keeps Audited (count_non_free_slots_for_node node_id)
        (unfold count_non_free_slots_for_node in λ db a. a))
      λ n. if-Keeps Audited (ltb 0 n) _ _ (λ w a. a) (replace_slots-Audited node_id hash specs)

sync_from_profile-Audited :
    (node_id : ℕ) (hash : String) (specs : List ProfileSlot)
    → Keeps Audited (sync_from_profile node_id hash specs)
unfolding sync_from_profile
sync_from_profile-Audited node_id hash specs =
    bind-Keeps Audited (statement (get_node node_id)) _
      (statement-Keeps Audited (get_node node_id) (unfold get_node in λ db a. a))
      λ node.
        if-Keeps Audited (str_eq node.profile_hash hash && not (str_eq hash "")) _ _ (λ w a. a)
          (in_tx-Keeps Audited (sync_body node_id hash specs)
            (sync_body-Audited node_id hash specs))

sync_from_profile-Sound :
    (node_id : ℕ) (hash : String) (specs : List ProfileSlot)
    → Keeps Sound (sync_from_profile node_id hash specs)
sync_from_profile-Sound node_id hash specs =
    both-Sound (sync_from_profile node_id hash specs) (sync_from_profile-Audited node_id hash specs)
      (sync_from_profile-SlotsValid node_id hash specs)

-- An upsert leaves the instances, their log and the slots alone.
upsert_found-Sound :
    (found : Option Node) (uuid now : ℕ) (p : UpsertInput) (db : Db)
    → Sound db
    → Sound (upsert_found found uuid now p db).1
upsert_found-Sound none uuid now p db s = record {
  audited = s.audited;
  slots_valid = record {
    distinct = s.slots_valid.distinct;
    consistent_rows = s.slots_valid.consistent_rows;
  };
}
upsert_found-Sound (some n) uuid now p db s = record {
  audited = s.audited;
  slots_valid = record {
    distinct = s.slots_valid.distinct;
    consistent_rows = s.slots_valid.consistent_rows;
  };
}

upsert_node-Sound :
    (uuid now : ℕ) (p : UpsertInput) (db : Db) → Sound db → Sound (upsert_node uuid now p db).1
unfolding upsert_node
upsert_node-Sound uuid now p db s =
    upsert_found-Sound (find_where (named p.node_name) db.nodes) uuid now p db s

upsert_online-Sound : (p : UpsertInput) → Keeps Sound (upsert_online p)
unfolding upsert_online fresh_uuid
upsert_online-Sound p w s =
    statement-Keeps Sound (upsert_node (w.uuids w.drawn) w.now p)
      (upsert_node-Sound (w.uuids w.drawn) w.now p) (record w { drawn = w.drawn + 1 }) s

module _ (s : Service) where
  after_upsert-Sound :
      (reg : Register) (ack : Result (Unit {0})) (r : Result Node)
      → Keeps Sound (after_upsert s reg ack r)
  after_upsert-Sound reg ack (err e) = λ w h. h
  after_upsert-Sound reg (ok _) (ok n) = λ w h. h
  after_upsert-Sound reg (err e) (ok n) = λ w h. h

  with_topology-Sound :
      (reg : Register) (ack : Result (Unit {0})) (t : Option String)
      → Keeps Sound (with_topology s reg ack t)
  with_topology-Sound reg ack none = λ w h. h
  with_topology-Sound reg ack (some text) =
      attempt-Keeps Sound (upsert_online (upsert_input s reg text)) (after_upsert s reg ack)
        (upsert_online-Sound (upsert_input s reg text)) (after_upsert-Sound reg ack)

  join_first-Sound : (f : First) (ack : Result (Unit {0})) → Keeps Sound (join_first s f ack)
  join_first-Sound no_message ack = λ w h. h
  join_first-Sound other_message ack = λ w h. h
  join_first-Sound (register_message reg) ack =
      if-Keeps Sound _ (pure (refused unauthenticated)) _ (λ w h. h) (with_topology-Sound reg ack _)

  sync_profile-Sound : (id : ℕ) (p : Option Profile) → Keeps Sound (sync_profile s id p)
  sync_profile-Sound id none = λ w h. h
  sync_profile-Sound id (some p) =
      attempt-Keeps Sound (sync_from_profile id p.hash p.slots) (λ _. pure tt)
        (sync_from_profile-Sound id p.hash p.slots) (λ _ w h. h)

  sync_topology-Sound : (id : ℕ) (t : Option Topology) → Keeps Sound (sync_topology s id t)
  unfolding sync_topology
  sync_topology-Sound id none = λ w h. h
  sync_topology-Sound id (some t) = sync_profile-Sound id t.profile

  receive_loop-Sound : (id : ℕ) (ms : List AgentMessage) → Keeps Sound (receive_loop s id ms)
  unfolding receive_loop
  receive_loop-Sound id [] = λ w h. h
  receive_loop-Sound id (m ∷ rest) =
      bind-Keeps Sound (attempt (handle_agent_message s.parsers id m) (λ _. pure tt))
        (λ _. receive_loop s id rest)
        (attempt-Keeps Sound (handle_agent_message s.parsers id m) (λ _. pure tt)
          (handle_agent_message-Sound s.parsers id m) (λ _ w h. h))
        (λ _. receive_loop-Sound id rest)

  run_joined-Sound :
      (p : Peer) (others : List Step) (ch : ℕ) (j : Joined) (r : AgentRegistry) (w : World)
      → Sound w.db
      → Sound (run_joined s p others ch j r w).2.db
  run_joined-Sound p others ch (refused status) r w h = h
  run_joined-Sound p others ch (joined n reg) r w h =
      receive_loop-Sound n.id p.messages (sync_topology s n.id reg.topology w).1
        (sync_topology-Sound n.id reg.topology w h)

  after_handshake-Sound :
      (p : Peer) (others : List Step) (ch : ℕ) (r : AgentRegistry) (o : Result Joined × World)
      → Sound o.1.db
      → Sound (after_handshake s p others ch r o).2.db
  after_handshake-Sound p others ch r (ok j, w) h = run_joined-Sound p others ch j r w h
  after_handshake-Sound p others ch r (err e, w) h = h

-- Whatever an agent does on a stream, and whatever the connection to the database does, the tables stay
-- sound.
pub stream-Sound :
    (s : Service) (p : Peer) (others : List Step) (ch : ℕ) (r : AgentRegistry) (w : World)
    → Sound w.db
    → Sound (stream s p others ch r w).2.db
unfolding stream handshake
stream-Sound s p others ch r w h =
    after_handshake-Sound s p others ch r (handshake s p w)
      (join_first-Sound s p.first p.ack_sent w h)
