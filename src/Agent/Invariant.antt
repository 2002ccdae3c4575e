-- ===== src/Agent/Invariant.antt =====
-- The agent's messages keep the tables sound
-- (services/main-api/internal/grpc/agent_stream.go).
use hybrid_cloud_with_claude.Prelude.{ℕ}
use hybrid_cloud_with_claude.Schema.{InstanceState, Instance}
use hybrid_cloud_with_claude.Store.{
  World, Result, ok, err, invalid_transition, Q, ◌>>=◌, pure, lift, attempt,
}
use hybrid_cloud_with_claude.Store.Keeps.{
  Keeps, statement-Keeps, bind-Keeps, if-Keeps, attempt-Keeps,
}
use hybrid_cloud_with_claude.Instance.Machine.{is_terminal}
use hybrid_cloud_with_claude.Instance.Repo.{transition}
use hybrid_cloud_with_claude.Invariant.{Sound, transition-Sound, release_for_instance-Sound}
use hybrid_cloud_with_claude.Agent.Nodes.{touch_node_heartbeat}
use hybrid_cloud_with_claude.Agent.Status.{
  Parsers, AgentMessage, InstanceStatus, heartbeat, instance_status, parsed_uuid,
  map_instance_state, report_options, release_quietly, release_if_terminal, after_report,
  apply_instance_status, handle_agent_message,
}

release_quietly-Sound : (id : ℕ) → Keeps Sound (release_quietly id)
release_quietly-Sound id w s = release_for_instance-Sound id w s

release_if_terminal-Sound : (id : ℕ) (to : InstanceState) → Keeps Sound (release_if_terminal id to)
unfolding release_if_terminal
release_if_terminal-Sound id to =
    if-Keeps Sound (is_terminal to) (release_quietly id) (pure tt) (release_quietly-Sound id)
      (λ w s. s)

after_report-Sound :
    (id : ℕ) (to : InstanceState) (r : Result Instance) → Keeps Sound (after_report id to r)
after_report-Sound id to (ok inst) = release_if_terminal-Sound id to
after_report-Sound id to (err invalid_transition) = release_if_terminal-Sound id to
after_report-Sound id to (err _) = λ w s. s

apply_instance_status-Sound :
    (p : Parsers) (st : InstanceStatus) → Keeps Sound (apply_instance_status p st)
unfolding apply_instance_status
apply_instance_status-Sound p st =
    let go : ℕ → InstanceState → Q (Unit {0}) =
      λ id to. attempt (transition id to (report_options p st)) (after_report id to) in
    bind-Keeps Sound (lift (parsed_uuid (p.parse_uuid st.instance_id)))
      (λ id. lift (map_instance_state st.state) >>= go id) (λ w s. s)
      λ id.
        bind-Keeps Sound (lift (map_instance_state st.state)) (go id) (λ w s. s)
          λ to.
            attempt-Keeps Sound (transition id to (report_options p st)) (after_report id to)
              (transition-Sound id to (report_options p st)) (after_report-Sound id to)

-- Whatever an agent sends, and whatever the connection does, the tables stay sound.
pub handle_agent_message-Sound :
    (p : Parsers) (node_id : ℕ) (msg : AgentMessage)
    → (w : World) → Sound w.db
    → Sound (handle_agent_message p node_id msg w).1.db
unfolding handle_agent_message
handle_agent_message-Sound p node_id heartbeat = λ w s.
    statement-Keeps Sound (touch_node_heartbeat w.now node_id)
      (unfold touch_node_heartbeat in
        λ db t. record {
          audited = t.audited;
          slots_valid = record {
            distinct = t.slots_valid.distinct;
            consistent_rows = t.slots_valid.consistent_rows;
          };
        })
      w s
handle_agent_message-Sound p node_id (instance_status st) = apply_instance_status-Sound p st
handle_agent_message-Sound p node_id _ = λ w s. s
