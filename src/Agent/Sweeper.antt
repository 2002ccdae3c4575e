-- ===== src/Agent/Sweeper.antt =====
-- The stale-node sweeper: StaleSweeper and reapInstancesForOfflineNode of
-- services/main-api/internal/grpc/agent_stream.go.
use hybrid_cloud_with_claude.Prelude.{ℕ, ◌-◌, none, false, List, [], ◌∷◌}
use hybrid_cloud_with_claude.Schema.{failed, Instance}
use hybrid_cloud_with_claude.Store.{
  Result, ok, err, invalid_transition, Q, ◌>>=◌, ◌>>◌, pure, attempt, statement, clock,
}
use hybrid_cloud_with_claude.Instance.Queries.{list_non_terminal_instances_for_node}
use hybrid_cloud_with_claude.Instance.Repo.{TransitionOptions, transition}
use hybrid_cloud_with_claude.Agent.Nodes.{mark_stale_offline}
use hybrid_cloud_with_claude.Agent.Status.{release_quietly}

abbrev pub offline_options : TransitionOptions
offline_options = record {
  reason = "node_offline";
  error_message = "agent heartbeat timed out; node marked offline";
  vm_internal_ip = none;
  event_metadata = "";
  skip_idempotent = false;
}

-- An error other than a refused transition skips the release of this instance.
abbrev pub after_reap : ℕ → Result Instance → Q (Unit {0})
after_reap id (ok inst) = release_quietly id
after_reap id (err invalid_transition) = release_quietly id
after_reap id (err e) = pure tt

abbrev pub reap_one : Instance → Q (Unit {0})
reap_one row = attempt (transition row.id failed offline_options) (after_reap row.id)

unfoldable pub reap_rows : List Instance → Q (Unit {0})
reap_rows [] = pure tt
reap_rows (row ∷ rest) = reap_one row >> reap_rows rest

abbrev pub reap_listed : Result (List Instance) → Q (Unit {0})
reap_listed (err e) = pure tt
reap_listed (ok rows) = reap_rows rows

unfoldable pub reap_instances_for_offline_node : ℕ → Q (Unit {0})
reap_instances_for_offline_node node_id =
    attempt (statement (list_non_terminal_instances_for_node node_id)) reap_listed

unfoldable pub reap_nodes : List ℕ → Q (Unit {0})
reap_nodes [] = pure tt
reap_nodes (id ∷ rest) = reap_instances_for_offline_node id >> reap_nodes rest

abbrev pub sweep_marked : Result (List ℕ) → Q (Unit {0})
sweep_marked (err e) = pure tt
sweep_marked (ok ids) = reap_nodes ids

-- One tick: the cutoff is the clock less the time to live.
unfoldable pub sweep_tick : ℕ → Q (Unit {0})
unfolding clock
sweep_tick ttl = clock >>= λ now. attempt (mark_stale_offline (now - ttl)) sweep_marked
