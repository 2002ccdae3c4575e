-- ===== src/Agent/Swept.antt =====
-- What a whole tick of the stale-node sweeper does (StaleSweeper of
-- services/main-api/internal/grpc/agent_stream.go).
use hybrid_cloud_with_claude.Prelude.{
  ℕ, ◌≡◌, Bool, ◌&&◌, some, List, update_where, any_where, count_where, if◌then◌else◌,
}
use hybrid_cloud_with_claude.Schema.{failed, offline, Instance, Node, Db}
use hybrid_cloud_with_claude.Store.{World}
use hybrid_cloud_with_claude.Instance.Queries.{holds}
use hybrid_cloud_with_claude.Instance.Rows.{row_of, state_of}
use hybrid_cloud_with_claude.Agent.Nodes.{is_stale}
use hybrid_cloud_with_claude.Agent.Reaping.{is_live}

-- The instance is on one of the nodes and pending, provisioning or running.
abbrev live_on : List ℕ → Instance → Bool
live_on ids i = any_where (λ n. is_live n i) ids

abbrev NodesReaped : List ℕ → Db → Db → Type 0
NodesReaped ids before after =
    (j : ℕ) (cur : Instance)
    → row_of j before.instances ≡ some cur
    → (state_of j after.instances ≡ some (if live_on ids cur then failed else cur.state))
      × (count_where (holds j) after.slots
          ≡ (if live_on ids cur then 0 else count_where (holds j) before.slots))

abbrev taken_offline : ℕ → Node → Node
taken_offline now n = record n { status = offline; updated_at = now }

-- The instance is live, and its node has sent no heartbeat since the cutoff.
abbrev pub is_lost : ℕ → List Node → Instance → Bool
is_lost cutoff nodes i = any_where (λ n. is_stale cutoff n && is_live n.id i) nodes

abbrev marked : ℕ → World → World
marked cutoff w = record w {
  db = record w.db { nodes = update_where (is_stale cutoff) (taken_offline w.now) w.db.nodes };
}
