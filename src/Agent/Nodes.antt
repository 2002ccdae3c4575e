-- ===== src/Agent/Nodes.antt =====
-- The statements of services/main-api/internal/db/dbstore/nodes.sql.go that the agent stream runs
-- (through services/main-api/internal/node/repo.go).
use hybrid_cloud_with_claude.Prelude.{
  ℕ, ◌==◌, ltb, Bool, true, not, ◌&&◌, String, str_eq, Option, some, none, List, [], ◌∷◌, ◌++◌, map,
  find_where, update_where, select_where,
}
use hybrid_cloud_with_claude.Schema.{NodeStatus, offline, online, node_status_eq, Node, Db}
use hybrid_cloud_with_claude.Store.{Result, ok, Q, ◌>>=◌, statement, clock, fresh_uuid}

abbrev pub is_node : ℕ → Node → Bool
is_node id n = n.id == id

-- `case when status = 'offline' then 'online' else status end`
abbrev wake : NodeStatus → NodeStatus
wake offline = online
wake s = s

-- TouchNodeHeartbeat
unfoldable pub touch_node_heartbeat : ℕ → ℕ → Db → Result (Unit {0}) × Db
touch_node_heartbeat now id db = (
  ok tt,
  record db {
    nodes =
        update_where (is_node id)
          (λ n. record n { last_heartbeat_at = some now; status = wake n.status; updated_at = now })
          db.nodes;
  },
)

abbrev older : ℕ → Option ℕ → Bool
older cutoff none = true
older cutoff (some t) = ltb t cutoff

unfoldable pub is_stale : ℕ → Node → Bool
unfolding node_status_eq
is_stale cutoff n = not (node_status_eq n.status offline) && older cutoff n.last_heartbeat_at

-- MarkStaleNodesOfflineReturning
unfoldable pub mark_stale_nodes_offline : ℕ → ℕ → Db → Result (List ℕ) × Db
mark_stale_nodes_offline now cutoff db = (
  ok (map (λ n. n.id) (select_where (is_stale cutoff) db.nodes)),
  record db {
    nodes =
        update_where (is_stale cutoff) (λ n. record n { status = offline; updated_at = now })
          db.nodes;
  },
)

pub record UpsertInput : Type 0 where
  pub zone_id : ℕ
  pub node_name : String
  pub hostname : String
  pub agent_version : String
  pub topology_json : String

abbrev refreshed : ℕ → UpsertInput → Node → Node
refreshed now p n = record n {
  hostname = p.hostname;
  agent_version = p.agent_version;
  status = online;
  topology_json = p.topology_json;
  last_heartbeat_at = some now;
  updated_at = now;
}

abbrev new_node : ℕ → ℕ → UpsertInput → Node
new_node uuid now p = record {
  id = uuid;
  zone_id = p.zone_id;
  node_name = p.node_name;
  hostname = p.hostname;
  agent_version = p.agent_version;
  status = online;
  topology_json = p.topology_json;
  profile_hash = "";
  last_heartbeat_at = some now;
  updated_at = now;
  access_policy = "public";
  owner_team_id = none;
}

abbrev pub named : String → Node → Bool
named name n = str_eq n.node_name name

abbrev pub upsert_found : Option Node → ℕ → ℕ → UpsertInput → Db → Result Node × Db
upsert_found none uuid now p db =
    (ok (new_node uuid now p), record db { nodes = db.nodes ++ new_node uuid now p ∷ [] })
upsert_found (some n) uuid now p db = (
  ok (refreshed now p n),
  record db { nodes = update_where (named p.node_name) (refreshed now p) db.nodes },
)

-- UpsertNode: a node is known by its name, and keeps its id when it registers again.
unfoldable pub upsert_node : ℕ → ℕ → UpsertInput → Db → Result Node × Db
upsert_node uuid now p db = upsert_found (find_where (named p.node_name) db.nodes) uuid now p db

unfoldable pub upsert_online : UpsertInput → Q Node
unfolding upsert_node statement clock fresh_uuid
upsert_online p = do uuid ← fresh_uuid; now ← clock; statement (upsert_node uuid now p)

unfoldable pub touch_heartbeat : ℕ → Q (Unit {0})
unfolding statement clock
touch_heartbeat id = do now ← clock; statement (touch_node_heartbeat now id)

unfoldable pub mark_stale_offline : ℕ → Q (List ℕ)
unfolding statement clock
mark_stale_offline cutoff = do now ← clock; statement (mark_stale_nodes_offline now cutoff)
