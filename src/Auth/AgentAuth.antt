-- ===== src/Auth/AgentAuth.antt =====
-- The check of an agent's token that the SSH proxy asks for
-- (services/main-api/internal/agentauth/agentauth.go and repo.go) with the statements it runs
-- (db/dbstore/node_tokens.sql.go and nodes.sql.go). Requests run one after another. A `Repo` is what
-- the database answers at the moment of a request; bcrypt and the parser of uuids are parameters.
use hybrid_cloud_with_claude.Prelude.{
  ℕ, ◌+◌, ◌==◌, ltb, Bool, true, false, not, ◌&&◌, String, str_eq, Option, some, none, List, [],
  ◌∷◌, find_where, delete_where, select_where, any_where, if◌then◌else◌,
}
use hybrid_cloud_with_claude.Schema.{Node}

pub record NodeToken : Type 0 where
  pub node_id : ℕ
  pub token_hash : String
  pub revoked_at : Option ℕ

pub record NodeView : Type 0 where
  pub node_id : ℕ
  pub access_policy : String
  pub owner_team_id : Option ℕ
  pub agent_version : String

-- The tables, and which of the three statements of a request fail.
pub record Repo : Type 0 where
  pub tokens : List NodeToken
  pub nodes : List Node
  pub list_fails : Bool
  pub policy_fails : Bool
  pub get_fails : Bool

abbrev is_null : Option ℕ → Bool
is_null none = true
is_null (some t) = false

unfoldable pub is_active : ℕ → NodeToken → Bool
is_active node_id t = t.node_id == node_id && is_null t.revoked_at

-- An error is `none`: the handler tells no error from another.
unfoldable pub list_active_node_tokens : Repo → ℕ → Option (List NodeToken)
list_active_node_tokens r node_id =
    if r.list_fails then none else some (select_where (is_active node_id) r.tokens)

abbrev node_at : Bool → ℕ → List Node → Option Node
node_at fails node_id nodes = if fails then none else find_where (λ n. n.id == node_id) nodes

abbrev view_of : ℕ → Option Node → Option Node → Option NodeView
view_of node_id none full = none
view_of node_id (some row) none = none
view_of node_id (some row) (some full) = some (record {
  node_id = node_id;
  access_policy = row.access_policy;
  owner_team_id = row.owner_team_id;
  agent_version = full.agent_version;
})

-- NodeAuthView
unfoldable pub node_auth_view : Repo → ℕ → Option NodeView
node_auth_view r node_id =
    view_of node_id (node_at r.policy_fails node_id r.nodes) (node_at r.get_fails node_id r.nodes)

pub record CacheEntry : Type 0 where
  pub node_id : ℕ
  pub token : String
  pub view : NodeView
  pub expires_at : ℕ

abbrev pub same_key : ℕ → String → CacheEntry → Bool
same_key node_id token e = e.node_id == node_id && str_eq e.token token

-- A call of lookup: when it reads the cache and when it stores into it, and the database meanwhile.
pub record Lookup : Type 0 where
  pub checked_at : ℕ
  pub stored_at : ℕ
  pub repo : Repo
  pub node_id : ℕ
  pub token : String

module _ (compare : String → String → Bool) where
  abbrev matched : Repo → ℕ → String → Option (List NodeToken) → Option NodeView
  matched r node_id token none = none
  matched r node_id token (some tokens) =
      if any_where (λ t. compare t.token_hash token) tokens then node_auth_view r node_id else none

  -- The answer of the database, with no cache.
  unfoldable pub fetch : Repo → ℕ → String → Option NodeView
  unfolding list_active_node_tokens node_auth_view
  fetch r node_id token = matched r node_id token (list_active_node_tokens r node_id)

  -- The lifetime is 0 where the cache is off.
  module _ (ttl : ℕ) where
    abbrev pub store :
        Lookup → Option NodeView → List CacheEntry → Option NodeView × List CacheEntry
    store l none cache = (none, cache)
    store l (some view) cache =
        if ltb 0 ttl
        then (
          some view,
          record {
            node_id = l.node_id;
            token = l.token;
            view = view;
            expires_at = l.stored_at + ttl;
          }
              ∷ delete_where (same_key l.node_id l.token) cache,
        )
        else (some view, cache)

    abbrev pub miss : Lookup → List CacheEntry → Option NodeView × List CacheEntry
    miss l cache = store l (fetch l.repo l.node_id l.token) cache

    abbrev pub on_entry :
        Lookup → List CacheEntry → Option CacheEntry → Option NodeView × List CacheEntry
    on_entry l cache none = miss l cache
    on_entry l cache (some e) =
        if ltb 0 ttl && ltb l.checked_at e.expires_at then (some e.view, cache) else miss l cache

    unfoldable pub lookup : Lookup → List CacheEntry → Option NodeView × List CacheEntry
    unfolding fetch
    lookup l cache = on_entry l cache (find_where (same_key l.node_id l.token) cache)

    -- The cache after some calls, the last one first.
    unfoldable pub cache_after : List Lookup → List CacheEntry
    unfolding lookup
    cache_after [] = []
    cache_after (l ∷ earlier) = (lookup l (cache_after earlier)).1

-- The body of a request, read and decoded.
pub data Body : Type 0 where
  unreadable bad_json : Body
  credentials : String → String → Body

pub record Request : Type 0 where
  pub is_post : Bool
  pub body : Body

pub data Reply : Type 0 where
  refusal : ℕ → String → Reply
  accepted : NodeView → Reply

module _ (compare : String → String → Bool) (parse_uuid : String → Option ℕ)
    (ttl checked_at stored_at : ℕ) (r : Repo) where
  abbrev pub reply_of : Option NodeView × List CacheEntry → Reply × List CacheEntry
  reply_of (none, cache) = (refusal 401 "unauthenticated", cache)
  reply_of (some view, cache) = (accepted view, cache)

  abbrev pub with_node : Option ℕ → String → List CacheEntry → Reply × List CacheEntry
  with_node none token cache = (refusal 400 "bad_node_id", cache)
  with_node (some node_id) token cache =
      if str_eq token ""
      then (refusal 401 "unauthenticated", cache)
      else reply_of (
          lookup compare ttl
            (record {
              checked_at = checked_at;
              stored_at = stored_at;
              repo = r;
              node_id = node_id;
              token = token;
            })
            cache)

  abbrev pub with_body : Body → List CacheEntry → Reply × List CacheEntry
  with_body unreadable cache = (refusal 400 "read_body", cache)
  with_body bad_json cache = (refusal 400 "bad_json", cache)
  with_body (credentials node token) cache = with_node (parse_uuid node) token cache

  -- ServeHTTP
  unfoldable pub serve : Request → List CacheEntry → Reply × List CacheEntry
  unfolding lookup
  serve req cache =
      if not req.is_post
      then (refusal 405 "method_not_allowed", cache)
      else with_body req.body cache
