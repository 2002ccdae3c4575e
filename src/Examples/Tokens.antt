-- ===== src/Examples/Tokens.antt =====
-- The theorems on the check of an agent's token at small tables
-- (services/main-api/internal/agentauth).
use hybrid_cloud_with_claude.Prelude.{
  ℕ, ◌≡◌, refl, inl, String, str_eq, Option, some, none, List, [], ◌∷◌, arith, false, true,
}
use hybrid_cloud_with_claude.Auth.AgentAuth.{
  Repo, Lookup, refusal, accepted, credentials, is_active, list_active_node_tokens, node_auth_view,
  fetch, lookup, cache_after, serve,
}
use hybrid_cloud_with_claude.Auth.Revoked.{revoked-serve}
use hybrid_cloud_with_claude.Examples.Data.{busy_db}

abbrev tokens_with : Option ℕ → Repo
tokens_with revoked_at = record {
  tokens = record { node_id = 1; token_hash = "secret"; revoked_at = revoked_at } ∷ [];
  nodes = busy_db.nodes;
  list_fails = false;
  policy_fails = false;
  get_fails = false;
}

-- The agent of node 1 connects at time 100, when its token is active.
abbrev past : List Lookup
past =
    record {
      checked_at = 100;
      stored_at = 101;
      repo = tokens_with none;
      node_id = 1;
      token = "secret";
    }
    ∷ []

abbrev node_numbers : String → Option ℕ
node_numbers s = some 1

-- The token is revoked at 120; at 150 the cache still accepts it.
accepted_late :
    (serve str_eq node_numbers 60 150 150
      (tokens_with (some 120))
      (record { is_post = true; body = credentials "one" "secret" })
      (cache_after str_eq 60 past)).0
    ≡ accepted (record {
      node_id = 1;
      access_policy = "public";
      owner_team_id = none;
      agent_version = "1";
    })
unfolding serve cache_after lookup fetch list_active_node_tokens node_auth_view is_active
accepted_late = refl

revoked-serve_example :
    (serve str_eq node_numbers 60 170 170
      (tokens_with (some 120))
      (record { is_post = true; body = credentials "one" "secret" })
      (cache_after str_eq 60 past)).0
    ≡ refusal 401 "unauthenticated"
unfolding fetch list_active_node_tokens is_active
revoked-serve_example =
    revoked-serve str_eq node_numbers 60 170 170 (tokens_with (some 120)) past "one" 1 "secret" refl
      (inl (omega arith), tt) refl
