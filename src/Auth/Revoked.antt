-- ===== src/Auth/Revoked.antt =====
-- How long a token can be accepted after its revocation
-- (services/main-api/internal/agentauth/agentauth.go).
use hybrid_cloud_with_claude.Prelude.{
  ℕ, ◌+◌, ◌≤◌, ltb, ◌≡◌, ◌⊎◌, refl, inl, inr, Bool, true, ◌&&◌, String, str_eq, str_eq_iff, Option,
  some, none, List, [], ◌∷◌, All, find_where, arith, Bool-cases, Option-cases,
}
use hybrid_cloud_with_claude.Prelude.Kept.{All-delete, All-find}
use hybrid_cloud_with_claude.Auth.AgentAuth.{
  NodeView, CacheEntry, refusal, credentials, reply_of, serve, Repo, Lookup, same_key, fetch, store,
  on_entry, lookup, cache_after,
}

module _ (compare : String → String → Bool) (ttl : ℕ) where
  -- One of the calls got this view from the database and stored it.
  abbrev Stored : List Lookup → CacheEntry → Type 0
  Stored [] c = ⊥
  Stored (l ∷ earlier) c =
      ((l.stored_at + ttl ≡ c.expires_at) × (fetch compare l.repo c.node_id c.token ≡ some c.view))
      ⊎ Stored earlier c

  older-Stored :
      (l : Lookup) (earlier : List Lookup) (cache : List CacheEntry)
      → All (Stored earlier) cache
      → All (Stored (l ∷ earlier)) cache
  older-Stored l earlier [] h = tt
  older-Stored l earlier (c ∷ cache) h = (inr h.0, older-Stored l earlier cache h.1)

  store-Stored :
      (l : Lookup) (earlier : List Lookup) (v : Option NodeView) (cache : List CacheEntry)
      → fetch compare l.repo l.node_id l.token ≡ v
      → All (Stored earlier) cache
      → All (Stored (l ∷ earlier)) (store compare ttl l v cache).1
  store-Stored l earlier none cache e h = older-Stored l earlier cache h
  store-Stored l earlier (some view) cache e h = elim (Bool-cases (ltb 0 ttl)) [
    | inl t ↦ rw t (
      inl (refl, e),
      All-delete (Stored (l ∷ earlier)) (same_key l.node_id l.token) cache
          (older-Stored l earlier cache h),
    )
    | inr f ↦ rw f (older-Stored l earlier cache h)
  ]

  on_entry-Stored :
      (l : Lookup) (earlier : List Lookup) (found : Option CacheEntry) (cache : List CacheEntry)
      → All (Stored earlier) cache
      → All (Stored (l ∷ earlier)) (on_entry compare ttl l cache found).1
  on_entry-Stored l earlier none cache h = store-Stored l earlier _ cache refl h
  on_entry-Stored l earlier (some e) cache h =
      elim (Bool-cases (ltb 0 ttl && ltb l.checked_at e.expires_at)) [
        | inl t ↦ rw t (older-Stored l earlier cache h)
        | inr f ↦ rw f (store-Stored l earlier _ cache refl h)
      ]

  cache_after-Stored : (past : List Lookup) → All (Stored past) (cache_after compare ttl past)
  unfolding cache_after lookup
  cache_after-Stored [] = tt
  cache_after-Stored (l ∷ earlier) =
      on_entry-Stored l earlier
        (find_where (same_key l.node_id l.token) (cache_after compare ttl earlier))
        (cache_after compare ttl earlier) (cache_after-Stored earlier)

  -- One of the calls stored the view less than a lifetime before the time, and the database accepted the
  -- token then.
  abbrev pub Vouched : List Lookup → ℕ → String → NodeView → ℕ → Type 0
  Vouched [] node_id token v t = ⊥
  Vouched (l ∷ earlier) node_id token v t =
      ((t + 1 ≤ l.stored_at + ttl) × (fetch compare l.repo node_id token ≡ some v))
      ⊎ Vouched earlier node_id token v t

  Stored-Vouched :
      (past : List Lookup) (c : CacheEntry) (node_id : ℕ) (token : String) (v : NodeView) (t : ℕ)
      → c.node_id ≡ node_id
      → c.token ≡ token
      → c.view ≡ v
      → t + 1 ≤ c.expires_at
      → Stored past c
      → Vouched past node_id token v t
  Stored-Vouched [] c node_id token v t en et ev lt s = s
  Stored-Vouched (l ∷ earlier) c node_id token v t en et ev lt (inl (x, f)) = inl (omega arith, cc)
  Stored-Vouched (l ∷ earlier) c node_id token v t en et ev lt (inr s) =
      inr (Stored-Vouched earlier c node_id token v t en et ev lt s)

  store-some :
      (l : Lookup) (o : Option NodeView) (cache : List CacheEntry) (v : NodeView)
      → (store compare ttl l o cache).0 ≡ some v
      → o ≡ some v
  store-some l none cache v e = e
  store-some l (some view) cache v e = ground arith

  on_entry-Vouched :
      (past : List Lookup) (l : Lookup) (found : Option CacheEntry) (cache : List CacheEntry)
      (v : NodeView)
      → find_where (same_key l.node_id l.token) cache ≡ found
      → All (Stored past) cache
      → (on_entry compare ttl l cache found).0 ≡ some v
      → (fetch compare l.repo l.node_id l.token ≡ some v)
        ⊎ Vouched past l.node_id l.token v l.checked_at
  on_entry-Vouched past l none cache v f h e = inl (store-some l _ cache v e)
  on_entry-Vouched past l (some c) cache v f h e =
      let (s, k) = All-find (Stored past) (same_key l.node_id l.token) cache c f h in
      elim (Bool-cases (ltb 0 ttl && ltb l.checked_at c.expires_at)) [
        | inl t ↦ inr (
            Stored-Vouched past c l.node_id l.token v l.checked_at (ground (arith, k))
              (ground (arith, k, str_eq_iff c.token l.token)) (ground (arith, e))
              (ground (arith, t)) s)
        | inr n ↦ inl (store-some l _ cache v (ground (arith, e, n)))
      ]

  pub lookup-Vouched :
      (past : List Lookup) (l : Lookup) (v : NodeView)
      → (lookup compare ttl l (cache_after compare ttl past)).0 ≡ some v
      → (fetch compare l.repo l.node_id l.token ≡ some v)
        ⊎ Vouched past l.node_id l.token v l.checked_at
  unfolding lookup
  lookup-Vouched past l v e =
      on_entry-Vouched past l
        (find_where (same_key l.node_id l.token) (cache_after compare ttl past))
        (cache_after compare ttl past) v refl (cache_after-Stored past) e

  -- A call that the database would refuse from its moment on.
  abbrev pub Refused : ℕ → String → ℕ → Lookup → Type 0
  Refused node_id token t l = (l.stored_at + ttl ≤ t) ⊎ (fetch compare l.repo node_id token ≡ none)

  Refused-Vouched :
      (past : List Lookup) (node_id : ℕ) (token : String) (v : NodeView) (t : ℕ)
      → All (Refused node_id token t) past
      → Vouched past node_id token v t
      → ⊥
  Refused-Vouched [] node_id token v t r k = k
  Refused-Vouched (l ∷ earlier) node_id token v t r (inl (lt, f)) = elim r.0 [
    | inl late ↦ omega arith
    | inr none_then ↦ ground (arith, none_then, f)
  ]
  Refused-Vouched (l ∷ earlier) node_id token v t r (inr k) =
      Refused-Vouched earlier node_id token v t r.1 k

  Refused-lookup :
      (past : List Lookup) (l : Lookup)
      → All (Refused l.node_id l.token l.checked_at) past
      → fetch compare l.repo l.node_id l.token ≡ none
      → (lookup compare ttl l (cache_after compare ttl past)).0 ≡ none
  Refused-lookup past l r f =
      elim (Option-cases (lookup compare ttl l (cache_after compare ttl past)).0) [
        | inl e ↦ e
        | inr (v, e) ↦ absurd (elim (lookup-Vouched past l v e) [
          | inl now ↦ ground (arith, f, now)
          | inr k ↦ Refused-Vouched past l.node_id l.token v l.checked_at r k
        ])
      ]

module _ (compare : String → String → Bool) (parse_uuid : String → Option ℕ)
    (ttl checked_at stored_at : ℕ) (r : Repo) where
  reply_of-none :
      (o : Option NodeView × List CacheEntry)
      → o.0 ≡ none
      → (reply_of compare parse_uuid ttl checked_at stored_at r o).0 ≡ refusal 401 "unauthenticated"
  reply_of-none (none, cache) e = refl
  reply_of-none (some v, cache) e = ground arith

-- A token that the database does not accept now, and did not accept at any call that stored its answer
-- less than the lifetime of the cache ago, is answered with 401: a revocation takes effect within one
-- lifetime, whatever was asked before it.
pub revoked-serve :
    (compare : String → String → Bool) (parse_uuid : String → Option ℕ)
    (ttl checked_at stored_at : ℕ) (r : Repo) (past : List Lookup) (node : String) (node_id : ℕ)
    (token : String)
    → parse_uuid node ≡ some node_id
    → All (Refused compare ttl node_id token checked_at) past
    → fetch compare r node_id token ≡ none
    → (serve compare parse_uuid ttl checked_at stored_at r
        (record { is_post = true; body = credentials node token })
        (cache_after compare ttl past)).0
      ≡ refusal 401 "unauthenticated"
unfolding serve
revoked-serve compare parse_uuid ttl checked_at stored_at r past node node_id token e old f =
    rw e (elim (Bool-cases (str_eq token "")) [
      | inl empty ↦ rw empty refl
      | inr given ↦ rw given (
          reply_of-none compare parse_uuid ttl checked_at stored_at r
            (lookup compare ttl
              (record {
                checked_at = checked_at;
                stored_at = stored_at;
                repo = r;
                node_id = node_id;
                token = token;
              })
              (cache_after compare ttl past))
            (Refused-lookup compare ttl past
              (record {
                checked_at = checked_at;
                stored_at = stored_at;
                repo = r;
                node_id = node_id;
                token = token;
              })
              old f))
    ])
