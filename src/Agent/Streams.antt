-- ===== src/Agent/Streams.antt =====
-- Reconnecting agents in the registry (services/main-api/internal/grpc/registry.go).
use hybrid_cloud_with_claude.Prelude.{
  ℕ, ◌==◌, ==_refl, ◌≡◌, ◌≢◌, refl, ◌∙◌, inl, inr, false, String, some, none, List, [], ◌∷◌,
  find_where, delete_where, All, arith, Bool-cases,
}
use hybrid_cloud_with_claude.Agent.Registry.{
  RegistryEntry, AgentRegistry, for_node, entry_at, register, cleanup, connected, Step, starts,
  ends, after,
}

find-delete_self :
    (n : ℕ) (es : List RegistryEntry)
    → find_where (for_node n) (delete_where (for_node n) es) ≡ none
find-delete_self n [] = refl
find-delete_self n (e ∷ es) = ground (arith, find-delete_self n es)

find-delete_ne :
    (n m : ℕ) (es : List RegistryEntry)
    → m ≢ n
    → find_where (for_node n) (delete_where (for_node m) es) ≡ find_where (for_node n) es
find-delete_ne n m [] ne = refl
find-delete_ne n m (e ∷ es) ne = ground (arith, find-delete_ne n m es ne)

-- A later step that is not a newer stream of the node: it starts a stream of another node, or runs the
-- cleanup of another registration.
abbrev pub Other : ℕ → ℕ → Step → Type 0
Other n serial (starts m ch endpoint) = m ≢ n
Other n serial (ends m s) = s ≢ serial

register-entry_at :
    (n m ch : ℕ) (endpoint : String) (r : AgentRegistry)
    → m ≢ n
    → entry_at n (register m ch endpoint r) ≡ entry_at n r
unfolding register
register-entry_at n m ch endpoint r ne = ground (arith, find-delete_ne n m r.nodes ne)

cleanup-entry_at :
    (n m s : ℕ) (r : AgentRegistry) (e : RegistryEntry)
    → s ≢ e.serial
    → entry_at n r ≡ some e
    → entry_at n (cleanup m s r) ≡ some e
unfolding cleanup
cleanup-entry_at n m s r e ne h = elim (Bool-cases (m == n)) [
  | inl t ↦ ground arith
  | inr f ↦ ground (arith, find-delete_ne n m r.nodes (λ (x : m ≡ n). ground arith))
]

survives :
    (n : ℕ) (e : RegistryEntry) (steps : List Step) (r : AgentRegistry)
    → All (Other n e.serial) steps
    → entry_at n r ≡ some e
    → entry_at n (after steps r) ≡ some e
unfolding after
survives n e [] r o h = h
survives n e (starts m ch endpoint ∷ rest) r o h =
    survives n e rest (register m ch endpoint r) o.1 (register-entry_at n m ch endpoint r o.0 ∙ h)
survives n e (ends m s ∷ rest) r o h =
    survives n e rest (cleanup m s r) o.1 (cleanup-entry_at n m s r e o.0 h)

-- A stream that registers replaces the node's older stream. As long as no newer stream of the node
-- registers and the stream's own cleanup has not run, it stays the node's stream through what the other
-- streams do: streams of other nodes start and end, and the streams that it replaced run their late
-- cleanups. Its own cleanup then leaves the node unconnected.
pub reconnect :
    (n ch : ℕ) (endpoint : String) (steps : List Step) (r : AgentRegistry)
    → All (Other n r.next) steps
    → (entry_at n (after steps (register n ch endpoint r))
        ≡ some (record { node_id = n; serial = r.next; ch = ch; tunnel_endpoint = endpoint }))
      × (connected n (cleanup n r.next (after steps (register n ch endpoint r))) ≡ false)
unfolding cleanup connected
reconnect n ch endpoint steps r o =
    let e : RegistryEntry = record {
      node_id = n;
      serial = r.next;
      ch = ch;
      tunnel_endpoint = endpoint;
    } in
    let here =
      survives n e steps (register n ch endpoint r) o
        (unfold register in ground (arith, ==_refl n)) in
    (
      here,
      ground (
        arith,
        find-delete_self n (after steps (register n ch endpoint r)).nodes,
        ==_refl r.next,
      ),
    )
