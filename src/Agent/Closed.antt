-- ===== src/Agent/Closed.antt =====
-- What a stream leaves in the registry when it ends (Stream of
-- services/main-api/internal/grpc/agent_stream.go and the cleanup of grpc/registry.go).
use hybrid_cloud_with_claude.Prelude.{
  ℕ, ◌≤◌, ◌==◌, ◌≡◌, ◌≢◌, refl, inl, inr, false, String, List, [], ◌∷◌, All, find_where,
  delete_where, count_where, arith, Bool-cases,
}
use hybrid_cloud_with_claude.Prelude.Kept.{All-delete}
use hybrid_cloud_with_claude.Store.{World, Result, ok, err}
use hybrid_cloud_with_claude.Agent.Registry.{
  RegistryEntry, AgentRegistry, for_node, entry_at, is_entry, register, cleanup, Step, starts, ends,
  after,
}
use hybrid_cloud_with_claude.Agent.Session.{
  Service, Peer, Joined, refused, joined, handshake, run_joined, after_handshake, stream,
}

-- A node has one entry at most.
abbrev pub OneEach : List RegistryEntry → Type 0
OneEach es = (u : ℕ) → count_where (for_node u) es ≤ 1

abbrev pub Without : ℕ → RegistryEntry → Type 0
Without ch e = e.ch ≢ ch

-- An entry with the channel is the one of this registration.
abbrev Ours : ℕ → ℕ → ℕ → RegistryEntry → Type 0
Ours n k ch e = e.ch ≡ ch → (e.node_id ≡ n) × (e.serial ≡ k)

-- A stream that starts meanwhile has a channel of its own.
abbrev pub OwnChannel : ℕ → Step → Type 0
OwnChannel ch (starts m c endpoint) = c ≢ ch
OwnChannel ch (ends m s) = Unit {0}

count-delete_le :
    (u n : ℕ) (es : List RegistryEntry)
    → count_where (for_node u) (delete_where (for_node n) es) ≤ count_where (for_node u) es
count-delete_le u n [] = omega arith
count-delete_le u n (e ∷ es) = ground (arith, count-delete_le u n es)

count-delete_self :
    (n : ℕ) (es : List RegistryEntry) → count_where (for_node n) (delete_where (for_node n) es) ≡ 0
count-delete_self n [] = refl
count-delete_self n (e ∷ es) = ground (arith, count-delete_self n es)

register-OneEach :
    (n ch : ℕ) (endpoint : String) (r : AgentRegistry)
    → OneEach r.nodes
    → OneEach (register n ch endpoint r).nodes
unfolding register
register-OneEach n ch endpoint r h u = elim (Bool-cases (n == u)) [
  | inl t ↦ ground (arith, count-delete_self n r.nodes)
  | inr f ↦ ground (arith, count-delete_le u n r.nodes, h u)
]

record Held (n k ch : ℕ) (r : AgentRegistry) : Type 0 where
  one_each : OneEach r.nodes
  ours : All (Ours n k ch) r.nodes

delete-Held :
    (n k ch m : ℕ) (r : AgentRegistry)
    → Held n k ch r
    → Held n k ch (record r { nodes = delete_where (for_node m) r.nodes })
delete-Held n k ch m r h = record {
  one_each = λ u. omega (arith, count-delete_le u m r.nodes, h.one_each u);
  ours = All-delete (Ours n k ch) (for_node m) r.nodes h.ours;
}

cleanup-Held : (n k ch m s : ℕ) (r : AgentRegistry) → Held n k ch r → Held n k ch (cleanup m s r)
unfolding cleanup
cleanup-Held n k ch m s r h = elim (Bool-cases (is_entry s (entry_at m r))) [
  | inl t ↦ rw t (delete-Held n k ch m r h)
  | inr f ↦ rw f h
]

after-Held :
    (n k ch : ℕ) (steps : List Step) (r : AgentRegistry)
    → All (OwnChannel ch) steps
    → Held n k ch r
    → Held n k ch (after steps r)
unfolding after
after-Held n k ch [] r o h = h
after-Held n k ch (starts m c endpoint ∷ rest) r o h =
    after-Held n k ch rest (register m c endpoint r) o.1 (record {
      one_each = register-OneEach m c endpoint r h.one_each;
      ours =
          unfold register in
          ((λ e. absurd (o.0 e)), All-delete (Ours n k ch) (for_node m) r.nodes h.ours);
    })
after-Held n k ch (ends m s ∷ rest) r o h =
    after-Held n k ch rest (cleanup m s r) o.1 (cleanup-Held n k ch m s r h)

-- Entries of other nodes do not have the channel.
others-Without :
    (n k ch : ℕ) (es : List RegistryEntry)
    → count_where (for_node n) es ≡ 0
    → All (Ours n k ch) es
    → All (Without ch) es
others-Without n k ch [] c h = tt
others-Without n k ch (e ∷ es) c h =
    ((λ same. ground (arith, (h.0 same).0)), others-Without n k ch es (ground arith) h.1)

-- Where the node's entry is not this registration, no entry has the channel.
replaced-Without :
    (n k ch : ℕ) (es : List RegistryEntry)
    → is_entry k (find_where (for_node n) es) ≡ false
    → count_where (for_node n) es ≤ 1
    → All (Ours n k ch) es
    → All (Without ch) es
replaced-Without n k ch [] f c h = tt
replaced-Without n k ch (e ∷ es) f c h = elim (Bool-cases (for_node n e)) [
  | inl t ↦ ((λ same. ground (arith, (h.0 same).1)), others-Without n k ch es (ground arith) h.1)
  | inr e' ↦ (
    (λ same. ground (arith, (h.0 same).0)),
    replaced-Without n k ch es (ground arith) (ground arith) h.1,
  )
]

cleanup-Without :
    (n k ch : ℕ) (r : AgentRegistry) → Held n k ch r → All (Without ch) (cleanup n k r).nodes
unfolding cleanup
cleanup-Without n k ch r h = elim (Bool-cases (is_entry k (entry_at n r))) [
  | inl t ↦ rw t (
      others-Without n k ch (delete_where (for_node n) r.nodes) (count-delete_self n r.nodes)
        (All-delete (Ours n k ch) (for_node n) r.nodes h.ours))
  | inr f ↦ rw f (replaced-Without n k ch r.nodes f (h.one_each n) h.ours)
]

-- A registration with a new channel.
register-Held :
    (n ch : ℕ) (endpoint : String) (r : AgentRegistry)
    → OneEach r.nodes
    → All (Without ch) r.nodes
    → Held n r.next ch (register n ch endpoint r)
register-Held n ch endpoint r u h = record {
  one_each = register-OneEach n ch endpoint r u;
  ours =
      unfold register in
      ((λ e. (refl, refl)), All-delete (Ours n r.next ch) (for_node n) r.nodes (vacuous r.nodes h));
}
  where
    vacuous : (es : List RegistryEntry) → All (Without ch) es → All (Ours n r.next ch) es
    vacuous [] h = tt
    vacuous (e ∷ es) h = ((λ same. absurd (h.0 same)), vacuous es h.1)

module _ (s : Service) (p : Peer) (others : List Step) (ch : ℕ) where
  run_joined-Without :
      (j : Joined) (r : AgentRegistry) (w : World)
      → OneEach r.nodes
      → All (Without ch) r.nodes
      → All (OwnChannel ch) others
      → All (Without ch) (run_joined s p others ch j r w).1.nodes
  run_joined-Without (refused status) r w u h o = h
  run_joined-Without (joined n reg) r w u h o =
      cleanup-Without n.id r.next ch (after others (register n.id ch reg.agent_tunnel_endpoint r)) (
        after-Held n.id r.next ch others (register n.id ch reg.agent_tunnel_endpoint r) o
          (register-Held n.id ch reg.agent_tunnel_endpoint r u h))

  after_handshake-Without :
      (r : AgentRegistry) (d : Result Joined × World)
      → OneEach r.nodes
      → All (Without ch) r.nodes
      → All (OwnChannel ch) others
      → All (Without ch) (after_handshake s p others ch r d).1.nodes
  after_handshake-Without r (ok j, w) u h o = run_joined-Without j r w u h o
  after_handshake-Without r (err e, w) u h o = h

-- Where a node has one entry at most, no entry has the stream's new channel, and the streams that start
-- meanwhile have other channels, the registry does not hold the channel when the stream has ended,
-- whether it was refused, replaced by a newer stream of its node, or neither.
pub stream-closed :
    (s : Service) (p : Peer) (others : List Step) (ch : ℕ) (r : AgentRegistry) (w : World)
    → OneEach r.nodes
    → All (Without ch) r.nodes
    → All (OwnChannel ch) others
    → All (Without ch) (stream s p others ch r w).1.nodes
unfolding stream
stream-closed s p others ch r w u h o =
    after_handshake-Without s p others ch r (handshake s p w) u h o
