-- ===== src/Agent/Registry.antt =====
-- The registry of agent streams (services/main-api/internal/grpc/registry.go). A node and a stream
-- have numbers; the identity of a registry entry, which the cleanup compares, is its serial number.
use hybrid_cloud_with_claude.Prelude.{
  ℕ, ◌+◌, ◌==◌, ltb, Bool, true, false, String, str_eq, Option, some, none, List, [], ◌∷◌, ◌++◌,
  length, find_where, delete_where, if◌then◌else◌,
}
use hybrid_cloud_with_claude.Store.{Result, ok, err, not_connected, send_panic}
use hybrid_cloud_with_claude.Api.View.{ControlMessage}

pub record RegistryEntry : Type 0 where
  pub node_id : ℕ
  pub serial : ℕ
  pub ch : ℕ
  pub tunnel_endpoint : String

-- The map `nodes`: one entry for a node at most, since a write replaces the entry.
pub record AgentRegistry : Type 0 where
  pub nodes : List RegistryEntry
  pub next : ℕ

abbrev pub new_agent_registry : AgentRegistry
new_agent_registry = record { nodes = []; next = 0 }

abbrev pub for_node : ℕ → RegistryEntry → Bool
for_node node_id e = e.node_id == node_id

abbrev pub entry_at : ℕ → AgentRegistry → Option RegistryEntry
entry_at node_id r = find_where (for_node node_id) r.nodes

-- Register: the new entry replaces the node's entry. The serial of the entry is what its cleanup
-- holds.
unfoldable pub register : ℕ → ℕ → String → AgentRegistry → AgentRegistry
register node_id ch tunnel_endpoint r = record {
  nodes =
      record { node_id = node_id; serial = r.next; ch = ch; tunnel_endpoint = tunnel_endpoint }
      ∷ delete_where (for_node node_id) r.nodes;
  next = r.next + 1;
}

abbrev pub is_entry : ℕ → Option RegistryEntry → Bool
is_entry serial none = false
is_entry serial (some e) = e.serial == serial

-- The function that Register returns.
unfoldable pub cleanup : ℕ → ℕ → AgentRegistry → AgentRegistry
cleanup node_id serial r =
    if is_entry serial (entry_at node_id r)
    then record r { nodes = delete_where (for_node node_id) r.nodes }
    else r

abbrev is_there : Option RegistryEntry → Bool
is_there none = false
is_there (some e) = true

unfoldable pub connected : ℕ → AgentRegistry → Bool
connected node_id r = is_there (entry_at node_id r)

abbrev endpoint_in : Option RegistryEntry → String × Bool
endpoint_in none = ("", false)
endpoint_in (some e) =
    if str_eq e.tunnel_endpoint "" then ("", false) else (e.tunnel_endpoint, true)

unfoldable pub tunnel_endpoint : ℕ → AgentRegistry → String × Bool
tunnel_endpoint node_id r = endpoint_in (entry_at node_id r)

-- A buffered channel.
pub record Channel : Type 0 where
  pub buffer : List ControlMessage
  pub capacity : ℕ
  pub closed : Bool

abbrev put : ℕ → Channel → (ℕ → Channel) → ℕ → Channel
put ch c chans k = if k == ch then c else chans k

-- The reader takes the first message.
abbrev drop_first : List ControlMessage → List ControlMessage
drop_first [] = []
drop_first (m ∷ ms) = ms

-- `select` on the send and the timer: with no room the send goes ahead only if the reader takes a
-- message before the timer fires, which is the argument `drains`; a closed channel panics. A channel
-- that is closed while the send waits is left out.
unfoldable pub send_on :
    Bool → ℕ → ControlMessage → (ℕ → Channel) → Result (Unit {0}) × (ℕ → Channel)
send_on drains ch msg chans =
    let c = chans ch in
    if c.closed
    then (err send_panic, chans)
    else if ltb (length c.buffer) c.capacity
    then (ok tt, put ch (record c { buffer = c.buffer ++ msg ∷ [] }) chans)
    else if drains
    then (ok tt, put ch (record c { buffer = drop_first c.buffer ++ msg ∷ [] }) chans)
    else (err not_connected, chans)

abbrev send_to :
    Option RegistryEntry → Bool → ControlMessage → (ℕ → Channel) → Result (Unit {0}) × (ℕ → Channel)
send_to none drains msg chans = (err not_connected, chans)
send_to (some e) drains msg chans = send_on drains e.ch msg chans

unfoldable pub send :
    Bool → ℕ → ControlMessage → AgentRegistry → (ℕ → Channel) → Result (Unit {0}) × (ℕ → Channel)
unfolding send_on
send drains node_id msg r chans = send_to (entry_at node_id r) drains msg chans

-- What the streams do to the registry, in any order: a stream starts, or a stream ends and runs the
-- cleanup of its own registration.
pub data Step : Type 0 where
  starts : ℕ → ℕ → String → Step
  ends : ℕ → ℕ → Step

unfoldable pub after : List Step → AgentRegistry → AgentRegistry
unfolding register cleanup
after [] r = r
after (starts node_id ch endpoint ∷ rest) r = after rest (register node_id ch endpoint r)
after (ends node_id serial ∷ rest) r = after rest (cleanup node_id serial r)
