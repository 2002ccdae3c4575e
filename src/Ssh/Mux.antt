-- ===== src/Ssh/Mux.antt =====
-- The sessions of the agents at the SSH proxy: services/ssh-proxy/internal/muxregistry/registry.go. Each
-- operation holds the mutex once, which is one step here; the sessions that it took out of the map are
-- closed in later steps, in any order with the others'.
use hybrid_cloud_with_claude.Prelude.{
  ℕ, suc, ◌==◌, ◌≡◌, ◌≢◌, Bool, true, false, String, str_eq, Option, none, some, if◌then◌else◌,
}

-- An entry, by the number of its session; an entry is compared as a pointer, and each registration has
-- a session of its own.
pub record Entry : Type 0 where
  pub sess : ℕ
  pub agent_version : String

-- Where a session is: not seen; held by the registry and open; open too, but out of the map and about
-- to be closed, from the unlock of the operation that took it out to its call of `sess.Close()`; or
-- closed. A session is closed in the sense of `IsClosed` only in the last case.
pub data Life : Type 0 where
  unseen held retiring shut : Life

-- `node_of` is the node that a session was registered for, and `degraded` counts the reports.
pub record Registry : Type 0 where
  pub sessions : String → Option Entry
  pub closed : Bool
  pub life : ℕ → Life
  pub node_of : ℕ → String
  pub degraded : String → ℕ

abbrev pub new_registry : Registry
new_registry = record {
  sessions = λ n. none;
  closed = false;
  life = λ s. unseen;
  node_of = λ s. "";
  degraded = λ n. 0;
}

abbrev pub set_session : String → Option Entry → (String → Option Entry) → String → Option Entry
set_session node e f n = if str_eq n node then e else f n

abbrev pub set_life : ℕ → Life → (ℕ → Life) → ℕ → Life
set_life s l f t = if t == s then l else f t

abbrev pub set_node : ℕ → String → (ℕ → String) → ℕ → String
set_node s n f t = if t == s then n else f t

-- A session that is closed already stays so.
abbrev pub is_shut : Life → Bool
is_shut shut = true
is_shut _ = false

abbrev pub retired : Life → Life
retired l = if is_shut l then shut else retiring

abbrev pub retire_entry : Option Entry → (ℕ → Life) → ℕ → Life
retire_entry none f = f
retire_entry (some e) f = set_life e.sess (retired (f e.sess)) f

-- A registry that is closed takes nothing.
abbrev pub register_as : Bool → String → ℕ → String → Registry → Registry
register_as true node s version r = record r {
  life = set_life s retiring r.life;
  node_of = set_node s node r.node_of;
}
register_as false node s version r = record r {
  sessions = set_session node (some (record { sess = s; agent_version = version })) r.sessions;
  life = set_life s held (retire_entry (r.sessions node) r.life);
  node_of = set_node s node r.node_of;
}

-- Register, up to its second unlock.
unfoldable pub register : String → ℕ → String → Registry → Registry
register node s version r = register_as r.closed node s version r

-- `sess.Close()` of a session that was taken out.
unfoldable pub shut_down : ℕ → Registry → Registry
shut_down s r = record r { life = set_life s shut r.life }

-- Deregister
unfoldable pub deregister : String → Registry → Registry
deregister node r = record r {
  sessions = set_session node none r.sessions;
  life = retire_entry (r.sessions node) r.life;
}

-- Close: every entry of the map is taken out.
abbrev pub is_current : Option Entry → ℕ → Bool
is_current none s = false
is_current (some cur) s = cur.sess == s

unfoldable pub close : Registry → Registry
close r = record r {
  sessions = λ n. none;
  closed = true;
  life = λ s. if is_current (r.sessions (r.node_of s)) s then retired (r.life s) else r.life s;
}

abbrev pub remove_if : Bool → String → (String → Option Entry) → String → Option Entry
remove_if true node f = set_session node none f
remove_if false node f = f

-- handleDeath of the session: it is closed in any case, and the node is reported.
unfoldable pub handle_death : String → ℕ → Registry → Registry
handle_death node s r = record r {
  sessions = remove_if (is_current (r.sessions node) s) node r.sessions;
  life = set_life s (retired (r.life s)) r.life;
  degraded = λ n. if str_eq n node then suc (r.degraded n) else r.degraded n;
}

pub data Opened : Type 0 where
  unknown_node session_closed : Opened
  opened : ℕ → Opened

abbrev pub open_entry : Option Entry → (ℕ → Life) → Opened
open_entry none f = unknown_node
open_entry (some e) f = if is_shut (f e.sess) then session_closed else opened e.sess

-- OpenStream: the session on which a stream is opened. The code reads the map under the mutex and asks
-- `IsClosed` right after it; here both are of one moment.
unfoldable pub open_stream : String → Registry → Opened
open_stream node r = open_entry (r.sessions node) r.life

pub data Step (r : Registry) : Registry → Type 0 where
  registers :
      (node : String) (s : ℕ) (version : String)
      → r.life s ≡ unseen
      → Step r (register node s version r)
  shuts : (s : ℕ) → r.life s ≡ retiring → Step r (shut_down s r)
  deregisters : (node : String) → Step r (deregister node r)
  closes : Step r (close r)
  -- The agent, or the network, ends the session.
  breaks : (s : ℕ) → r.life s ≡ held → Step r (shut_down s r)
  -- The health checker of a session finds it dead; others may have taken it out before.
  dies : (s : ℕ) → r.life s ≢ unseen → Step r (handle_death (r.node_of s) s r)

pub data Reach : Registry → Type 0 where
  starts : Reach new_registry
  then_step : {r r' : Registry} → Reach r → Step r r' → Reach r'
