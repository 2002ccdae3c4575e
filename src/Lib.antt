-- ===== src/Lib.antt =====
-- A verification library for the hybrid-cloud repository: the control plane
-- (services/main-api/internal) with its GPU slots, instances and their audit log, credits, billing,
-- agents' streams and SSH tickets; the compute agent (services/compute-agent/internal) with its
-- profile, its virtual machines and their devices; and the routes and sessions of the SSH proxy
-- (services/ssh-proxy/internal).
--
-- The parts and how they interact. main-api keeps its state in a database. The repositories of
-- instances, slots, credits and nodes are the only code that writes it; the HTTP handlers (api), the
-- agent stream and its sweeper (grpc) and the billing worker (billing) call them, and reach the
-- compute agents through the agent registry. An agent reads the profile of its node, which main-api
-- stores as slots, and creates and destroys virtual machines on main-api's messages. The SSH proxy
-- takes the target of a client apart, asks main-api for a ticket and opens a stream on the session of
-- the instance's agent.
--
--   Schema             db/dbstore/models.go: the enums and rows, and one record `Db` of all tables.
--   Store              the session: a `World` holds the tables, the statements that the connection will
--                      fail (`faults`), the uuids that the server will generate and its clock; `Q A` is
--                      a program on it that answers with a value or an error; `in_tx` is inTx of the
--                      repositories. Store/Laws, Store/Keeps and Store/Quiet reason about
--                      programs of statements.
--   Instance           instance/state.go (Machine), the statements of instances.sql.go (Queries) and
--                      instance/repo.go (Repo); Paths, Rows, Audit and Works prove.
--   Slot               slots.sql.go (Queries) and slot/repo.go (Repo); Picked, Reserve, Undo, Bound,
--                      Valid, Invariant and Sync prove.
--   Credit             credits.sql.go (Queries) and credit/repo.go (Repo); Books proves.
--   Billing            billing/rates.go (Rates) and billing/worker.go (Worker); Charges and Sweep prove.
--   Agent              nodes.sql.go with node/repo.go (Nodes), the messages (Status), the sweeper
--                      (Sweeper) and the whole stream (Session) of grpc/agent_stream.go,
--                      grpc/registry.go (Registry); Invariant, Release, Reaping, Reaped, Swept,
--                      Streams, Served and Closed prove.
--   Api                api/admin_instances.go: requests, replies and addresses (View), the creation
--                      (Create) and the removal (Destroy) of an instance; api/user_instances.go
--                      (Owner); Soundness, Undo, Refused, Keys and Hidden prove.
--   Auth               auth/ratelimit.go (RateLimit) and agentauth/agentauth.go with repo.go
--                      (AgentAuth); Window and Revoked prove.
--   Invariant          the invariant `Sound` of the tables that the handlers and the stream share.
--   Compute            profile/profile.go (Profile), libvirt/domain.go and xml.go (Xml), what the agent
--                      asks of its host (Host), libvirt/manager.go (Manager), the work of
--                      vm/handler.go (Vm) and its exclusion of operations (Ops), gpu/iommu.go
--                      (Gpu); Layouts, Seeding, Hostdevs, Steps, Lifecycle, Starting, Creation, Exclusive and
--                      Bindable prove.
--   Ssh                ssh-proxy's router/router.go (Router) and muxregistry/registry.go (Mux), main-api's
--                      sshticket/ticket.go (Ticket) and api/internal_ssh_ticket.go (Prefix and
--                      Handler); Sessions and Granted prove.
--   Examples           runs on small tables, hosts and registries.
--
-- How the code is modelled. A table is the list of its rows in order of insertion; a statement is a
-- function on the tables, with the checks, unique columns and foreign keys of the migrations. A uuid
-- is a number, a timestamp a number of seconds, an int32 or int64 a ℤ; the one sum that can leave 64
-- bits, the balance, is an error of its statement, as in the database. A statement fails if the
-- next entry of `faults` says so, and the theorems hold for every such list unless they ask for the
-- empty one. A transaction runs on the tables as a whole, with no other beside it. The reservations of
-- one node wait for one another on an advisory lock; the other transactions run at READ COMMITTED
-- without row locks (Transition reads its row and then writes it), and what is shown of them is shown of
-- transactions one after another, not of two that overlap. An HTTP handler or a tick of the sweeper or
-- of the billing worker is a sequence of transactions and statements. Loops run over lists, so no
-- fuel is needed; the billing loop runs over the times of its ticks, and the poll for an address over
-- the waits before its deadline. A text that is only compared is a String; one that is taken apart is
-- a list of bytes. The goroutines of the agent's handler and of the proxy's registry are step
-- relations, in which a step is what happens under one lock, or the closing of one session.
--
-- Parameters: the collation of the server, the text of a billing key, the parsers of uuids, addresses,
-- requests and topologies, the text of errors and of uuids, the membership of teams, the owners of
-- keys, and the answers of the dispatcher to a handler; bcrypt, HMAC, base64 and JSON of a ticket; and the
-- calls of an agent's host: libvirt, its files, qemu-img and sysfs. A theorem names what it assumes of
-- them; the laws of a host are the record `HostLaws` of Compute/Steps and `StartLaws` of
-- Compute/Starting.
--
-- Not modelled: logging, the encoding of XML, JSON and protobuf, the texts of error replies, the zone
-- that a new node refers to, the send loop of an agent's stream, the sessions of users,
-- the other HTTP handlers, the listing of devices, the tunnels and servers of the proxy, and the web
-- frontend.
pub mod Prelude
pub mod Schema
pub mod Store
pub mod Instance
pub mod Slot
pub mod Credit
pub mod Billing
pub mod Invariant
pub mod Agent
pub mod Api
pub mod Auth
pub mod Compute
pub mod Ssh
pub mod Examples
