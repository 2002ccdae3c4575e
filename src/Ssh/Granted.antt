-- ===== src/Ssh/Granted.antt =====
-- Who gets a ticket, and for which instance
-- (SSHTicketHandler of services/main-api/internal/api/internal_ssh_ticket.go).
use hybrid_cloud_with_claude.Prelude.{
  ℕ, ◌==◌, ◌≡◌, refl, sym, ap, subst, ◌∙◌, ◌≤◌, ◌++◌, true, String, Option, some, none, List, [],
  ◌∷◌, length, take, find_where, select_where, Bool-cases, Option-cases, inl, inr, arith,
}
use hybrid_cloud_with_claude.Prelude.Bytes.{Bytes, strip_prefix}
use hybrid_cloud_with_claude.Prelude.Trim.{trim_space, to_lower}
use hybrid_cloud_with_claude.Schema.{running, online, state_eq, node_status_eq, Instance, Node, Db}
use hybrid_cloud_with_claude.Store.{World, Result, ok, err, statement}
use hybrid_cloud_with_claude.Slot.Queries.{get_node}
use hybrid_cloud_with_claude.Ssh.Ticket.{Signed, issue}
use hybrid_cloud_with_claude.Ssh.Prefix.{
  SshTicketRequest, check_request, Parsed, request, bad_request, parse_ssh_ticket_request,
  is_hex_lower, is_some, has_prefix, find_by_owner_and_id_prefix,
  list_instances_by_owner_and_id_prefix, Resolution, resolved, not_found, ambiguous_prefix,
  resolution, resolve_instance_by_prefix,
}
use hybrid_cloud_with_claude.Ssh.Handler.{
  SshTicketDeps, granted, ticket_of, after_node, with_ip, after_resolve, after_owner, with_keys,
  after_parse, ssh_ticket,
}

-- A ticket that is good: its request parsed, the key is the owner's, just one instance of the owner has
-- the prefix, it runs and has an address, its node is online, and the ticket is signed for them.
pub record Grant (deps : SshTicketDeps) (body : Option String) (db : Db) (s : Signed) : Type 0 where
  pub req : SshTicketRequest
  pub lookup : Bytes → Result ℕ
  pub owner : ℕ
  pub inst : Instance
  pub node : Node
  pub ip : String
  pub parsed : parse_ssh_ticket_request deps.decode body ≡ request req
  pub wired : deps.ssh_keys ≡ some lookup
  pub keyed : lookup req.ssh_key_fingerprint ≡ ok owner
  pub alone :
      select_where (has_prefix deps.uuid_text owner req.subdomain_prefix) db.instances ≡ inst ∷ []
  pub runs : state_eq inst.state running ≡ true
  pub reachable : inst.vm_internal_ip ≡ some ip
  pub placed : find_where (λ n. n.id == inst.node_id) db.nodes ≡ some node
  pub is_online : node_status_eq node.status online ≡ true
  pub signed :
      issue deps.crypto deps.signer deps.now deps.new_session (ticket_of deps inst node ip) ≡ some s

module _ (deps : SshTicketDeps) (s : Signed) where
  node-granted :
      (inst : Instance) (ip : String) (o : Result Node) (w : World)
      → (after_node deps inst ip o w).0 ≡ ok (granted s)
      → (node : Node) × (o ≡ ok node)
        × (node_status_eq node.status online ≡ true)
        × (issue deps.crypto deps.signer deps.now deps.new_session (ticket_of deps inst node ip)
            ≡ some s)
  node-granted inst ip (err e) w h = absurd (ground arith)
  node-granted inst ip (ok node) w h = (node, refl, ground arith, ground arith)

  placed-node :
      (id : ℕ) (w : World) (node : Node)
      → (statement (get_node id) w).0 ≡ ok node
      → find_where (λ n. n.id == id) w.db.nodes ≡ some node
  unfolding statement get_node
  placed-node id w node h = ground arith

  take_one :
      (xs : List Instance) (inst : Instance)
      → resolution (take 2 xs) ≡ resolved inst
      → xs ≡ inst ∷ []
  take_one [] inst h = absurd (ground arith)
  take_one (x ∷ []) inst h = ground arith
  take_one (x ∷ y ∷ xs) inst h = absurd (ground arith)

  resolve-alone :
      (owner : ℕ) (prefix : Bytes) (w : World) (inst : Instance)
      → (resolve_instance_by_prefix deps.uuid_text owner prefix w).0 ≡ ok (resolved inst)
      → select_where (has_prefix deps.uuid_text owner prefix) w.db.instances ≡ inst ∷ []
  unfolding resolve_instance_by_prefix find_by_owner_and_id_prefix
      list_instances_by_owner_and_id_prefix statement
  resolve-alone owner prefix w inst h =
      take_one (select_where (has_prefix deps.uuid_text owner prefix) w.db.instances) inst
        (ground arith)

  resolve-keeps :
      (owner : ℕ) (prefix : Bytes) (w : World)
      → (resolve_instance_by_prefix deps.uuid_text owner prefix w).1.db ≡ w.db
  unfolding resolve_instance_by_prefix find_by_owner_and_id_prefix
      list_instances_by_owner_and_id_prefix statement
  resolve-keeps owner prefix w = ground arith

  -- What a ticket for the instance needs beyond its owner.
  abbrev Ready : Instance → Db → Type 0
  Ready inst db =
      (node : Node) × (ip : String) × (state_eq inst.state running ≡ true)
      × (inst.vm_internal_ip ≡ some ip)
      × (find_where (λ n. n.id == inst.node_id) db.nodes ≡ some node)
      × (node_status_eq node.status online ≡ true)
      × (issue deps.crypto deps.signer deps.now deps.new_session (ticket_of deps inst node ip)
          ≡ some s)

  ip-granted :
      (inst : Instance) (o : Option String) (w : World)
      → inst.vm_internal_ip ≡ o
      → state_eq inst.state running ≡ true
      → (with_ip deps inst o w).0 ≡ ok (granted s)
      → Ready inst w.db
  ip-granted inst none w e runs h = absurd (ground arith)
  ip-granted inst (some ip) w e runs h =
      let read = statement (get_node inst.node_id) w in
      let (node, found, up, signed) = node-granted inst ip read.0 read.1 h in
      (node, ip, runs, e, placed-node inst.node_id w node found, up, signed)

  resolved-granted :
      (o : Result Resolution) (w : World)
      → (after_resolve deps o w).0 ≡ ok (granted s)
      → (inst : Instance) × (o ≡ ok (resolved inst)) × Ready inst w.db
  resolved-granted (err e) w h = absurd (ground arith)
  resolved-granted (ok not_found) w h = absurd (ground arith)
  resolved-granted (ok ambiguous_prefix) w h = absurd (ground arith)
  resolved-granted (ok (resolved inst)) w h = elim (Bool-cases (state_eq inst.state running)) [
    | inl t ↦ (inst, refl, ip-granted inst inst.vm_internal_ip w refl t (rw t at h))
    | inr f ↦ absurd (ground arith)
  ]

  owner-granted :
      (prefix : Bytes) (o : Result ℕ) (w : World)
      → (after_owner deps prefix o w).0 ≡ ok (granted s)
      → (owner : ℕ) × (inst : Instance) × (o ≡ ok owner)
        × (select_where (has_prefix deps.uuid_text owner prefix) w.db.instances ≡ inst ∷ [])
        × Ready inst w.db
  owner-granted prefix (err e) w h = absurd (ground arith)
  owner-granted prefix (ok owner) w h =
      let found = resolve_instance_by_prefix deps.uuid_text owner prefix w in
      let (inst, one, ready) = resolved-granted found.0 found.1 h in
      (
        owner,
        inst,
        refl,
        resolve-alone owner prefix w inst one,
        subst (Ready inst) (resolve-keeps owner prefix w) ready,
      )

  keys-granted :
      (body : Option String) (req : SshTicketRequest) (o : Option (Bytes → Result ℕ)) (w : World)
      → parse_ssh_ticket_request deps.decode body ≡ request req
      → deps.ssh_keys ≡ o
      → (with_keys deps req o w).0 ≡ ok (granted s)
      → Grant deps body w.db s
  keys-granted body req none w parsed wired h = absurd (ground arith)
  keys-granted body req (some lookup) w parsed wired h =
      let (owner, inst, keyed, alone, (node, ip, runs, reachable, placed, up, signed)) =
        owner-granted req.subdomain_prefix (lookup req.ssh_key_fingerprint) w h in
      record {
        req = req;
        lookup = lookup;
        owner = owner;
        inst = inst;
        node = node;
        ip = ip;
        parsed = parsed;
        wired = wired;
        keyed = keyed;
        alone = alone;
        runs = runs;
        reachable = reachable;
        placed = placed;
        is_online = up;
        signed = signed;
      }

  parse-granted :
      (body : Option String) (p : Parsed) (w : World)
      → parse_ssh_ticket_request deps.decode body ≡ p
      → (after_parse deps p w).0 ≡ ok (granted s)
      → Grant deps body w.db s
  parse-granted body (bad_request code) w e h = absurd (ground arith)
  parse-granted body (request req) w e h = keys-granted body req deps.ssh_keys w e refl h

-- A ticket is granted only for an instance that belongs to the owner of the client's key, is the only
-- one of that owner's with the prefix, runs, has an address and stands on a node that is online; it is
-- the signed ticket for that instance, node and address. This holds wherever the connection fails.
pub ssh_ticket-granted :
    (deps : SshTicketDeps) (body : Option String) (w : World) (s : Signed)
    → (ssh_ticket deps body w).0 ≡ ok (granted s)
    → Grant deps body w.db s
unfolding ssh_ticket
ssh_ticket-granted deps body w s h =
    parse-granted deps s body (parse_ssh_ticket_request deps.decode body) w refl h

within-head :
    (p head rest : Bytes)
    → is_hex_lower p ≡ true
    → is_some (strip_prefix p (head ++ b'-' ∷ rest)) ≡ true
    → length p ≤ length head
unfolding is_hex_lower strip_prefix
within-head [] head rest hex h = omega arith
within-head (c ∷ p) [] rest hex h = absurd (ground arith)
within-head (c ∷ p) (x ∷ head) rest hex h = ground (arith, within-head p head rest)

check-bounds :
    (p f : Bytes) (req : SshTicketRequest)
    → check_request p f ≡ request req
    → (8 ≤ length req.subdomain_prefix) × (is_hex_lower req.subdomain_prefix ≡ true)
check-bounds p f req h = (ground arith, ground arith)

parsed-bounds :
    (deps : SshTicketDeps) (body : Option String) (req : SshTicketRequest)
    → parse_ssh_ticket_request deps.decode body ≡ request req
    → (8 ≤ length req.subdomain_prefix) × (is_hex_lower req.subdomain_prefix ≡ true)
unfolding parse_ssh_ticket_request
parsed-bounds deps none req h = absurd (ground arith)
parsed-bounds deps (some b) req h = elim (Option-cases (deps.decode b)) [
  | inl e ↦ absurd (ground arith)
  | inr (r, e) ↦
      check-bounds (to_lower (trim_space r.subdomain_prefix)) (trim_space r.ssh_key_fingerprint) req
        (rw e at h)
]

has_prefix-select :
    (uuid_text : ℕ → Bytes) (owner : ℕ) (prefix : Bytes) (rows : List Instance) (i : Instance)
    → select_where (has_prefix uuid_text owner prefix) rows ≡ i ∷ []
    → has_prefix uuid_text owner prefix i ≡ true
has_prefix-select uuid_text owner prefix [] i h = absurd (ground arith)
has_prefix-select uuid_text owner prefix (x ∷ rows) i h =
    ground (arith, has_prefix-select uuid_text owner prefix rows i)

prefix-text :
    (uuid_text : ℕ → Bytes) (owner : ℕ) (prefix : Bytes) (i : Instance)
    → has_prefix uuid_text owner prefix i ≡ true
    → is_some (strip_prefix prefix (uuid_text i.id)) ≡ true
unfolding has_prefix
prefix-text uuid_text owner prefix i h = ground arith

-- Where the text of a uuid has a hyphen after its first eight digits, a ticket is granted only for a
-- prefix of exactly eight bytes, although requests with up to 32 are accepted.
pub granted_prefix-length :
    (deps : SshTicketDeps) (body : Option String) (w : World) (s : Signed) (req : SshTicketRequest)
    → ((id : ℕ)
        → (head : Bytes) × (rest : Bytes) × (length head ≡ 8)
          × (deps.uuid_text id ≡ head ++ b'-' ∷ rest))
    → parse_ssh_ticket_request deps.decode body ≡ request req
    → (ssh_ticket deps body w).0 ≡ ok (granted s)
    → length req.subdomain_prefix ≡ 8
granted_prefix-length deps body w s req shape parsed h =
    let g = ssh_ticket-granted deps body w s h in
    let same : g.req ≡ req = ground (arith, g.parsed) in
    let (least, hex) = parsed-bounds deps body g.req g.parsed in
    let (head, rest, eight, text) = shape g.inst.id in
    let found =
      has_prefix-select deps.uuid_text g.owner g.req.subdomain_prefix w.db.instances g.inst
        g.alone in
    let here = prefix-text deps.uuid_text g.owner g.req.subdomain_prefix g.inst found in
    let most = within-head g.req.subdomain_prefix head rest hex (rw text at here) in
    ap (λ r. length r.subdomain_prefix) (sym same) ∙ omega (arith, least, most, eight)
