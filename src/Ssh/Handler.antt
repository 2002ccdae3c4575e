-- ===== src/Ssh/Handler.antt =====
-- The tickets that the SSH proxy asks for (SSHTicketHandler and RequireInternalToken of
-- services/main-api/internal/api/internal_ssh_ticket.go).
use hybrid_cloud_with_claude.Prelude.{
  ℕ, Bool, true, not, ◌||◌, String, Option, some, none, if◌then◌else◌,
}
use hybrid_cloud_with_claude.Prelude.Bytes.{Bytes, codes, is_empty, bytes_eq, trim_prefix}
use hybrid_cloud_with_claude.Schema.{running, online, state_eq, node_status_eq, Instance, Node}
use hybrid_cloud_with_claude.Store.{Result, ok, err, Q, pure, attempt, statement}
use hybrid_cloud_with_claude.Slot.Queries.{get_node}
use hybrid_cloud_with_claude.Ssh.Ticket.{Ticket, Signed, Signer, Crypto, issue}
use hybrid_cloud_with_claude.Ssh.Prefix.{
  SshTicketRequest, Parsed, request, bad_request, parse_ssh_ticket_request, Resolution, resolved,
  not_found, ambiguous_prefix, resolve_instance_by_prefix,
}

-- What the handler is given: the keys' owners (none if it is not wired), the signer, and the texts.
pub record SshTicketDeps : Type 0 where
  pub decode : String → Option SshTicketRequest
  pub uuid_text : ℕ → Bytes
  pub ssh_keys : Option (Bytes → Result ℕ)
  pub crypto : Crypto
  pub signer : Signer
  pub now : ℕ
  pub new_session : String

pub data TicketReply : Type 0 where
  refused : ℕ → String → TicketReply
  granted : Signed → TicketReply

module _ (deps : SshTicketDeps) where
  abbrev pub ticket_of : Instance → Node → String → Ticket
  ticket_of inst node ip = record {
    session_id = "";
    instance_id = inst.id;
    node_id = node.id;
    vm_internal_ip = ip;
    vm_port = 22;
    tunnel_endpoint = "";
    expires_at = 0;
  }

  abbrev pub signed_reply : Option Signed → TicketReply
  signed_reply none = refused 500 "sign"
  signed_reply (some s) = granted s

  abbrev pub after_node : Instance → String → Result Node → Q TicketReply
  after_node inst ip (err e) = pure (refused 500 "node_lookup")
  after_node inst ip (ok node) =
      if not (node_status_eq node.status online)
      then pure (refused 409 "node_offline")
      else pure (
          signed_reply
            (issue deps.crypto deps.signer deps.now deps.new_session (ticket_of inst node ip)))

  abbrev pub with_ip : Instance → Option String → Q TicketReply
  with_ip inst none = pure (refused 409 "no_vm_ip")
  with_ip inst (some ip) = attempt (statement (get_node inst.node_id)) (after_node inst ip)

  abbrev pub after_resolve : Result Resolution → Q TicketReply
  after_resolve (err e) = pure (refused 404 "instance_lookup")
  after_resolve (ok not_found) = pure (refused 404 "instance_lookup")
  after_resolve (ok ambiguous_prefix) = pure (refused 409 "instance_lookup")
  after_resolve (ok (resolved inst)) =
      if not (state_eq inst.state running)
      then pure (refused 409 "not_running")
      else with_ip inst inst.vm_internal_ip

  abbrev pub after_owner : Bytes → Result ℕ → Q TicketReply
  after_owner prefix (err e) = pure (refused 404 "instance_lookup")
  after_owner prefix (ok owner) =
      attempt (resolve_instance_by_prefix deps.uuid_text owner prefix) after_resolve

  abbrev pub with_keys : SshTicketRequest → Option (Bytes → Result ℕ) → Q TicketReply
  with_keys req none = pure (refused 503 "ssh_auth_disabled")
  with_keys req (some lookup) = after_owner req.subdomain_prefix (lookup req.ssh_key_fingerprint)

  abbrev pub after_parse : Parsed → Q TicketReply
  after_parse (bad_request code) = pure (refused 400 code)
  after_parse (request req) = with_keys req deps.ssh_keys

  -- SSHTicketHandler
  unfoldable pub ssh_ticket : Option String → Q TicketReply
  unfolding parse_ssh_ticket_request resolve_instance_by_prefix statement get_node state_eq
      node_status_eq issue
  ssh_ticket body = after_parse (parse_ssh_ticket_request deps.decode body)

-- RequireInternalToken: whether the request goes through. `header` is the Authorization header, and an
-- empty expected token lets every request through.
unfoldable pub has_internal_token : Bytes → Bytes → Bool
unfolding trim_prefix
has_internal_token expected header =
    if is_empty expected
    then true
    else not (
        bytes_eq (trim_prefix (codes "Bearer ") header) header
        || not (bytes_eq (trim_prefix (codes "Bearer ") header) expected))
