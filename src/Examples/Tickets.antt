-- ===== src/Examples/Tickets.antt =====
-- The theorems on SSH access at one instance: services/ssh-proxy/internal/router/router.go and
-- services/main-api/internal/{sshticket/ticket.go,api/internal_ssh_ticket.go}.
use hybrid_cloud_with_claude.Prelude.{
  ◌==◌, ◌≡◌, ◌≢◌, ◌↔◌, refl, Bool, false, ◌&&◌, str_eq, str_eq_iff, Option, some, none, [], ◌∷◌,
  ◌++◌, length, if◌then◌else◌, arith,
}
use hybrid_cloud_with_claude.Prelude.Bytes.{Bytes, codes, contains_byte, bytes_eq, bytes_eq_iff}
use hybrid_cloud_with_claude.Store.{World, ok}
use hybrid_cloud_with_claude.Ssh.Router.{
  Route, routed, extract_route, host_name, zone_name, extract_route_iff,
}
use hybrid_cloud_with_claude.Ssh.Ticket.{
  Ticket, Signed, Signer, Crypto, stamped, issue, verify, expired, invalid_signature, verify-issue,
}
use hybrid_cloud_with_claude.Ssh.Prefix.{SshTicketRequest, request, parse_ssh_ticket_request}
use hybrid_cloud_with_claude.Ssh.Handler.{SshTicketDeps, granted, ssh_ticket}
use hybrid_cloud_with_claude.Ssh.Granted.{Grant, ssh_ticket-granted, granted_prefix-length}
use hybrid_cloud_with_claude.Examples.Data.{busy_db, instance_row, world_of}

abbrev vm_route : Route
vm_route = record { prefix = codes "abc12345"; zone = codes "hybrid-cloud.com" }

extract_route_iff_example :
    (extract_route (codes "ABC12345.hybrid-cloud.com.") (codes ".hybrid-cloud.com")
      ≡ routed vm_route)
    ↔ ((host_name (codes "ABC12345.hybrid-cloud.com.") ≡ vm_route.prefix ++ b'.' ∷ vm_route.zone)
        × (vm_route.zone ≡ zone_name (codes ".hybrid-cloud.com"))
        × (vm_route.zone ≢ [])
        × (vm_route.prefix ≢ [])
        × (contains_byte b'.' vm_route.prefix ≡ false))
extract_route_iff_example =
    extract_route_iff (codes "ABC12345.hybrid-cloud.com.") (codes ".hybrid-cloud.com") vm_route

vm_routed :
    extract_route (codes "ABC12345.hybrid-cloud.com.") (codes ".hybrid-cloud.com") ≡ routed vm_route
unfolding extract_route
vm_routed = refl

-- The ticket of instance 10.
abbrev vm_ticket : Ticket
vm_ticket = record {
  session_id = "";
  instance_id = 10;
  node_id = 1;
  vm_internal_ip = "10.0.0.2";
  vm_port = 22;
  tunnel_endpoint = "";
  expires_at = 0;
}

abbrev vm_signer : Signer
vm_signer = record { secret = codes "0123456789abcdef"; ttl = 60 }

abbrev vm_stamped : Ticket
vm_stamped = stamped vm_signer 600 "s1" vm_ticket

abbrev same_ticket : Ticket → Ticket → Bool
same_ticket a b =
    str_eq a.session_id b.session_id
    && a.instance_id == b.instance_id
    && a.node_id == b.node_id
    && str_eq a.vm_internal_ip b.vm_internal_ip
    && a.vm_port == b.vm_port
    && str_eq a.tunnel_endpoint b.tunnel_endpoint
    && a.expires_at == b.expires_at

abbrev marshal_one : Ticket → Option Bytes
marshal_one t = if same_ticket t vm_stamped then some (codes "t") else none

abbrev unmarshal_one : Bytes → Option Ticket
unmarshal_one raw = if bytes_eq raw (codes "t") then some vm_stamped else none

abbrev one_ticket : Crypto
one_ticket = record {
  hmac_sha256 = λ secret text. secret ++ text;
  base64 = λ raw. raw;
  from_base64 = λ text. some text;
  marshal = marshal_one;
  unmarshal = unmarshal_one;
}

reads_back : (t : Ticket) (raw : Bytes) → marshal_one t ≡ some raw → unmarshal_one raw ≡ some t
reads_back t raw h = ground (
  arith,
  str_eq_iff t.session_id "s1",
  str_eq_iff t.vm_internal_ip "10.0.0.2",
  str_eq_iff t.tunnel_endpoint "",
  bytes_eq_iff raw (codes "t"),
)

abbrev vm_signed : Signed
vm_signed = record { payload = codes "t"; signature = codes "0123456789abcdeft" }

vm_issued : issue one_ticket vm_signer 600 "s1" vm_ticket ≡ some vm_signed
unfolding issue
vm_issued = refl

-- One second after its end.
verify-issue_example :
    (verify one_ticket vm_signer.secret 661 vm_signed ≡ expired)
    × (verify one_ticket vm_signer.secret 661 (record vm_signed { signature = [] })
        ≡ invalid_signature)
verify-issue_example =
    verify-issue one_ticket vm_signer 600 661 "s1" vm_ticket vm_signed [] (λ raw. refl) reads_back
      vm_issued (λ e. ground arith)

abbrev vm_request : SshTicketRequest
vm_request = record { subdomain_prefix = codes "abc12345"; ssh_key_fingerprint = codes "SHA256:k" }

abbrev vm_deps : SshTicketDeps
vm_deps = record {
  decode = λ body. some vm_request;
  uuid_text = λ id. codes "abc12345-0000";
  ssh_keys = some (λ fingerprint. ok 7);
  crypto = one_ticket;
  signer = vm_signer;
  now = 600;
  new_session = "s1";
}

abbrev leased : World
leased =
    world_of
      (record busy_db { instances = record instance_row { vm_internal_ip = some "10.0.0.2" } ∷ [] })
      600

vm_granted : (ssh_ticket vm_deps (some "{}") leased).0 ≡ ok (granted vm_signed)
unfolding ssh_ticket
vm_granted = refl

ssh_ticket-granted_example : Grant vm_deps (some "{}") leased.db vm_signed
ssh_ticket-granted_example = ssh_ticket-granted vm_deps (some "{}") leased vm_signed vm_granted

vm_parsed : parse_ssh_ticket_request vm_deps.decode (some "{}") ≡ request vm_request
unfolding parse_ssh_ticket_request
vm_parsed = refl

granted_prefix-length_example : length (codes "abc12345") ≡ 8
granted_prefix-length_example =
    granted_prefix-length vm_deps (some "{}") leased vm_signed vm_request
      (λ id. (codes "abc12345", codes "0000", refl, refl)) vm_parsed vm_granted
