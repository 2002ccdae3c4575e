-- ===== src/Ssh/Prefix.antt =====
-- The request for a ticket and the instance that it names
-- (services/main-api/internal/api/internal_ssh_ticket.go, with the statement of
-- services/main-api/internal/db/dbstore/instances.sql.go).
use hybrid_cloud_with_claude.Prelude.{
  ℕ, ltb, leb, Bool, true, false, not, ◌&&◌, ◌||◌, String, Option, some, none, List, [], ◌∷◌,
  length, take, select_where, if◌then◌else◌,
}
use hybrid_cloud_with_claude.Prelude.Bytes.{Bytes, is_empty, strip_prefix}
use hybrid_cloud_with_claude.Prelude.Trim.{trim_space, to_lower}
use hybrid_cloud_with_claude.Schema.{Instance, Db}
use hybrid_cloud_with_claude.Store.{Result, ok, Q, ◌>>=◌, pure, statement}
use hybrid_cloud_with_claude.Instance.Queries.{owned_by}

pub record SshTicketRequest : Type 0 where
  pub subdomain_prefix : Bytes
  pub ssh_key_fingerprint : Bytes

pub data Parsed : Type 0 where
  request : SshTicketRequest → Parsed
  bad_request : String → Parsed

-- isHexLower
unfoldable pub is_hex_lower : Bytes → Bool
is_hex_lower [] = true
is_hex_lower (c ∷ s) =
    let rest = is_hex_lower s in
    if leb b'0' c && leb c b'9' then rest else if leb b'a' c && leb c b'f' then rest else false

abbrev pub with_fingerprint : Bytes → Bytes → Parsed
with_fingerprint prefix fingerprint =
    if is_empty fingerprint
    then bad_request "missing_fingerprint"
    else request (record { subdomain_prefix = prefix; ssh_key_fingerprint = fingerprint })

abbrev pub check_request : Bytes → Bytes → Parsed
check_request prefix fingerprint =
    if is_empty prefix
    then bad_request "missing_prefix"
    else if ltb (length prefix) 8 || ltb 32 (length prefix) || not (is_hex_lower prefix)
    then bad_request "bad_prefix"
    else with_fingerprint prefix fingerprint

abbrev parse_decoded : Option SshTicketRequest → Parsed
parse_decoded none = bad_request "bad_json"
parse_decoded (some r) =
    check_request (to_lower (trim_space r.subdomain_prefix)) (trim_space r.ssh_key_fingerprint)

-- parseSSHTicketRequest; `decode` is json.Unmarshal, and `none` a body that could not be read.
unfoldable pub parse_ssh_ticket_request :
    (String → Option SshTicketRequest) → Option String → Parsed
unfolding trim_space is_hex_lower
parse_ssh_ticket_request decode none = bad_request "read_body"
parse_ssh_ticket_request decode (some body) = parse_decoded (decode body)

abbrev pub is_some {ℓ} : {A : Type ℓ} → Option A → Bool
is_some none = false
is_some (some _) = true

-- `owner_id = $1 and id::text like $2 || '%'`, of a prefix without wildcards; `uuid_text` is the text of
-- a uuid.
unfoldable pub has_prefix : (ℕ → Bytes) → ℕ → Bytes → Instance → Bool
unfolding strip_prefix
has_prefix uuid_text owner prefix i =
    owned_by (some owner) i && is_some (strip_prefix prefix (uuid_text i.id))

-- ListInstancesByOwnerAndIDPrefix
unfoldable pub list_instances_by_owner_and_id_prefix :
    (ℕ → Bytes) → ℕ → Bytes → Db → Result (List Instance) × Db
unfolding has_prefix
list_instances_by_owner_and_id_prefix uuid_text owner prefix db =
    (ok (take 2 (select_where (has_prefix uuid_text owner prefix) db.instances)), db)

-- FindByOwnerAndIDPrefix
unfoldable pub find_by_owner_and_id_prefix : (ℕ → Bytes) → ℕ → Bytes → Q (List Instance)
unfolding list_instances_by_owner_and_id_prefix statement
find_by_owner_and_id_prefix uuid_text owner prefix =
    statement (list_instances_by_owner_and_id_prefix uuid_text owner prefix)

pub data Resolution : Type 0 where
  resolved : Instance → Resolution
  not_found ambiguous_prefix : Resolution

abbrev pub resolution : List Instance → Resolution
resolution [] = not_found
resolution (i ∷ []) = resolved i
resolution _ = ambiguous_prefix

unfoldable pub resolve_instance_by_prefix : (ℕ → Bytes) → ℕ → Bytes → Q Resolution
unfolding find_by_owner_and_id_prefix
resolve_instance_by_prefix uuid_text owner prefix = do
  matches ← find_by_owner_and_id_prefix uuid_text owner prefix
  pure (resolution matches)
