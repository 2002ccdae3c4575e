-- ===== src/Ssh/Ticket.antt =====
-- Signed tickets: services/main-api/internal/sshticket/ticket.go. HMAC-SHA256, base64 and JSON are
-- parameters, and so are the clock and the new session's id.
use hybrid_cloud_with_claude.Prelude.{
  ℕ, ◌+◌, ltb, ◌==◌, ◌≡◌, ◌≢◌, refl, sym, ap, ◌∙◌, not, String, str_eq, Option, some, none, length,
  if◌then◌else◌, Option-cases, inl, inr, subst, arith,
}
use hybrid_cloud_with_claude.Prelude.Int.{ℤ, pos, leb_ℤ}
use hybrid_cloud_with_claude.Prelude.Bytes.{Bytes, bytes_eq, bytes_eq_iff}

-- `expires_at` is 0 for the zero time.
pub record Ticket : Type 0 where
  pub session_id : String
  pub instance_id : ℕ
  pub node_id : ℕ
  pub vm_internal_ip : String
  pub vm_port : ℕ
  pub tunnel_endpoint : String
  pub expires_at : ℕ

pub record Signed : Type 0 where
  pub payload : Bytes
  pub signature : Bytes

-- The secret and the time that a ticket lives.
pub record Signer : Type 0 where
  pub secret : Bytes
  pub ttl : ℕ

pub record Crypto : Type 0 where
  pub hmac_sha256 : Bytes → Bytes → Bytes
  pub base64 : Bytes → Bytes
  pub from_base64 : Bytes → Option Bytes
  pub marshal : Ticket → Option Bytes
  pub unmarshal : Bytes → Option Ticket

pub data SignerResult : Type 0 where
  signer : Signer → SignerResult
  short_secret bad_ttl : SignerResult

abbrev signer_with : Bytes → ℤ → SignerResult
signer_with secret (pos n) = signer (record { secret = secret; ttl = n })
signer_with secret _ = bad_ttl

-- NewSigner
unfoldable pub new_signer : Bytes → ℤ → SignerResult
new_signer secret ttl =
    if ltb (length secret) 16
    then short_secret
    else if leb_ℤ ttl (pos 0)
    then bad_ttl
    else signer_with secret ttl

-- The ticket with its session and its end.
abbrev pub stamped : Signer → ℕ → String → Ticket → Ticket
stamped s now new_session t = record t {
  session_id = if str_eq t.session_id "" then new_session else t.session_id;
  expires_at = if t.expires_at == 0 then now + s.ttl else t.expires_at;
}

abbrev pub sign : Crypto → Bytes → Bytes → Signed
sign c secret raw = record {
  payload = c.base64 raw;
  signature = c.base64 (c.hmac_sha256 secret (c.base64 raw));
}

abbrev pub sign_raw : Crypto → Bytes → Option Bytes → Option Signed
sign_raw c secret none = none
sign_raw c secret (some raw) = some (sign c secret raw)

-- Issue
unfoldable pub issue : Crypto → Signer → ℕ → String → Ticket → Option Signed
issue c s now new_session t = sign_raw c s.secret (c.marshal (stamped s now new_session t))

pub data Verified : Type 0 where
  verified : Ticket → Verified
  invalid_signature bad_payload bad_ticket expired : Verified

abbrev verify_ticket : ℕ → Option Ticket → Verified
verify_ticket now none = bad_ticket
verify_ticket now (some t) = if ltb t.expires_at now then expired else verified t

abbrev verify_raw : Crypto → ℕ → Option Bytes → Verified
verify_raw c now none = bad_payload
verify_raw c now (some raw) = verify_ticket now (c.unmarshal raw)

-- Verify
unfoldable pub verify : Crypto → Bytes → ℕ → Signed → Verified
verify c secret now s =
    if not (bytes_eq (c.base64 (c.hmac_sha256 secret s.payload)) s.signature)
    then invalid_signature
    else verify_raw c now (c.from_base64 s.payload)

verify-sign :
    (c : Crypto) (secret raw : Bytes) (later : ℕ) (t : Ticket)
    → c.from_base64 (c.base64 raw) ≡ some raw
    → c.unmarshal raw ≡ some t
    → verify c secret later (sign c secret raw)
      ≡ (if ltb t.expires_at later then expired else verified t)
unfolding verify
verify-sign c secret raw later t decoded read =
    let tag = c.base64 (c.hmac_sha256 secret (c.base64 raw)) in
    rw ((bytes_eq_iff tag tag).1 refl, decoded, read) refl

verify-forged :
    (c : Crypto) (secret : Bytes) (later : ℕ) (signed : Signed)
    → c.base64 (c.hmac_sha256 secret signed.payload) ≢ signed.signature
    → verify c secret later signed ≡ invalid_signature
unfolding verify
verify-forged c secret later signed ne =
    ground (arith, bytes_eq_iff (c.base64 (c.hmac_sha256 secret signed.payload)) signed.signature)

-- A ticket that was issued is verified up to its end and is expired after it, at whatever time, and with
-- another signature it is invalid. Base64 and JSON read back what they wrote.
pub verify-issue :
    (c : Crypto) (s : Signer) (now later : ℕ) (new_session : String) (t : Ticket) (signed : Signed)
    (other : Bytes)
    → ((raw : Bytes) → c.from_base64 (c.base64 raw) ≡ some raw)
    → ((t : Ticket) (raw : Bytes) → c.marshal t ≡ some raw → c.unmarshal raw ≡ some t)
    → issue c s now new_session t ≡ some signed
    → other ≢ signed.signature
    → (verify c s.secret later signed ≡ (
        if ltb (stamped s now new_session t).expires_at later
        then expired
        else verified (stamped s now new_session t)))
      × (verify c s.secret later (record signed { signature = other }) ≡ invalid_signature)
unfolding issue
verify-issue c s now later new_session t signed other decodes reads h ne =
    let full = stamped s now new_session t in
    elim (Option-cases (c.marshal full)) [
      | inl e ↦ absurd (ground arith)
      | inr (raw, e) ↦
          let same : sign c s.secret raw ≡ signed = ground arith in
          (
            subst
                (λ x.
                  verify c s.secret later x
                  ≡ (if ltb full.expires_at later then expired else verified full))
                same (verify-sign c s.secret raw later full (decodes raw) (reads full raw e)),
            verify-forged c s.secret later (record signed { signature = other })
                (λ k. ne (
                  sym k
                  ∙ ap (λ x. c.base64 (c.hmac_sha256 s.secret x.payload)) (sym same)
                  ∙ ap (λ x. x.signature) same)),
          )
    ]
