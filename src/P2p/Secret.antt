-- ===== src/P2p/Secret.antt =====
-- internal/p2p/probe.go, what probes and direct payloads share: the errors of both, the secret of a
-- ticket, its public identifier and its expiry. The digest (SHA-256), the keyed digest (HMAC of
-- SHA-256) and the cipher (AES-256-GCM, whose nonce has 12 bytes and which every key of 32 bytes
-- fits) are an interface. A ticket without expiry has the time 0.
use xray_mesh.Base.{
  ℕ, ◌+◌, ◌<◌, ◌≡◌, Bool, not, ◌&&◌, Option, none, some, [], ltb, ◌==◌, if◌then◌else◌, length,
  Result, ok, err, ◌>>=◌, All,
}
use xray_mesh.P2p.Tickets.{ProbeTicket}
use xray_mesh.Text.{Bytes}
use xray_mesh.Text.Hex.{encode_hex, decode_hex}
use xray_mesh.Text.Trim.{trim_space}

-- What the code relies on: a digest, keyed or not, is 32 bytes, sealing adds a tag of 16, and
-- opening reads back what was sealed under the same key, nonce and additional data.
pub record Crypto : Type 0 where
  pub sha256 : Bytes → Bytes
  pub hmac : Bytes → Bytes → Bytes
  pub seal : Bytes → Bytes → Bytes → Bytes → Bytes
  pub open_sealed : Bytes → Bytes → Bytes → Bytes → Option Bytes
  pub digest_length : (b : Bytes) → length (sha256 b) ≡ 32
  pub digest_bytes : (b : Bytes) → All (λ x. x < 256) (sha256 b)
  pub hmac_length : (key b : Bytes) → length (hmac key b) ≡ 32
  pub hmac_bytes : (key b : Bytes) → All (λ x. x < 256) (hmac key b)
  pub seal_length :
      (key nonce text aad : Bytes) → length (seal key nonce text aad) ≡ length text + 16
  pub open-seal :
      (key nonce text aad : Bytes) → open_sealed key nonce (seal key nonce text aad) aad ≡ some text

-- `random_failed` is an error of the source of randomness.
pub data P2pError : Type 0 where
  not_probe_datagram invalid_probe_frame probe_ticket_expired probe_auth_failed : P2pError
  not_direct_payload invalid_direct_payload direct_payload_auth_fail random_failed : P2pError

abbrev pub of_32 : Option Bytes → Result P2pError Bytes
of_32 none = err probe_auth_failed
of_32 (some secret) = if length secret == 32 then ok secret else err probe_auth_failed

unfoldable pub probe_ticket_secret : ProbeTicket → Result P2pError Bytes
probe_ticket_secret t = of_32 (decode_hex (trim_space t.ticket))

abbrev pub is_expired : ProbeTicket → ℕ → Bool
is_expired t now = not (t.expires_at == 0) && not (ltb now t.expires_at)

-- What is read of a hexadecimal text whose error is ignored.
abbrev pub or_empty : Option Bytes → Bytes
or_empty none = []
or_empty (some b) = b

abbrev pub drawn : Option Bytes → Result P2pError Bytes
drawn none = err random_failed
drawn (some b) = ok b

module _ (crypto : Crypto) where
  unfoldable pub ticket_identifier : ProbeTicket → Result P2pError Bytes
  unfolding probe_ticket_secret
  ticket_identifier t = do secret ← probe_ticket_secret t; ok (encode_hex (crypto.sha256 secret))
