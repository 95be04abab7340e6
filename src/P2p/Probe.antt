-- ===== src/P2p/Probe.antt =====
-- internal/p2p/probe.go: the probes and their acknowledgements. The random bytes of a nonce are an
-- argument. JSON is an interface (Codec).
pub mod Auth
pub mod Handshake
mod Tests
use xray_mesh.Base.{
  ℕ, ◌≡◌, Bool, true, false, not, ◌&&◌, ◌||◌, Option, none, some, List, [], ◌∷◌, ◌++◌, ◌==◌,
  if◌then◌else◌, length, drop, Result, ok, err, ◌>>=◌, ◌>>◌, fail_if,
}
use xray_mesh.P2p.Secret.{
  Crypto, P2pError, not_probe_datagram, invalid_probe_frame, probe_ticket_expired,
  probe_auth_failed, probe_ticket_secret, ticket_identifier, is_expired, or_empty, drawn,
}
use xray_mesh.P2p.Tickets.{ProbeTicket, str_eq}
use xray_mesh.Text.{Bytes, codes, has_prefix}
use xray_mesh.Text.Hex.{encode_hex, decode_hex}
use xray_mesh.Text.Trim.{trim_space}

unfoldable pub probe_protocol : Bytes
probe_protocol = codes "xray-mesh-p2p/1"

unfoldable pub probe_type_probe : Bytes
probe_type_probe = codes "probe"

unfoldable pub probe_type_ack : Bytes
probe_type_ack = codes "probe_ack"

-- `XRMP2P1` and a line feed.
unfoldable pub probe_wire_prefix : Bytes
probe_wire_prefix = codes "XRMP2P1\n"

pub record ProbeFrame : Type 0 where
  pub protocol : Bytes
  pub type : Bytes
  pub ticket_id : Bytes
  pub source_node : Bytes
  pub target_node : Bytes
  pub nonce : Bytes
  pub mac : Bytes

-- encoding/json on frames. Marshal of a frame always succeeds. Decode gives the first value, unknown
-- fields refused, and whether nothing follows it.
pub record Codec : Type 0 where
  pub encode : ProbeFrame → Bytes
  pub decode : Bytes → Option (ProbeFrame × Bool)

-- The text is hexadecimal and gives `n` bytes.
abbrev pub reads : Option Bytes → ℕ → Bool
reads none n = false
reads (some b) n = length b == n

abbrev pub is_hex_of : Bytes → ℕ → Bool
is_hex_of s n = reads (decode_hex s) n

unfoldable pub validate_probe_shape : ProbeFrame → Result P2pError (Unit {0})
validate_probe_shape f = do
  fail_if
      (not (str_eq f.protocol probe_protocol)
        || (not (str_eq f.type probe_type_probe) && not (str_eq f.type probe_type_ack)))
      invalid_probe_frame
  fail_if
      (str_eq (trim_space f.source_node) []
        || str_eq (trim_space f.target_node) []
        || str_eq f.source_node f.target_node)
      invalid_probe_frame
  fail_if (not (is_hex_of f.ticket_id 32)) invalid_probe_frame
  fail_if (not (is_hex_of f.nonce 16)) invalid_probe_frame

unfoldable pub validate_signed_probe_shape : ProbeFrame → Result P2pError (Unit {0})
unfolding validate_probe_shape
validate_signed_probe_shape f = do
  validate_probe_shape f
  fail_if (not (is_hex_of f.mac 32)) invalid_probe_frame

-- What is written to the keyed digest: each value and a zero byte.
abbrev pub terminated : Bytes → Bytes → Bytes
terminated value rest = value ++ (0 ∷ rest)

unfoldable pub signed_text : ProbeFrame → Bytes
signed_text f = terminated f.protocol (
    terminated f.type (
      terminated f.ticket_id
        (terminated f.source_node (terminated f.target_node (terminated f.nonce [])))))

module _ (codec : Codec) where
  unfoldable pub marshal_probe_frame : ProbeFrame → Result P2pError Bytes
  unfolding validate_signed_probe_shape
  marshal_probe_frame f = do validate_signed_probe_shape f; ok (probe_wire_prefix ++ codec.encode f)

  abbrev pub whole_frame : Option (ProbeFrame × Bool) → Result P2pError ProbeFrame
  whole_frame none = err invalid_probe_frame
  whole_frame (some (f, false)) = err invalid_probe_frame
  whole_frame (some (f, true)) = validate_signed_probe_shape f >> ok f

  unfoldable pub parse_probe_frame : Bytes → Result P2pError ProbeFrame
  unfolding validate_signed_probe_shape
  parse_probe_frame b = do
    fail_if (not (has_prefix b probe_wire_prefix)) not_probe_datagram
    whole_frame (codec.decode (drop (length probe_wire_prefix) b))

module _ (crypto : Crypto) where
  unfoldable pub sign_probe_frame : ProbeFrame → ProbeTicket → Result P2pError Bytes
  unfolding signed_text probe_ticket_secret
  sign_probe_frame f t = do
    secret ← probe_ticket_secret t
    ok (encode_hex (crypto.hmac secret (signed_text f)))

  unfoldable pub new_probe_with_nonce : ProbeTicket → Bytes → Result P2pError ProbeFrame
  unfolding ticket_identifier validate_probe_shape sign_probe_frame
  new_probe_with_nonce t nonce = do
    ticket_id ← ticket_identifier crypto t
    let frame : ProbeFrame = record {
      protocol = probe_protocol;
      type = probe_type_probe;
      ticket_id = ticket_id;
      source_node = t.source_node;
      target_node = t.target_node;
      nonce = trim_space nonce;
      mac = [];
    }
    validate_probe_shape frame
    mac ← sign_probe_frame frame t
    ok (record frame { mac = mac })

  unfoldable pub new_probe : ProbeTicket → Option Bytes → Result P2pError ProbeFrame
  unfolding new_probe_with_nonce
  new_probe t random = do
    fail_if
        (str_eq (trim_space t.source_node) []
          || str_eq (trim_space t.target_node) []
          || str_eq t.source_node t.target_node)
        invalid_probe_frame
    nonce ← drawn random
    new_probe_with_nonce t (encode_hex nonce)

  -- The digest of the frame against the one that it carries.
  abbrev pub compare_mac : Bytes → Option Bytes → Result P2pError (Unit {0})
  compare_mac expected none = err probe_auth_failed
  compare_mac expected (some provided) =
      fail_if
        (not (length provided == 32) || not (str_eq provided (or_empty (decode_hex expected))))
        probe_auth_failed

  unfoldable pub verify_probe_auth : ProbeFrame → ProbeTicket → ℕ → Result P2pError (Unit {0})
  unfolding ticket_identifier sign_probe_frame
  verify_probe_auth f t now = do
    fail_if (is_expired t now) probe_ticket_expired
    ticket_id ← ticket_identifier crypto t
    fail_if (not (str_eq f.ticket_id ticket_id)) probe_auth_failed
    expected ← sign_probe_frame f t
    compare_mac expected (decode_hex f.mac)

  unfoldable pub verify_probe : ProbeFrame → ProbeTicket → ℕ → Result P2pError (Unit {0})
  unfolding validate_signed_probe_shape verify_probe_auth
  verify_probe f t now = do
    validate_signed_probe_shape f
    fail_if (not (str_eq f.type probe_type_probe)) invalid_probe_frame
    fail_if (not (str_eq f.source_node t.source_node) || not (str_eq f.target_node t.target_node))
        probe_auth_failed
    verify_probe_auth f t now

  unfoldable pub new_probe_ack : ProbeFrame → ProbeTicket → ℕ → Result P2pError ProbeFrame
  unfolding verify_probe sign_probe_frame
  new_probe_ack probe t now = do
    verify_probe probe t now
    let ack : ProbeFrame = record {
      protocol = probe_protocol;
      type = probe_type_ack;
      ticket_id = probe.ticket_id;
      source_node = probe.target_node;
      target_node = probe.source_node;
      nonce = probe.nonce;
      mac = [];
    }
    mac ← sign_probe_frame ack t
    ok (record ack { mac = mac })

  unfoldable pub verify_probe_ack :
      ProbeFrame → ProbeFrame → ProbeTicket → ℕ → Result P2pError (Unit {0})
  unfolding verify_probe verify_probe_auth validate_signed_probe_shape
  verify_probe_ack ack probe t now = do
    verify_probe probe t now
    validate_signed_probe_shape ack
    fail_if
        (not (str_eq ack.type probe_type_ack)
          || not (str_eq ack.source_node probe.target_node)
          || not (str_eq ack.target_node probe.source_node)
          || not (str_eq ack.nonce probe.nonce)
          || not (str_eq ack.ticket_id probe.ticket_id))
        probe_auth_failed
    verify_probe_auth ack t now
