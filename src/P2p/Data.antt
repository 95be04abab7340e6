-- ===== src/P2p/Data.antt =====
-- internal/p2p/data.go and data_meta.go. The nonce of a payload is an argument.
pub mod Roundtrip
pub mod Opens
pub mod Keys
mod Tests
use xray_mesh.Base.{
  ℕ, ◌+◌, ◌-◌, ◌*◌, ◌/◌, ◌%◌, ◌^◌, ◌<◌, ◌≡◌, Bool, not, ◌&&◌, ◌||◌, Option, none, some, List, [],
  ◌∷◌, ◌++◌, ltb, ◌==◌, if◌then◌else◌, length, take, drop, get_or, Result, ok, err, ◌>>=◌, All,
}
use xray_mesh.P2p.Secret.{
  Crypto, P2pError, probe_ticket_expired, not_direct_payload, invalid_direct_payload,
  direct_payload_auth_fail, probe_ticket_secret, ticket_identifier, is_expired, or_empty, drawn,
}
use xray_mesh.P2p.Tickets.{ProbeTicket, str_eq, of_pair}
use xray_mesh.Text.{Bytes, codes, has_prefix}
use xray_mesh.Text.Hex.{encode_hex, decode_hex}
use xray_mesh.Text.Trim.{trim_space}
use xray_mesh.Transport.Frame.{put_uint16, uint16_at}

-- `XRMP2PD1`
abbrev pub direct_payload_prefix : Bytes
direct_payload_prefix = codes "XRMP2PD1"

abbrev pub direct_payload_header_len : ℕ
direct_payload_header_len = 8 + 32 + 12 + 2 + 2 + 4

-- `data[from : to]`
abbrev pub slice : Bytes → ℕ → ℕ → Bytes
slice b from to = take (to - from) (drop from b)

-- `binary.BigEndian.PutUint32` of `uint32(n)`, and `Uint32` of four bytes.
abbrev pub put_uint32 : ℕ → Bytes
put_uint32 n = (n / 2 ^ 24 % 256) ∷ (n / 2 ^ 16 % 256) ∷ (n / 2 ^ 8 % 256) ∷ (n % 256) ∷ []

abbrev pub uint32_at : Bytes → ℕ → ℕ
uint32_at b i =
    get_or b i 0 * 2 ^ 24
    + get_or b (i + 1) 0 * 2 ^ 16
    + get_or b (i + 2) 0 * 2 ^ 8
    + get_or b (i + 3) 0

unfoldable pub direct_payload_aad : Bytes → Bytes → Bytes → Bytes
direct_payload_aad ticket_id source_node target_node =
    direct_payload_prefix ++ (ticket_id ++ (source_node ++ (0 ∷ (target_node ++ (0 ∷ [])))))

-- The writes into the buffer, one after the other.
unfoldable pub direct_frame : Bytes → Bytes → Bytes → Bytes → Bytes → Bytes
direct_frame ticket_id nonce source target ciphertext =
    direct_payload_prefix
    ++ (ticket_id
        ++ (nonce
            ++ (put_uint16 (length source)
                ++ (put_uint16 (length target)
                    ++ (put_uint32 (length ciphertext) ++ (source ++ (target ++ ciphertext)))))))

-- The names, the lengths and the ciphertext of a frame.
pub record DirectFrame : Type 0 where
  pub ticket_id : Bytes
  pub nonce : Bytes
  pub source_node : Bytes
  pub target_node : Bytes
  pub ciphertext : Bytes

-- The reads of OpenDirectPayload and their checks.
unfoldable pub read_frame : Bytes → Result P2pError DirectFrame
read_frame data' =
    let source_len = uint16_at data' 52 in
    let target_len = uint16_at data' 54 in
    let cipher_len = uint32_at data' 56 in
    let offset = direct_payload_header_len in
    if source_len == 0 || target_len == 0 || ltb cipher_len 16
    then err invalid_direct_payload
    else if not (offset + source_len + target_len + cipher_len == length data')
    then err invalid_direct_payload
    else ok (record {
      ticket_id = slice data' 8 40;
      nonce = slice data' 40 52;
      source_node = slice data' offset (offset + source_len);
      target_node = slice data' (offset + source_len) (offset + source_len + target_len);
      ciphertext = drop (offset + source_len + target_len) data';
    })

unfoldable pub direct_payload_ticket_id : Bytes → Result P2pError Bytes
direct_payload_ticket_id data' =
    if not (has_prefix data' direct_payload_prefix)
    then err not_direct_payload
    else if ltb (length data') direct_payload_header_len
    then err invalid_direct_payload
    else ok (encode_hex (slice data' 8 40))

unfoldable pub direct_payload_replay_key : Bytes → Result P2pError Bytes
direct_payload_replay_key data' =
    if not (has_prefix data' direct_payload_prefix)
    then err not_direct_payload
    else if ltb (length data') direct_payload_header_len
    then err invalid_direct_payload
    else ok (encode_hex (slice data' 8 52))

-- An opened payload: its source, its target and its text.
pub record Opened : Type 0 where
  pub source_node : Bytes
  pub target_node : Bytes
  pub payload : Bytes

module _ (crypto : Crypto) where
  open crypto use {sha256, seal, open_sealed}

  -- The identifier as bytes.
  abbrev pub id_bytes : Option Bytes → Result P2pError Bytes
  id_bytes none = err invalid_direct_payload
  id_bytes (some id) = if length id == 32 then ok id else err invalid_direct_payload

  -- What follows the checks.
  unfoldable pub sealed_frame :
      ProbeTicket → Bytes → Bytes → Bytes → Option Bytes → Result P2pError Bytes
  unfolding ticket_identifier direct_payload_aad direct_frame
  sealed_frame t source target payload random = do
    secret ← probe_ticket_secret t
    id_hex ← ticket_identifier crypto t
    ticket_id ← id_bytes (decode_hex id_hex)
    nonce ← drawn random
    ok (
        direct_frame ticket_id nonce source target
          (seal secret nonce payload (direct_payload_aad ticket_id source target)))

  unfoldable pub seal_direct_payload :
      ProbeTicket → Bytes → Bytes → Bytes → ℕ → Option Bytes → Result P2pError Bytes
  unfolding sealed_frame
  seal_direct_payload t source_node target_node payload now random =
      let source = trim_space source_node in
      let target = trim_space target_node in
      if str_eq source []
        || str_eq target []
        || str_eq source target
        || not (of_pair source target t)
      then err invalid_direct_payload
      else if is_expired t now
      then err probe_ticket_expired
      else if ltb 65535 (length source) || ltb 65535 (length target) || ltb 65535 (length payload)
      then err invalid_direct_payload
      else sealed_frame t source target payload random

  abbrev pub text_of : DirectFrame → Option Bytes → Result P2pError Opened
  text_of f none = err direct_payload_auth_fail
  text_of f (some text) =
      ok (record { source_node = f.source_node; target_node = f.target_node; payload = text })

  -- The identifier of the frame against the ticket's, and the decryption.
  unfoldable pub decrypted : ProbeTicket → DirectFrame → Bytes → Result P2pError Opened
  unfolding probe_ticket_secret direct_payload_aad
  decrypted t f id_hex =
      if not (str_eq f.ticket_id (or_empty (decode_hex id_hex)))
      then err direct_payload_auth_fail
      else (probe_ticket_secret t >>= (λ secret. text_of f (
          open_sealed secret f.nonce f.ciphertext
            (direct_payload_aad f.ticket_id f.source_node f.target_node))))

  unfoldable pub open_frame : ProbeTicket → Bytes → DirectFrame → Result P2pError Opened
  unfolding ticket_identifier decrypted
  open_frame t expected_target f =
      if str_eq (trim_space expected_target) []
        || not (str_eq f.target_node (trim_space expected_target))
        || not (of_pair f.source_node f.target_node t)
      then err direct_payload_auth_fail
      else (ticket_identifier crypto t >>= decrypted t f)

  unfoldable pub open_direct_payload : Bytes → ProbeTicket → Bytes → ℕ → Result P2pError Opened
  unfolding read_frame open_frame
  open_direct_payload data' t expected_target now =
      if not (has_prefix data' direct_payload_prefix)
      then err not_direct_payload
      else if ltb (length data') direct_payload_header_len
      then err invalid_direct_payload
      else if is_expired t now
      then err probe_ticket_expired
      else (read_frame data' >>= open_frame t expected_target)
