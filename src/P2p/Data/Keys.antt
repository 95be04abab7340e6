-- ===== src/P2p/Data/Keys.antt =====
-- DirectPayloadTicketID and DirectPayloadReplayKey of what SealDirectPayload writes.
use xray_mesh.Base.{ℕ, ◌≡◌, refl, sym, ap, ◌∙◌, arith, true, false, some, ltb, length, ok}
use xray_mesh.P2p.Data.{
  direct_payload_prefix, direct_payload_header_len, direct_payload_ticket_id,
  direct_payload_replay_key, seal_direct_payload, slice,
}
use xray_mesh.P2p.Data.Opens.{
  seal-passed, sealed_frame-frame, begins_frame, sized, identified, text_under,
}
use xray_mesh.P2p.Data.Roundtrip.{IsSized, frame, length-frame, id_read}
use xray_mesh.P2p.Secret.{Crypto, ticket_identifier}
use xray_mesh.P2p.Tickets.{ProbeTicket}
use xray_mesh.Text.{Bytes, has_prefix}
use xray_mesh.Text.Hex.{encode_hex}
use xray_mesh.Text.Trim.{trim_space}

module _ (id nonce source target ciphertext : Bytes)
    (v : IsSized id nonce source target ciphertext) where
  abbrev whole : Bytes
  whole = frame id nonce source target ciphertext

  begins : has_prefix whole direct_payload_prefix ≡ true
  begins = begins_frame id nonce source target ciphertext

  long : ltb (length whole) direct_payload_header_len ≡ false
  long = ground (arith, length-frame id nonce source target ciphertext v)

  frame_id : direct_payload_ticket_id whole ≡ ok (encode_hex id)
  unfolding direct_payload_ticket_id
  frame_id = rw (begins, long, id_read id nonce source target ciphertext v) refl

  frame_key : direct_payload_replay_key whole ≡ ok (encode_hex (slice whole 8 52))
  unfolding direct_payload_replay_key
  frame_key = rw (begins, long) refl

-- What was sealed names its ticket's identifier, and has a key for the replay cache.
pub seal-keys :
    (crypto : Crypto) (t : ProbeTicket) (source_node target_node payload nonce data' : Bytes)
    (now : ℕ)
    → length nonce ≡ 12
    → seal_direct_payload crypto t source_node target_node payload now (some nonce) ≡ ok data'
    → (direct_payload_ticket_id data' ≡ ticket_identifier crypto t)
      × ((key : Bytes) × (direct_payload_replay_key data' ≡ ok key))
seal-keys crypto t source_node target_node payload nonce data' now n12 e =
    let source = trim_space source_node in
    let target = trim_space target_node in
    let (h, f) = seal-passed crypto t source_node target_node payload data' now (some nonce) e in
    let (secret, known, same) = sealed_frame-frame crypto t source target payload nonce data' f in
    let id = crypto.sha256 secret in
    let text = text_under crypto t source target payload nonce secret in
    let v =
      sized crypto t source target payload nonce secret known h.source_fits h.target_fits
        h.payload_fits n12 h.source_named h.target_named in
    (
      ap direct_payload_ticket_id same
          ∙ frame_id id nonce source target text v
          ∙ sym (identified crypto t source target payload nonce secret known),
      (
        encode_hex (slice (whole id nonce source target text v) 8 52),
        ap direct_payload_replay_key same ∙ frame_key id nonce source target text v,
      ),
    )
