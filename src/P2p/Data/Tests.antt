-- ===== src/P2p/Data/Tests.antt =====
-- A payload sealed and opened.
use xray_mesh.Base.{◌≡◌, refl, some, [], ◌∷◌, ◌++◌, ok, ℕ_discrete}
use xray_mesh.P2p.Data.{
  direct_frame, direct_payload_aad, sealed_frame, seal_direct_payload, open_direct_payload,
}
use xray_mesh.P2p.Plain.{plain, zeros, digest, tag_on}
use xray_mesh.P2p.Secret.{probe_ticket_secret, ticket_identifier}
use xray_mesh.P2p.Data.Opens.{open-seal_direct_payload}
use xray_mesh.P2p.Tickets.{ProbeTicket}
use xray_mesh.Text.{Bytes, codes, str_dec}
use xray_mesh.Text.Hex.{encode_hex, decode_hex, hex_digit, hex_value}
use xray_mesh.Text.Trim.{trim_space}

abbrev ticket : ProbeTicket
ticket = record {
  ticket = codes "0000000000000000000000000000000000000000000000000000000000000000";
  source_node = codes "a";
  target_node = codes "b";
  issued_at = 1;
  expires_at = 100;
}

abbrev nonce : Bytes
nonce = 1 ∷ 2 ∷ 3 ∷ 4 ∷ 5 ∷ 6 ∷ 7 ∷ 8 ∷ 9 ∷ 10 ∷ 11 ∷ 12 ∷ []

unfoldable wire : Bytes
unfolding direct_frame digest tag_on zeros
wire = direct_frame (zeros 32) nonce (codes "b") (codes "a") (zeros 16 ++ (7 ∷ 8 ∷ []))

sealed :
    seal_direct_payload plain ticket (codes " b") (codes "a") (7 ∷ 8 ∷ []) 50 (some nonce) ≡ ok wire
unfolding ℕ_discrete seal_direct_payload sealed_frame ticket_identifier probe_ticket_secret
    direct_payload_aad direct_frame digest tag_on zeros str_dec encode_hex decode_hex hex_digit
    hex_value trim_space wire
sealed = refl

open-seal_direct_payload_example :
    open_direct_payload plain wire ticket (codes "a ") 99
    ≡ ok (record {
      source_node = trim_space (codes " b");
      target_node = trim_space (codes "a");
      payload = 7 ∷ 8 ∷ [];
    })
unfolding ℕ_discrete trim_space
open-seal_direct_payload_example =
    open-seal_direct_payload plain ticket (codes " b") (codes "a") (7 ∷ 8 ∷ []) nonce (codes "a ")
      wire 50 99 refl refl refl sealed
