-- ===== src/P2p/Probe/Tests.antt =====
-- A ticket, the probe and the acknowledgement that it gives, and the theorems at them.
use xray_mesh.Base.{◌<◌, ◌≡◌, ◌↔◌, refl, arith, some, [], ◌∷◌, ok, All, ℕ_discrete}
use xray_mesh.P2p.Plain.{plain, zeros, digest}
use xray_mesh.P2p.Probe.{
  ProbeFrame, probe_protocol, probe_type_probe, probe_type_ack, probe_wire_prefix,
  validate_probe_shape, validate_signed_probe_shape, sign_probe_frame, signed_text, new_probe,
  new_probe_with_nonce, verify_probe, verify_probe_auth, new_probe_ack, verify_probe_ack,
}
use xray_mesh.P2p.Probe.Auth.{IsValid, Answers, verify_probe_ack_iff}
use xray_mesh.P2p.Probe.Handshake.{IsUsable, probe_handshake}
use xray_mesh.P2p.Secret.{probe_ticket_secret, ticket_identifier}
use xray_mesh.P2p.Tickets.{ProbeTicket}
use xray_mesh.P2p.Tickets.Names.{str_eq-false}
use xray_mesh.Text.{Bytes, codes, str_dec, has_prefix}
use xray_mesh.Text.Hex.{encode_hex, decode_hex, hex_digit, hex_value}
use xray_mesh.Text.Trim.{trim_space}

program : Unit {0}
unfolding ℕ_discrete str_dec has_prefix encode_hex decode_hex hex_digit hex_value trim_space zeros
    digest probe_ticket_secret ticket_identifier probe_protocol probe_type_probe probe_type_ack
    probe_wire_prefix signed_text sign_probe_frame validate_probe_shape validate_signed_probe_shape
    new_probe_with_nonce new_probe verify_probe_auth verify_probe new_probe_ack verify_probe_ack
program = tt

abbrev ticket : ProbeTicket
ticket = record {
  ticket = codes "0000000000000000000000000000000000000000000000000000000000000000";
  source_node = codes "a";
  target_node = codes "b";
  issued_at = 1;
  expires_at = 100;
}

abbrev nonce : Bytes
nonce = 1 ∷ 2 ∷ 3 ∷ 4 ∷ 5 ∷ 6 ∷ 7 ∷ 8 ∷ 9 ∷ 10 ∷ 11 ∷ 12 ∷ 13 ∷ 14 ∷ 15 ∷ 16 ∷ []

abbrev probe : ProbeFrame
unfolding probe_protocol probe_type_probe
probe = record {
  protocol = probe_protocol;
  type = probe_type_probe;
  ticket_id = codes "0000000000000000000000000000000000000000000000000000000000000000";
  source_node = codes "a";
  target_node = codes "b";
  nonce = codes "0102030405060708090a0b0c0d0e0f10";
  mac = codes "0000000000000000000000000000000000000000000000000000000000000000";
}

abbrev ack : ProbeFrame
unfolding probe_type_ack
ack = record probe { type = probe_type_ack; source_node = codes "b"; target_node = codes "a" }

probe_made : new_probe plain ticket (some nonce) ≡ ok probe
unfolding program
probe_made = refl

ack_made : new_probe_ack plain probe ticket 99 ≡ ok ack
unfolding program
ack_made = refl

verify_probe_ack_iff_example : (verify_probe_ack plain ack probe ticket 99 ≡ ok tt) ↔ (
    (verify_probe plain probe ticket 99 ≡ ok tt)
    × IsValid plain probe_type_ack ack ticket 99
    × Answers ack probe)
verify_probe_ack_iff_example = verify_probe_ack_iff plain ack probe ticket 99

ticket-IsUsable : IsUsable ticket
unfolding program
ticket-IsUsable = record {
  source_named = str_eq-false _ _ refl;
  target_named = str_eq-false _ _ refl;
  distinct = str_eq-false _ _ refl;
  secret = zeros 32;
  known = refl;
}

nonce_bytes : All (λ x. x < 256) nonce
nonce_bytes = omega arith

probe_handshake_example :
    (p : ProbeFrame) × (a : ProbeFrame) × (new_probe plain ticket (some nonce) ≡ ok p)
    × (verify_probe plain p ticket 50 ≡ ok tt)
    × (new_probe_ack plain p ticket 50 ≡ ok a)
    × (verify_probe_ack plain a p ticket 60 ≡ ok tt)
probe_handshake_example =
    probe_handshake plain ticket nonce 50 60 ticket-IsUsable refl nonce_bytes refl refl
