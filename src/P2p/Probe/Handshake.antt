-- ===== src/P2p/Probe/Handshake.antt =====
-- A probe and its acknowledgement between the two nodes of a ticket.
use xray_mesh.Base.{
  ℕ, ◌<◌, ◌≡◌, ◌≢◌, refl, sym, ap, ◌∙◌, inl, inr, false, some, [], length, ok, passed, or3_of, All,
}
use xray_mesh.P2p.Probe.{
  ProbeFrame, probe_protocol, probe_type_probe, probe_type_ack, signed_text, sign_probe_frame,
  new_probe_with_nonce, new_probe, verify_probe, new_probe_ack, verify_probe_ack,
}
use xray_mesh.P2p.Probe.Auth.{
  IsShaped, IsValid, Answers, shape_back, identifier_known, sign_known, verify_probe_iff,
  verify_probe_ack_iff,
}
use xray_mesh.P2p.Secret.{Crypto, is_expired, probe_ticket_secret}
use xray_mesh.P2p.Tickets.{ProbeTicket}
use xray_mesh.P2p.Tickets.Names.{str_eq_no}
use xray_mesh.Text.Trim.Plain.{trim_space-encode_hex}
use xray_mesh.Text.{Bytes}
use xray_mesh.Text.Hex.{encode_hex, decode_hex, decode_hex-encode_hex}
use xray_mesh.Text.Trim.{trim_space}

module _ (crypto : Crypto) (t : ProbeTicket) (now : ℕ) (live : is_expired t now ≡ false) where
  -- A shaped frame that was signed for the ticket.
  signed-IsValid :
      (f : ProbeFrame) (mac : Bytes)
      → IsShaped f
      → (secret : Bytes) → probe_ticket_secret t ≡ ok secret
      → f.ticket_id ≡ encode_hex (crypto.sha256 secret)
      → sign_probe_frame crypto f t ≡ ok mac
      → IsValid crypto f.type (record f { mac = mac }) t now
  unfolding signed_text
  signed-IsValid f mac v secret known id e =
      let signed : ok mac ≡ ok (encode_hex (crypto.hmac secret (signed_text f))) =
        sym e ∙ sign_known crypto f t secret known in
      let mac_is : mac ≡ encode_hex (crypto.hmac secret (signed_text f)) = cc in
      record {
        shaped = record {
          protocol = v.protocol;
          kind = v.kind;
          source_named = v.source_named;
          target_named = v.target_named;
          distinct = v.distinct;
          id_32 = v.id_32;
          nonce_16 = v.nonce_16;
        };
        typed = refl;
        authentic = record {
          live = live;
          secret = secret;
          known = known;
          id = id;
          mac =
              ap decode_hex mac_is
              ∙ decode_hex-encode_hex (crypto.hmac secret (signed_text f))
                  (crypto.hmac_bytes secret (signed_text f));
        };
      }

-- What a node needs to probe with the ticket: two different, named nodes and a secret of 32 bytes.
pub record IsUsable (t : ProbeTicket) : Type 0 where
  pub source_named : trim_space t.source_node ≢ []
  pub target_named : trim_space t.target_node ≢ []
  pub distinct : t.source_node ≢ t.target_node
  pub secret : Bytes
  pub known : probe_ticket_secret t ≡ ok secret

module _ (crypto : Crypto) (t : ProbeTicket) (use_t : IsUsable t) (nonce : Bytes)
    (nonce_16 : length nonce ≡ 16) (nonce_bytes : All (λ x. x < 256) nonce) where
  abbrev ticket_id : Bytes
  ticket_id = encode_hex (crypto.sha256 use_t.secret)

  abbrev unsigned : ProbeFrame
  unsigned = record {
    protocol = probe_protocol;
    type = probe_type_probe;
    ticket_id = ticket_id;
    source_node = t.source_node;
    target_node = t.target_node;
    nonce = trim_space (encode_hex nonce);
    mac = [];
  }

  unsigned-IsShaped : IsShaped unsigned
  unsigned-IsShaped = record {
    protocol = refl;
    kind = inl refl;
    source_named = use_t.source_named;
    target_named = use_t.target_named;
    distinct = use_t.distinct;
    id_32 =
        rw (decode_hex-encode_hex (crypto.sha256 use_t.secret) (crypto.digest_bytes use_t.secret))
          (rw (crypto.digest_length use_t.secret) refl);
    nonce_16 =
        rw (trim_space-encode_hex nonce nonce_bytes, decode_hex-encode_hex nonce nonce_bytes)
          (rw nonce_16 refl);
  }

  abbrev probe_mac : Bytes
  probe_mac = encode_hex (crypto.hmac use_t.secret (signed_text unsigned))

  with_nonce_lem :
      new_probe_with_nonce crypto t (encode_hex nonce) ≡ ok (record unsigned { mac = probe_mac })
  unfolding new_probe_with_nonce
  with_nonce_lem = rw (identifier_known crypto t use_t.secret use_t.known) (
      rw
        (
          shape_back unsigned unsigned-IsShaped,
          sign_known crypto unsigned t use_t.secret use_t.known,
        )
        refl)

  new_probe_lem : new_probe crypto t (some nonce) ≡ ok (record unsigned { mac = probe_mac })
  unfolding new_probe
  new_probe_lem =
      passed _ _ (new_probe_with_nonce crypto t (encode_hex nonce))
        (or3_of _ _ _ (str_eq_no _ _ use_t.source_named) (str_eq_no _ _ use_t.target_named)
          (str_eq_no _ _ use_t.distinct))
        with_nonce_lem

module _ (crypto : Crypto) (t : ProbeTicket) (probe : ProbeFrame) (now : ℕ)
    (sound : verify_probe crypto probe t now ≡ ok tt) where
  abbrev ack_of : ProbeFrame
  ack_of = record {
    protocol = probe_protocol;
    type = probe_type_ack;
    ticket_id = probe.ticket_id;
    source_node = probe.target_node;
    target_node = probe.source_node;
    nonce = probe.nonce;
    mac = [];
  }

  ack-IsShaped : IsShaped probe → IsShaped ack_of
  ack-IsShaped v = record {
    protocol = refl;
    kind = inr refl;
    source_named = v.target_named;
    target_named = v.source_named;
    distinct = λ e. v.distinct (sym e);
    id_32 = v.id_32;
    nonce_16 = v.nonce_16;
  }

  -- An accepted probe has an acknowledgement, which its sender accepts as long as the ticket lives.
  answered :
      (later : ℕ)
      → is_expired t later ≡ false
      → (ack : ProbeFrame) × (new_probe_ack crypto probe t now ≡ ok ack)
        × IsValid crypto probe_type_ack ack t later
        × Answers ack probe
  unfolding new_probe_ack
  answered later live =
      let v = ((verify_probe_iff crypto probe t now).0 sound).0 in
      let a = v.authentic in
      let mac = encode_hex (crypto.hmac a.secret (signed_text ack_of)) in
      let signed = sign_known crypto ack_of t a.secret a.known in
      (
        record ack_of { mac = mac },
        rw sound (rw signed refl),
        signed-IsValid crypto t later live ack_of mac (ack-IsShaped v.shaped) a.secret a.known a.id
            signed,
        record { source = refl; target = refl; nonce = refl; id = refl },
      )

-- A live ticket between two different, named nodes, with a secret of 32 bytes, gives a probe for
-- every nonce of 16 bytes; the target accepts it and acknowledges it, and the source accepts the
-- acknowledgement, each at any time before the ticket expires.
pub probe_handshake :
    (crypto : Crypto) (t : ProbeTicket) (nonce : Bytes) (now later : ℕ)
    → IsUsable t
    → length nonce ≡ 16
    → All (λ x. x < 256) nonce
    → is_expired t now ≡ false
    → is_expired t later ≡ false
    → (probe : ProbeFrame) × (ack : ProbeFrame) × (new_probe crypto t (some nonce) ≡ ok probe)
      × (verify_probe crypto probe t now ≡ ok tt)
      × (new_probe_ack crypto probe t now ≡ ok ack)
      × (verify_probe_ack crypto ack probe t later ≡ ok tt)
probe_handshake crypto t nonce now later u n16 nb live live' =
    let frame = unsigned crypto t u nonce n16 nb in
    let mac = encode_hex (crypto.hmac u.secret (signed_text frame)) in
    let valid = λ (at : ℕ) (l : is_expired t at ≡ false).
      signed-IsValid crypto t at l frame mac (unsigned-IsShaped crypto t u nonce n16 nb) u.secret
        u.known refl (sign_known crypto frame t u.secret u.known) in
    let probe : ProbeFrame = record frame { mac = mac } in
    let accepted : verify_probe crypto probe t now ≡ ok tt =
      (verify_probe_iff crypto probe t now).1 (valid now live, refl, refl) in
    let still : verify_probe crypto probe t later ≡ ok tt =
      (verify_probe_iff crypto probe t later).1 (valid later live', refl, refl) in
    let (ack, made, v, w) = answered crypto t probe now accepted later live' in
    (
      probe,
      ack,
      new_probe_lem crypto t u nonce n16 nb,
      accepted,
      made,
      (verify_probe_ack_iff crypto ack probe t later).1 (still, v, w),
    )
