-- ===== src/P2p/Probe/Auth.antt =====
-- Which frames the checks of a probe and of an acknowledgement pass.
use xray_mesh.Base.{
  ℕ, ◌≡◌, ◌≢◌, ◌⊎◌, ◌↔◌, refl, sym, ap, ◌∙◌, inl, inr, arith, true, false, not, ◌&&◌, ◌||◌, Option,
  none, some, [], ok, fail_if_ok, then_ok, bind_ok, or_false, or3_false, or5_false, not-false,
}
use xray_mesh.P2p.Probe.{
  ProbeFrame, probe_protocol, probe_type_probe, probe_type_ack, validate_probe_shape,
  validate_signed_probe_shape, is_hex_of, signed_text, sign_probe_frame, compare_mac,
  verify_probe_auth, verify_probe, verify_probe_ack,
}
use xray_mesh.P2p.Secret.{Crypto, is_expired, probe_ticket_secret, ticket_identifier, or_empty}
use xray_mesh.P2p.Tickets.{ProbeTicket, str_eq}
use xray_mesh.P2p.Tickets.Names.{str_eq-true, str_eq-false, str_eq_self, str_eq_of}
use xray_mesh.Text.{Bytes, str_dec}
use xray_mesh.Text.Hex.{encode_hex, decode_hex, decode_hex-encode_hex}
use xray_mesh.Text.Trim.{trim_space}

pub record IsShaped (f : ProbeFrame) : Type 0 where
  pub protocol : f.protocol ≡ probe_protocol
  pub kind : (f.type ≡ probe_type_probe) ⊎ (f.type ≡ probe_type_ack)
  pub source_named : trim_space f.source_node ≢ []
  pub target_named : trim_space f.target_node ≢ []
  pub distinct : f.source_node ≢ f.target_node
  pub id_32 : is_hex_of f.ticket_id 32 ≡ true
  pub nonce_16 : is_hex_of f.nonce 16 ≡ true

kind_of : (s a b : Bytes) → (not (str_eq s a) && not (str_eq s b)) ≡ false → (s ≡ a) ⊎ (s ≡ b)
kind_of s a b h = elim (str_dec s a) [ yes e ↦ inl e | no n ↦ inr (ground arith) ]

pub shape_forth : (f : ProbeFrame) → validate_probe_shape f ≡ ok tt → IsShaped f
unfolding validate_probe_shape
shape_forth f h =
    let (a, h1) = then_ok _ _ _ h in
    let (b, h2) = then_ok _ _ _ h1 in
    let (c, h3) = then_ok _ _ _ h2 in
    let (p, q) = or_false _ _ (fail_if_ok _ _ a) in
    let (x, y, z) = or3_false _ _ _ (fail_if_ok _ _ b) in
    record {
      protocol = str_eq-true _ _ (not-false _ p);
      kind = kind_of f.type probe_type_probe probe_type_ack q;
      source_named = str_eq-false _ _ x;
      target_named = str_eq-false _ _ y;
      distinct = str_eq-false _ _ z;
      id_32 = not-false _ (fail_if_ok _ _ c);
      nonce_16 = not-false _ (fail_if_ok _ _ h3);
    }

pub shape_back : (f : ProbeFrame) → IsShaped f → validate_probe_shape f ≡ ok tt
unfolding validate_probe_shape
shape_back f v =
    ground
      (arith, v.protocol, v.kind, v.source_named, v.target_named, v.distinct, v.id_32, v.nonce_16)

-- The acknowledgement answers the probe.
pub record Answers (ack probe : ProbeFrame) : Type 0 where
  pub source : ack.source_node ≡ probe.target_node
  pub target : ack.target_node ≡ probe.source_node
  pub nonce : ack.nonce ≡ probe.nonce
  pub id : ack.ticket_id ≡ probe.ticket_id

module _ (crypto : Crypto) where
  -- The frame carries the identifier of a live ticket and the digest under its secret.
  pub record IsAuthentic (f : ProbeFrame) (t : ProbeTicket) (now : ℕ) : Type 0 where
    pub live : is_expired t now ≡ false
    pub secret : Bytes
    pub known : probe_ticket_secret t ≡ ok secret
    pub id : f.ticket_id ≡ encode_hex (crypto.sha256 secret)
    pub mac : decode_hex f.mac ≡ some (crypto.hmac secret (signed_text f))

  compare_mac_forth :
      (secret text : Bytes) (m : Option Bytes)
      → compare_mac crypto (encode_hex (crypto.hmac secret text)) m ≡ ok tt
      → m ≡ some (crypto.hmac secret text)
  compare_mac_forth secret text none h = cc
  compare_mac_forth secret text (some b) h =
      let (p, q) = or_false _ _ (fail_if_ok _ _ h) in
      ap some (
        str_eq-true _ _ (not-false _ q)
        ∙ ap or_empty
            (decode_hex-encode_hex (crypto.hmac secret text) (crypto.hmac_bytes secret text)))

  compare_mac_back :
      (secret text : Bytes)
      → compare_mac crypto (encode_hex (crypto.hmac secret text)) (some (crypto.hmac secret text))
        ≡ ok tt
  compare_mac_back secret text = ground (
    arith,
    crypto.hmac_length secret text,
    decode_hex-encode_hex (crypto.hmac secret text) (crypto.hmac_bytes secret text),
  )

  identifier_ok :
      (t : ProbeTicket) (id : Bytes)
      → ticket_identifier crypto t ≡ ok id
      → (secret : Bytes) × (probe_ticket_secret t ≡ ok secret)
        × (id ≡ encode_hex (crypto.sha256 secret))
  unfolding ticket_identifier
  identifier_ok t id h =
      let (secret, known, e) = bind_ok (probe_ticket_secret t) _ _ h in (secret, known, cc)

  pub identifier_known :
      (t : ProbeTicket) (secret : Bytes)
      → probe_ticket_secret t ≡ ok secret
      → ticket_identifier crypto t ≡ ok (encode_hex (crypto.sha256 secret))
  unfolding ticket_identifier
  identifier_known t secret known = rw known refl

  pub sign_known :
      (f : ProbeFrame) (t : ProbeTicket) (secret : Bytes)
      → probe_ticket_secret t ≡ ok secret
      → sign_probe_frame crypto f t ≡ ok (encode_hex (crypto.hmac secret (signed_text f)))
  unfolding sign_probe_frame
  sign_known f t secret known = rw known refl

  auth_forth :
      (f : ProbeFrame) (t : ProbeTicket) (now : ℕ)
      → verify_probe_auth crypto f t now ≡ ok tt
      → IsAuthentic f t now
  unfolding verify_probe_auth
  auth_forth f t now h =
      let (a, h1) = then_ok _ _ _ h in
      let (id, b, h2) = bind_ok (ticket_identifier crypto t) _ _ h1 in
      let (secret, known, e) = identifier_ok t id b in
      let (c, h3) = then_ok _ _ _ h2 in
      let (mac, d, h4) = bind_ok (sign_probe_frame crypto f t) _ _ h3 in
      let signed : ok mac ≡ ok (encode_hex (crypto.hmac secret (signed_text f))) =
        sym d ∙ sign_known f t secret known in
      let mac_is : mac ≡ encode_hex (crypto.hmac secret (signed_text f)) = cc in
      record {
        live = fail_if_ok _ _ a;
        secret = secret;
        known = known;
        id = str_eq-true _ _ (not-false _ (fail_if_ok _ _ c)) ∙ e;
        mac = compare_mac_forth secret (signed_text f) (decode_hex f.mac) (rw mac_is at h4);
      }

  auth_back :
      (f : ProbeFrame) (t : ProbeTicket) (now : ℕ)
      → IsAuthentic f t now
      → verify_probe_auth crypto f t now ≡ ok tt
  unfolding verify_probe_auth
  auth_back f t now v =
      let same : str_eq f.ticket_id (encode_hex (crypto.sha256 v.secret)) ≡ true =
        ap (λ x. str_eq x (encode_hex (crypto.sha256 v.secret))) v.id ∙ str_eq_self _ in
      rw (v.live, identifier_known t v.secret v.known, same, sign_known f t v.secret v.known, v.mac)
        (compare_mac_back v.secret (signed_text f))

  -- A frame of a type that the checks of its shape and its digest accept.
  pub record IsValid (type' : Bytes) (f : ProbeFrame) (t : ProbeTicket) (now : ℕ) : Type 0 where
    pub shaped : IsShaped f
    pub typed : f.type ≡ type'
    pub authentic : IsAuthentic f t now

  mac_32 :
      (f : ProbeFrame) (t : ProbeTicket) (now : ℕ) → IsAuthentic f t now → is_hex_of f.mac 32 ≡ true
  mac_32 f t now v = rw v.mac (rw (crypto.hmac_length v.secret (signed_text f)) refl)

  signed_back :
      (f : ProbeFrame) (t : ProbeTicket) (now : ℕ)
      → IsShaped f
      → IsAuthentic f t now
      → validate_signed_probe_shape f ≡ ok tt
  unfolding validate_signed_probe_shape
  signed_back f t now s v = rw (shape_back f s, mac_32 f t now v) refl

  signed_forth : (f : ProbeFrame) → validate_signed_probe_shape f ≡ ok tt → IsShaped f
  unfolding validate_signed_probe_shape
  signed_forth f h = shape_forth f (then_ok _ _ _ h).0

  -- VerifyProbe accepts exactly the probes of the ticket: well-formed, of type probe, from the
  -- source to the target of the ticket, which has not expired, with its identifier and with the
  -- digest of their fields under its secret.
  pub verify_probe_iff :
      (f : ProbeFrame) (t : ProbeTicket) (now : ℕ)
      → (verify_probe crypto f t now ≡ ok tt) ↔ (
          IsValid probe_type_probe f t now
          × (f.source_node ≡ t.source_node)
          × (f.target_node ≡ t.target_node))
  unfolding verify_probe
  verify_probe_iff f t now = (forth, back)
    where
      forth :
          verify_probe crypto f t now ≡ ok tt
          → IsValid probe_type_probe f t now
            × (f.source_node ≡ t.source_node)
            × (f.target_node ≡ t.target_node)
      forth h =
          let (a, h1) = then_ok _ _ _ h in
          let (b, h2) = then_ok _ _ _ h1 in
          let (c, h3) = then_ok _ _ _ h2 in
          let (x, y) = or_false _ _ (fail_if_ok _ _ c) in
          (
            record {
              shaped = signed_forth f a;
              typed = str_eq-true _ _ (not-false _ (fail_if_ok _ _ b));
              authentic = auth_forth f t now h3;
            },
            str_eq-true _ _ (not-false _ x),
            str_eq-true _ _ (not-false _ y),
          )

      back :
          IsValid probe_type_probe f t now
            × (f.source_node ≡ t.source_node)
            × (f.target_node ≡ t.target_node)
          → verify_probe crypto f t now ≡ ok tt
      back (v, source, target) =
          rw
            (
              signed_back f t now v.shaped v.authentic,
              str_eq_of _ _ v.typed,
              str_eq_of _ _ source,
              str_eq_of _ _ target,
              auth_back f t now v.authentic,
            )
            refl

  of_Answers :
      (ack probe : ProbeFrame)
      → (not (str_eq ack.type probe_type_ack)
          || not (str_eq ack.source_node probe.target_node)
          || not (str_eq ack.target_node probe.source_node)
          || not (str_eq ack.nonce probe.nonce)
          || not (str_eq ack.ticket_id probe.ticket_id))
        ≡ false
      → (ack.type ≡ probe_type_ack) × Answers ack probe
  of_Answers ack probe h =
      let (a, b, c, d, e) = or5_false _ _ _ _ _ h in
      (
        str_eq-true _ _ (not-false _ a),
        record {
          source = str_eq-true _ _ (not-false _ b);
          target = str_eq-true _ _ (not-false _ c);
          nonce = str_eq-true _ _ (not-false _ d);
          id = str_eq-true _ _ (not-false _ e);
        },
      )

  -- VerifyProbeAck accepts exactly the acknowledgements of an accepted probe: well-formed, of type
  -- probe_ack, from its target to its source, with its nonce and identifier and with the digest of
  -- their own fields under the secret of the ticket, which has not expired.
  pub verify_probe_ack_iff :
      (ack probe : ProbeFrame) (t : ProbeTicket) (now : ℕ)
      → (verify_probe_ack crypto ack probe t now ≡ ok tt) ↔ (
          (verify_probe crypto probe t now ≡ ok tt)
          × IsValid probe_type_ack ack t now
          × Answers ack probe)
  unfolding verify_probe_ack
  verify_probe_ack_iff ack probe t now = (forth, back)
    where
      forth :
          verify_probe_ack crypto ack probe t now ≡ ok tt
          → (verify_probe crypto probe t now ≡ ok tt)
            × IsValid probe_type_ack ack t now
            × Answers ack probe
      forth h =
          let (a, h1) = then_ok _ _ _ h in
          let (b, h2) = then_ok _ _ _ h1 in
          let (c, h3) = then_ok _ _ _ h2 in
          let (typed, answers) = of_Answers ack probe (fail_if_ok _ _ c) in
          (
            a,
            record {
              shaped = signed_forth ack b;
              typed = typed;
              authentic = auth_forth ack t now h3;
            },
            answers,
          )

      back :
          (verify_probe crypto probe t now ≡ ok tt)
            × IsValid probe_type_ack ack t now
            × Answers ack probe
          → verify_probe_ack crypto ack probe t now ≡ ok tt
      back (a, v, w) =
          rw
            (
              a,
              signed_back ack t now v.shaped v.authentic,
              str_eq_of _ _ v.typed,
              str_eq_of _ _ w.source,
              str_eq_of _ _ w.target,
              str_eq_of _ _ w.nonce,
              str_eq_of _ _ w.id,
              auth_back ack t now v.authentic,
            )
            refl
