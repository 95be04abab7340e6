-- ===== src/P2p/Data/Opens.antt =====
-- SealDirectPayload and OpenDirectPayload.
use xray_mesh.Base.{
  ℕ, ◌<◌, ◌≤◌, ◌≡◌, ◌≢◌, refl, ap, ◌∙◌, inl, inr, arith, Bool, true, false, not, ◌||◌, Option, some,
  [], ◌∷◌, ltb, length, ok, Bool-cases, Result-cases,
}
use xray_mesh.P2p.Data.{
  direct_frame, direct_payload_aad, direct_payload_prefix, direct_payload_header_len, open_frame,
  decrypted, sealed_frame, seal_direct_payload, open_direct_payload,
}
use xray_mesh.P2p.Secret.{Crypto, probe_ticket_secret, ticket_identifier, is_expired}
use xray_mesh.P2p.Data.Roundtrip.{IsSized, frame, length-frame, read_frame-frame}
use xray_mesh.P2p.Tickets.{ProbeTicket, str_eq, of_pair}
use xray_mesh.Text.{Bytes, has_prefix}
use xray_mesh.Text.Hex.{encode_hex, decode_hex-encode_hex}
use xray_mesh.Text.Trim.{trim_space}

some_length : (s : Bytes) → s ≢ [] → 0 < length s
some_length [] n = absurd (n refl)
some_length (b ∷ s) n = omega arith

pub begins_frame :
    (id nonce source target ciphertext : Bytes)
    → has_prefix (frame id nonce source target ciphertext) direct_payload_prefix ≡ true
unfolding direct_frame has_prefix
begins_frame id nonce source target ciphertext = refl

module _ (crypto : Crypto) (t : ProbeTicket) where
  module _ (source target payload nonce : Bytes) where
    abbrev pub text_under : Bytes → Bytes
    text_under secret =
        crypto.seal secret nonce payload (direct_payload_aad (crypto.sha256 secret) source target)

    -- What was sealed, from the result of sealing.
    pub sealed_frame-frame :
        (data' : Bytes)
        → sealed_frame crypto t source target payload (some nonce) ≡ ok data'
        → (secret : Bytes) × (probe_ticket_secret t ≡ ok secret)
          × (data' ≡ frame (crypto.sha256 secret) nonce source target (text_under secret))
    unfolding sealed_frame ticket_identifier
    sealed_frame-frame data' e = elim (Result-cases (probe_ticket_secret t)) [
      | inr (x, f) ↦ absurd (ground arith)
      | inl (secret, f) ↦ (
        secret,
        f,
        ground (
          arith,
          f,
          decode_hex-encode_hex (crypto.sha256 secret) (crypto.digest_bytes secret),
          crypto.digest_length secret,
        ),
      )
    ]

    module _ (secret : Bytes) (known : probe_ticket_secret t ≡ ok secret) where
      opened_text :
          decrypted crypto t
            (record {
              ticket_id = crypto.sha256 secret;
              nonce = nonce;
              source_node = source;
              target_node = target;
              ciphertext = text_under secret;
            })
            (encode_hex (crypto.sha256 secret))
          ≡ ok (record { source_node = source; target_node = target; payload = payload })
      unfolding decrypted
      opened_text = ground (
        arith,
        known,
        decode_hex-encode_hex (crypto.sha256 secret) (crypto.digest_bytes secret),
        crypto.open-seal secret nonce payload
            (direct_payload_aad (crypto.sha256 secret) source target),
      )

      pub identified : ticket_identifier crypto t ≡ ok (encode_hex (crypto.sha256 secret))
      unfolding ticket_identifier
      identified = rw known refl

      module _ (source_fits : length source ≤ 65535) (target_fits : length target ≤ 65535)
          (payload_fits : length payload ≤ 65535) (nonce_12 : length nonce ≡ 12)
          (source_named : source ≢ []) (target_named : target ≢ []) where
        pub sized : IsSized (crypto.sha256 secret) nonce source target (text_under secret)
        sized = record {
          id_32 = crypto.digest_length secret;
          nonce_12 = nonce_12;
          source_some = some_length source source_named;
          source_fits = source_fits;
          target_some = some_length target target_named;
          target_fits = target_fits;
          tagged = ground (
            arith,
            crypto.seal_length secret nonce payload
                (direct_payload_aad (crypto.sha256 secret) source target),
          );
          fits = ground (
            arith,
            payload_fits,
            crypto.seal_length secret nonce payload
                (direct_payload_aad (crypto.sha256 secret) source target),
          );
        }

        opened_frame :
            (expected : Bytes)
            → trim_space expected ≡ target
            → of_pair source target t ≡ true
            → open_frame crypto t expected (record {
              ticket_id = crypto.sha256 secret;
              nonce = nonce;
              source_node = source;
              target_node = target;
              ciphertext = text_under secret;
            })
              ≡ ok (record { source_node = source; target_node = target; payload = payload })
        unfolding open_frame
        opened_frame expected e pair =
            ground (arith, e, pair, target_named, identified, opened_text)

        opened_whole :
            (expected : Bytes) (later : ℕ)
            → trim_space expected ≡ target
            → of_pair source target t ≡ true
            → is_expired t later ≡ false
            → open_direct_payload crypto
                (frame (crypto.sha256 secret) nonce source target (text_under secret))
                t
                expected
                later
              ≡ ok (record { source_node = source; target_node = target; payload = payload })
        unfolding open_direct_payload
        opened_whole expected later e pair live =
            let b = frame (crypto.sha256 secret) nonce source target (text_under secret) in
            let begins : has_prefix b direct_payload_prefix ≡ true = begins_frame _ _ _ _ _ in
            let long : ltb (length b) direct_payload_header_len ≡ false =
              ground (arith, length-frame _ _ _ _ _ sized) in
            let read = read_frame-frame _ _ _ _ _ sized in
            rw (begins, long, live, read, opened_frame expected e pair) refl

guards_false :
    (a b c d : Bool) → (a || b || c || not d) ≡ false → (a ≡ false) × (b ≡ false) × (d ≡ true)
guards_false a b c d h = (ground arith, ground arith, ground arith)

named_of : (s : Bytes) → str_eq s [] ≡ false → s ≢ []
named_of s h n = ground arith

-- The checks that sealing has passed.
pub record HasPassed (t : ProbeTicket) (source target payload : Bytes) : Type 0 where
  pub source_named : source ≢ []
  pub target_named : target ≢ []
  pub pair : of_pair source target t ≡ true
  pub source_fits : length source ≤ 65535
  pub target_fits : length target ≤ 65535
  pub payload_fits : length payload ≤ 65535

pub seal-passed :
    (crypto : Crypto) (t : ProbeTicket) (source_node target_node payload data' : Bytes) (now : ℕ)
    (random : Option Bytes)
    → seal_direct_payload crypto t source_node target_node payload now random ≡ ok data'
    → HasPassed t (trim_space source_node) (trim_space target_node) payload
      × (sealed_frame crypto t (trim_space source_node) (trim_space target_node) payload random
          ≡ ok data')
unfolding seal_direct_payload
seal-passed crypto t source_node target_node payload data' now random e =
    let source = trim_space source_node in
    let target = trim_space target_node in
    elim (Bool-cases (
      str_eq source []
      || str_eq target []
      || str_eq source target
      || not (of_pair source target t))) [
        | inl h ↦ absurd (ground arith)
        | inr h ↦ elim (Bool-cases (is_expired t now)) [
          | inl g ↦ absurd (ground arith)
          | inr g ↦
              elim (Bool-cases (
                ltb 65535 (length source)
                || ltb 65535 (length target)
                || ltb 65535 (length payload))) [
                  | inl f ↦ absurd (ground arith)
                  | inr f ↦ (
                    let (a, b, c) = guards_false _ _ _ _ h in
                        record {
                          source_named = named_of source a;
                          target_named = named_of target b;
                          pair = c;
                          source_fits = ground arith;
                          target_fits = ground arith;
                          payload_fits = ground arith;
                        },
                    ground arith,
                  )
                ]
        ]
      ]

-- What SealDirectPayload writes under a nonce of 12 bytes, OpenDirectPayload reads back at every
-- time before the ticket expires, at the node that it was written for: the trimmed names and the
-- payload.
pub open-seal_direct_payload :
    (crypto : Crypto) (t : ProbeTicket)
    (source_node target_node payload nonce expected data' : Bytes) (now later : ℕ)
    → length nonce ≡ 12
    → trim_space expected ≡ trim_space target_node
    → is_expired t later ≡ false
    → seal_direct_payload crypto t source_node target_node payload now (some nonce) ≡ ok data'
    → open_direct_payload crypto data' t expected later
      ≡ ok (record {
        source_node = trim_space source_node;
        target_node = trim_space target_node;
        payload = payload;
      })
open-seal_direct_payload crypto t source_node target_node payload nonce expected data' now later n12
      at live e =
    let (h, f) = seal-passed crypto t source_node target_node payload data' now (some nonce) e in
    let (secret, known, same) =
      sealed_frame-frame crypto t (trim_space source_node) (trim_space target_node) payload nonce
        data' f in
    ap (λ d. open_direct_payload crypto d t expected later) same
    ∙ opened_whole crypto t (trim_space source_node) (trim_space target_node) payload nonce secret
        known h.source_fits h.target_fits h.payload_fits n12 h.source_named h.target_named expected
        later at h.pair live
