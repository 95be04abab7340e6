-- ===== src/Transport/Frame/Roundtrip.antt =====
-- marshal against ParseFrame.
use xray_mesh.Base.{
  ℕ, ◌+◌, ◌*◌, ◌/◌, ◌%◌, ◌≤◌, ◌<◌, ◌≡◌, refl, sym, ap, ◌∙◌, ◌≢◌, ◌⊎◌, inl, inr, not, ◌&&◌, ◌||◌, [],
  ◌∷◌, ◌++◌, ltb, ◌==◌, if◌then◌else◌, length, length-append, take, drop, take-length-append,
  drop-length-append, take-append-drop, length-take, Result, ok, err, arith, Bool-cases, All, suc,
}
use xray_mesh.Text.{Bytes}
use xray_mesh.Transport.Frame.{
  Frame, FrameType, FrameError, frame_hello, frame_packet, frame_deliver, marshal, parse_frame,
  parse_body, type_byte, type_of_byte, put_uint16, is_deliver, malformed_frame,
  frame_type_unsupported,
}

-- A deliver frame carries no token, and no token is longer than the limit.
abbrev pub IsFrame : Frame → Type 0
IsFrame f = (length f.token ≤ 512) × ((f.type ≢ frame_deliver) ⊎ (f.token ≡ []))

four : (n : ℕ) → 4 + n ≡ suc (suc (suc (suc n)))
four n = omega arith

-- The body of a frame whose length field says `n`.
body_of : FrameType → ℕ → Bytes → Result FrameError Frame
body_of t n rest =
    if ltb 512 n || ltb (length rest) n
    then err malformed_frame
    else if is_deliver t && not (n == 0)
    then err malformed_frame
    else ok (record { type = t; token = take n rest; payload = drop n rest })

parse_body_lem :
    (v x hi lo n : ℕ) (rest : Bytes) (t : FrameType)
    → hi * 256 + lo ≡ n
    → parse_body (v ∷ x ∷ hi ∷ lo ∷ rest) t ≡ body_of t n rest
unfolding parse_body body_of
parse_body_lem v x hi lo n rest t e = rw (e, four n) (ground arith)

body_of-token :
    (t : FrameType) (token payload : Bytes)
    → IsFrame (record { type = t; token = token; payload = payload })
    → body_of t (length token) (token ++ payload)
      ≡ ok (record { type = t; token = token; payload = payload })
unfolding body_of
body_of-token t token payload v = ground (
  arith,
  v.0,
  v.1,
  length-append token payload,
  take-length-append token payload,
  drop-length-append token payload,
)

-- marshal writes version, type, length, token and payload for every token of at most 512 bytes,
-- and refuses longer ones.
pub marshal_total :
    (t : FrameType) (token payload : Bytes)
    → ((length token ≤ 512)
        × (marshal t token payload
            ≡ ok (1 ∷ type_byte t ∷ put_uint16 (length token) ++ (token ++ payload))))
      ⊎ ((512 < length token) × (marshal t token payload ≡ err FrameError.token_too_long))
unfolding marshal
marshal_total t token payload = ground arith

parse_frame_lem :
    (t : FrameType) (hi lo : ℕ) (rest : Bytes)
    → parse_frame (1 ∷ type_byte t ∷ hi ∷ lo ∷ rest)
      ≡ parse_body (1 ∷ type_byte t ∷ hi ∷ lo ∷ rest) t
unfolding parse_frame
parse_frame_lem frame_hello hi lo rest = ground arith
parse_frame_lem frame_packet hi lo rest = ground arith
parse_frame_lem frame_deliver hi lo rest = ground arith

type_of_byte_cases :
    (x : ℕ) → ((t : FrameType) × (x ≡ type_byte t)) ⊎ (type_of_byte x ≡ err frame_type_unsupported)
type_of_byte_cases x = elim (Bool-cases (x == 1)) [
  | inl e ↦ inl (frame_hello, ground arith)
  | inr e ↦ elim (Bool-cases (x == 2)) [
    | inl f ↦ inl (frame_packet, ground arith)
    | inr f ↦ elim (Bool-cases (x == 3)) [
      | inl g ↦ inl (frame_deliver, ground arith)
      | inr g ↦ inr (ground arith)
    ]
  ]
]

-- ParseFrame reads back what marshal writes for a frame, which has a token of at most 512 bytes,
-- an empty one if its type is deliver.
pub parse_frame-marshal :
    (f : Frame) (b : Bytes)
    → IsFrame f
    → marshal f.type f.token f.payload ≡ ok b
    → parse_frame b ≡ ok f
parse_frame-marshal f b v e =
    let n = length f.token in
    let eb : 1 ∷ type_byte f.type ∷ put_uint16 n ++ (f.token ++ f.payload) ≡ b =
      ground (arith, marshal_total f.type f.token f.payload, v.0) in
    rw (← eb) (
      parse_frame_lem f.type (n / 256 % 256) (n % 256) (f.token ++ f.payload)
      ∙ parse_body_lem 1 (type_byte f.type) (n / 256 % 256) (n % 256) n _ f.type
          (omega (arith, v.0))
      ∙ body_of-token f.type f.token f.payload v)

body_of_inv :
    (t : FrameType) (n : ℕ) (rest : Bytes) (f : Frame)
    → body_of t n rest ≡ ok f
    → (n ≤ 512)
      × (n ≤ length rest)
      × ((t ≢ frame_deliver) ⊎ (n ≡ 0))
      × (f ≡ record { type = t; token = take n rest; payload = drop n rest })
unfolding body_of
body_of_inv frame_hello n rest f e = (ground arith, ground arith, inl (λ h. cc), ground arith)
body_of_inv frame_packet n rest f e = (ground arith, ground arith, inl (λ h. cc), ground arith)
body_of_inv frame_deliver n rest f e =
    (ground arith, ground arith, inr (ground arith), ground arith)

no_token :
    (t : FrameType) (n : ℕ) (rest : Bytes)
    → (t ≢ frame_deliver) ⊎ (n ≡ 0)
    → (t ≢ frame_deliver) ⊎ (take n rest ≡ [])
no_token t n rest (inl h) = inl h
no_token t n rest (inr h) = inr (rw h)

marshalled :
    (t : FrameType) (n : ℕ) (rest : Bytes) (hi lo : ℕ)
    → n ≤ 512
    → length (take n rest) ≡ n
    → n / 256 % 256 ≡ hi
    → n % 256 ≡ lo
    → marshal t (take n rest) (drop n rest) ≡ ok (1 ∷ type_byte t ∷ hi ∷ lo ∷ rest)
marshalled t n rest hi lo small len eh el =
    ground (arith, marshal_total t (take n rest) (drop n rest), take-append-drop n rest)

written :
    (t : FrameType) (hi lo : ℕ) (rest : Bytes) (f : Frame)
    → hi < 256
    → lo < 256
    → parse_frame (1 ∷ type_byte t ∷ hi ∷ lo ∷ rest) ≡ ok f
    → IsFrame f × (marshal f.type f.token f.payload ≡ ok (1 ∷ type_byte t ∷ hi ∷ lo ∷ rest))
written t hi lo rest f hh hl e =
    let n = hi * 256 + lo in
    let (small, fits, kind, shape) = body_of_inv t n rest f (
      sym (parse_body_lem 1 (type_byte t) hi lo n rest t refl)
      ∙ sym (parse_frame_lem t hi lo rest)
      ∙ e) in
    let len : length (take n rest) ≡ n = omega (arith, length-take n rest) in
    rw shape (
      (omega arith, no_token t n rest kind),
      marshalled t n rest hi lo small len (omega arith) (omega arith),
    )

-- What ParseFrame accepts is a frame, and of bytes below 256 it is what marshal writes for it.
pub marshal-parse_frame :
    (b : Bytes) (f : Frame)
    → All (λ x. x < 256) b
    → parse_frame b ≡ ok f
    → IsFrame f × (marshal f.type f.token f.payload ≡ ok b)
unfolding parse_frame
marshal-parse_frame [] f small e = absurd (ground arith)
marshal-parse_frame (v ∷ []) f small e = absurd (ground arith)
marshal-parse_frame (v ∷ x ∷ []) f small e = absurd (ground arith)
marshal-parse_frame (v ∷ x ∷ hi ∷ []) f small e = absurd (ground arith)
marshal-parse_frame (v ∷ x ∷ hi ∷ lo ∷ rest) f small e = elim (type_of_byte_cases x) [
  | inr h ↦ absurd (ground arith)
  | inl (t, h) ↦
      let one : v ≡ 1 = ground arith in
      let same : 1 ∷ type_byte t ∷ hi ∷ lo ∷ rest ≡ v ∷ x ∷ hi ∷ lo ∷ rest = cc in
      rw (one, h) (written t hi lo rest f small.1.1.0 small.1.1.1.0 (ap parse_frame same ∙ e))
]
