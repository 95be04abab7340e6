-- ===== src/Transport/Frame.antt =====
-- internal/transport/frame.go. A frame: version, type, the length of the token in two bytes, the
-- token, the payload.
pub mod Roundtrip
use xray_mesh.Base.{
  ℕ, ◌+◌, ◌*◌, ◌/◌, ◌%◌, Bool, ◌&&◌, ◌||◌, not, List, [], ◌∷◌, ◌++◌, ltb, ◌==◌, if◌then◌else◌,
  length, take, drop, get_or, Result, ok, err, ◌>>=◌,
}
use xray_mesh.Text.{Bytes}

pub data FrameError : Type 0 where
  frame_too_short frame_version_unsupported frame_type_unsupported token_too_long malformed_frame :
      FrameError

pub data FrameType : Type 0 where
  frame_hello frame_packet frame_deliver : FrameType

pub record Frame : Type 0 where
  pub type : FrameType
  pub token : Bytes
  pub payload : Bytes

abbrev pub frame_version : ℕ
frame_version = 1

abbrev pub max_token_bytes : ℕ
max_token_bytes = 512

-- The byte of a frame type, and the type of a byte that has one.
abbrev pub type_byte : FrameType → ℕ
type_byte frame_hello = 1
type_byte frame_packet = 2
type_byte frame_deliver = 3

abbrev pub type_of_byte : ℕ → Result FrameError FrameType
type_of_byte b =
    if b == 1
    then ok frame_hello
    else if b == 2
    then ok frame_packet
    else if b == 3
    then ok frame_deliver
    else err frame_type_unsupported

abbrev pub is_deliver : FrameType → Bool
is_deliver frame_deliver = Bool.true
is_deliver _ = Bool.false

-- `binary.BigEndian.PutUint16` of `uint16(n)`, and `Uint16` of two bytes.
abbrev pub put_uint16 : ℕ → Bytes
put_uint16 n = (n / 256 % 256) ∷ (n % 256) ∷ []

abbrev pub uint16_at : Bytes → ℕ → ℕ
uint16_at b i = get_or b i 0 * 256 + get_or b (i + 1) 0

unfoldable pub marshal : FrameType → Bytes → Bytes → Result FrameError Bytes
marshal t token payload =
    if ltb max_token_bytes (length token) || ltb 0xffff (length token)
    then err token_too_long
    else ok (frame_version ∷ type_byte t ∷ put_uint16 (length token) ++ (token ++ payload))

unfoldable pub marshal_hello : Bytes → Result FrameError Bytes
unfolding marshal
marshal_hello token = marshal frame_hello token []

unfoldable pub marshal_packet : Bytes → Bytes → Result FrameError Bytes
unfolding marshal
marshal_packet token payload = marshal frame_packet token payload

unfoldable pub marshal_deliver : Bytes → Result FrameError Bytes
unfolding marshal
marshal_deliver payload = marshal frame_deliver [] payload

-- The checks and reads behind the type byte.
unfoldable pub parse_body : Bytes → FrameType → Result FrameError Frame
parse_body b t =
    let token_len = uint16_at b 2 in
    if ltb max_token_bytes token_len || ltb (length b) (4 + token_len)
    then err malformed_frame
    else if is_deliver t && not (token_len == 0)
    then err malformed_frame
    else ok
        (record { type = t; token = take token_len (drop 4 b); payload = drop (4 + token_len) b })

unfoldable pub parse_frame : Bytes → Result FrameError Frame
unfolding parse_body
parse_frame b =
    if ltb (length b) 4
    then err frame_too_short
    else if not (get_or b 0 0 == frame_version)
    then err frame_version_unsupported
    else (type_of_byte (get_or b 1 0) >>= parse_body b)
