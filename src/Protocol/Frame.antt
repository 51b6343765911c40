-- ===== src/Protocol/Frame.antt =====
-- crates/rationale-protocol/src/lib.rs: length-prefixed frames, as lists of bytes.
pub mod RoundTrip
use rationale.Prelude.{
  ℕ, ◌+◌, ◌-◌, ◌*◌, ◌/◌, ◌%◌, ◌<◌, List, [], ◌∷◌, ◌++◌, All, length, ltb, if◌then◌else◌,
}
use rationale.Result.{Result, ok, err}

abbrev pub Bytes : Type 0
Bytes = List ℕ

abbrev pub AreBytes : Bytes → Type 0
AreBytes = All (λ b. b < 256)

-- `FRAME_HEADER_BYTES`
abbrev pub frame_header_bytes : ℕ
frame_header_bytes = 4

pub data FrameDecodeError : Type 0 where
  incomplete_header : FrameDecodeError
  -- length, limit
  frame_too_large : ℕ → ℕ → FrameDecodeError
  -- declared, available
  incomplete_payload : ℕ → ℕ → FrameDecodeError
  trailing_bytes : ℕ → FrameDecodeError

-- `u32::from_be_bytes`
unfoldable pub from_be_bytes : ℕ → ℕ → ℕ → ℕ → ℕ
from_be_bytes a b c d = ((a * 256 + b) * 256 + c) * 256 + d

-- `u32::to_be_bytes`
unfoldable pub to_be_bytes : ℕ → Bytes
to_be_bytes n = (n / 16777216 % 256) ∷ (n / 65536 % 256) ∷ (n / 256 % 256) ∷ (n % 256) ∷ []

unfoldable pub checked_frame_length : ℕ → ℕ → Result ℕ FrameDecodeError
checked_frame_length length max_payload =
    if ltb max_payload length then err (frame_too_large length max_payload) else ok length

-- The checks behind the header: the declared length against the bytes at hand.
unfoldable pub decode_payload : ℕ → Bytes → Result Bytes FrameDecodeError
decode_payload declared payload =
    let available = length payload in
    if ltb available declared
    then err (incomplete_payload declared available)
    else if ltb declared available
    then err (trailing_bytes (available - declared))
    else ok payload

unfoldable pub decode_frame : Bytes → ℕ → Result Bytes FrameDecodeError
unfolding from_be_bytes checked_frame_length decode_payload
decode_frame (a ∷ b ∷ c ∷ d ∷ payload) max_payload =
    elim (checked_frame_length (from_be_bytes a b c d) max_payload) [
      | ok declared ↦ decode_payload declared payload
      | err e ↦ err e
    ]
decode_frame _ max_payload = err incomplete_header

-- What `Worker::exchange` writes for a payload: its length in four bytes, then the payload.
unfoldable pub encode_frame : Bytes → Bytes
unfolding to_be_bytes
encode_frame payload = to_be_bytes (length payload) ++ payload
