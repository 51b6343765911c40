-- ===== src/Protocol/Frame/RoundTrip.antt =====
-- The decoder of frames against the encoder, in both directions.
use rationale.Prelude.{ℕ, ◌+◌, ◌*◌, ◌/◌, ◌%◌, ◌≤◌, ◌<◌, ◌^◌, ◌≡◌, [], ◌∷◌, length, arith}
use rationale.Result.{ok}
use rationale.Protocol.Frame.{
  Bytes, AreBytes, from_be_bytes, to_be_bytes, decode_frame, encode_frame,
}

from_be_bytes-to_be_bytes :
    (n : ℕ)
    → n < 2 ^ 32
    → from_be_bytes (n / 16777216 % 256) (n / 65536 % 256) (n / 256 % 256) (n % 256) ≡ n
unfolding from_be_bytes
from_be_bytes-to_be_bytes n h = omega arith

-- A payload within the limit and within 32 bits of length, encoded and decoded, is the payload.
pub decode_frame-encode_frame :
    (payload : Bytes) (max_payload : ℕ)
    → length payload ≤ max_payload
    → length payload < 2 ^ 32
    → decode_frame (encode_frame payload) max_payload ≡ ok payload
unfolding decode_frame encode_frame
decode_frame-encode_frame payload max_payload h k =
    rw (from_be_bytes-to_be_bytes (length payload) k, decode_frame) (ground arith)

to_be_bytes-from_be_bytes :
    (a b c d : ℕ)
    → a < 256
    → b < 256
    → c < 256
    → d < 256
    → to_be_bytes (from_be_bytes a b c d) ≡ a ∷ b ∷ c ∷ d ∷ []
unfolding from_be_bytes to_be_bytes
to_be_bytes-from_be_bytes a b c d ha hb hc hd =
    let n = ((a * 256 + b) * 256 + c) * 256 + d in
    let pa : n / 16777216 % 256 ≡ a = omega arith in
    let pb : n / 65536 % 256 ≡ b = omega arith in
    let pc : n / 256 % 256 ≡ c = omega arith in let pd : n % 256 ≡ d = omega arith in cc

decode_frame-parts :
    (a b c d : ℕ) (rest payload : Bytes) (max_payload : ℕ)
    → decode_frame (a ∷ b ∷ c ∷ d ∷ rest) max_payload ≡ ok payload
    → (rest ≡ payload) × (from_be_bytes a b c d ≡ length payload) × (length payload ≤ max_payload)
unfolding decode_frame from_be_bytes
decode_frame-parts a b c d rest payload max_payload e = ground arith

-- A frame of bytes that decodes is the encoding of its payload, and the payload is within the limit.
pub decode_frame_sound :
    (frame payload : Bytes) (max_payload : ℕ)
    → AreBytes frame
    → decode_frame frame max_payload ≡ ok payload
    → (frame ≡ encode_frame payload) × (length payload ≤ max_payload)
unfolding encode_frame
decode_frame_sound (a ∷ b ∷ c ∷ d ∷ rest) payload max_payload h e =
    let (p, q, m) = decode_frame-parts a b c d rest payload max_payload e in
    let r = to_be_bytes-from_be_bytes a b c d h.0 h.1.0 h.1.1.0 h.1.1.1.0 in (cc, m)
decode_frame_sound _ payload max_payload h e = absurd (unfold decode_frame in ground arith)
