-- ===== src/Protocol/Worker/Exchange.antt =====
-- crates/rationale-protocol/src/worker.rs: one message to the worker and its reply.
use rationale.Prelude.{ℕ, Bool, Option, none, some, length, ltb, ◌++◌, if◌then◌else◌}
use rationale.Result.{Result, ok, err}
use rationale.Text.{Text, codes}
use rationale.Model.{KernelRequest, KernelResponse}
use rationale.Protocol.Frame
use rationale.Protocol.Frame.{Bytes, from_be_bytes, checked_frame_length, encode_frame}
use rationale.Protocol.Worker.Config.{
  Reason, crashed, protocol_violation, frame_too_large, Outside, got, fault, WorkerConfig,
}

pub data HostMessage : Type 0 where
  hello : ℕ → HostMessage
  evaluate : KernelRequest → HostMessage

pub data WorkerMessage : Type 0 where
  ready : ℕ → WorkerMessage
  result : KernelResponse → WorkerMessage
  failure : Text → WorkerMessage

-- The JSON library: a message to its bytes, and bytes to a message.
pub record Codec : Type 0 where
  pub to_vec : HostMessage → Outside Bytes
  pub from_slice : Bytes → Outside WorkerMessage

-- The pipes of the child during one exchange: whether the write of a frame fails, the four bytes of
-- a header, and a body of the length that is asked for. `late` says that the deadline passes before
-- the exchange ends, in which case it is dropped wherever it stands.
pub record Pipe : Type 0 where
  pub late : Bool
  pub write : Bytes → Option Text
  pub header : Outside (ℕ × ℕ × ℕ × ℕ)
  pub body : ℕ → Outside Bytes

abbrev could_not_encode : Text
could_not_encode = codes "could not encode worker message: "

abbrev invalid_response : Text
invalid_response = codes "invalid worker response: "

pub read_body : Codec → Pipe → ℕ → Result WorkerMessage Reason
read_body codec pipe length = elim (pipe.body length) [
  | fault e ↦ err (crashed e)
  | got response ↦ elim (codec.from_slice response) [
    | got message ↦ ok message
    | fault e ↦ err (protocol_violation (invalid_response ++ e))
  ]
]

-- The size error of a header as the supervisor's error. The source marks any other as
-- unreachable.
pub frame_error : Frame.FrameDecodeError → Reason
frame_error (Frame.frame_too_large length limit) = frame_too_large length limit
frame_error _ = protocol_violation (codes "frame header")

pub read_reply : Codec → Pipe → ℕ → Result WorkerMessage Reason
unfolding read_body frame_error
read_reply codec pipe max_payload = elim pipe.header [
  | fault e ↦ err (crashed e)
  | got (a, b, c, d) ↦ elim (checked_frame_length (from_be_bytes a b c d) max_payload) [
    | err e ↦ err (frame_error e)
    | ok length ↦ read_body codec pipe length
  ]
]

-- `Worker::exchange`
unfoldable pub exchange : Codec → Pipe → HostMessage → ℕ → Result WorkerMessage Reason
unfolding read_reply
exchange codec pipe message max_payload = elim (codec.to_vec message) [
  | fault e ↦ err (protocol_violation (could_not_encode ++ e))
  | got payload ↦
      if ltb max_payload (length payload)
      then err (frame_too_large (length payload) max_payload)
      else elim (pipe.write (encode_frame payload)) [
        | some e ↦ err (crashed e)
        | none ↦ read_reply codec pipe max_payload
      ]
]

-- `time::timeout(config.request_timeout, exchange)`
pub data Timed : Type 0 where
  elapsed : Timed
  within : Result WorkerMessage Reason → Timed

unfoldable pub timed_exchange : Codec → WorkerConfig → Pipe → HostMessage → Timed
unfolding exchange
timed_exchange codec config pipe message =
    if pipe.late then elapsed else within (exchange codec pipe message config.max_payload)
