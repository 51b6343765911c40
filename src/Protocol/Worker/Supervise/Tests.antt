-- ===== src/Protocol/Worker/Supervise/Tests.antt =====
-- crates/rationale-protocol at concrete inputs.
use rationale.Prelude.{
  ◌==◌, if◌then◌else◌, suc, ℕ, ◌+◌, ◌≤◌, ◌≡◌, refl, true, false, none, some, List, [], ◌∷◌, arith,
}
use rationale.Result.{Result, ok}
use rationale.Protocol.Worker.Config.{Reason}
use rationale.Text.{codes}
use rationale.Model.{KernelRequest, KernelResponse, NodeKind, Verdict, protocol_version}
use rationale.Protocol.Frame
use rationale.Protocol.Frame.{Bytes, decode_frame, encode_frame}
use rationale.Protocol.Frame.RoundTrip.{decode_frame-encode_frame, decode_frame_sound}
use rationale.Protocol.Worker.Config.{WorkerConfig, got, new}
use rationale.Protocol.Worker.Exchange.{
  HostMessage, hello, WorkerMessage, ready, result, Codec, Pipe, timed_exchange,
}
use rationale.Protocol.Worker.Supervise.{
  World, State, spawned, start, evaluate_with_restart, run_supervisor, timed_result, drop_worker,
  tick,
}
use rationale.Protocol.Worker.Supervise
use rationale.Protocol.Worker.Supervise.Oversized.{EndsOversized, later, fresh, oversized_is_final}
use rationale.Protocol.Worker.Supervise.Answers.{
  IsOutcome, Serves, evaluate_with_restart-IsOutcome, run_supervisor-Serves,
}

decode_frame-encode_frame_example : decode_frame (encode_frame (7 ∷ 8 ∷ [])) 2 ≡ ok (7 ∷ 8 ∷ [])
decode_frame-encode_frame_example =
    decode_frame-encode_frame (7 ∷ 8 ∷ []) 2 (omega arith) (omega arith)

decode_frame_sound_example : (0 ∷ 0 ∷ 0 ∷ 1 ∷ 9 ∷ [] ≡ encode_frame (9 ∷ [])) × (1 ≤ 4)
unfolding decode_frame
decode_frame_sound_example =
    decode_frame_sound (0 ∷ 0 ∷ 0 ∷ 1 ∷ 9 ∷ []) (9 ∷ []) 4 (ground arith) refl

abbrev request : KernelRequest
request = record {
  protocol_version = protocol_version;
  request_id = codes "r1";
  snapshot_id = codes "s1";
  goal = record { target_id = codes "t"; anchor_kinds = NodeKind.decision ∷ [] };
  nodes = [];
  edges = [];
  conflicts = [];
}

abbrev response : KernelResponse
response =
    KernelResponse.proof protocol_version (codes "r1") (codes "s1")
      (record { verdict = Verdict.not_established; proof_chains = []; gaps = []; conflicts = [] })

-- A codec with one byte for each message.
abbrev to_byte : HostMessage → Bytes
to_byte (hello n) = 1 ∷ []
to_byte (HostMessage.evaluate r) = 2 ∷ []

abbrev of_bytes : Bytes → WorkerMessage
of_bytes (b ∷ []) = if b == 1 then ready protocol_version else result response
of_bytes _ = result response

abbrev codec : Codec
codec = record { to_vec = λ m. got (to_byte m); from_slice = λ b. got (of_bytes b) }

-- A worker that says the byte.
abbrev says : ℕ → Pipe
says b = record {
  late = false;
  write = λ frame. none;
  header = got (0, 0, 0, 1);
  body = λ n. got (b ∷ []);
}

abbrev oversized : Pipe
oversized = record {
  late = false;
  write = λ frame. none;
  header = got (1, 0, 0, 0);
  body = λ n. got [];
}

-- The first worker crashes on the request, the second answers.
abbrev dead : Pipe
dead = record {
  late = false;
  write = λ frame. some (codes "broken pipe");
  header = got (0, 0, 0, 1);
  body = λ n. got [];
}

abbrev pipes : ℕ → Pipe
pipes k = if k == 1 then dead else if k == 3 then says 2 else says 1

abbrev world : World
world = record { codec = codec; spawn = λ k. spawned (100 + k); pipe = pipes }

abbrev config : WorkerConfig
config = new (codes "/bin/worker")

abbrev idle : State
idle = record { worker = false; process_id = 0; clock = 0; sleeps = [] }

restarted :
    evaluate_with_restart config world request idle
    ≡ some
        (ok response, record { worker = true; process_id = 102; clock = 4; sleeps = 25000000 ∷ [] })
unfolding evaluate_with_restart start timed_exchange new Frame.checked_frame_length
    Frame.from_be_bytes timed_result
restarted = refl

evaluate_with_restart-IsOutcome_example :
    (r : Result KernelResponse Reason) × (s' : State) × (evaluate_with_restart config world request
        idle
      ≡ some (r, s'))
    × IsOutcome config world request (suc config.restart_limit) 0 idle r s'
evaluate_with_restart-IsOutcome_example =
    evaluate_with_restart-IsOutcome config world request idle (λ e. refl)

run_supervisor-Serves_example :
    (rs : List (Result KernelResponse Reason)) × (s' : State) × (s'' : State) × (run_supervisor
        config world
        (request ∷ [])
        idle
      ≡ some (rs, s''))
    × Serves config world (request ∷ []) idle rs s'
    × (s''.process_id ≡ 0)
run_supervisor-Serves_example = run_supervisor-Serves config world (request ∷ []) idle (λ e. refl)

-- The second worker answers with a frame past the limit.
abbrev flooding : World
flooding = record {
  codec = codec;
  spawn = λ k. spawned (100 + k);
  pipe = λ k. if k == 1 then dead else if k == 3 then oversized else says 1;
}

-- After the crash of the first worker, and when the second has started.
abbrev crashed : State
crashed = record { worker = false; process_id = 0; clock = 2; sleeps = 25000000 ∷ [] }

abbrev restarted_state : State
restarted_state = record { worker = false; process_id = 102; clock = 3; sleeps = 25000000 ∷ [] }

abbrev asked : State
asked = record { worker = true; process_id = 102; clock = 3; sleeps = 25000000 ∷ [] }

oversized_is_final_example : EndsOversized config flooding request idle asked 16777216 8388608
unfolding timed_result timed_exchange new Frame.checked_frame_length Frame.from_be_bytes start
    Supervise.round Supervise.ask Supervise.settle
oversized_is_final_example =
    oversized_is_final config flooding request idle asked 16777216 8388608 (λ e. refl)
      (later {s' = crashed} refl (fresh {s' = restarted_state} refl refl refl)) refl
