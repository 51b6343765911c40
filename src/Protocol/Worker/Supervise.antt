-- ===== src/Protocol/Worker/Supervise.antt =====
-- crates/rationale-protocol/src/worker.rs: start, terminate, the restart loop and the supervisor.
pub mod Rounds
pub mod Answers
pub mod Oversized
mod Tests
use rationale.Prelude.{
  ℕ, zero, suc, ◌+◌, ◌-◌, ◌*◌, ◌^◌, Bool, true, false, Option, none, some, List, [], ◌∷◌, ◌++◌, min,
  leb, ◌==◌, if◌then◌else◌,
}
use rationale.Result.{Result, ok, err}
use rationale.Text.{Text, codes}
use rationale.Text.Decimal.{print}
use rationale.Model.{KernelRequest, KernelResponse, protocol_version}
use rationale.Protocol.Worker.Config.{
  Reason, start_failed, handshake_failed, timed_out, protocol_violation, frame_too_large, display,
  WorkerConfig,
}
use rationale.Protocol.Worker.Exchange.{
  HostMessage, hello, WorkerMessage, ready, result, failure, Codec, Pipe, elapsed, within,
  timed_exchange,
}

-- What a spawn gives: an error, a child with a missing pipe, or a child with its process identifier
-- (0 where it has none).
pub data Spawn : Type 0 where
  failed : Text → Spawn
  no_stdin no_stdout : Spawn
  spawned : ℕ → Spawn

-- The operating system and the child, by the number of the interaction.
pub record World : Type 0 where
  pub codec : Codec
  pub spawn : ℕ → Spawn
  pub pipe : ℕ → Pipe

-- The supervisor's state: whether it holds a worker, the shared process identifier, the number of
-- interactions so far, and the sleeps so far, the last one first.
pub record State : Type 0 where
  pub worker : Bool
  pub process_id : ℕ
  pub clock : ℕ
  pub sleeps : List ℕ

-- `Worker::terminate`. That the kill may fail is ignored.
pub terminate : State → State
terminate s = record s { process_id = 0 }

-- What `Worker::start` gives.
pub data Started : Type 0 where
  started : State → Started
  unavailable : Reason → State → Started

pub handshake_mismatch : ℕ → Text
handshake_mismatch received =
    codes "expected version " ++ print protocol_version ++ codes ", received " ++ print received

-- The `match` on the handshake.
pub greet : Result WorkerMessage Reason → State → Started
unfolding terminate
greet (ok (ready version)) s =
    if version == protocol_version
    then started s
    else unavailable (handshake_failed (handshake_mismatch version)) (terminate s)
greet (ok (failure message)) s = unavailable (handshake_failed message) (terminate s)
greet (ok (result response)) s =
    unavailable (handshake_failed (codes "worker returned a proof before readiness")) (terminate s)
greet (err e) s = unavailable (handshake_failed (display e)) (terminate s)

-- One interaction passes.
abbrev pub tick : State → State
tick s = record s { clock = s.clock + 1 }

pub start : WorkerConfig → World → State → Started
unfolding greet
start config w s = elim (w.spawn s.clock) [
  | failed e ↦ unavailable (start_failed e) (tick s)
  | no_stdin ↦ unavailable (start_failed (codes "worker stdin was not captured")) (tick s)
  | no_stdout ↦ unavailable (start_failed (codes "worker stdout was not captured")) (tick s)
  | spawned id ↦
      let s' = record s { process_id = id; clock = s.clock + 1 } in
      elim (timed_exchange w.codec config (w.pipe s.clock) (hello protocol_version)) [
        | within r ↦ greet r s'
        | elapsed ↦
            unavailable (handshake_failed (codes "worker readiness timed out")) (terminate s')
      ]
]

-- `Duration::MAX` in nanoseconds.
abbrev max_duration : ℕ
max_duration = 2 ^ 64 * 1_000_000_000 - 1

-- `time::sleep(config.restart_backoff.saturating_mul(attempt))`
pub sleep : WorkerConfig → ℕ → State → State
sleep config attempt s = record s {
  sleeps = min max_duration (config.restart_backoff * attempt) ∷ s.sleeps;
}

-- How one round of the loop ends: with a return, or with the next round.
pub data Round : Type 0 where
  returns : Result KernelResponse Reason → State → Round
  again : State → Round

-- The active worker is terminated and given up.
pub drop_worker : State → State
drop_worker s = record s { worker = false; process_id = 0 }

-- `attempt >= config.restart_limit` returns the error; otherwise the loop sleeps and goes on.
pub retry_or : WorkerConfig → ℕ → Reason → State → Round
unfolding sleep
retry_or config attempt e s =
    if leb config.restart_limit attempt
    then returns (err e) s
    else again (sleep config (attempt + 1) s)

-- The `match` on the result of the exchange.
pub settle : WorkerConfig → ℕ → Result WorkerMessage Reason → State → Round
unfolding drop_worker retry_or
settle config attempt (ok (result response)) s = returns (ok response) s
settle config attempt (ok (failure message)) s = returns (err (protocol_violation message)) s
settle config attempt (ok (ready version)) s =
    returns (err (protocol_violation (codes "worker returned readiness during evaluation"))) s
settle config attempt (err (frame_too_large length limit)) s =
    returns (err (frame_too_large length limit)) (drop_worker s)
settle config attempt (err e) s = retry_or config attempt e (drop_worker s)

pub timed_result : WorkerConfig → World → KernelRequest → ℕ → Result WorkerMessage Reason
timed_result config w request k =
    elim (timed_exchange w.codec config (w.pipe k) (HostMessage.evaluate request)) [
      | within r ↦ r
      | elapsed ↦ err timed_out
    ]

pub ask : WorkerConfig → World → KernelRequest → ℕ → State → Round
ask config w request attempt s =
    settle config attempt (timed_result config w request s.clock) (tick s)

pub round : WorkerConfig → World → KernelRequest → ℕ → State → Round
round config w request attempt s = elim s.worker [
  | true ↦ ask config w request attempt s
  | false ↦ elim (start config w s) [
    | started s' ↦ ask config w request attempt (record s' { worker = true })
    | unavailable e s' ↦ retry_or config attempt e s'
  ]
]

-- The loop of `evaluate_with_restart`; `none` means that the fuel ran out.
pub attempts :
    WorkerConfig
    → World
    → KernelRequest
    → ℕ
    → ℕ
    → State
    → Option (Result KernelResponse Reason × State)
attempts config w request zero attempt s = none
attempts config w request (suc fuel) attempt s = elim (round config w request attempt s) [
  | returns r s' ↦ some (r, s')
  | again s' ↦ attempts config w request fuel (attempt + 1) s'
]

unfoldable pub evaluate_with_restart :
    WorkerConfig → World → KernelRequest → State → Option (Result KernelResponse Reason × State)
unfolding attempts round ask settle
evaluate_with_restart config w request s = attempts config w request (suc config.restart_limit) 0 s

-- `run_supervisor`: one answer to each command in order, and the worker terminated at the end.
unfoldable pub run_supervisor :
    WorkerConfig
    → World
    → List KernelRequest
    → State
    → Option (List (Result KernelResponse Reason) × State)
run_supervisor config w [] s = some ([], if s.worker then terminate s else s)
run_supervisor config w (request ∷ rest) s = elim (evaluate_with_restart config w request s) [
  | none ↦ none
  | some (r, s') ↦ elim (run_supervisor config w rest s') [
    | none ↦ none
    | some (rs, s'') ↦ some (r ∷ rs, s'')
  ]
]
