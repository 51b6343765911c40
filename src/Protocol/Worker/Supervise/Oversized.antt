-- ===== src/Protocol/Worker/Supervise/Oversized.antt =====
-- crates/rationale-protocol/src/worker.rs: a frame past the limit ends a request, in whatever round it
-- comes.
use rationale.Prelude.{ℕ, zero, suc, ◌+◌, ◌≤◌, ◌<◌, ◌≡◌, refl, true, false, some, arith}
use rationale.Result.{err}
use rationale.Model.{KernelRequest}
use rationale.Protocol.Worker.Config.{WorkerConfig, frame_too_large}
use rationale.Protocol.Worker.Supervise.{
  World, State, returns, again, started, start, timed_result, tick, drop_worker, settle, ask, round,
  attempts, evaluate_with_restart,
}
use rationale.Protocol.Worker.Supervise.Rounds.{IsConsistent, Ends, round-Ends}

-- From the head of the loop at `s`, the request is sent in the state `q`: to the worker that is held, to one
-- that has just started, or in a later round.
pub data Asks (config : WorkerConfig) (w : World) (request : KernelRequest) (q : State)
    : ℕ → State → Type 0 where
  held : {attempt : ℕ} {s : State} → s.worker ≡ true → s ≡ q → Asks config w request q attempt s
  fresh :
      {attempt : ℕ} {s s' : State}
      → s.worker ≡ false
      → start config w s ≡ started s'
      → record s' { worker = true } ≡ q
      → Asks config w request q attempt s
  later :
      {attempt : ℕ} {s s' : State}
      → round config w request attempt s ≡ again s'
      → Asks config w request q (attempt + 1) s'
      → Asks config w request q attempt s

-- The call returns the error after the interaction of `q`, without a worker and with no further sleep.
pub record EndsOversized (config : WorkerConfig) (w : World) (request : KernelRequest) (s q : State)
    (n m : ℕ) : Type 0 where
  pub last : State
  pub ended : evaluate_with_restart config w request s ≡ some (err (frame_too_large n m), last)
  pub no_worker : last.worker ≡ false
  pub no_process : last.process_id ≡ 0
  pub no_interaction : last.clock ≡ q.clock + 1
  pub no_sleep : last.sleeps ≡ q.sleeps

module _ (config : WorkerConfig) (w : World) (request : KernelRequest) (q : State) (n m : ℕ)
    (large : timed_result config w request q.clock ≡ err (frame_too_large n m)) where
  ask-oversized :
      (attempt : ℕ)
      → ask config w request attempt q ≡ returns (err (frame_too_large n m)) (drop_worker (tick q))
  unfolding ask settle
  ask-oversized attempt = rw large refl

  attempts-oversized :
      (fuel attempt : ℕ) (s : State)
      → Asks config w request q attempt s
      → IsConsistent s
      → attempt ≤ config.restart_limit
      → config.restart_limit < attempt + fuel
      → attempts config w request fuel attempt s
        ≡ some (err (frame_too_large n m), drop_worker (tick q))
  unfolding attempts round
  attempts-oversized zero attempt s asks c a f = absurd (omega arith)
  attempts-oversized (suc fuel) attempt s (held h same) c a f =
      rw (h, same, ask-oversized attempt, attempts) refl
  attempts-oversized (suc fuel) attempt s (fresh h e same) c a f =
      rw (h, e, same, ask-oversized attempt, attempts) refl
  attempts-oversized (suc fuel) attempt s (later {s' = s'} e asks) c a f =
      let h : Ends config w request attempt s (again s') =
        rw e at (round-Ends config w request attempt s c) in
      rw (e, attempts)
        (attempts-oversized fuel (attempt + 1) s' asks (λ _. h.4) (omega arith) (omega arith))

-- A frame past the limit that answers a request is final, in the first round or a later one, from a worker
-- that was held or has just started: the call, begun in a consistent state, returns that error at once. It
-- drops the worker, and makes no other interaction and no other sleep, whatever attempts are left.
pub oversized_is_final :
    (config : WorkerConfig) (w : World) (request : KernelRequest) (s q : State) (n m : ℕ)
    → IsConsistent s
    → Asks config w request q 0 s
    → timed_result config w request q.clock ≡ err (frame_too_large n m)
    → EndsOversized config w request s q n m
unfolding evaluate_with_restart drop_worker
oversized_is_final config w request s q n m c asks large = record {
  last = drop_worker (tick q);
  ended =
      attempts-oversized config w request q n m large (suc config.restart_limit) 0 s asks c
        (omega arith) (omega arith);
  no_worker = refl;
  no_process = refl;
  no_interaction = refl;
  no_sleep = refl;
}
