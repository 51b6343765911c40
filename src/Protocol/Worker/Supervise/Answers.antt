-- ===== src/Protocol/Worker/Supervise/Answers.antt =====
-- The restart loop as a whole: it ends, within its budget, and never makes up an answer.
use rationale.Prelude.{
  ℕ, zero, suc, ◌+◌, ◌*◌, ◌≤◌, ◌<◌, ◌≡◌, refl, true, ap, some, List, [], ◌∷◌, length, arith, ◌⊎◌,
  inl, if◌then◌else◌, inr,
}
use rationale.Result.{Result, ok, err}
use rationale.Protocol.Worker.Config.{Reason}
use rationale.Model.{KernelRequest, KernelResponse, protocol_version}
use rationale.Protocol.Worker.Config.{WorkerConfig}
use rationale.Protocol.Worker.Exchange.{result, ready, within, hello, timed_exchange}
use rationale.Protocol.Worker.Supervise.{
  World, State, Round, returns, again, timed_result, round, attempts, started,
  evaluate_with_restart, run_supervisor, terminate, start, greet,
}
use rationale.Protocol.Worker.Supervise.Rounds.{IsConsistent, Ends, round-Ends}

-- A response is what the worker answered to this request, in an interaction of this call.
abbrev pub Answered :
    WorkerConfig → World → KernelRequest → State → Result KernelResponse Reason → State → Type 0
Answered config w request s (ok response) s' =
    (k : ℕ) × (s.clock ≤ k)
    × (k < s'.clock)
    × (timed_result config w request k ≡ ok (result response))
    × (s'.worker ≡ true)
Answered config w request s (err e) s' = Unit

-- The outcome of a call that began at `s` with `fuel` rounds.
pub record IsOutcome (config : WorkerConfig) (w : World) (request : KernelRequest)
    (rounds attempt : ℕ) (s : State) (r : Result KernelResponse Reason) (s' : State) : Type 0 where
  pub answered : Answered config w request s r s'
  pub moved : s.clock < s'.clock
  pub bounded : s'.clock ≤ s.clock + 2 * rounds
  pub rested : length s'.sleeps + attempt ≤ length s.sleeps + config.restart_limit
  pub consistent : IsConsistent s'

Round-cases :
    (x : Round)
    → ((r : Result KernelResponse Reason) × (s : State) × (x ≡ returns r s))
      ⊎ ((s : State) × (x ≡ again s))
Round-cases (returns r s) = inl (r, s, refl)
Round-cases (again s) = inr (s, refl)

module _ (config : WorkerConfig) (w : World) (request : KernelRequest) where
  returns-IsOutcome :
      (rounds attempt : ℕ) (s s' : State) (r : Result KernelResponse Reason)
      → attempt ≤ config.restart_limit
      → Ends config w request attempt s (returns r s')
      → IsOutcome config w request (suc rounds) attempt s r s'
  returns-IsOutcome rounds attempt s s' (ok response) a h = record {
    answered = (h.0, h.1, h.2, h.3, h.4);
    moved = omega arith;
    bounded = omega arith;
    rested = omega (arith, ap length h.6);
    consistent = λ e. cc;
  }
  returns-IsOutcome rounds attempt s s' (err e) a h = record {
    answered = tt;
    moved = h.0;
    bounded = omega arith;
    rested = omega (arith, ap length h.2);
    consistent = h.3;
  }

  later-IsOutcome :
      (rounds attempt : ℕ) (s s' s'' : State) (r : Result KernelResponse Reason)
      → Ends config w request attempt s (again s')
      → IsOutcome config w request rounds (attempt + 1) s' r s''
      → IsOutcome config w request (suc rounds) attempt s r s''
  later-IsOutcome rounds attempt s s' s'' r h o = record {
    answered = later_answer r o.answered;
    moved = omega arith;
    bounded = omega arith;
    rested = omega arith;
    consistent = o.consistent;
  }
    where
      later_answer :
          (r : Result KernelResponse Reason)
          → Answered config w request s' r s''
          → Answered config w request s r s''
      later_answer (ok response) g = (g.0, omega arith, g.2, g.3, g.4)
      later_answer (err e) g = tt

  attempts-IsOutcome :
      (fuel attempt : ℕ) (s : State)
      → IsConsistent s
      → attempt ≤ config.restart_limit
      → config.restart_limit < attempt + fuel
      → (r : Result KernelResponse Reason) × (s' : State) × (attempts config w request fuel attempt
            s
          ≡ some (r, s'))
        × IsOutcome config w request fuel attempt s r s'
  unfolding attempts
  attempts-IsOutcome zero attempt s c a f = absurd (omega arith)
  attempts-IsOutcome (suc fuel) attempt s c a f =
      elim (Round-cases (round config w request attempt s)) [
        | inl (r, s', e) ↦ (
          r,
          s',
          rw (e, attempts),
          returns-IsOutcome fuel attempt s s' r a
              (rw e at (round-Ends config w request attempt s c)),
        )
        | inr (s', e) ↦
            let h : Ends config w request attempt s (again s') =
              rw e at (round-Ends config w request attempt s c) in
            let (r, s'', p, o) =
              attempts-IsOutcome fuel (attempt + 1) s' (λ _. h.4) (omega arith) (omega arith) in
            (r, s'', rw (e, attempts) p, later-IsOutcome fuel attempt s s' s'' r h o)
      ]

  -- From a consistent state a request ends: with a response only if the worker gave exactly that
  -- response to this request in one of the call's interactions, after at most two interactions for
  -- each of `restart_limit + 1` rounds and at most `restart_limit` sleeps, in a consistent state.
  pub evaluate_with_restart-IsOutcome :
      (s : State)
      → IsConsistent s
      → (r : Result KernelResponse Reason) × (s' : State) × (evaluate_with_restart config w request
            s
          ≡ some (r, s'))
        × IsOutcome config w request (suc config.restart_limit) 0 s r s'
  unfolding evaluate_with_restart
  evaluate_with_restart-IsOutcome s c =
      attempts-IsOutcome (suc config.restart_limit) 0 s c (omega arith) (omega arith)

-- The answers to a list of requests, one to each, with the states between them.
pub data Serves (config : WorkerConfig) (w : World)
    : List KernelRequest → State → List (Result KernelResponse Reason) → State → Type 0 where
  done : {s : State} → Serves config w [] s [] s
  next :
      {request : KernelRequest} {rest : List KernelRequest} {s s' s'' : State}
      {r : Result KernelResponse Reason} {rs : List (Result KernelResponse Reason)}
      → IsOutcome config w request (suc config.restart_limit) 0 s r s'
      → Serves config w rest s' rs s''
      → Serves config w (request ∷ rest) s (r ∷ rs) s''

-- The supervisor answers every request, in order and each as `IsOutcome` says, and when the queue
-- closes no process identifier is left behind.
pub run_supervisor-Serves :
    (config : WorkerConfig) (w : World) (requests : List KernelRequest) (s : State)
    → IsConsistent s
    → (rs : List (Result KernelResponse Reason)) × (s' : State) × (s'' : State) × (run_supervisor
          config w requests s
        ≡ some (rs, s''))
      × Serves config w requests s rs s'
      × (s''.process_id ≡ 0)
unfolding run_supervisor terminate
run_supervisor-Serves config w [] s c =
    ([], s, if s.worker then terminate s else s, refl, Serves.done, ground arith)
run_supervisor-Serves config w (request ∷ rest) s c =
    let (r, s', e, o) = evaluate_with_restart-IsOutcome config w request s c in
    let (rs, s'', s3, p, v, z) = run_supervisor-Serves config w rest s' o.consistent in
    (r ∷ rs, s'', s3, rw (e, run_supervisor, p) refl, Serves.next o v, z)

-- A worker is accepted only behind a handshake in time that reports this protocol's version.
started_version :
    (config : WorkerConfig) (w : World) (s s' : State)
    → start config w s ≡ started s'
    → timed_exchange w.codec config (w.pipe s.clock) (hello protocol_version)
      ≡ within (ok (ready protocol_version))
unfolding start greet
started_version config w s s' e = ground arith
