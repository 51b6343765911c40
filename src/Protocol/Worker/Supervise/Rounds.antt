-- ===== src/Protocol/Worker/Supervise/Rounds.antt =====
-- One round of the restart loop: what it may return, what it costs, and the invariant.
use rationale.Prelude.{
  ℕ, ◌+◌, ◌≤◌, ◌<◌, ◌≡◌, refl, true, false, length, arith, ◌⊎◌, inl, inr, Bool-cases,
}
use rationale.Result.{Result, ok, err}
use rationale.Model.{KernelRequest}
use rationale.Protocol.Worker.Config.{Reason, frame_too_large, WorkerConfig}
use rationale.Protocol.Worker.Exchange.{WorkerMessage, result, ready, failure}
use rationale.Protocol.Worker.Supervise.{
  World, State, Started, started, unavailable, Round, returns, again, greet, start, tick, sleep,
  retry_or, settle, timed_result, ask, round,
}

-- With no worker the published process identifier is 0.
abbrev pub IsConsistent : State → Type 0
IsConsistent s = s.worker ≡ false → s.process_id ≡ 0

-- The state behind an interaction: the clock went up by one, nothing slept, no worker was gained.
abbrev After : State → State → Type 0
After s s' = (s'.clock ≡ s.clock + 1) × (s'.sleeps ≡ s.sleeps) × (s'.worker ≡ s.worker)

abbrev StartedOk : State → Started → Type 0
StartedOk s (started s') = After s s'
StartedOk s (unavailable e s') = After s s' × (s.process_id ≡ 0 → s'.process_id ≡ 0)

greet-StartedOk :
    (r : Result WorkerMessage Reason) (s s' : State) → After s s' → StartedOk s (greet r s')
unfolding greet
greet-StartedOk (ok (ready v)) s s' h = ground arith
greet-StartedOk (ok (result m)) s s' h = ground arith
greet-StartedOk (ok (failure m)) s s' h = ground arith
greet-StartedOk (err e) s s' h = ground arith

start-StartedOk : (config : WorkerConfig) (w : World) (s : State) → StartedOk s (start config w s)
unfolding start
start-StartedOk config w s = ground arith

Started-cases :
    (x : Started)
    → ((s : State) × (x ≡ started s)) ⊎ ((e : Reason) × (s : State) × (x ≡ unavailable e s))
Started-cases (started s) = inl (s, refl)
Started-cases (unavailable e s) = inr (e, s, refl)

-- How a round may end. A response is the worker's answer to this request in the last interaction,
-- and the worker stays; an error needs the attempts used up unless it is final; another round needs
-- an attempt left, and has slept once.
abbrev pub Ends : WorkerConfig → World → KernelRequest → ℕ → State → Round → Type 0
Ends config w request attempt s (returns (ok response) s') =
    (k : ℕ) × (s.clock ≤ k)
    × (k < s'.clock)
    × (timed_result config w request k ≡ ok (result response))
    × (s'.worker ≡ true)
    × (s'.clock ≤ s.clock + 2)
    × (s'.sleeps ≡ s.sleeps)
Ends config w request attempt s (returns (err e) s') =
    (s.clock < s'.clock) × (s'.clock ≤ s.clock + 2) × (s'.sleeps ≡ s.sleeps) × IsConsistent s'
Ends config w request attempt s (again s') =
    (attempt < config.restart_limit)
    × (s.clock < s'.clock)
    × (s'.clock ≤ s.clock + 2)
    × (length s'.sleeps ≡ length s.sleeps + 1)
    × (s'.process_id ≡ 0)
    × (s'.worker ≡ false)

module _ (config : WorkerConfig) (w : World) (request : KernelRequest) (attempt : ℕ) where
  -- The end of a round that began at `s` and asked in interaction `k`.
  settle-Ends :
      (s s' : State) (k : ℕ) (r : Result WorkerMessage Reason)
      → timed_result config w request k ≡ r
      → s'.clock ≡ k + 1
      → s.clock ≤ k
      → k ≤ s.clock + 1
      → s'.sleeps ≡ s.sleeps
      → s'.worker ≡ true
      → Ends config w request attempt s (settle config attempt r s')
  unfolding settle
  settle-Ends s s' k (ok (result response)) e c l u sl wk =
      (k, l, omega arith, e, wk, omega arith, sl)
  settle-Ends s s' k (ok (failure message)) e c l u sl wk = ground arith
  settle-Ends s s' k (ok (ready version)) e c l u sl wk = ground arith
  settle-Ends s s' k (err (frame_too_large n m)) e c l u sl wk = ground arith
  settle-Ends s s' k (err _) e c l u sl wk = ground arith

  pub round-Ends :
      (s : State)
      → IsConsistent s
      → Ends config w request attempt s (round config w request attempt s)
  unfolding round ask
  round-Ends s c = elim (Bool-cases s.worker) [
    | inl held ↦
        rw (held, round)
          (settle-Ends s (tick s) s.clock _ refl refl (omega arith) (omega arith) refl held)
    | inr none_held ↦ elim (Started-cases (start config w s)) [
      | inl (s', e) ↦
          let a : StartedOk s (started s') = rw e at (start-StartedOk config w s) in
          rw (none_held, round, e)
            (settle-Ends s (tick (record s' { worker = true })) s'.clock _ refl refl (omega arith)
              (omega arith) a.1 refl)
      | inr (r, s', e) ↦
          let a : StartedOk s (unavailable r s') = rw e at (start-StartedOk config w s) in
          rw (none_held, round, e) (unfold retry_or sleep in ground arith)
    ]
  ]
