-- ===== src/Protocol/Worker/Config.antt =====
-- crates/rationale-protocol/src/worker.rs: the configuration and the reasons for unavailability.
use rationale.Prelude.{ℕ, ◌-◌, ◌^◌, Bool, Option, none, some, ◌++◌, ◌||◌, ltb, ◌==◌, if◌then◌else◌}
use rationale.Result.{Result, ok, err}
use rationale.Text.{Text, codes}
use rationale.Text.Decimal.{print}

-- `ProofUnavailableReason`. `ProofUnavailable` is a record of this one field.
pub data Reason : Type 0 where
  worker_not_found worker_discovery_failed invalid_configuration start_failed : Text → Reason
  handshake_failed crashed protocol_violation : Text → Reason
  timed_out supervisor_stopped : Reason
  -- length, limit
  frame_too_large : ℕ → ℕ → Reason

-- What the operating system or a library answers: a value, or the text of its error.
pub data Outside {ℓ} (A : Type ℓ) : Type ℓ where
  got : A → Outside A
  fault : Text → Outside A

-- The `Display` of `ProofUnavailableReason`, and of `ProofUnavailable`.
pub display_reason : Reason → Text
display_reason (worker_not_found path) = codes "worker executable not found at " ++ path
display_reason (worker_discovery_failed detail) = codes "worker discovery failed: " ++ detail
display_reason (invalid_configuration detail) = codes "invalid worker configuration: " ++ detail
display_reason (start_failed detail) = codes "worker startup failed: " ++ detail
display_reason (handshake_failed detail) = codes "worker handshake failed: " ++ detail
display_reason timed_out = codes "worker request timed out"
display_reason (crashed detail) = codes "worker crashed or disconnected: " ++ detail
display_reason (protocol_violation detail) = codes "worker protocol violation: " ++ detail
display_reason (frame_too_large length limit) =
    codes "worker frame length " ++ print length ++ codes " exceeds limit " ++ print limit
display_reason supervisor_stopped = codes "worker supervisor stopped"

pub display : Reason → Text
display reason = codes "proof unavailable: " ++ display_reason reason

-- Durations are in nanoseconds. `restart_limit` is an 8-bit word.
pub record WorkerConfig : Type 0 where
  pub worker_path : Text
  pub request_timeout : ℕ
  pub max_payload : ℕ
  pub restart_limit : ℕ
  pub restart_backoff : ℕ
  pub queue_capacity : ℕ

abbrev pub default_max_payload : ℕ
default_max_payload = 8388608

abbrev pub default_queue_capacity : ℕ
default_queue_capacity = 64

-- `WorkerConfig::new`
unfoldable pub new : Text → WorkerConfig
new worker_path = record {
  worker_path = worker_path;
  request_timeout = 2_000_000_000;
  max_payload = default_max_payload;
  restart_limit = 1;
  restart_backoff = 25_000_000;
  queue_capacity = default_queue_capacity;
}

-- `worker_file_name`, where the platform is not Windows.
abbrev pub worker_file_name : Text
worker_file_name = codes "rationale-kernel-worker"

-- `WorkerConfig::discover`. The environment is given: the variable `RATIONALE_KERNEL_WORKER`, the
-- test for a file, the path of the host binary or the error of asking for it, and, of a path, its
-- parent joined with a file name (`.` where there is no parent).
unfoldable pub discover :
    Option Text → (Text → Bool) → Outside Text → (Text → Text → Text) → Result WorkerConfig Reason
unfolding new
discover (some path) is_file current_exe beside =
    if is_file path then ok (new path) else err (worker_not_found path)
discover none is_file (fault e) beside = err (worker_discovery_failed e)
discover none is_file (got executable) beside =
    let path = beside executable worker_file_name in
    if is_file path then ok (new path) else err (worker_not_found path)

-- `with_request_timeout`, `with_max_payload`, `with_restart_policy`
pub with_request_timeout : ℕ → WorkerConfig → WorkerConfig
with_request_timeout timeout c = record c { request_timeout = timeout }

pub with_max_payload : ℕ → WorkerConfig → WorkerConfig
with_max_payload max_payload c = record c { max_payload = max_payload }

pub with_restart_policy : ℕ → ℕ → WorkerConfig → WorkerConfig
with_restart_policy limit backoff c = record c { restart_limit = limit; restart_backoff = backoff }

unfoldable pub validate : WorkerConfig → Result (Unit {0}) Reason
validate c =
    if c.max_payload == 0 || ltb (2 ^ 32 - 1) c.max_payload
    then err (invalid_configuration (codes "maximum payload must fit in a non-zero uint32"))
    else if c.request_timeout == 0
    then err (invalid_configuration (codes "request timeout must be non-zero"))
    else if c.queue_capacity == 0
    then err (invalid_configuration (codes "worker queue capacity must be non-zero"))
    else ok tt
