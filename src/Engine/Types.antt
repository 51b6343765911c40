-- ===== src/Engine/Types.antt =====
-- crates/rationale-engine/src/lib.rs: the errors, the views of an answer, and the functions of
-- libraries that the engine calls.
use rationale.Prelude.{ℕ, Bool, Option, List}
use rationale.Prelude.Int.{ℤ}
use rationale.Text.{Text}
use rationale.Model.{SourceKind, EvidenceNode, EvidenceEdge, Conflict, KernelResponse}
use rationale.Git.{GitEvidenceError}
use rationale.Github.{GithubError, GithubCursor}
use rationale.Store.Types.{StoreError, Json}
use rationale.Protocol.Worker.Config.{Reason}
use rationale.Engine.Evidence.{Library}
use rationale.Engine.Candidate.{CandidateView}

pub data EngineError : Type 0 where
  git : GitEvidenceError → EngineError
  github : GithubError → EngineError
  store : StoreError → EngineError
  io : Text → EngineError
  proof_unavailable : Reason → EngineError
  no_snapshot : EngineError
  invalid_query : Text → EngineError
  scan_limit : ℕ → EngineError

pub record GithubRateLimitView : Type 0 where
  pub limit : Option ℕ
  pub remaining : Option ℕ
  pub reset_at : Option ℤ

pub record SyncReport : Type 0 where
  pub snapshot_id : Text
  pub unchanged : Bool
  pub records : ℕ
  pub edges : ℕ
  pub conflicts : ℕ
  pub quarantined : ℕ
  pub history_complete : Bool
  pub stale_sources : List Text
  pub github_rate_limit : Option GithubRateLimitView

pub record FreshnessView : Type 0 where
  pub source_id : Text
  pub source_kind : SourceKind
  pub freshness : Text
  pub observed_at : Text

pub record WhyResult : Type 0 where
  pub target : Text
  pub response : KernelResponse
  pub candidates : List CandidateView
  pub freshness : List FreshnessView

pub record ChangedGap : Type 0 where
  pub path : Text
  pub code : Text

-- What `serde_json` and `jiff` answer: the JSON texts of values, `GitHubCursor::encode`, and the
-- current time. `json` is the store's own encoding.
pub record Services : Type 0 where
  pub library : Library
  pub json : Json
  pub node_json : EvidenceNode → Text
  pub edge_json : EvidenceEdge → Text
  pub conflict_json : Conflict → Text
  pub source_kind_json : SourceKind → Text
  pub encode_cursor : GithubCursor → Option Text
  pub now : Text
