-- ===== src/Engine/Github.antt =====
-- crates/rationale-engine/src/lib.rs: `sync_local` and `sync_with_github_client`. The client is a
-- function of the stored cursor that may panic, as `Github/Client` does; the repository's history and documents come prepared.
pub mod Retained
pub mod Settled
pub mod Outage
mod Tests
use rationale.Prelude.{
  ℕ, Bool, true, false, Option, none, some, List, [], ◌∷◌, ◌++◌, keep, if◌then◌else◌,
}
use rationale.Result.{Result, ok, err}
use rationale.Text.{Text, codes, text_eq}
use rationale.Model.{SourceKind, EvidenceNode, EvidenceEdge}
use rationale.Git.{CommitEvidence, CommitHistory}
use rationale.Docs.{IngestDiagnostic, IngestResult}
use rationale.Github.{
  GithubError, RateLimit, GithubCursor, GithubSyncOutcome, updated, not_modified, invalid_cursor,
}
use rationale.Github.Client.{Failure, failed, panicked}
use rationale.Store.Types.{StoreError, SourceState, Freshness, SliceLimits, GraphSlice, Db}
use rationale.Store.Read.{load_current_slice}
use rationale.Engine.Evidence.{PreparedEvidence, Library, prepare_evidence, merge_github_evidence}
use rationale.Engine.Types.{EngineError, store, github, GithubRateLimitView, SyncReport, Services}
use rationale.Engine.Sync.{publish_evidence}

pub record LocalSync : Type 0 where
  pub evidence : PreparedEvidence
  pub history_complete : Bool
  pub head : Text
  pub documents_cursor : Text

abbrev head_of : List CommitEvidence → Text
head_of [] = []
head_of (commit ∷ commits) = commit.id

-- `prepare_local_sync`, of the history, the ingested documents, the diagnostics of their collection and
-- the identifier of these inputs.
unfoldable pub prepare_local_sync :
    Library → CommitHistory → IngestResult → List IngestDiagnostic → Text → LocalSync
unfolding prepare_evidence
prepare_local_sync lib history ingested diagnostics inputs_id = record {
  evidence = prepare_evidence lib history.commits ingested diagnostics;
  history_complete = history.complete;
  head = head_of history.commits;
  documents_cursor = inputs_id;
}

pub local_sources : LocalSync → Text → List SourceState
local_sources local observed_at =
    record {
      source_id = codes "local-git";
      source_kind = SourceKind.git;
      freshness = if local.history_complete then Freshness.fresh else Freshness.stale;
      observed_at = observed_at;
      cursor = some local.head;
    }
    ∷ record {
      source_id = codes "repository-documents";
      source_kind = SourceKind.document;
      freshness = Freshness.fresh;
      observed_at = observed_at;
      cursor = some local.documents_cursor;
    }
    ∷ []

unfoldable pub sync_local : Services → LocalSync → Db → Result SyncReport EngineError × Db
unfolding publish_evidence local_sources
sync_local w local db =
    publish_evidence w local.evidence (local_sources local w.now) local.history_complete none db

pub record PriorGithubContribution : Type 0 where
  pub records : List EvidenceNode
  pub edges : List EvidenceEdge
  pub source : Option SourceState

abbrev pub is_github : SourceKind → Bool
is_github SourceKind.github = true
is_github _ = false

pub find_source : Text → List SourceState → Option SourceState
find_source id [] = none
find_source id (source ∷ rest) =
    if text_eq source.source_id id then some source else find_source id rest

abbrev pub slice_limits : SliceLimits
slice_limits = record { max_nodes = 100000; max_edges = 100000; max_conflicts = 100000 }

-- The contribution of GitHub in the current snapshot.
abbrev pub contribution_of : Text → Option GraphSlice → PriorGithubContribution
contribution_of source_id none = record { records = []; edges = []; source = none }
contribution_of source_id (some slice) = record {
  records = keep (λ node. is_github node.origin.source_kind) slice.nodes;
  edges = keep (λ edge. is_github edge.origin.source_kind) slice.edges;
  source = find_source source_id slice.sources;
}

unfoldable pub prior_github_contribution :
    Services → Text → Db → Result PriorGithubContribution StoreError
unfolding find_source load_current_slice
prior_github_contribution w source_id db = elim (load_current_slice w.json slice_limits db) [
  | err e ↦ err e
  | ok slice ↦ ok (contribution_of source_id slice)
]

abbrev pub cursor_of : Option SourceState → Option Text
cursor_of none = none
cursor_of (some source) = source.cursor

abbrev pub observed_or : Text → Option SourceState → Text
observed_or now none = now
observed_or now (some source) = source.observed_at

-- `RateLimit` as the view of a report.
abbrev pub rate_view : RateLimit → GithubRateLimitView
rate_view value = record {
  limit = value.limit;
  remaining = value.remaining;
  reset_at = value.reset_at;
}

abbrev pub github_source : Text → Freshness → Text → Option Text → SourceState
github_source source_id freshness observed_at cursor = record {
  source_id = source_id;
  source_kind = SourceKind.github;
  freshness = freshness;
  observed_at = observed_at;
  cursor = cursor;
}

abbrev pub unavailable_message : Option SourceState → Text
unavailable_message none =
    codes "GitHub synchronization failed; no prior contribution was available"
unavailable_message (some source) =
    codes "GitHub synchronization failed; retained the last valid contribution"

abbrev pub unavailable : Text → Option SourceState → IngestDiagnostic
unavailable source_id source = record {
  source_locator = source_id;
  code = codes "github_unavailable";
  message = unavailable_message source;
}

-- The evidence, the state of the source and the rate metadata behind the client's answer.
pub record Contribution : Type 0 where
  pub evidence : PreparedEvidence
  pub source : SourceState
  pub rate : Option GithubRateLimitView

abbrev pub encoded_cursor : Services → GithubCursor → Result Text EngineError
encoded_cursor w cursor = elim (w.encode_cursor cursor) [
  | none ↦ err (github invalid_cursor)
  | some text ↦ ok text
]

-- A contribution that was fetched, or found unchanged.
abbrev pub fresh_contribution :
    Services
    → Text
    → PreparedEvidence
    → List EvidenceNode
    → List EvidenceEdge
    → GithubCursor
    → RateLimit
    → Result Contribution EngineError
fresh_contribution w source_id evidence nodes links cursor rate = elim (encoded_cursor w cursor) [
  | err e ↦ err e
  | ok text ↦ ok (record {
    evidence = merge_github_evidence nodes links evidence;
    source = github_source source_id Freshness.fresh w.now (some text);
    rate = some (rate_view rate);
  })
]

-- The last contribution, marked stale.
unfoldable pub stale_contribution :
    Services → Text → PreparedEvidence → PriorGithubContribution → Contribution
unfolding merge_github_evidence
stale_contribution w source_id evidence prior =
    let merged = merge_github_evidence prior.records prior.edges evidence in
    record {
      evidence = record merged {
        diagnostics = merged.diagnostics ++ unavailable source_id prior.source ∷ [];
      };
      source =
          github_source source_id Freshness.stale (observed_or w.now prior.source)
            (cursor_of prior.source);
      rate = none;
    }

-- The `match` on the client's outcome.
unfoldable pub contribute :
    Services
    → Text
    → PreparedEvidence
    → PriorGithubContribution
    → Result GithubSyncOutcome GithubError
    → Result Contribution EngineError
unfolding merge_github_evidence stale_contribution
contribute w source_id evidence prior (ok (updated update)) =
    fresh_contribution w source_id evidence update.records update.edges update.cursor
      update.rate_limit
contribute w source_id evidence prior (ok (not_modified cursor rate)) =
    fresh_contribution w source_id evidence prior.records prior.edges cursor rate
contribute w source_id evidence prior (err e) = ok (stale_contribution w source_id evidence prior)

-- How a synchronization with GitHub ends: it returns, or the client's panic passes through it.
pub data Ended : Type 0 where
  returned : Result SyncReport EngineError → Ended
  interrupted : Ended

-- `sync_with_github_client` behind the client's outcome.
unfoldable pub publish_contribution :
    Services
    → Text
    → LocalSync
    → PriorGithubContribution
    → Result GithubSyncOutcome GithubError
    → Db
    → Result SyncReport EngineError × Db
unfolding contribute publish_evidence local_sources
publish_contribution w source_id local prior outcome db =
    elim (contribute w source_id local.evidence prior outcome) [
      | err e ↦ (err e, db)
      | ok c ↦
          publish_evidence w c.evidence (local_sources local w.now ++ c.source ∷ [])
            local.history_complete c.rate db
    ]

abbrev pub return : Result SyncReport EngineError × Db → Ended × Db
return (r, db) = (returned r, db)

-- `sync_with_github_client`, with the source `github:<slug>` of the repository.
unfoldable pub sync_with_github_client :
    Services → Text → LocalSync → (Option Text → Result GithubSyncOutcome Failure) → Db → Ended × Db
unfolding prior_github_contribution publish_contribution
sync_with_github_client w source_id local client db =
    elim (prior_github_contribution w source_id db) [
      | err e ↦ (returned (err (store e)), db)
      | ok prior ↦ elim (client (cursor_of prior.source)) [
        | ok outcome ↦ return (publish_contribution w source_id local prior (ok outcome) db)
        | err (failed x) ↦ return (publish_contribution w source_id local prior (err x) db)
        | err panicked ↦ (interrupted, db)
      ]
    ]
