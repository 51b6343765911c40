-- ===== src/Engine/Github/Tests.antt =====
-- crates/rationale-engine/src/lib.rs at a concrete repository: GitHub contributes a pull request, and
-- fails at the next synchronization.
use rationale.Prelude.{◌≡◌, refl, true, false, Option, none, some, List, [], ◌∷◌, arith}
use rationale.Prelude.Int.{pos}
use rationale.Result.{Result, ok, err}
use rationale.Order.{list_ord, nat_ord, pair_ord}
use rationale.Text.{Text, codes}
use rationale.Model.{NodeKind, RecordStatus, SourceKind, EvidenceNode}
use rationale.Git.{CommitEvidence, CommitHistory}
use rationale.Docs.{IngestResult}
use rationale.Github.{client_configuration, GithubSyncOutcome, updated}
use rationale.Github.Client.{Failure, failed}
use rationale.Store.Types.{Freshness, Db}
use rationale.Store.Session.Closed.{empty_db}
use rationale.Engine.Evidence.Closure.{IsConsistent, prepare_evidence-IsConsistent}
use rationale.Engine.Types.{SyncReport, Services}
use rationale.Engine.Sync.Inserts.{TextsDiffer}
use rationale.Engine.Sync.Ready.{IsReady, empty_db-IsReady}
use rationale.Engine.Sync.Encoding.{edge_code, edge_code-cancel}
use rationale.Engine.Github.{
  LocalSync, prepare_local_sync, PriorGithubContribution, prior_github_contribution, Ended,
  returned, sync_with_github_client,
}
use rationale.Engine.Github.Settled.{Settles, sync_with_github_client-Settles, Settles-IsReady}
use rationale.Engine.Github.Outage.{Retains, outage-Retains}

abbrev record_of : NodeKind → SourceKind → Text → EvidenceNode
record_of kind source id = record {
  id = id;
  kind = kind;
  status = RecordStatus.current;
  subject_id = none;
  outcome_id = none;
  origin = record { source_kind = source; locator = []; revision = none; observed_at = none };
}

abbrev pull_request : EvidenceNode
pull_request = record_of NodeKind.review SourceKind.github (codes "p")

abbrev read_record : Text → Option EvidenceNode
read_record [] = none
read_record (c ∷ id) = some (elim (Prim.Native.Nat.compare c b'p') [
  | Prim.Native.Nat.Ordering.eq ↦ pull_request
  | _ ↦ record_of NodeKind.change SourceKind.git (c ∷ id)
])

abbrev services : Services
services = record {
  library = record { hash_hex = λ t. t; timestamp_text = λ s. none };
  json = record {
    node_text = λ n. some n.id;
    edge_text = λ e. some (edge_code e);
    conflict_text = λ k. some k.rule_id;
    origin_text = λ o. some o.locator;
    read_node = read_record;
    read_edge = λ t. none;
    read_conflict = λ t. none;
    read_origin = λ t. none;
  };
  node_json = λ n. n.id;
  edge_json = λ e. e.id;
  conflict_json = λ k. k.rule_id;
  source_kind_json = λ k. [];
  encode_cursor = λ c. some (codes "e");
  now = codes "t";
}

services-TextsDiffer : TextsDiffer services.json
services-TextsDiffer e f t h k = edge_code-cancel e f (ground (arith))

abbrev commit : Text → CommitEvidence
commit id = record { id = id; summary = []; committed_at = pos 0; parent_ids = []; references = [] }

abbrev history : List CommitEvidence → CommitHistory
history commits = record { commits = commits; complete = true }

abbrev no_documents : IngestResult
no_documents = record { records = []; edges = []; conflicts = []; diagnostics = [] }

abbrev local_at : List CommitEvidence → LocalSync
local_at commits = prepare_local_sync services.library (history commits) no_documents [] (codes "i")

local_at-IsConsistent : (commits : List CommitEvidence) → IsConsistent (local_at commits).evidence
unfolding prepare_local_sync
local_at-IsConsistent commits =
    prepare_evidence-IsConsistent services.library commits no_documents []

abbrev slug : Text
slug = codes "github:o/r"

abbrev answers : Option Text → Result GithubSyncOutcome Failure
answers cursor = ok (
    updated (record {
      records = pull_request ∷ [];
      edges = [];
      cursor = record { issues_etag = none };
      rate_limit = record { limit = none; remaining = none; reset_at = none };
    }))

abbrev fails : Option Text → Result GithubSyncOutcome Failure
fails cursor = err (failed client_configuration)

abbrev first : Ended × Db
first = sync_with_github_client services slug (local_at (commit (codes "f") ∷ [])) answers empty_db

-- One more commit, and no answer from GitHub.
abbrev later : LocalSync
later = local_at (commit (codes "g") ∷ commit (codes "f") ∷ [])

abbrev second : Ended × Db
second = sync_with_github_client services slug later fails first.1

sync_with_github_client-Settles_example : Settles services slug answers empty_db first
sync_with_github_client-Settles_example =
    sync_with_github_client-Settles services slug (local_at (commit (codes "f") ∷ [])) answers
      empty_db services-TextsDiffer (local_at-IsConsistent (commit (codes "f") ∷ []))
      (empty_db-IsReady services.json)

first-IsReady : IsReady services.json first.1
first-IsReady =
    Settles-IsReady services slug answers empty_db first (empty_db-IsReady services.json)
      sync_with_github_client-Settles_example

abbrev contributed : PriorGithubContribution
contributed = record {
  records = pull_request ∷ [];
  edges = [];
  source = some (record {
    source_id = slug;
    source_kind = SourceKind.github;
    freshness = Freshness.fresh;
    observed_at = codes "t";
    cursor = some (codes "e");
  });
}

abbrev or_report : Ended → SyncReport → SyncReport
or_report (returned (ok r)) other = r
or_report _ other = other

abbrev no_report : SyncReport
no_report = record {
  snapshot_id = [];
  unchanged = true;
  records = 0;
  edges = 0;
  conflicts = 0;
  quarantined = 0;
  history_complete = true;
  stale_sources = [];
  github_rate_limit = none;
}

abbrev reported : SyncReport
reported = or_report second.0 no_report

runs :
    (prior_github_contribution services slug first.1 ≡ ok contributed)
    × (second ≡ (returned (ok reported), second.1))
    × (reported.unchanged ≡ false)
unfolding sync_with_github_client rationale.Store.Candidate.begin_candidate
    rationale.Map.contains_key rationale.Map.get rationale.Map.or_insert prepare_local_sync
    rationale.Map.insert rationale.Store.Candidate.insert_record rationale.Sort.sort_by
    rationale.Store.Publish.publish rationale.Store.Publish.validate_candidate
    rationale.Store.Publish.members rationale.Store.Candidate.set_source_state
    rationale.Store.Publish.publish_rows rationale.Set.add rationale.Store.Candidate.quarantine
runs = (refl, refl, refl)

outage-Retains_example : Retains slug later.evidence contributed reported second.1
outage-Retains_example =
    outage-Retains services slug later fails first.1 second.1 contributed client_configuration
      reported services-TextsDiffer
      (local_at-IsConsistent (commit (codes "g") ∷ commit (codes "f") ∷ [])) first-IsReady runs.0
      refl runs.1 runs.2
