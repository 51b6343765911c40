-- ===== src/Engine/Sync.antt =====
-- crates/rationale-engine/src/lib.rs: `publish_evidence`, which stores prepared evidence as a new
-- snapshot unless it is the current one, and the two synchronizations that call it. The database
-- is passed along; its answer comes with the database afterwards.
pub mod Inserts
pub mod Steps
pub mod Links
pub mod Conflicts
pub mod Loops
pub mod Ready
pub mod Staged
pub mod Filled
pub mod Outcome
pub mod Refusal
pub mod Encoding
mod Tests
use rationale.Prelude.{
  ℕ, Bool, true, false, ◌||◌, ◌&&◌, Option, none, some, List, [], ◌∷◌, ◌++◌, map, keep, length,
  if◌then◌else◌,
}
use rationale.Result.{Result, ok, err, ◌>>=◌}
use rationale.Order.{list_ord, nat_ord, pair_ord, list_cmp, is_le}
use rationale.Sort.{sort_by}
use rationale.Map.{values}
use rationale.Text.{Text, codes, text_eq}
use rationale.Model.{SourceKind, EvidenceNode, EvidenceEdge, Conflict}
use rationale.Docs.{IngestDiagnostic, diagnostic_le, conflict_le}
use rationale.Github.{RateLimit, GithubSyncOutcome, updated, not_modified, invalid_cursor}
use rationale.Store.Types.{
  StoreError, CandidateMetadata, SourceState, Freshness, QuarantineDiagnostic, GraphSlice, Db,
}
use rationale.Store.Candidate.{
  CandidateSnapshot, begin_candidate, insert_record, insert_edge, insert_conflict, set_source_state,
  quarantine, key_of,
}
use rationale.Store.Publish.{publish}
use rationale.Store.Read.{current_snapshot_id, load_current_slice}
use rationale.Engine.Evidence.{PreparedEvidence, merge_github_evidence}
use rationale.Engine.Types.{EngineError, store, github, GithubRateLimitView, SyncReport, Services}

-- The three sorts at the start of `publish_evidence`.
abbrev pub source_le : SourceState → SourceState → Bool
source_le a b = is_le (list_cmp a.source_id b.source_id)

unfoldable pub sort_evidence : PreparedEvidence → PreparedEvidence
sort_evidence evidence = record evidence {
  diagnostics = sort_by diagnostic_le evidence.diagnostics;
  conflicts = sort_by conflict_le evidence.conflicts;
}

-- The hasher's input: one text for each value, in order.
pub concat_map {ℓ} : {A : Type ℓ} → (A → Text) → List A → Text
concat_map f [] = []
concat_map f (x ∷ xs) = f x ++ concat_map f xs

-- What ends each field in the hasher's input.
abbrev pub ended : Text → Text
ended t = t ++ 0 ∷ []

pub diagnostic_material : IngestDiagnostic → Text
diagnostic_material d = ended d.source_locator ++ ended d.code ++ ended d.message

abbrev pub freshness_text : Freshness → Text
freshness_text Freshness.fresh = codes "fresh"
freshness_text Freshness.stale = codes "stale"

abbrev pub cursor_text : Option Text → Text
cursor_text none = []
cursor_text (some cursor) = cursor

pub source_material : Services → SourceState → Text
source_material w source =
    ended source.source_id
    ++ ended (w.source_kind_json source.source_kind)
    ++ ended (freshness_text source.freshness)
    ++ ended (cursor_text source.cursor)

pub evidence_snapshot_id : Services → PreparedEvidence → List SourceState → Text
unfolding concat_map diagnostic_material source_material
evidence_snapshot_id w evidence sources =
    codes "snapshot:"
    ++ w.library.hash_hex (
        ended (codes "rationale-evidence-snapshot-v2")
        ++ concat_map (λ r. ended (w.node_json r)) (values evidence.records)
        ++ concat_map (λ e. ended (w.edge_json e)) (values evidence.edges)
        ++ concat_map (λ k. ended (w.conflict_json k)) evidence.conflicts
        ++ concat_map diagnostic_material evidence.diagnostics
        ++ concat_map (source_material w) sources)

abbrev pub is_stale : SourceState → Bool
is_stale source = elim source.freshness [ Freshness.fresh ↦ false | Freshness.stale ↦ true ]

-- `for x in xs { f(x)?; }`
unfoldable pub for_each {ℓ} :
    {A : Type ℓ}
    → (A → CandidateSnapshot → Result CandidateSnapshot StoreError)
    → List A
    → CandidateSnapshot
    → Result CandidateSnapshot StoreError
for_each f [] c = ok c
for_each f (x ∷ xs) c = f x c >>= for_each f xs

unfoldable pub set_source_states : List SourceState → CandidateSnapshot → CandidateSnapshot
set_source_states [] c = c
set_source_states (source ∷ rest) c = set_source_states rest (set_source_state source c)

abbrev pub quarantine_of : IngestDiagnostic → QuarantineDiagnostic
quarantine_of d = record { source_locator = d.source_locator; code = d.code; message = d.message }

unfoldable pub quarantine_all : List IngestDiagnostic → CandidateSnapshot → CandidateSnapshot
quarantine_all [] c = c
quarantine_all (d ∷ ds) c = quarantine_all ds (quarantine (quarantine_of d) c)

-- The loops over records, edges and conflicts.
unfoldable pub fill :
    Services → PreparedEvidence → CandidateSnapshot → Result CandidateSnapshot StoreError
unfolding for_each
fill w evidence begun = do
  recorded ← for_each (insert_record w.json) (values evidence.records) begun
  linked ← for_each (insert_edge w.json) (values evidence.edges) recorded
  for_each (insert_conflict w.json) evidence.conflicts linked

-- The candidate that `publish_evidence` fills, before it is published.
unfoldable pub stage :
    Services → Text → PreparedEvidence → List SourceState → Db → Result CandidateSnapshot StoreError
unfolding fill set_source_states quarantine_all
stage w id evidence sources db = do
  begun ← begin_candidate db (record { id = id; created_at = w.now })
  filled ← fill w evidence begun
  ok (quarantine_all evidence.diagnostics (set_source_states sources filled))

unfoldable pub report :
    Text
    → PreparedEvidence
    → List SourceState
    → Bool
    → Option GithubRateLimitView
    → Bool
    → SyncReport
report id evidence sources history_complete rate unchanged = record {
  snapshot_id = id;
  unchanged = unchanged;
  records = length evidence.records;
  edges = length evidence.edges;
  conflicts = length evidence.conflicts;
  quarantined = length evidence.diagnostics;
  history_complete = history_complete;
  stale_sources = map (λ source. source.source_id) (keep is_stale sources);
  github_rate_limit = rate;
}

abbrev pub is_current : Text → Db → Bool
is_current id db = elim (current_snapshot_id db) [ none ↦ false | some s ↦ text_eq s id ]

-- `candidate.publish(&now)?; Ok(report(false))`
pub finish : SyncReport → Result (Unit {0}) StoreError × Db → Result SyncReport EngineError × Db
finish changed (err e, db) = (err (store e), db)
finish changed (ok done, db) = (ok changed, db)

-- The part of `publish_evidence` behind the sorts and the identifier.
unfoldable pub publish_staged :
    Services
    → SyncReport
    → SyncReport
    → Text
    → PreparedEvidence
    → List SourceState
    → Db
    → Result SyncReport EngineError × Db
unfolding stage finish
publish_staged w same changed id evidence sources db =
    if is_current id db then (ok same, db) else (elim (stage w id evidence sources db) [
      | err e ↦ (err (store e), db)
      | ok c ↦ finish changed (publish w.now c)
    ])

unfoldable pub publish_evidence :
    Services
    → PreparedEvidence
    → List SourceState
    → Bool
    → Option GithubRateLimitView
    → Db
    → Result SyncReport EngineError × Db
unfolding publish_staged sort_evidence evidence_snapshot_id report
publish_evidence w evidence sources history_complete rate db =
    let sorted = sort_evidence evidence in
    let states = sort_by source_le sources in
    let id = evidence_snapshot_id w sorted states in
    publish_staged w (report id sorted states history_complete rate true)
      (report id sorted states history_complete rate false) id sorted states db
