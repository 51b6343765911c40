-- ===== src/Engine/Sync/Tests.antt =====
-- crates/rationale-engine/src/lib.rs at concrete evidence: a commit that resolves a story, and the
-- same with a decision more.
use rationale.Prelude.{◌≡◌, ◌≢◌, refl, true, false, none, some, List, [], ◌∷◌, ◌++◌, inl, In, arith}
use rationale.Prelude.Int.{pos}
use rationale.Result.{Result, ok, err}
use rationale.Order.{list_ord, nat_ord, pair_ord}
use rationale.Map.{get, values}
use rationale.Text.{Text, codes}
use rationale.Model.{NodeKind, RecordStatus, SourceKind, EvidenceNode}
use rationale.Git.{ReferenceKind, CommitEvidence}
use rationale.Docs.{IngestResult}
use rationale.Store.Types.{StoreError, database, unique, SourceState, RecordRow, Db}
use rationale.Store.Session.Closed.{empty_db}
use rationale.Engine.Evidence.{PreparedEvidence, prepare_evidence}
use rationale.Engine.Evidence.Closure.{prepare_evidence-IsConsistent, IsConsistent}
use rationale.Engine.Types.{store, SyncReport, EngineError, Services}
use rationale.Engine.Sync.{publish_evidence, is_current}
use rationale.Engine.Sync.Inserts.{IsRefusal, TextsDiffer}
use rationale.Engine.Sync.Ready.{IsReady, empty_db-IsReady, reached-IsReady}
use rationale.Engine.Sync.Encoding.{edge_code, edge_code-cancel}
use rationale.Engine.Sync.Outcome.{
  id_of, Ends, report_of, publish_evidence-Ends, publish_evidence-Reaches,
}
use rationale.Engine.Sync.Refusal.{returned_evidence_refused, changed_record_refused}

abbrev status_text : RecordStatus → Text
status_text RecordStatus.current = codes "c"
status_text RecordStatus.historical = codes "h"

abbrev services : Services
services = record {
  library = record { hash_hex = λ t. t; timestamp_text = λ s. none };
  json = record {
    node_text = λ n. some (n.id ++ status_text n.status);
    edge_text = λ e. some (edge_code e);
    conflict_text = λ k. some k.rule_id;
    origin_text = λ o. some o.locator;
    read_node = λ t. none;
    read_edge = λ t. none;
    read_conflict = λ t. none;
    read_origin = λ t. none;
  };
  node_json = λ n. n.id ++ status_text n.status;
  edge_json = λ e. e.source_id ++ e.target_id;
  conflict_json = λ k. k.rule_id;
  source_kind_json = λ k. [];
  encode_cursor = λ c. none;
  now = codes "t";
}

services-TextsDiffer : TextsDiffer services.json
services-TextsDiffer e f t h k = edge_code-cancel e f (ground (arith))

abbrev document : RecordStatus → Text → EvidenceNode
document status id = record {
  id = id;
  kind = NodeKind.work_item;
  status = status;
  subject_id = none;
  outcome_id = none;
  origin = record {
    source_kind = SourceKind.document;
    locator = codes "d";
    revision = none;
    observed_at = none;
  };
}

abbrev story : EvidenceNode
story = document RecordStatus.current (codes "S")

abbrev commit : CommitEvidence
commit = record {
  id = codes "f";
  summary = [];
  committed_at = pos 0;
  parent_ids = [];
  references = record { kind = ReferenceKind.story; value = codes "S" } ∷ [];
}

abbrev ingested : List EvidenceNode → IngestResult
ingested records = record { records = records; edges = []; conflicts = []; diagnostics = [] }

abbrev gathered : List EvidenceNode → PreparedEvidence
gathered records = prepare_evidence services.library (commit ∷ []) (ingested records) []

abbrev sources : List SourceState
sources = []

abbrev synced : List EvidenceNode → Db → Result SyncReport EngineError × Db
synced records db = publish_evidence services (gathered records) sources true none db

abbrev first : Result SyncReport EngineError × Db
first = synced (story ∷ []) empty_db

abbrev report_first : SyncReport
report_first = report_of services (gathered (story ∷ [])) sources true none false

-- The evidence of the first synchronization, with one more decision.
abbrev more : List EvidenceNode
more = story ∷ document RecordStatus.current (codes "A") ∷ []

gathered-IsConsistent : (records : List EvidenceNode) → IsConsistent (gathered records)
gathered-IsConsistent records =
    prepare_evidence-IsConsistent services.library (commit ∷ []) (ingested records) []

abbrev second : Result SyncReport EngineError × Db
second = synced more first.1

abbrev story_row : RecordRow
story_row = record { content_json = codes "Sc"; origin_json = codes "d"; created_at = codes "t" }

-- The story with another status.
abbrev edited : List EvidenceNode
edited = document RecordStatus.historical (codes "S") ∷ []

-- The first synchronization succeeds and stores the story; then neither its evidence after the second
-- one nor the edited story is the current snapshot.
runs :
    (first ≡ (ok report_first, first.1))
    × (get (codes "S") first.1.records ≡ some story_row)
    × (is_current (id_of services (gathered (story ∷ [])) sources) second.1 ≡ false)
    × (is_current (id_of services (gathered edited) sources) first.1 ≡ false)
unfolding publish_evidence rationale.Engine.Sync.publish_staged rationale.Engine.Sync.stage
    rationale.Engine.Sync.fill rationale.Engine.Sync.for_each rationale.Engine.Sync.finish
    rationale.Engine.Sync.set_source_states rationale.Engine.Sync.quarantine_all
    rationale.Store.Candidate.begin_candidate rationale.Map.contains_key get
    rationale.Store.Candidate.insert_record rationale.Map.insert
    rationale.Store.Candidate.insert_edge rationale.Store.Publish.publish
    rationale.Store.Publish.validate_candidate rationale.Store.Publish.members
    rationale.Store.Publish.edge_leaves prepare_evidence rationale.Sort.sort_by rationale.Set.add
    rationale.Set.has rationale.Store.Publish.publish_rows
runs = (refl, refl, refl, refl)

publish_evidence-Ends_example :
    Ends services
      (report_of services (gathered (story ∷ [])) sources true none true)
      report_first
      (id_of services (gathered (story ∷ [])) sources)
      (gathered (story ∷ []))
      empty_db
      first
publish_evidence-Ends_example =
    publish_evidence-Ends services (gathered (story ∷ [])) sources true none empty_db
      services-TextsDiffer (gathered-IsConsistent (story ∷ [])) (empty_db-IsReady services.json)

first-IsReady : IsReady services.json first.1
first-IsReady =
    reached-IsReady services.json empty_db first.1 services-TextsDiffer
      (publish_evidence-Reaches services (gathered (story ∷ [])) sources true none empty_db
        services-TextsDiffer (gathered-IsConsistent (story ∷ [])) (empty_db-IsReady services.json))
      (empty_db-IsReady services.json)

-- The decision was added and is taken away again.
returned_evidence_refused_example :
    synced (story ∷ []) second.1 ≡ (err (store (database unique)), second.1)
returned_evidence_refused_example =
    returned_evidence_refused services services (gathered (story ∷ [])) sources sources true true
      none none empty_db first.1 second.1 report_first services-TextsDiffer
      (gathered-IsConsistent (story ∷ [])) (empty_db-IsReady services.json) runs.0
      (publish_evidence-Reaches services (gathered more) sources true none first.1
        services-TextsDiffer (gathered-IsConsistent more) first-IsReady)
      refl runs.2

edited_there : In (document RecordStatus.historical (codes "S")) (values (gathered edited).records)
unfolding prepare_evidence rationale.Map.insert
edited_there = inl refl

text_differs : some (codes "Sh") ≢ some (codes "Sc")
text_differs h = ground (arith)

changed_record_refused_example :
    (e : StoreError) × (synced edited first.1 ≡ (err (store e), first.1)) × IsRefusal e
changed_record_refused_example =
    changed_record_refused services (gathered edited) sources true none first.1
      (document RecordStatus.historical (codes "S")) story_row services-TextsDiffer
      (gathered-IsConsistent edited) first-IsReady edited_there runs.1 text_differs runs.3
