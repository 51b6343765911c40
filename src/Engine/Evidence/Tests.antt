-- ===== src/Engine/Evidence/Tests.antt =====
-- crates/rationale-engine/src/lib.rs at concrete evidence: a commit that names a story and a missing
-- one, and a pull request of GitHub that includes the commit.
use rationale.Prelude.{none, some, [], ◌∷◌}
use rationale.Prelude.Int.{pos}
use rationale.Text.{codes}
use rationale.Model.{
  NodeKind, EdgeKind, RecordStatus, SourceKind, Origin, EvidenceNode, EvidenceEdge, Conflict,
}
use rationale.Git.{ReferenceKind, CommitEvidence}
use rationale.Docs.{IngestResult}
use rationale.Engine.Evidence.{PreparedEvidence, Library, prepare_evidence, merge_github_evidence}
use rationale.Engine.Evidence.Closure.{IsConsistent, prepare_evidence-IsConsistent}
use rationale.Engine.Evidence.Reported.{KeepsInputs, prepare_evidence-KeepsInputs}
use rationale.Engine.Evidence.Merge.{Merges, merge_github_evidence-Merges}

abbrev library : Library
library = record { hash_hex = λ t. t; timestamp_text = λ s. some (codes "time") }

abbrev origin_of : SourceKind → Origin
origin_of kind = record {
  source_kind = kind;
  locator = codes "docs/s.md";
  revision = none;
  observed_at = none;
}

abbrev story : EvidenceNode
story = record {
  id = codes "STORY-1";
  kind = NodeKind.work_item;
  status = RecordStatus.current;
  subject_id = none;
  outcome_id = none;
  origin = origin_of SourceKind.document;
}

abbrev commit : CommitEvidence
commit = record {
  id = codes "f00";
  summary = codes "Fix";
  committed_at = pos 1;
  parent_ids = [];
  references =
      record { kind = ReferenceKind.story; value = codes "STORY-1" }
      ∷ record { kind = ReferenceKind.issue; value = codes "#9" }
      ∷ [];
}

abbrev missing : Conflict
missing = record {
  left_node_id = codes "STORY-1";
  right_node_id = codes "ADR-1";
  rule_id = codes "r";
}

abbrev ingested : IngestResult
ingested = record { records = story ∷ []; edges = []; conflicts = missing ∷ []; diagnostics = [] }

abbrev gathered : PreparedEvidence
gathered = prepare_evidence library (commit ∷ []) ingested []

abbrev pull_request : EvidenceNode
pull_request = record story { id = codes "pr:1"; origin = origin_of SourceKind.github }

abbrev includes : EvidenceEdge
includes = record {
  id = codes "edge:1";
  kind = EdgeKind.included_in_pr;
  source_id = codes "f00";
  target_id = codes "pr:1";
  status = RecordStatus.current;
  origin = origin_of SourceKind.github;
}

prepare_evidence-IsConsistent_example : IsConsistent gathered
prepare_evidence-IsConsistent_example =
    prepare_evidence-IsConsistent library (commit ∷ []) ingested []

prepare_evidence-KeepsInputs_example : KeepsInputs library (commit ∷ []) ingested [] gathered
prepare_evidence-KeepsInputs_example =
    prepare_evidence-KeepsInputs library (commit ∷ []) ingested []

merge_github_evidence-Merges_example :
    Merges
      (pull_request ∷ [])
      (includes ∷ [])
      gathered
      (merge_github_evidence (pull_request ∷ []) (includes ∷ []) gathered)
merge_github_evidence-Merges_example =
    merge_github_evidence-Merges (pull_request ∷ []) (includes ∷ []) gathered
