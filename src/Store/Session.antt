-- ===== src/Store/Session.antt =====
-- The life of a store: a candidate is built by any sequence of operations, failed ones included,
-- and ends in `publish` or `abandon`. Closed: what a published snapshot refers to is in it. Kept:
-- evidence and earlier snapshots do not change.
pub mod Frame
pub mod Kept
pub mod Closed
mod Tests
use rationale.Prelude.{Bool, true, ◌≡◌, ◌⊎◌, Option, some, List}
use rationale.Result.{ok}
use rationale.Order.{list_ord, nat_ord, pair_ord}
use rationale.Map.{get, contains_key}
use rationale.Set.{has}
use rationale.Text.{Text}
use rationale.Model.{EvidenceNode, EvidenceEdge, Conflict}
use rationale.Store.Types.{
  CandidateMetadata, SourceState, QuarantineDiagnostic, EdgeRow, SnapshotRow, SnapshotPhase, Db,
  Json, ConflictKey,
}
use rationale.Store.Candidate.{
  CandidateSnapshot, begin_candidate, insert_record, insert_edge, insert_conflict, set_source_state,
  quarantine,
}
use rationale.Store.Publish.{publish, abandon}

-- One operation that succeeds. A failed one changes nothing.
pub data Op (json : Json) : CandidateSnapshot → CandidateSnapshot → Type 0 where
  recorded :
      (node : EvidenceNode) (c d : CandidateSnapshot)
      → insert_record json node c ≡ ok d
      → Op json c d
  linked :
      (edge : EvidenceEdge) (c d : CandidateSnapshot) → insert_edge json edge c ≡ ok d → Op json c d
  opposed : (k : Conflict) (c d : CandidateSnapshot) → insert_conflict json k c ≡ ok d → Op json c d
  observed : (source : SourceState) (c : CandidateSnapshot) → Op json c (set_source_state source c)
  quarantined : (q : QuarantineDiagnostic) (c : CandidateSnapshot) → Op json c (quarantine q c)

pub data Built (json : Json) : CandidateSnapshot → CandidateSnapshot → Type 0 where
  start : (c : CandidateSnapshot) → Built json c c
  then : (c d e : CandidateSnapshot) → Op json c d → Built json d e → Built json c e

-- One candidate, from `begin_candidate` to its end.
pub data Step (json : Json) : Db → Db → Type 0 where
  published :
      (db : Db) (metadata : CandidateMetadata) (at : Text) (c d : CandidateSnapshot)
      → begin_candidate db metadata ≡ ok c
      → Built json c d
      → Step json db (publish at d).1
  abandoned :
      (db : Db) (metadata : CandidateMetadata) (c d : CandidateSnapshot)
      → begin_candidate db metadata ≡ ok c
      → Built json c d
      → Step json db (abandon d)

pub data Reaches (json : Json) : Db → Db → Type 0 where
  here : (db : Db) → Reaches json db db
  next : (a b c : Db) → Step json a b → Reaches json b c → Reaches json a c
