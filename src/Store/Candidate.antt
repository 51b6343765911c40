-- ===== src/Store/Candidate.antt =====
-- crates/rationale-store/src/lib.rs: candidates, from `begin_candidate` to `publish`. A candidate is
-- a write transaction: the database as it stands inside, and as it was before. Errors of the disk
-- and of locking are not modelled.
pub mod Cases
use rationale.Prelude.{
  Bool, true, false, not, ◌&&◌, ◌||◌, Option, none, some, List, [], ◌∷◌, ◌++◌, if◌then◌else◌,
}
use rationale.Result.{Result, ok, err, ◌>>=◌, ◌>>◌}
use rationale.Order.{list_cmp, list_ord, nat_ord, pair_ord, is_lt}
use rationale.Map.{Map, get, insert, contains_key}
use rationale.Set.{Set, add, has}
use rationale.Text.{Text, codes, text_eq}
use rationale.Model.{EvidenceNode, EvidenceEdge, Conflict}
use rationale.Store.Types.{
  unique, foreign_key, Entity, StoreError, database, canonical_json, content_mismatch,
  unresolved_reference, CandidateMetadata, SourceState, QuarantineDiagnostic, RecordRow, EdgeRow,
  ConflictRow, SnapshotRow, SnapshotPhase, CursorRow, ConflictKey, Db, Json,
}

pub record CandidateSnapshot : Type 0 where
  pub inside : Db
  pub before : Db
  pub snapshot_id : Text
  pub created_at : Text

-- `EvidenceStore::begin_candidate`
unfoldable pub begin_candidate : Db → CandidateMetadata → Result CandidateSnapshot StoreError
begin_candidate db metadata =
    if contains_key metadata.id db.snapshots
    then err (database unique)
    else ok (record {
      inside = record db {
        snapshots =
            insert metadata.id
              (record {
                created_at = metadata.created_at;
                published_at = none;
                state = SnapshotPhase.candidate;
              })
              db.snapshots;
      };
      before = db;
      snapshot_id = metadata.id;
      created_at = metadata.created_at;
    })

abbrev pub encoded : Option Text → Result Text StoreError
encoded none = err canonical_json
encoded (some t) = ok t

-- `insert_immutable`: a new row, or the check that the old row has the same content.
unfoldable pub insert_immutable :
    Text → Text → Text → Text → Map Text RecordRow → Result (Map Text RecordRow) StoreError
insert_immutable id content origin created_at rows = elim (get id rows) [
  | none ↦ ok (
      insert id (record { content_json = content; origin_json = origin; created_at = created_at })
        rows)
  | some row ↦
      if text_eq row.content_json content then ok rows else err (content_mismatch Entity.records id)
]

-- The transaction after a statement on it.
abbrev pub with_db : CandidateSnapshot → Db → CandidateSnapshot
with_db c db = record c { inside = db }

-- `CandidateSnapshot::insert_record`
unfoldable pub insert_record :
    Json → EvidenceNode → CandidateSnapshot → Result CandidateSnapshot StoreError
unfolding insert_immutable
insert_record json node c = do
  content ← encoded (json.node_text node)
  origin ← encoded (json.origin_text node.origin)
  rows ← insert_immutable node.id content origin c.created_at c.inside.records
  ok (
      with_db c (record c.inside {
        records = rows;
        snapshot_records = add (c.snapshot_id, node.id) c.inside.snapshot_records;
      }))

unfoldable pub insert_edge_row :
    EvidenceEdge → Text → Text → Text → Db → Result (Map Text EdgeRow) StoreError
insert_edge_row edge content origin created_at db = elim (get edge.id db.edges) [
  | none ↦
      if contains_key edge.source_id db.records && contains_key edge.target_id db.records
      then ok (
          insert edge.id
            (record {
              source_id = edge.source_id;
              target_id = edge.target_id;
              content_json = content;
              origin_json = origin;
              created_at = created_at;
            })
            db.edges)
      else err (database foreign_key)
  | some row ↦
      if text_eq row.content_json content
      then ok db.edges
      else err (content_mismatch Entity.edges edge.id)
]

-- `CandidateSnapshot::insert_edge`
unfoldable pub insert_edge :
    Json → EvidenceEdge → CandidateSnapshot → Result CandidateSnapshot StoreError
unfolding insert_edge_row
insert_edge json edge c = do
  content ← encoded (json.edge_text edge)
  origin ← encoded (json.origin_text edge.origin)
  rows ← insert_edge_row edge content origin c.created_at c.inside
  ok (
      with_db c (record c.inside {
        edges = rows;
        snapshot_edges = add (c.snapshot_id, edge.id) c.inside.snapshot_edges;
      }))

abbrev pub key_of : Conflict → ConflictKey
key_of k = (k.left_node_id, (k.right_node_id, k.rule_id))

-- `{left}:{right}:{rule}`
pub conflict_id : Conflict → Text
conflict_id k = k.left_node_id ++ b':' ∷ k.right_node_id ++ b':' ∷ k.rule_id

unfoldable pub insert_conflict_row :
    Conflict → Text → Text → Db → Result (Map ConflictKey ConflictRow) StoreError
insert_conflict_row k content created_at db = elim (get (key_of k) db.conflicts) [
  | none ↦
      if contains_key k.left_node_id db.records && contains_key k.right_node_id db.records
      then ok (
          insert (key_of k) (record { content_json = content; created_at = created_at })
            db.conflicts)
      else err (database foreign_key)
  | some row ↦
      if text_eq row.content_json content
      then ok db.conflicts
      else err (content_mismatch Entity.conflict (conflict_id k))
]

-- `CandidateSnapshot::insert_conflict`
unfoldable pub insert_conflict :
    Json → Conflict → CandidateSnapshot → Result CandidateSnapshot StoreError
unfolding insert_conflict_row
insert_conflict json k c = do
  content ← encoded (json.conflict_text k)
  rows ← insert_conflict_row k content c.created_at c.inside
  ok (
      with_db c (record c.inside {
        conflicts = rows;
        snapshot_conflicts = add (c.snapshot_id, key_of k) c.inside.snapshot_conflicts;
      }))

-- `CandidateSnapshot::set_source_state`
unfoldable pub set_source_state : SourceState → CandidateSnapshot → CandidateSnapshot
set_source_state source c = with_db c (record c.inside {
  snapshot_sources = insert (c.snapshot_id, source.source_id) source c.inside.snapshot_sources;
})

-- `CandidateSnapshot::quarantine`
unfoldable pub quarantine : QuarantineDiagnostic → CandidateSnapshot → CandidateSnapshot
quarantine diagnostic c = with_db c (record c.inside {
  quarantined_inputs =
      c.inside.quarantined_inputs
      ++ record { snapshot_id = c.snapshot_id; diagnostic = diagnostic; created_at = c.created_at }
        ∷ [];
})
