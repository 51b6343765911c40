-- ===== src/Store/Types.antt =====
-- crates/rationale-store/src/lib.rs: errors, states and limits, and the rows of the database.
use rationale.Prelude.{ℕ, Option, List}
use rationale.Map.{Map}
use rationale.Set.{Set}
use rationale.Text.{Text}
use rationale.Model.{SourceKind, EvidenceNode, EvidenceEdge, Conflict, Origin}

-- What SQLite refuses: a key that is taken, or a reference to a missing row.
pub data DatabaseFault : Type 0 where
  unique foreign_key : DatabaseFault

pub data Entity : Type 0 where
  records edges conflict nodes conflicts : Entity

pub data StoreError : Type 0 where
  database : DatabaseFault → StoreError
  incompatible_schema canonical_json stored_json : StoreError
  -- kind, id
  content_mismatch : Entity → Text → StoreError
  unresolved_reference : Text → StoreError
  -- kind, actual, limit
  slice_limit_exceeded : Entity → ℕ → ℕ → StoreError

pub record CandidateMetadata : Type 0 where
  pub id : Text
  pub created_at : Text

pub data Freshness : Type 0 where
  fresh stale : Freshness

pub record SourceState : Type 0 where
  pub source_id : Text
  pub source_kind : SourceKind
  pub freshness : Freshness
  pub observed_at : Text
  pub cursor : Option Text

pub record QuarantineDiagnostic : Type 0 where
  pub source_locator : Text
  pub code : Text
  pub message : Text

pub record SliceLimits : Type 0 where
  pub max_nodes : ℕ
  pub max_edges : ℕ
  pub max_conflicts : ℕ

pub record GraphSlice : Type 0 where
  pub snapshot_id : Text
  pub nodes : List EvidenceNode
  pub edges : List EvidenceEdge
  pub conflicts : List Conflict
  pub sources : List SourceState

-- The tables, each by its primary key. JSON columns are texts.
pub record RecordRow : Type 0 where
  pub content_json : Text
  pub origin_json : Text
  pub created_at : Text

pub record EdgeRow : Type 0 where
  pub source_id : Text
  pub target_id : Text
  pub content_json : Text
  pub origin_json : Text
  pub created_at : Text

pub record ConflictRow : Type 0 where
  pub content_json : Text
  pub created_at : Text

pub data SnapshotPhase : Type 0 where
  candidate published : SnapshotPhase

pub record SnapshotRow : Type 0 where
  pub created_at : Text
  pub published_at : Option Text
  pub state : SnapshotPhase

pub record CursorRow : Type 0 where
  pub cursor : Text
  pub snapshot_id : Text
  pub updated_at : Text

pub record QuarantineRow : Type 0 where
  pub snapshot_id : Text
  pub diagnostic : QuarantineDiagnostic
  pub created_at : Text

-- left_node_id, right_node_id, rule_id
abbrev pub ConflictKey : Type 0
ConflictKey = Text × (Text × Text)

pub record Db : Type 0 where
  pub records : Map Text RecordRow
  pub edges : Map Text EdgeRow
  pub conflicts : Map ConflictKey ConflictRow
  pub snapshots : Map Text SnapshotRow
  pub snapshot_records : Set (Text × Text)
  pub snapshot_edges : Set (Text × Text)
  pub snapshot_conflicts : Set (Text × ConflictKey)
  pub snapshot_sources : Map (Text × Text) SourceState
  pub source_cursors : Map Text CursorRow
  pub quarantined_inputs : List QuarantineRow
  pub current_snapshot : Option Text

-- The JSON library: canonical texts of the values, and their reading.
pub record Json : Type 0 where
  pub node_text : EvidenceNode → Option Text
  pub edge_text : EvidenceEdge → Option Text
  pub conflict_text : Conflict → Option Text
  pub origin_text : Origin → Option Text
  pub read_node : Text → Option EvidenceNode
  pub read_edge : Text → Option EvidenceEdge
  pub read_conflict : Text → Option Conflict
  pub read_origin : Text → Option Origin
