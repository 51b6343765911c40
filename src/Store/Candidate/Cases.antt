-- ===== src/Store/Candidate/Cases.antt =====
-- crates/rationale-store/src/lib.rs: what each operation on a candidate did when it succeeded.
use rationale.Prelude.{some, ◌≡◌, inl, inr, Option-cases, arith}
use rationale.Result.{ok, Result-cases}
use rationale.Order.{list_ord, nat_ord, pair_ord}
use rationale.Map.{Map}
use rationale.Set.{add}
use rationale.Text.{Text}
use rationale.Model.{EvidenceNode, EvidenceEdge, Conflict}
use rationale.Store.Types.{RecordRow, EdgeRow, ConflictRow, ConflictKey, Json}
use rationale.Store.Candidate.{
  CandidateSnapshot, with_db, insert_record, insert_edge, insert_conflict, insert_immutable,
  insert_edge_row, insert_conflict_row, key_of,
}

pub insert_record-cases :
    (json : Json) (node : EvidenceNode) (c d : CandidateSnapshot)
    → insert_record json node c ≡ ok d
    → (content origin : Text) × (json.node_text node ≡ some content)
      × (rows : Map Text RecordRow) × (insert_immutable node.id content origin c.created_at
            c.inside.records
          ≡ ok rows)
      × (d
          ≡ with_db c (record c.inside {
            records = rows;
            snapshot_records = add (c.snapshot_id, node.id) c.inside.snapshot_records;
          }))
unfolding insert_record
insert_record-cases json node c d h = elim (Option-cases (json.node_text node)) [
  | inl e ↦ ground (arith)
  | inr (content, e) ↦ elim (Option-cases (json.origin_text node.origin)) [
    | inl f ↦ ground (arith)
    | inr (origin, f) ↦
        elim (Result-cases
          (insert_immutable node.id content origin c.created_at c.inside.records)) [
            | inl (rows, g) ↦ (content, origin, e, rows, g, ground (arith))
            | inr (x, g) ↦ ground (arith)
          ]
  ]
]

pub insert_edge-cases :
    (json : Json) (edge : EvidenceEdge) (c d : CandidateSnapshot)
    → insert_edge json edge c ≡ ok d
    → (content origin : Text) × (json.edge_text edge ≡ some content)
      × (rows : Map Text EdgeRow) × (insert_edge_row edge content origin c.created_at c.inside
          ≡ ok rows)
      × (d
          ≡ with_db c (record c.inside {
            edges = rows;
            snapshot_edges = add (c.snapshot_id, edge.id) c.inside.snapshot_edges;
          }))
unfolding insert_edge
insert_edge-cases json edge c d h = elim (Option-cases (json.edge_text edge)) [
  | inl e ↦ ground (arith)
  | inr (content, e) ↦ elim (Option-cases (json.origin_text edge.origin)) [
    | inl f ↦ ground (arith)
    | inr (origin, f) ↦
        elim (Result-cases (insert_edge_row edge content origin c.created_at c.inside)) [
          | inl (rows, g) ↦ (content, origin, e, rows, g, ground (arith))
          | inr (x, g) ↦ ground (arith)
        ]
  ]
]

pub insert_conflict-cases :
    (json : Json) (k : Conflict) (c d : CandidateSnapshot)
    → insert_conflict json k c ≡ ok d
    → (content : Text) × (json.conflict_text k ≡ some content)
      × (rows : Map ConflictKey ConflictRow) × (insert_conflict_row k content c.created_at c.inside
          ≡ ok rows)
      × (d
          ≡ with_db c (record c.inside {
            conflicts = rows;
            snapshot_conflicts = add (c.snapshot_id, key_of k) c.inside.snapshot_conflicts;
          }))
unfolding insert_conflict
insert_conflict-cases json k c d h = elim (Option-cases (json.conflict_text k)) [
  | inl e ↦ ground (arith)
  | inr (content, e) ↦ elim (Result-cases (insert_conflict_row k content c.created_at c.inside)) [
    | inl (rows, g) ↦ (content, e, rows, g, ground (arith))
    | inr (x, g) ↦ ground (arith)
  ]
]
