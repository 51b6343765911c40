-- ===== src/Engine/Sync/Inserts.antt =====
-- crates/rationale-engine/src/lib.rs, crates/rationale-store/src/lib.rs: one insertion into the
-- candidate of a synchronization. It succeeds, and keeps the new snapshot closed, or it is refused
-- for a value without JSON or for other content under an old key, never for a reference.
use rationale.Prelude.{true, ◌≡◌, some, arith}
use rationale.Order.{Ord, list_ord, nat_ord, pair_ord}
use rationale.Map.{get, contains_key}
use rationale.Map.Laws.{contains_key-get, get-contains_key}
use rationale.Set.{Set, has, add, has-add}
use rationale.Text.{Text}
use rationale.Model.{EvidenceEdge}
use rationale.Store.Types.{
  StoreError, database, unique, canonical_json, content_mismatch, EdgeRow, ConflictKey, Db, Json,
}
use rationale.Store.Candidate.{CandidateSnapshot, key_of, set_source_state, quarantine}
use rationale.Store.Candidate.Cases.{insert_record-cases, insert_edge-cases, insert_conflict-cases}
use rationale.Store.Publish.Verdict.{IsClosed}
use rationale.Store.Session.{Op, recorded, linked, opposed, observed, quarantined}
use rationale.Store.Session.Frame.{Op-Frame}

-- Why a candidate is refused, apart from references.
abbrev pub IsRefusal : StoreError → Type 0
IsRefusal (database unique) = Unit
IsRefusal canonical_json = Unit
IsRefusal (content_mismatch kind id) = Unit
IsRefusal _ = ⊥

-- The members of the candidate's snapshot only grow.
pub record Extends (c d : CandidateSnapshot) : Type 0 where
  pub records_stay :
      (id : Text)
      → has (c.snapshot_id, id) c.inside.snapshot_records ≡ true
      → has (d.snapshot_id, id) d.inside.snapshot_records ≡ true
  pub edges_stay :
      (id : Text)
      → has (c.snapshot_id, id) c.inside.snapshot_edges ≡ true
      → has (d.snapshot_id, id) d.inside.snapshot_edges ≡ true
  pub conflicts_stay :
      (key : ConflictKey)
      → has (c.snapshot_id, key) c.inside.snapshot_conflicts ≡ true
      → has (d.snapshot_id, key) d.inside.snapshot_conflicts ≡ true

has-add_old :
    {K : Type 0} ⦃o : Ord K⦄ (j k : K) (s : Set K) → has k s ≡ true → has k (add j s) ≡ true
has-add_old j k s h = ground (arith, has-add j k s)

pub Op-Extends : (json : Json) (c d : CandidateSnapshot) → Op json c d → Extends c d
unfolding set_source_state quarantine
Op-Extends json _ _ (recorded node c d h) =
    let (content, origin, t, rows, g, e) = insert_record-cases json node c d h in
    rw e record {
      records_stay = λ id m.
          has-add_old (c.snapshot_id, node.id) (c.snapshot_id, id) c.inside.snapshot_records m;
      edges_stay = λ id m. m;
      conflicts_stay = λ key m. m;
    }
Op-Extends json _ _ (linked edge c d h) =
    let (content, origin, t, rows, g, e) = insert_edge-cases json edge c d h in
    rw e record {
      records_stay = λ id m. m;
      edges_stay = λ id m.
          has-add_old (c.snapshot_id, edge.id) (c.snapshot_id, id) c.inside.snapshot_edges m;
      conflicts_stay = λ key m. m;
    }
Op-Extends json _ _ (opposed k c d h) =
    let (content, t, rows, g, e) = insert_conflict-cases json k c d h in
    rw e record {
      records_stay = λ id m. m;
      edges_stay = λ id m. m;
      conflicts_stay = λ key m.
          has-add_old (c.snapshot_id, key_of k) (c.snapshot_id, key) c.inside.snapshot_conflicts m;
    }
Op-Extends json _ _ (observed source c) = record {
  records_stay = λ id m. m;
  edges_stay = λ id m. m;
  conflicts_stay = λ key m. m;
}
Op-Extends json _ _ (quarantined q c) = record {
  records_stay = λ id m. m;
  edges_stay = λ id m. m;
  conflicts_stay = λ key m. m;
}

-- A record that is stored, and a member of the candidate's snapshot.
abbrev pub Present : CandidateSnapshot → Text → Type 0
Present c id =
    (contains_key id c.inside.records ≡ true)
    × (has (c.snapshot_id, id) c.inside.snapshot_records ≡ true)

pub Op-Present :
    (json : Json) (c d : CandidateSnapshot) (id : Text) → Op json c d → Present c id → Present d id
Op-Present json c d id op (h, m) =
    let (row, g) = get-contains_key id c.inside.records h in
    (
      contains_key-get id row d.inside.records ((Op-Frame json c d op).kept.records_kept id row g),
      (Op-Extends json c d op).records_stay id m,
    )

-- Each stored edge is the JSON of an edge with the ends of its row.
abbrev pub HasTexts : Json → Db → Type 0
HasTexts json db =
    (id : Text) (row : EdgeRow)
    → get id db.edges ≡ some row
    → (e : EvidenceEdge) × (json.edge_text e ≡ some row.content_json)
      × (e.source_id ≡ row.source_id)
      × (e.target_id ≡ row.target_id)

-- The JSON of an edge tells which edge it is.
abbrev pub TextsDiffer : Json → Type 0
TextsDiffer json =
    (e f : EvidenceEdge) (t : Text) → json.edge_text e ≡ some t → json.edge_text f ≡ some t → e ≡ f

-- What holds of the candidate throughout.
pub record IsGood (json : Json) (c : CandidateSnapshot) : Type 0 where
  pub closed : IsClosed c.snapshot_id c.inside
  pub texts : HasTexts json c.inside
