-- ===== src/Engine/Sync/Staged.antt =====
-- crates/rationale-engine/src/lib.rs: the candidate that `publish_evidence` fills holds all of the
-- evidence and is closed, unless it is refused.
use rationale.Prelude.{true, ◌≡◌, List, [], ◌∷◌, inl, inr, All, All-In, In-map, Bool-cases, arith}
use rationale.Result.{ok, err}
use rationale.Order.{list_ord, nat_ord, pair_ord}
use rationale.Map.{Map, contains_key, values}
use rationale.Map.Laws.{get-contains_key, contains_key-get, In-get}
use rationale.Text.{Text}
use rationale.Model.{EvidenceNode, EvidenceEdge, Conflict}
use rationale.Docs.{IngestDiagnostic}
use rationale.Store.Types.{StoreError, database, unique, CandidateMetadata, SourceState, Db, Json}
use rationale.Store.Candidate.{
  CandidateSnapshot, begin_candidate, key_of, set_source_state, quarantine,
}
use rationale.Store.Session.{Op, observed, quarantined, Built, start, then}
use rationale.Store.Session.Frame.{Op-Frame}
use rationale.Store.Session.Kept.{begin_candidate-Begun}
use rationale.Engine.Evidence.Closure.{IsKeyed}
use rationale.Engine.Sync.{set_source_states, quarantine_all, quarantine_of}
use rationale.Engine.Sync.Inserts.{IsRefusal, Present, Op-Extends, IsGood}
use rationale.Engine.Sync.Steps.{IsStored}
use rationale.Engine.Sync.Links.{IsLinked}
use rationale.Engine.Sync.Conflicts.{IsOpposed}
use rationale.Engine.Sync.Ready.{IsReady}

-- What an insertion achieved outlasts later operations.
pub IsStored-stays :
    (json : Json) (r : EvidenceNode) (c d : CandidateSnapshot)
    → Op json c d
    → IsStored json r c.snapshot_id c.inside
    → IsStored json r d.snapshot_id d.inside
IsStored-stays json r c d op (row, g, t, m) = (
  row,
  (Op-Frame json c d op).kept.records_kept r.id row g,
  t,
  (Op-Extends json c d op).records_stay r.id m,
)

pub IsLinked-stays :
    (json : Json) (edge : EvidenceEdge) (c d : CandidateSnapshot)
    → Op json c d
    → IsLinked json edge c.snapshot_id c.inside
    → IsLinked json edge d.snapshot_id d.inside
IsLinked-stays json edge c d op (row, g, t, m) = (
  row,
  (Op-Frame json c d op).kept.edges_kept edge.id row g,
  t,
  (Op-Extends json c d op).edges_stay edge.id m,
)

pub IsOpposed-stays :
    (json : Json) (k : Conflict) (c d : CandidateSnapshot)
    → Op json c d
    → IsOpposed json k c.snapshot_id c.inside
    → IsOpposed json k d.snapshot_id d.inside
IsOpposed-stays json k c d op (row, g, t, m) = (
  row,
  (Op-Frame json c d op).kept.conflicts_kept (key_of k) row g,
  t,
  (Op-Extends json c d op).conflicts_stay (key_of k) m,
)

-- The end of the candidate: source states and diagnostics.
pub set_source_states-Built :
    (json : Json) (sources : List SourceState) (c : CandidateSnapshot)
    → IsGood json c
    → Built json c (set_source_states sources c) × IsGood json (set_source_states sources c)
unfolding set_source_states set_source_state
set_source_states-Built json [] c good = (start c, good)
set_source_states-Built json (source ∷ rest) c good =
    let d = set_source_state source c in
    let good' : IsGood json d = record {
      closed = record {
        edges_inside = good.closed.edges_inside;
        conflicts_inside = good.closed.conflicts_inside;
      };
      texts = good.texts;
    } in
    let (built, end) = set_source_states-Built json rest d good' in
    (then c d (set_source_states rest d) (observed source c) built, end)

pub quarantine_all-Built :
    (json : Json) (ds : List IngestDiagnostic) (c : CandidateSnapshot)
    → IsGood json c
    → Built json c (quarantine_all ds c) × IsGood json (quarantine_all ds c)
unfolding quarantine_all quarantine
quarantine_all-Built json [] c good = (start c, good)
quarantine_all-Built json (q ∷ qs) c good =
    let d = quarantine (quarantine_of q) c in
    let good' : IsGood json d = record {
      closed = record {
        edges_inside = good.closed.edges_inside;
        conflicts_inside = good.closed.conflicts_inside;
      };
      texts = good.texts;
    } in
    let (built, end) = quarantine_all-Built json qs d good' in
    (then c d (quarantine_all qs d) (quarantined (quarantine_of q) c) built, end)

-- A record of the evidence is present once all of them are stored.
pub stored-Present :
    (json : Json) (records : Map Text EvidenceNode) (c : CandidateSnapshot)
    → All IsKeyed records
    → All (λ r. IsStored json r c.snapshot_id c.inside) (values records)
    → (id : Text) → contains_key id records ≡ true
    → Present c id
stored-Present json records c keyed stored id h =
    let (r, g) = get-contains_key id records h in
    let entry = In-get id r records g in
    let same : id ≡ r.id = All-In IsKeyed (id, r) records keyed entry in
    let (row, found, t, m) =
      All-In (λ r. IsStored json r c.snapshot_id c.inside) r (values records) stored
        (In-map (λ e. e.1) (id, r) records entry) in
    rw same (contains_key-get r.id row c.inside.records found, m)

pub begin_candidate-refused :
    (db : Db) (metadata : CandidateMetadata) (e : StoreError)
    → begin_candidate db metadata ≡ err e
    → IsRefusal e
unfolding begin_candidate
begin_candidate-refused db metadata e h =
    elim (Bool-cases (contains_key metadata.id db.snapshots)) [
      | inl b ↦ let p : database unique ≡ e = ground (arith) in rw (← p) tt
      | inr b ↦ ground (arith)
    ]

pub begin_candidate-id :
    (db : Db) (metadata : CandidateMetadata) (c : CandidateSnapshot)
    → begin_candidate db metadata ≡ ok c
    → c.snapshot_id ≡ metadata.id
unfolding begin_candidate
begin_candidate-id db metadata c h = ground (arith)

-- A new candidate of a ready database is closed, since it has no members.
pub begun-IsGood :
    (json : Json) (db : Db) (metadata : CandidateMetadata) (c : CandidateSnapshot)
    → IsReady json db
    → begin_candidate db metadata ≡ ok c
    → IsGood json c
begun-IsGood json db metadata c ready h =
    let begun = begin_candidate-Begun db metadata c h in
    let s = c.snapshot_id in
    record {
      closed = record {
        edges_inside = λ id row m g.
            ground
              (arith, (begun.members s).same_edges id, ready.owned.edges_owned s id begun.is_new);
        conflicts_inside = λ key m. ground (
          arith,
          (begun.members s).same_conflicts key,
          ready.owned.conflicts_owned s key begun.is_new,
        );
      };
      texts = rw begun.same_edges ready.texts;
    }
