-- ===== src/Store/Session/Tests.antt =====
-- crates/rationale-store/src/lib.rs at a concrete store: one candidate with two records, an edge and
-- a conflict, published, and a second one that is refused.
use rationale.Prelude.{◌≡◌, refl, ◌↔◌, ◌⊎◌, inr, true, none, some, List, [], ◌∷◌}
use rationale.Result.{Result, ok, err}
use rationale.Store.Types.{StoreError}
use rationale.Order.{list_ord, nat_ord, pair_ord}
use rationale.Map.{get}
use rationale.Set.{has}
use rationale.Text.{Text, codes}
use rationale.Model.{
  SourceKind, NodeKind, EdgeKind, RecordStatus, EvidenceNode, EvidenceEdge, Conflict, Origin,
}
use rationale.Store.Types.{
  unresolved_reference, CandidateMetadata, SliceLimits, GraphSlice, EdgeRow, RecordRow,
  SnapshotPhase, Db, Json,
}
use rationale.Store.Candidate.{
  CandidateSnapshot, begin_candidate, insert_record, insert_edge, insert_conflict,
}
use rationale.Store.Publish.{publish, publish_rows}
use rationale.Store.Publish.Verdict.{IsClosed, publish-iff_IsClosed}
use rationale.Store.Read.{
  links, reachable, reached_edges, reached_nodes, reached_conflicts, load_current_proof_slice,
}
use rationale.Store.Read.Reach.{Connected, reachable-iff_Connected}
use rationale.Store.Read.Slice.{reached_edges-closed, reached_conflicts_complete}
use rationale.Store.Read.Limits.{IsWithin, load-IsWithin}
use rationale.Store.Session.{recorded, linked, opposed, Built, published, Reaches, here, next}
use rationale.Store.Session.Kept.{Grows, snapshots_immutable}
use rationale.Store.Session.Closed.{IsSound, empty_db, empty_db-IsSound, reached-IsSound}

abbrev origin : Origin
origin = record {
  source_kind = SourceKind.git;
  locator = codes "x";
  revision = none;
  observed_at = none;
}

abbrev node : Text → EvidenceNode
node id = record {
  id = id;
  kind = NodeKind.change;
  status = RecordStatus.current;
  subject_id = none;
  outcome_id = none;
  origin = origin;
}

abbrev edge : Text → Text → EvidenceEdge
edge a b = record {
  id = codes "e";
  kind = EdgeKind.supersedes;
  source_id = a;
  target_id = b;
  status = RecordStatus.current;
  origin = origin;
}

abbrev conflict : Text → Text → Conflict
conflict a b = record { left_node_id = a; right_node_id = b; rule_id = codes "r" }

-- A JSON library that knows values by their identifiers.
abbrev json : Json
json = record {
  node_text = λ n. some n.id;
  edge_text = λ e. some e.id;
  conflict_text = λ k. some k.rule_id;
  origin_text = λ o. some o.locator;
  read_node = λ t. some (node t);
  read_edge = λ t. some (edge (codes "a") (codes "b"));
  read_conflict = λ t. some (conflict (codes "a") (codes "b"));
  read_origin = λ t. some origin;
}

abbrev or_else : {A : Type 0} → Result A StoreError → A → A
or_else (ok a) d = a
or_else (err e) d = d

abbrev blank : CandidateSnapshot
blank = record { inside = empty_db; before = empty_db; snapshot_id = []; created_at = [] }

abbrev metadata : CandidateMetadata
metadata = record { id = codes "s"; created_at = codes "now" }

abbrev begun : CandidateSnapshot
begun = or_else (begin_candidate empty_db metadata) blank

abbrev with_a : CandidateSnapshot
with_a = or_else (insert_record json (node (codes "a")) begun) blank

abbrev with_b : CandidateSnapshot
with_b = or_else (insert_record json (node (codes "b")) with_a) blank

abbrev with_edge : CandidateSnapshot
with_edge = or_else (insert_edge json (edge (codes "a") (codes "b")) with_b) blank

abbrev complete : CandidateSnapshot
complete = or_else (insert_conflict json (conflict (codes "b") (codes "a")) with_edge) blank

abbrev final : Db
final = (publish (codes "later") complete).1

steps : Reaches json empty_db final
unfolding begin_candidate rationale.Map.contains_key get insert_record rationale.Map.insert
    insert_edge insert_conflict
steps =
    next empty_db final final
      (published empty_db metadata (codes "later") begun complete refl (
        Built.then begun with_a complete (recorded (node (codes "a")) begun with_a refl) (
          Built.then with_a with_b complete (recorded (node (codes "b")) with_a with_b refl) (
            Built.then with_b with_edge complete
              (linked (edge (codes "a") (codes "b")) with_b with_edge refl)
              (Built.then with_edge complete complete
                (opposed (conflict (codes "b") (codes "a")) with_edge complete refl)
                (Built.start complete))))))
      (here final)

reached-IsSound_example : IsSound final
reached-IsSound_example = reached-IsSound json empty_db final steps empty_db-IsSound

snapshots_immutable_example : Grows empty_db final
snapshots_immutable_example = snapshots_immutable json empty_db final steps

-- The edge without its target.
abbrev dangling : CandidateSnapshot
dangling = record complete {
  inside = record complete.inside { snapshot_records = (codes "s", codes "a") ∷ [] };
}

refused :
    publish (codes "later") dangling
    ≡ (err (unresolved_reference (codes "edge e leaves the snapshot")), empty_db)
unfolding publish rationale.Store.Publish.validate_candidate rationale.Store.Publish.members
    insert_conflict get insert_edge insert_record begin_candidate rationale.Map.contains_key
    rationale.Map.insert rationale.Set.add rationale.Store.Publish.edge_leaves has
refused = refl

publish-iff_IsClosed_example :
    (IsClosed complete.snapshot_id complete.inside
      × (publish (codes "later") complete ≡ (ok tt, publish_rows (codes "later") complete))
      × IsClosed complete.snapshot_id (publish_rows (codes "later") complete))
    ⊎ ((¬ IsClosed complete.snapshot_id complete.inside)
        × ((detail : Text) × (publish (codes "later") complete
              ≡ (err (unresolved_reference detail), complete.before))))
publish-iff_IsClosed_example = publish-iff_IsClosed (codes "later") complete

abbrev seeds : List Text
seeds = codes "a" ∷ []

final-IsClosed : IsClosed (codes "s") final
unfolding begin_candidate rationale.Map.contains_key get publish
    rationale.Store.Publish.validate_candidate rationale.Store.Publish.members insert_conflict
    insert_edge insert_record rationale.Map.insert rationale.Set.add
    rationale.Store.Publish.edge_leaves has rationale.Store.Publish.conflict_leaves publish_rows
final-IsClosed = reached-IsSound_example.closed (codes "s") refl

abbrev row : EdgeRow
row = record {
  source_id = codes "a";
  target_id = codes "b";
  content_json = codes "e";
  origin_json = codes "x";
  created_at = codes "now";
}

abbrev record_row : Text → RecordRow
record_row id = record { content_json = id; origin_json = codes "x"; created_at = codes "now" }

-- The database behind the publication, written out.
abbrev stored : Db
stored = record {
  records = (codes "a", record_row (codes "a")) ∷ (codes "b", record_row (codes "b")) ∷ [];
  edges = (codes "e", row) ∷ [];
  conflicts =
      (
        (codes "b", (codes "a", codes "r")),
        record { content_json = codes "r"; created_at = codes "now" },
      )
      ∷ [];
  snapshots =
      (
        codes "s",
        record {
          created_at = codes "now";
          published_at = some (codes "later");
          state = SnapshotPhase.published;
        },
      )
      ∷ [];
  snapshot_records = (codes "s", codes "a") ∷ (codes "s", codes "b") ∷ [];
  snapshot_edges = (codes "s", codes "e") ∷ [];
  snapshot_conflicts = (codes "s", (codes "b", (codes "a", codes "r"))) ∷ [];
  snapshot_sources = [];
  source_cursors = [];
  quarantined_inputs = [];
  current_snapshot = some (codes "s");
}

final-eq-stored : final ≡ stored
unfolding begin_candidate rationale.Map.contains_key get publish
    rationale.Store.Publish.validate_candidate rationale.Store.Publish.members insert_conflict
    insert_edge insert_record rationale.Map.insert rationale.Set.add
    rationale.Store.Publish.edge_leaves has rationale.Store.Publish.conflict_leaves publish_rows
final-eq-stored = refl

stored-IsClosed : IsClosed (codes "s") stored
stored-IsClosed = rw final-eq-stored at final-IsClosed

reachable-iff_Connected_example :
    (has (codes "b") (reachable stored (codes "s") seeds) ≡ true)
    ↔ Connected stored (codes "s") seeds (codes "b")
reachable-iff_Connected_example = reachable-iff_Connected stored (codes "s") seeds (codes "b")

reached_edges-closed_example :
    (has (codes "a") (reached_nodes stored (codes "s") (reachable stored (codes "s") seeds)) ≡ true)
    × (has (codes "b") (reached_nodes stored (codes "s") (reachable stored (codes "s") seeds))
        ≡ true)
unfolding get has reachable reached_edges rationale.Store.Publish.members
    rationale.Store.Read.edge_rows rationale.Store.Read.conflict_ends rationale.Set.extend
    rationale.Set.add
reached_edges-closed_example =
    reached_edges-closed stored (codes "s") seeds (codes "e") row stored-IsClosed refl refl

reached_conflicts_complete_example :
    (has
        (codes "b", (codes "a", codes "r"))
        (reached_conflicts stored (codes "s") (reachable stored (codes "s") seeds))
      ≡ true)
    × (has (codes "b") (reached_nodes stored (codes "s") (reachable stored (codes "s") seeds))
        ≡ true)
    × (has (codes "a") (reached_nodes stored (codes "s") (reachable stored (codes "s") seeds))
        ≡ true)
unfolding get has reachable reached_conflicts rationale.Store.Publish.members
    rationale.Store.Read.edge_rows rationale.Store.Read.conflict_ends rationale.Set.extend
    rationale.Set.add
reached_conflicts_complete_example =
    reached_conflicts_complete stored (codes "s") seeds (codes "b", (codes "a", codes "r"))
      stored-IsClosed refl refl

abbrev limits : SliceLimits
limits = record { max_nodes = 2; max_edges = 1; max_conflicts = 1 }

abbrev slice : GraphSlice
slice = record {
  snapshot_id = codes "s";
  nodes = node (codes "a") ∷ node (codes "b") ∷ [];
  edges = edge (codes "a") (codes "b") ∷ [];
  conflicts = conflict (codes "a") (codes "b") ∷ [];
  sources = [];
}

load-IsWithin_example : IsWithin limits slice
unfolding get has load_current_proof_slice rationale.Store.Publish.members
    rationale.Store.Read.edge_rows rationale.Store.Read.conflict_ends rationale.Set.extend
    rationale.Set.add
load-IsWithin_example = load-IsWithin json stored seeds limits slice (inr refl)
