-- ===== src/Engine/Evidence.antt =====
-- crates/rationale-engine/src/lib.rs: commits, ingested documents and the contribution of GitHub are
-- brought together as records by identifier, edges and conflicts between them, and diagnostics.
pub mod Closure
pub mod Reported
pub mod Merge
pub mod Ingested
mod Tests
use rationale.Prelude.{Bool, ◌&&◌, Option, none, some, List, [], ◌∷◌, ◌++◌, map, if◌then◌else◌}
use rationale.Prelude.Int.{ℤ}
use rationale.Order.{list_ord, nat_ord}
use rationale.Map.{Map, insert, contains_key, or_insert}
use rationale.Text.{Text, codes}
use rationale.Model.{
  NodeKind, EdgeKind, RecordStatus, SourceKind, Origin, EvidenceNode, EvidenceEdge, Conflict,
}
use rationale.Git.{ReferenceKind, ExplicitReference, CommitEvidence}
use rationale.Docs.{IngestDiagnostic, IngestResult}

pub record PreparedEvidence : Type 0 where
  pub records : Map Text EvidenceNode
  pub edges : Map Text EvidenceEdge
  pub conflicts : List Conflict
  pub diagnostics : List IngestDiagnostic

-- The functions of libraries: `blake3::hash(..).to_hex()` of a text in UTF-8, and
-- `jiff::Timestamp::from_second` with its `to_string`.
pub record Library : Type 0 where
  pub hash_hex : Text → Text
  pub timestamp_text : ℤ → Option Text

-- `{kind:?}`
unfoldable pub debug_kind : EdgeKind → Text
debug_kind EdgeKind.introduced_by = codes "IntroducedBy"
debug_kind EdgeKind.changed_by = codes "ChangedBy"
debug_kind EdgeKind.included_in_pr = codes "IncludedInPr"
debug_kind EdgeKind.resolves_issue = codes "ResolvesIssue"
debug_kind EdgeKind.documents = codes "Documents"
debug_kind EdgeKind.supersedes = codes "Supersedes"
debug_kind EdgeKind.verified_by = codes "VerifiedBy"

unfoldable pub commit_node : Library → CommitEvidence → EvidenceNode
commit_node lib commit = record {
  id = commit.id;
  kind = NodeKind.change;
  status = RecordStatus.current;
  subject_id = none;
  outcome_id = none;
  origin = record {
    source_kind = SourceKind.git;
    locator = codes "commit:" ++ commit.id;
    revision = some commit.id;
    observed_at = lib.timestamp_text commit.committed_at;
  };
}

unfoldable pub evidence_edge : Library → EdgeKind → Text → Text → Origin → EvidenceEdge
unfolding debug_kind
evidence_edge lib kind source target origin =
    let material = debug_kind kind ++ 0 ∷ source ++ 0 ∷ target ++ 0 ∷ origin.locator in
    record {
      id = codes "edge:" ++ lib.hash_hex material;
      kind = kind;
      source_id = source;
      target_id = target;
      status = RecordStatus.current;
      origin = origin;
    }

-- The edge kind of a reference: a forge URL makes no edge.
abbrev pub reference_edge_kind : ReferenceKind → Option EdgeKind
reference_edge_kind ReferenceKind.issue = some EdgeKind.resolves_issue
reference_edge_kind ReferenceKind.story = some EdgeKind.resolves_issue
reference_edge_kind ReferenceKind.decision = some EdgeKind.documents
reference_edge_kind ReferenceKind.forge_url = none

unfoldable pub reference_edges : Library → Text → List ExplicitReference → List EvidenceEdge
reference_edges lib id [] = []
reference_edges lib id (reference ∷ rest) = elim (reference_edge_kind reference.kind) [
  | none ↦ reference_edges lib id rest
  | some kind ↦
      evidence_edge lib kind id reference.value (record {
        source_kind = SourceKind.git;
        locator = codes "commit:" ++ id ++ codes "#message";
        revision = some id;
        observed_at = none;
      })
      ∷ reference_edges lib id rest
]

unfoldable pub commit_reference_edges : Library → CommitEvidence → List EvidenceEdge
unfolding reference_edges evidence_edge
commit_reference_edges lib commit = reference_edges lib commit.id commit.references

pub commit_edges : Library → List CommitEvidence → List EvidenceEdge
unfolding commit_reference_edges
commit_edges lib [] = []
commit_edges lib (commit ∷ commits) = commit_reference_edges lib commit ++ commit_edges lib commits

-- The map of the ingested records, and then of the commits: a later record replaces an earlier one.
unfoldable pub insert_records : List EvidenceNode → Map Text EvidenceNode → Map Text EvidenceNode
insert_records [] m = m
insert_records (r ∷ rs) m = insert_records rs (insert r.id r m)

-- Both ends of an edge, and both sides of a conflict, are records.
abbrev pub joins : Map Text EvidenceNode → EvidenceEdge → Bool
joins records edge = contains_key edge.source_id records && contains_key edge.target_id records

abbrev pub opposes : Map Text EvidenceNode → Conflict → Bool
opposes records k = contains_key k.left_node_id records && contains_key k.right_node_id records

abbrev pub unresolved_reference : EvidenceEdge → IngestDiagnostic
unresolved_reference edge = record {
  source_locator = edge.origin.locator;
  code = codes "unresolved_reference";
  message = codes "explicit relationship target is absent from local sources";
}

abbrev pub unresolved_conflict : Conflict → IngestDiagnostic
unresolved_conflict k = record {
  source_locator = k.rule_id;
  code = codes "unresolved_conflict";
  message = codes "explicit conflict target is absent from local sources";
}

-- The edges and the diagnostics after one more proposed edge.
unfoldable pub place_edge :
    Map Text EvidenceNode
    → EvidenceEdge
    → Map Text EvidenceEdge × List IngestDiagnostic
    → Map Text EvidenceEdge × List IngestDiagnostic
place_edge records edge s =
    if joins records edge
    then (insert edge.id edge s.0, s.1)
    else (s.0, s.1 ++ unresolved_reference edge ∷ [])

unfoldable pub place_edges :
    Map Text EvidenceNode
    → List EvidenceEdge
    → Map Text EvidenceEdge × List IngestDiagnostic
    → Map Text EvidenceEdge × List IngestDiagnostic
unfolding place_edge
place_edges records [] s = s
place_edges records (edge ∷ rest) s = place_edges records rest (place_edge records edge s)

unfoldable pub place_conflicts :
    Map Text EvidenceNode
    → List Conflict
    → List IngestDiagnostic
    → List Conflict × List IngestDiagnostic
place_conflicts records [] ds = ([], ds)
place_conflicts records (k ∷ ks) ds =
    if opposes records k
    then (let (kept, ds') = place_conflicts records ks ds in (k ∷ kept, ds'))
    else place_conflicts records ks (ds ++ unresolved_conflict k ∷ [])

unfoldable pub prepare_evidence :
    Library → List CommitEvidence → IngestResult → List IngestDiagnostic → PreparedEvidence
unfolding insert_records commit_node commit_edges place_edges place_conflicts
prepare_evidence lib commits ingested diagnostics =
    let records =
      insert_records (map (commit_node lib) commits) (insert_records ingested.records []) in
    let (edges, ds) =
      place_edges records (ingested.edges ++ commit_edges lib commits)
        ([], diagnostics ++ ingested.diagnostics) in
    let (conflicts, ds') = place_conflicts records ingested.conflicts ds in
    record { records = records; edges = edges; conflicts = conflicts; diagnostics = ds' }

unfoldable pub or_insert_records : List EvidenceNode → Map Text EvidenceNode → Map Text EvidenceNode
or_insert_records [] m = m
or_insert_records (r ∷ rs) m = or_insert_records rs (or_insert r.id r m)

unfoldable pub or_insert_edges :
    Map Text EvidenceNode → List EvidenceEdge → Map Text EvidenceEdge → Map Text EvidenceEdge
or_insert_edges records [] m = m
or_insert_edges records (edge ∷ rest) m =
    or_insert_edges records rest (if joins records edge then or_insert edge.id edge m else m)

unfoldable pub merge_github_evidence :
    List EvidenceNode → List EvidenceEdge → PreparedEvidence → PreparedEvidence
unfolding or_insert_records or_insert_edges
merge_github_evidence nodes links evidence =
    let records = or_insert_records nodes evidence.records in
    record evidence { records = records; edges = or_insert_edges records links evidence.edges }
