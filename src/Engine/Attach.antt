-- ===== src/Engine/Attach.antt =====
-- crates/rationale-engine/src/lib.rs: the request of `why` to the proof worker, a slice with the target
-- attached to it.
pub mod Joined
pub mod Request
use rationale.Prelude.{
  ℕ, Bool, true, false, Option, none, some, List, [], ◌∷◌, ◌++◌, map, take, any, ltb, ◌||◌,
  if◌then◌else◌,
}
use rationale.Prelude.Int.{ℤ}
use rationale.Result.{Result, Done, ok, err, ◌>>=◌, ◌>>◌, fail_if, ok_or}
use rationale.Order.{list_ord, nat_ord}
use rationale.Map.{Map, insert, contains_key, or_insert, values}
use rationale.Set.{Set, add, extend}
use rationale.Text.{Text, codes, len, is_empty, trim, text_eq}
use rationale.Text.Decimal.{print}
use rationale.Model.{
  protocol_version, NodeKind, EdgeKind, RecordStatus, SourceKind, Origin, EvidenceNode,
  EvidenceEdge, Conflict, ProofGoal, KernelRequest, KernelResponse, proof, error, Verdict, Gap,
}
use rationale.Git.{
  GitEvidenceError, invalid_target, CommitEvidence, LineAttribution, PathChange, ResolvedLines,
  ResolvedTarget, commit, lines,
}
use rationale.Git.Target.{
  TargetSpec, InvalidTarget, too_long, bad_commit, no_location, empty_path, empty_revision,
  bad_line, zero_line, inverted, too_many_lines, max_target_bytes, max_target_lines, from_str,
}
use rationale.Store.Types.{StoreError, SourceState, SliceLimits, GraphSlice, Db}
use rationale.Store.Read.{
  load_current_slice, load_current_proof_slice, load_snapshot_records, current_record,
}
use rationale.Protocol.Worker.Config.{Reason}
use rationale.Engine.Candidate.{CandidateQuery, CandidateView, rank_candidates}
use rationale.Engine.Evidence.{Library, commit_node, commit_reference_edges, evidence_edge}
use rationale.Engine.Sync.{freshness_text}
use rationale.Engine.Types.{
  EngineError, git, store, proof_unavailable, no_snapshot, invalid_query, FreshnessView, WhyResult,
  Services,
}

unfoldable pub attach_edges :
    Map Text EvidenceNode → List EvidenceEdge → Map Text EvidenceEdge → Map Text EvidenceEdge
attach_edges nodes [] edges = edges
attach_edges nodes (e ∷ rest) edges =
    attach_edges nodes rest (if contains_key e.target_id nodes then insert e.id e edges else edges)

unfoldable pub attach_commit_references :
    Library → CommitEvidence → Map Text EvidenceNode → Map Text EvidenceEdge → Map Text EvidenceEdge
unfolding attach_edges commit_reference_edges
attach_commit_references lib c nodes edges = attach_edges nodes (commit_reference_edges lib c) edges

-- The record of a commit that only an attribution names.
abbrev pub attributed_node : Text → EvidenceNode
attributed_node id = record {
  id = id;
  kind = NodeKind.change;
  status = RecordStatus.current;
  subject_id = none;
  outcome_id = none;
  origin = record {
    source_kind = SourceKind.git;
    locator = codes "commit:" ++ id;
    revision = some id;
    observed_at = none;
  };
}

-- The loop over the attributions of a line target.
unfoldable pub attach_attributions :
    Library
    → Text
    → Origin
    → List LineAttribution
    → Map Text EvidenceNode × Map Text EvidenceEdge
    → Map Text EvidenceNode × Map Text EvidenceEdge
unfolding evidence_edge
attach_attributions lib id origin [] g = g
attach_attributions lib id origin (a ∷ rest) g =
    let edge = evidence_edge lib EdgeKind.introduced_by id a.commit_id origin in
    attach_attributions lib id origin rest
      (or_insert a.commit_id (attributed_node a.commit_id) g.0, insert edge.id edge g.1)

abbrev pub range_text : ResolvedLines → Text
range_text l = l.path ++ b':' ∷ print l.start_line ++ b'-' ∷ print l.end_line

abbrev pub lines_id : Library → ResolvedLines → Text
lines_id lib l = codes "code:" ++ lib.hash_hex (range_text l ++ b'@' ∷ l.revision)

abbrev pub lines_origin : ResolvedLines → Origin
lines_origin l = record {
  source_kind = SourceKind.git;
  locator = range_text l;
  revision = some l.revision;
  observed_at = none;
}

abbrev pub lines_node : Library → ResolvedLines → EvidenceNode
lines_node lib l = record {
  id = lines_id lib l;
  kind = NodeKind.code_target;
  status = RecordStatus.current;
  subject_id = none;
  outcome_id = none;
  origin = lines_origin l;
}

-- `attach_target`: the target's identifier with the nodes and edges afterwards.
unfoldable pub attach_target :
    Library
    → ResolvedTarget
    → Map Text EvidenceNode × Map Text EvidenceEdge
    → Text × (Map Text EvidenceNode × Map Text EvidenceEdge)
unfolding attach_commit_references attach_attributions commit_node
attach_target lib (commit root c) g =
    let nodes = or_insert c.id (commit_node lib c) g.0 in
    (c.id, (nodes, attach_commit_references lib c nodes g.1))
attach_target lib (lines l) g =
    let id = lines_id lib l in
    (
      id,
      attach_attributions lib id (lines_origin l) l.introduced_by
          (insert id (lines_node lib l) g.0, g.1),
    )

unfoldable pub query_id : Library → Text → Text → Text
query_id lib snapshot_id target =
    codes "query:" ++ lib.hash_hex (codes "rationale-query-v1" ++ 0 ∷ snapshot_id ++ 0 ∷ target)

unfoldable pub insert_nodes : List EvidenceNode → Map Text EvidenceNode → Map Text EvidenceNode
insert_nodes [] m = m
insert_nodes (n ∷ ns) m = insert_nodes ns (insert n.id n m)

unfoldable pub insert_edges : List EvidenceEdge → Map Text EvidenceEdge → Map Text EvidenceEdge
insert_edges [] m = m
insert_edges (e ∷ es) m = insert_edges es (insert e.id e m)

-- The request for a slice and a target.
unfoldable pub request_of : Library → Text → ResolvedTarget → GraphSlice → KernelRequest
unfolding insert_nodes insert_edges attach_target query_id
request_of lib target evidence slice =
    let (target_id, (nodes, edges)) =
      attach_target lib evidence (insert_nodes slice.nodes [], insert_edges slice.edges []) in
    record {
      protocol_version = protocol_version;
      request_id = query_id lib slice.snapshot_id target;
      snapshot_id = slice.snapshot_id;
      goal = record {
        target_id = target_id;
        anchor_kinds = NodeKind.decision ∷ NodeKind.work_item ∷ [];
      };
      nodes = values nodes;
      edges = values edges;
      conflicts = slice.conflicts;
    }
