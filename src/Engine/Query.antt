-- ===== src/Engine/Query.antt =====
-- crates/rationale-engine/src/lib.rs: the query `why`, which sends the part of the current snapshot
-- behind a target to the proof worker, and the queries beside it. An absent database file is `none`.
pub mod Answers
mod Tests
use rationale.Prelude.{
  ℕ, Bool, true, false, Option, none, some, List, [], ◌∷◌, ◌++◌, map, take, any, ltb, ◌||◌,
  if◌then◌else◌,
}
use rationale.Prelude.Int.{ℤ}
use rationale.Result.{Result, Done, ok, err, ◌>>=◌, ◌>>◌, fail_if, ok_or}
use rationale.Order.{list_ord, nat_ord}
use rationale.Map.{Map, insert, contains_key, or_insert, values}
use rationale.Set.{Set, add, extend}
use rationale.Text.{Text, codes, len, is_empty, trim, text_eq}
use rationale.Text.Decimal.{print}
use rationale.Model.{
  protocol_version, NodeKind, EdgeKind, RecordStatus, SourceKind, Origin, EvidenceNode,
  EvidenceEdge, Conflict, ProofGoal, KernelRequest, KernelResponse, proof, error, Verdict, Gap,
}
use rationale.Git.{
  GitEvidenceError, invalid_target, CommitEvidence, LineAttribution, PathChange, ResolvedLines,
  ResolvedTarget, commit, lines, WorkingChange, WorkingChangeKind,
}
use rationale.Git.Target.{
  TargetSpec, InvalidTarget, too_long, bad_commit, no_location, empty_path, empty_revision,
  bad_line, zero_line, inverted, too_many_lines, max_target_bytes, max_target_lines, from_str,
}
use rationale.Store.Types.{StoreError, SourceState, SliceLimits, GraphSlice, Db, Json}
use rationale.Store.Read.{
  load_current_slice, load_current_proof_slice, load_snapshot_records, current_record,
}
use rationale.Protocol.Worker.Config.{Reason}
use rationale.Engine.Candidate.{CandidateQuery, CandidateView, rank_candidates}
use rationale.Engine.Evidence.{Library, commit_node, commit_reference_edges, evidence_edge}
use rationale.Engine.Sync.{freshness_text}
use rationale.Engine.Attach.{request_of}
use rationale.Engine.Suggest.{proof_needs_candidates, candidates_for_response}
use rationale.Engine.Types.{
  EngineError, git, store, proof_unavailable, no_snapshot, invalid_query, FreshnessView, WhyResult,
  ChangedGap, Services,
}

abbrev pub proof_limits : SliceLimits
proof_limits = record { max_nodes = 4000; max_edges = 16384; max_conflicts = 4096 }

-- `MAX_CANDIDATE_QUERY_BYTES`, `MAX_RECORD_ID_BYTES`
abbrev pub max_candidate_query_bytes : ℕ
max_candidate_query_bytes = 4096

abbrev pub max_record_id_bytes : ℕ
max_record_id_bytes = 128

pub record CandidateSearchResult : Type 0 where
  pub query : Text
  pub candidates : List CandidateView
  pub freshness : List FreshnessView

-- The failures of a layer below, as the engine's: `From` for `EngineError`.
abbrev pub raise {ℓ} :
    {A : Type ℓ} {E : Type 0} → (E → EngineError) → Result A E → Result A EngineError
raise wrap (ok a) = ok a
raise wrap (err e) = err (wrap e)

-- The detail of an invalid target.
pub detail_of : InvalidTarget → Text
detail_of too_long = codes "target exceeds " ++ print max_target_bytes ++ codes " bytes"
detail_of bad_commit = codes "commit target requires one non-empty revision"
detail_of no_location = codes "line target must use path:start[-end][@revision]"
detail_of empty_path = codes "line target path is empty"
detail_of empty_revision = codes "historical line target has an empty revision"
detail_of (bad_line value) = codes "invalid one-based line number: " ++ value
detail_of zero_line = codes "line numbers are one-based"
detail_of inverted = codes "line range starts after it ends"
detail_of too_many_lines = codes "line range exceeds " ++ print max_target_lines ++ codes " lines"

unfoldable pub validate_input : Text → Text → ℕ → Done EngineError
validate_input value name max_bytes = do
  fail_if (is_empty value) (invalid_query (name ++ codes " must not be empty"))
  fail_if (ltb max_bytes (len value))
      (invalid_query (name ++ codes " exceeds " ++ print max_bytes ++ codes " bytes"))

unfoldable pub proof_seed_ids : ResolvedTarget → List Text
proof_seed_ids (commit root c) = c.id ∷ []
proof_seed_ids (lines l) = extend [] (map (λ a. a.commit_id) l.introduced_by)

pub freshness_view : SourceState → FreshnessView
freshness_view source = record {
  source_id = source.source_id;
  source_kind = source.source_kind;
  freshness = freshness_text source.freshness;
  observed_at = source.observed_at;
}

-- `WhyResult::has_stale_source`
unfoldable pub has_stale_source : WhyResult → Bool
has_stale_source result = any (λ view. text_eq view.freshness (codes "stale")) result.freshness

unfoldable pub changed_gap : WorkingChange → ChangedGap
changed_gap change = record {
  path = change.path;
  code = elim change.kind [
    | WorkingChangeKind.added ↦ codes "working_copy_unattributed"
    | WorkingChangeKind.modified ↦ codes "working_copy_modified"
    | WorkingChangeKind.deleted ↦ codes "working_copy_deleted"
    | WorkingChangeKind.renamed ↦ codes "working_copy_renamed"
    | WorkingChangeKind.conflicted ↦ codes "working_copy_conflicted"
  ];
}

-- `Engine::gaps_changed`, of the resolver's answer.
unfoldable pub gaps_changed :
    Result (List WorkingChange) GitEvidenceError → Result (List ChangedGap) EngineError
unfolding changed_gap
gaps_changed changes = raise git changes >>= λ found. ok (map changed_gap found)

-- `Engine::show`
unfoldable pub show : Json → Text → Option Db → Result (Option EvidenceNode) EngineError
unfolding validate_input current_record
show json record_id file = do
  validate_input record_id (codes "record identifier") max_record_id_bytes
  db ← ok_or file no_snapshot
  raise store (current_record json record_id db)

-- `Engine::search_candidates`
unfoldable pub search_candidates :
    Json → (Text → Option ℤ) → Text → Option Db → Result CandidateSearchResult EngineError
unfolding validate_input load_current_slice rank_candidates freshness_view
search_candidates json parse_second asked file = do
  let query = trim asked
  validate_input query (codes "candidate query") max_candidate_query_bytes
  db ← ok_or file no_snapshot
  found ← raise store (load_current_slice json proof_limits db)
  slice ← ok_or found no_snapshot
  ok (record {
    query = query;
    candidates =
        rank_candidates parse_second (record { exact = query; text = query; path = none })
          slice.nodes [];
    freshness = map freshness_view slice.sources;
  })

-- The layers that a query calls: Git's resolver, the proof worker, and the parser of timestamps.
pub record Lookup : Type 0 where
  pub services : Services
  pub resolve_for_proof : TargetSpec → Result ResolvedTarget GitEvidenceError
  pub resolve : TargetSpec → Result ResolvedTarget GitEvidenceError
  pub evaluate : KernelRequest → Result KernelResponse Reason
  pub parse_second : Text → Option ℤ

-- The full evidence of the target and the records, read again when candidates are needed.
unfoldable pub candidate_inputs :
    Lookup
    → TargetSpec
    → ResolvedTarget
    → Text
    → KernelResponse
    → Db
    → Result (ResolvedTarget × List EvidenceNode) EngineError
unfolding proof_needs_candidates load_snapshot_records
candidate_inputs k parsed evidence snapshot_id response db =
    elim (proof_needs_candidates response) [
      | false ↦ ok (evidence, [])
      | true ↦ do
        full ← raise git (k.resolve parsed)
        records ← raise store (load_snapshot_records k.services.json snapshot_id 4000 db)
        ok (full, records)
    ]

-- `why` behind the resolution of the target.
unfoldable pub why_resolved :
    Lookup → Text → TargetSpec → ResolvedTarget → Db → Result WhyResult EngineError
unfolding proof_seed_ids load_current_proof_slice request_of candidate_inputs
    candidates_for_response freshness_view
why_resolved k target parsed evidence db = do
  found ←
      raise store
        (load_current_proof_slice k.services.json (proof_seed_ids evidence) proof_limits db)
  slice ← ok_or found no_snapshot
  response ←
      raise proof_unavailable (k.evaluate (request_of k.services.library target evidence slice))
  inputs ← candidate_inputs k parsed evidence slice.snapshot_id response db
  ok (record {
    target = target;
    response = response;
    candidates = candidates_for_response k.parse_second response target inputs.0 inputs.1;
    freshness = map freshness_view slice.sources;
  })

-- `Engine::why`
unfoldable pub why : Lookup → Text → Option Db → Result WhyResult EngineError
unfolding validate_input from_str detail_of why_resolved
why k target file = do
  validate_input target (codes "target") max_target_bytes
  parsed ← raise (λ e. git (invalid_target (detail_of e))) (from_str target)
  evidence ← raise git (k.resolve_for_proof parsed)
  db ← ok_or file no_snapshot
  why_resolved k target parsed evidence db
