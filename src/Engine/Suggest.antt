-- ===== src/Engine/Suggest.antt =====
-- crates/rationale-engine/src/lib.rs: what is suggested beside an answer.
pub mod New
use rationale.Prelude.{
  ℕ, Bool, true, false, Option, none, some, List, [], ◌∷◌, ◌++◌, map, take, any, ltb, ◌||◌,
  if◌then◌else◌,
}
use rationale.Prelude.Int.{ℤ}
use rationale.Result.{Result, Done, ok, err, ◌>>=◌, ◌>>◌, fail_if, ok_or}
use rationale.Order.{list_ord, nat_ord}
use rationale.Map.{Map, insert, contains_key, or_insert, values}
use rationale.Set.{Set, add, extend}
use rationale.Text.{Text, codes, len, is_empty, trim, text_eq}
use rationale.Text.Decimal.{print}
use rationale.Model.{
  protocol_version, NodeKind, EdgeKind, RecordStatus, SourceKind, Origin, EvidenceNode,
  EvidenceEdge, Conflict, ProofGoal, KernelRequest, KernelResponse, proof, error, Verdict, Gap,
}
use rationale.Git.{
  GitEvidenceError, invalid_target, CommitEvidence, LineAttribution, PathChange, ResolvedLines,
  ResolvedTarget, commit, lines,
}
use rationale.Git.Target.{
  TargetSpec, InvalidTarget, too_long, bad_commit, no_location, empty_path, empty_revision,
  bad_line, zero_line, inverted, too_many_lines, max_target_bytes, max_target_lines, from_str,
}
use rationale.Store.Types.{StoreError, SourceState, SliceLimits, GraphSlice, Db}
use rationale.Store.Read.{
  load_current_slice, load_current_proof_slice, load_snapshot_records, current_record,
}
use rationale.Protocol.Worker.Config.{Reason}
use rationale.Engine.Candidate.{CandidateQuery, CandidateView, rank_candidates}
use rationale.Engine.Evidence.{Library, commit_node, commit_reference_edges, evidence_edge}
use rationale.Engine.Sync.{freshness_text}
use rationale.Engine.Types.{
  EngineError, git, store, proof_unavailable, no_snapshot, invalid_query, FreshnessView, WhyResult,
  Services,
}

unfoldable pub proof_needs_candidates : KernelResponse → Bool
proof_needs_candidates (proof version request snapshot p) = elim p.verdict [
  | Verdict.partial ↦ true
  | Verdict.not_established ↦ true
  | _ ↦ false
]
proof_needs_candidates (error version request e) = false

-- The text, the path and the exclusions that the target's evidence gives to the ranking.
abbrev pub Hints : Type 0
Hints = Text × Option Text × Set Text

unfoldable pub push_summaries : List PathChange → Text → Text
push_summaries [] text = text
push_summaries (change ∷ rest) text = push_summaries rest (text ++ b'\n' ∷ change.commit.summary)

abbrev pub max_candidate_history_summaries : ℕ
max_candidate_history_summaries = 32

unfoldable pub gap_nodes : List Gap → List Text
gap_nodes [] = []
gap_nodes (gap ∷ gaps) = elim gap.from_node_id [
  | none ↦ gap_nodes gaps
  | some id ↦ id ∷ gap_nodes gaps
]

unfoldable pub hints : Text → ResolvedTarget → Set Text → Hints
unfolding push_summaries
hints target (commit root c) excluded = (target ++ b'\n' ∷ c.summary, none, add c.id excluded)
hints target (lines l) excluded = (
  push_summaries (take max_candidate_history_summaries l.changed_by) target,
  some l.path,
  extend excluded (map (λ a. a.commit_id) l.introduced_by),
)

unfoldable pub candidates_for_response :
    (Text → Option ℤ)
    → KernelResponse
    → Text
    → ResolvedTarget
    → List EvidenceNode
    → List CandidateView
unfolding hints gap_nodes
candidates_for_response parse_second (error version request e) target evidence records = []
candidates_for_response parse_second (proof version request snapshot p) target evidence records =
    elim p.verdict [
      | Verdict.established ↦ []
      | Verdict.conflicted ↦ []
      | _ ↦
          let h = hints target evidence (extend [] (gap_nodes p.gaps)) in
          rank_candidates parse_second (record { exact = target; text = h.0; path = h.1 }) records
            h.2
    ]
