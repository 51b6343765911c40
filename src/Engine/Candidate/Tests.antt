-- ===== src/Engine/Candidate/Tests.antt =====
-- crates/rationale-engine/src/candidate.rs at concrete records.
use rationale.Prelude.{
  ◌≤◌, ◌<◌, ◌≡◌, refl, ◌⊎◌, inl, inr, true, Option, none, some, List, [], ◌∷◌, All, In, length,
  arith,
}
use rationale.Prelude.Int.{ℤ, pos}
use rationale.Sort.{Ordered}
use rationale.Text.{Text, codes, len}
use rationale.Model.{EvidenceNode, RecordStatus, NodeKind, SourceKind}
use rationale.Engine.Candidate.{
  CandidateQuery, CandidateView, Ranking, components_of, score_v1, view_of, max_candidates,
  not_after, rank_candidates, recency_bucket,
}
use rationale.Engine.Candidate.Scores.{recency_bucket_mono, exact_outranks}
use rationale.Engine.Candidate.Selection.{
  IsCandidate, ranking_of, rank_candidates_sound, rank_candidates_complete,
}

abbrev node : Text → Option Text → EvidenceNode
node id time = record {
  id = id;
  kind = NodeKind.decision;
  status = RecordStatus.current;
  subject_id = none;
  outcome_id = none;
  origin = record {
    source_kind = SourceKind.document;
    locator = codes "docs/adr/one.md";
    revision = none;
    observed_at = time;
  };
}

-- A clock whose times are their texts' lengths.
abbrev clock : Text → Option ℤ
clock t = some (pos (len t))

abbrev query : CandidateQuery
query = record { exact = codes " DEC-1 "; text = codes "why adr"; path = some (codes "docs/x") }

abbrev first : EvidenceNode
first = node (codes "dec-1") (some (codes "yesterday"))

abbrev second : EvidenceNode
second = node (codes "dec-2") none

abbrev records : List EvidenceNode
records = second ∷ first ∷ []

abbrev ranking : Ranking
ranking = ranking_of clock query records []

recency_bucket_mono_example :
    recency_bucket (pos 1_000_000) (some (pos 5))
    ≤ recency_bucket (pos 1_000_000) (some (pos 900_000))
recency_bucket_mono_example =
    recency_bucket_mono (pos 1_000_000) (pos 5) (pos 900_000) (omega arith)

exact_outranks_example :
    (score_v1 (components_of ranking second) < score_v1 (components_of ranking first))
    × (score_v1 (components_of ranking first) ≤ 1884)
unfolding components_of rationale.Text.eq_ignore_ascii_case rationale.Text.trim
exact_outranks_example = exact_outranks ranking first second refl refl

rank_candidates_sound_example :
    All (IsCandidate ranking records) (rank_candidates clock query records [])
    × (length (rank_candidates clock query records []) ≤ max_candidates)
    × Ordered not_after (rank_candidates clock query records [])
rank_candidates_sound_example = rank_candidates_sound clock query records []

abbrev view : CandidateView
view = view_of first (components_of ranking first)

rank_candidates_complete_example :
    In view (rank_candidates clock query records [])
    ⊎ (All (λ u. not_after u view ≡ true) (rank_candidates clock query records [])
        × (length (rank_candidates clock query records []) ≡ max_candidates))
unfolding rank_candidates rationale.Set.has components_of rationale.Text.eq_ignore_ascii_case
    rationale.Text.trim
rank_candidates_complete_example =
    rank_candidates_complete clock query records [] first view (inr (inl refl)) refl
