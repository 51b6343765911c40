-- ===== src/Engine/Candidate/Scores.antt =====
-- The scores of candidates: bounds, what dominates what, and the age buckets.
use rationale.Prelude.{◌<◌, ◌*◌, ◌+◌, ◌≤◌, ◌≡◌, true, false, Option, none, some, arith}
use rationale.Prelude.Int.{ℤ, ◌≤ℤ◌, saturating_sub}
use rationale.Model.{EvidenceNode}
use rationale.Engine.Candidate.{
  CandidateScoreComponents, from_bool, score_v1, Ranking, components_of, overlap, recency_bucket,
  age_of, age_bucket,
}

pub recency_bucket-le : (newest : ℤ) (o : Option ℤ) → recency_bucket newest o ≤ 4
unfolding recency_bucket
recency_bucket-le newest none = omega arith
recency_bucket-le newest (some t) = ground arith

saturating_sub_anti : (newest s t : ℤ) → s ≤ℤ t → saturating_sub newest t ≤ℤ saturating_sub newest s
unfolding saturating_sub
saturating_sub_anti newest s t h = ground arith

age_of_anti : (newest s t : ℤ) → s ≤ℤ t → age_of newest t ≤ℤ age_of newest s
unfolding age_of
age_of_anti newest s t h = ground (arith, saturating_sub_anti newest s t)

age_bucket_anti : (a b : ℤ) → a ≤ℤ b → age_bucket b ≤ age_bucket a
unfolding age_bucket
age_bucket_anti a b h = ground arith

-- A later time never falls into a lower bucket.
pub recency_bucket_mono :
    (newest s t : ℤ) → s ≤ℤ t → recency_bucket newest (some s) ≤ recency_bucket newest (some t)
unfolding recency_bucket
recency_bucket_mono newest s t h =
    ground (arith, age_bucket_anti (age_of newest t) (age_of newest s) (age_of_anti newest s t h))

-- The bounds of the components, as the fields' documentation gives them.
pub record IsBounded (c : CandidateScoreComponents) : Type 0 where
  pub tokens : c.token_overlap ≤ 8
  pub segments : c.path_segment_overlap ≤ 4
  pub recency : c.source_recency ≤ 4

pub components_of-IsBounded : (k : Ranking) (r : EvidenceNode) → IsBounded (components_of k r)
unfolding components_of overlap
components_of-IsBounded k r = record {
  tokens = omega arith;
  segments = omega arith;
  recency = recency_bucket-le k.newest _;
}

score_parts :
    (c : CandidateScoreComponents)
    → IsBounded c
    → (from_bool c.exact_identifier * 1000 ≤ score_v1 c)
      × (score_v1 c ≤ from_bool c.exact_identifier * 1000 + 884)
unfolding score_v1
score_parts c b = ground arith

-- A record whose identifier is asked for outranks every record whose identifier is not, whatever
-- tokens, path segments and age they have, and no score is above 1884.
pub exact_outranks :
    (k : Ranking) (r s : EvidenceNode)
    → (components_of k r).exact_identifier ≡ true
    → (components_of k s).exact_identifier ≡ false
    → (score_v1 (components_of k s) < score_v1 (components_of k r))
      × (score_v1 (components_of k r) ≤ 1884)
exact_outranks k r s e f = ground (
  arith,
  score_parts (components_of k r) (components_of-IsBounded k r),
  score_parts (components_of k s) (components_of-IsBounded k s),
)
