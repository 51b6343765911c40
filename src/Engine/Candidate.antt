-- ===== src/Engine/Candidate.antt =====
-- crates/rationale-engine/src/candidate.rs and the views of crates/rationale-engine/src/lib.rs that
-- it fills: the ranking of candidate records.
pub mod Scores
pub mod Selection
mod Tests
use Prim.Native.Nat.Ordering.{gt}
use rationale.Prelude.{
  ℕ, ◌+◌, ◌*◌, Bool, true, false, not, ◌&&◌, ◌||◌, Option, none, some, List, [], ◌∷◌, ◌++◌, map,
  min, take, compare, Ordering, ltb, ◌==◌, if◌then◌else◌,
}
use rationale.Prelude.Int.{ℤ, pos, max_ℤ, leb_ℤ, saturating_sub}
use rationale.Order.{then_with, list_cmp, nat_ord, list_ord, is_le}
use rationale.Set.{Set, extend, has, count_common}
use rationale.Sort.{sort_by}
use rationale.Text.{
  Text, codes, is_empty, is_ascii_alphanumeric, to_ascii_lowercase, eq_ignore_ascii_case, trim,
}
use rationale.Text.Split.{split, split_once}
use rationale.Text.Decimal.{print}
use rationale.Model.{EvidenceNode, RecordStatus}

abbrev pub score_version : ℕ
score_version = 1

abbrev pub max_candidates : ℕ
max_candidates = 10

abbrev pub max_token_overlap : ℕ
max_token_overlap = 8

abbrev pub max_path_overlap : ℕ
max_path_overlap = 4

abbrev pub day_seconds : ℕ
day_seconds = 86_400

pub record CandidateScoreComponents : Type 0 where
  pub exact_identifier : Bool
  pub token_overlap : ℕ
  pub path_segment_overlap : ℕ
  pub source_recency : ℕ

abbrev pub from_bool : Bool → ℕ
from_bool true = 1
from_bool false = 0

-- `CandidateScoreComponents::score_v1`
unfoldable pub score_v1 : CandidateScoreComponents → ℕ
score_v1 c =
    from_bool c.exact_identifier * 1000
    + c.token_overlap * 100
    + c.path_segment_overlap * 20
    + c.source_recency

pub record CandidateView : Type 0 where
  pub record_id : Text
  pub score_version : ℕ
  pub score : ℕ
  pub components : CandidateScoreComponents
  pub reason : Text

pub record CandidateQuery : Type 0 where
  pub exact : Text
  pub text : Text
  pub path : Option Text

abbrev optional : Option Text → List Text
optional none = []
optional (some t) = t ∷ []

-- Each value behind a space.
join_spaced : List Text → Text
join_spaced [] = []
join_spaced (v ∷ vs) = b' ' ∷ v ++ join_spaced vs

pub record_text : EvidenceNode → Text
unfolding join_spaced
record_text r =
    r.id ++ join_spaced (optional r.subject_id ++ optional r.outcome_id ++ r.origin.locator ∷ [])

-- `filter(|t| !t.is_empty()).map(to_ascii_lowercase)`
lower_nonempty : List Text → List Text
lower_nonempty [] = []
lower_nonempty (t ∷ ts) =
    let rest = lower_nonempty ts in if is_empty t then rest else to_ascii_lowercase t ∷ rest

pub tokens : Text → Set Text
unfolding lower_nonempty
tokens text = extend [] (lower_nonempty (split (λ c. not (is_ascii_alphanumeric c)) text))

before_fragment : Text → Text
before_fragment path = elim (split_once b'#' path) [ some (p, fragment) ↦ p | none ↦ path ]

pub path_segments : Text → Set Text
unfolding lower_nonempty before_fragment
path_segments path =
    extend [] (lower_nonempty (map trim (split (λ c. c == b'/') (before_fragment path))))

pub overlap : Set Text → Set Text → ℕ → ℕ
overlap left right limit = min (count_common left right) limit

-- A stored time as seconds. The parser of timestamps is the argument.
pub observed_second : (Text → Option ℤ) → EvidenceNode → Option ℤ
observed_second parse_second r = elim r.origin.observed_at [
  | none ↦ none
  | some value ↦ parse_second value
]

days : ℕ → ℤ
days n = pos (n * day_seconds)

-- The ladder of ages.
pub age_bucket : ℤ → ℕ
unfolding days
age_bucket age =
    if leb_ℤ age (days 7)
    then 4
    else if leb_ℤ age (days 30)
    then 3
    else if leb_ℤ age (days 180)
    then 2
    else from_bool (leb_ℤ age (days 365))

-- `newest.saturating_sub(observed).max(0)`
pub age_of : ℤ → ℤ → ℤ
age_of newest observed = max_ℤ (saturating_sub newest observed) (pos 0)

unfoldable pub recency_bucket : ℤ → Option ℤ → ℕ
unfolding age_bucket age_of
recency_bucket newest none = 0
recency_bucket newest (some observed) =
    if leb_ℤ newest (pos 0) then 0 else age_bucket (age_of newest observed)

-- `reasons.join(", ")`
join_comma : List Text → Text
join_comma [] = []
join_comma (t ∷ []) = t
join_comma (t ∷ u ∷ ts) = t ++ codes ", " ++ join_comma (u ∷ ts)

abbrev when : Bool → Text → List Text
when true t = t ∷ []
when false t = []

pub reason : CandidateScoreComponents → Text
unfolding join_comma
reason c = join_comma (
    when c.exact_identifier (codes "exact identifier")
    ++ when (ltb 0 c.token_overlap) (print c.token_overlap ++ codes " exact tokens")
    ++ when (ltb 0 c.path_segment_overlap) (print c.path_segment_overlap ++ codes " path segments")
    ++ when (ltb 0 c.source_recency) (codes "recency bucket " ++ print c.source_recency))

-- `records.iter().filter_map(observed_second).max()`
pub newest_of : (Text → Option ℤ) → List EvidenceNode → Option ℤ
newest_of parse_second [] = none
newest_of parse_second (r ∷ rs) = elim (observed_second parse_second r) [
  | none ↦ newest_of parse_second rs
  | some t ↦ elim (newest_of parse_second rs) [ none ↦ some t | some u ↦ some (max_ℤ t u) ]
]

abbrev pub or_zero : Option ℤ → ℤ
or_zero none = pos 0
or_zero (some t) = t

abbrev pub segments_of : Option Text → Set Text
segments_of none = []
segments_of (some path) = path_segments path

abbrev pub is_historical : RecordStatus → Bool
is_historical RecordStatus.historical = true
is_historical RecordStatus.current = false

-- The inputs of one ranking: the timestamp parser, the query, the newest time and what is excluded.
pub record Ranking : Type 0 where
  pub parse_second : Text → Option ℤ
  pub query : CandidateQuery
  pub newest : ℤ
  pub excluded : Set Text

pub components_of : Ranking → EvidenceNode → CandidateScoreComponents
components_of k r = record {
  exact_identifier = eq_ignore_ascii_case (trim k.query.exact) r.id;
  token_overlap = overlap (tokens k.query.text) (tokens (record_text r)) max_token_overlap;
  path_segment_overlap =
      overlap (segments_of k.query.path) (path_segments r.origin.locator) max_path_overlap;
  source_recency = recency_bucket k.newest (observed_second k.parse_second r);
}

pub is_relevant : CandidateScoreComponents → Bool
is_relevant c = not (not c.exact_identifier && c.token_overlap == 0 && c.path_segment_overlap == 0)

unfoldable pub view_of : EvidenceNode → CandidateScoreComponents → CandidateView
view_of r c = record {
  record_id = r.id;
  score_version = score_version;
  score = score_v1 c;
  components = c;
  reason = reason c;
}

-- The body of the loop: the record's view, or `continue`.
pub consider : Ranking → EvidenceNode → Option CandidateView
unfolding is_relevant view_of
consider k r =
    if has r.id k.excluded || is_historical r.status
    then none
    else (let c = components_of k r in if is_relevant c then some (view_of r c) else none)

pub consider_all : Ranking → List EvidenceNode → List CandidateView
consider_all k [] = []
consider_all k (r ∷ rs) = elim (consider k r) [
  | none ↦ consider_all k rs
  | some v ↦ v ∷ consider_all k rs
]

-- `right.score.cmp(left.score).then_with(|| left.record_id.cmp(right.record_id))`
unfoldable pub not_after : CandidateView → CandidateView → Bool
not_after left right =
    is_le (then_with (compare right.score left.score) (list_cmp left.record_id right.record_id))

unfoldable pub rank_candidates :
    (Text → Option ℤ) → CandidateQuery → List EvidenceNode → Set Text → List CandidateView
unfolding consider_all consider not_after
rank_candidates parse_second query records excluded =
    let k : Ranking = record {
      parse_second = parse_second;
      query = query;
      newest = or_zero (newest_of parse_second records);
      excluded = excluded;
    } in
    take max_candidates (sort_by not_after (consider_all k records))
