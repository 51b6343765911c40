-- ===== src/Github/Normalize.antt =====
-- crates/rationale-github/src/normalize.rs: issues, pull requests and their commits as evidence.
pub mod Closed
use rationale.Prelude.{
  ℕ, Bool, true, false, not, ◌^◌, ◌||◌, ◌==◌, Option, none, some, List, [], ◌∷◌, ◌++◌, map, any,
  keep, if◌then◌else◌,
}
use rationale.Order.{list_ord, nat_ord}
use rationale.Map.{Map, get, insert, or_insert, values}
use rationale.Set.{Set, add, has, extend}
use rationale.Text.{
  Text, codes, text_eq, is_ascii_alphabetic, to_ascii_lowercase, strip_prefix, trim_matches,
}
use rationale.Text.Split.{split_whitespace}
use rationale.Text.Decimal.{parse_unsigned, print}
use rationale.Model.{
  NodeKind, EdgeKind, RecordStatus, SourceKind, Origin, EvidenceNode, EvidenceEdge,
}
use rationale.Github.{RateLimit, GithubCursor, GithubEvidence}
use rationale.Github.Remote.{GithubRepository, slug}
use rationale.Engine.Evidence.{Library, evidence_edge}

pub record ApiItem : Type 0 where
  pub number : ℕ
  pub body : Option Text
  pub html_url : Text
  -- `pull_request.is_some()`
  pub is_pull : Bool

pub record ApiCommit : Type 0 where
  pub sha : Text
  pub html_url : Text

abbrev pub github_origin : Text → Origin
github_origin locator = record {
  source_kind = SourceKind.github;
  locator = locator;
  revision = none;
  observed_at = none;
}

abbrev pub issue_id : ℕ → Text
issue_id number = b'#' ∷ print number

abbrev pub pull_id : ℕ → Text
pull_id number = codes "PR-" ++ print number

abbrev pub u64_limit : ℕ
u64_limit = 2 ^ 64

-- `number.parse().ok()`
abbrev pub parse_number : Text → Option ℕ
parse_number = parse_unsigned u64_limit

unfoldable pub parse_reference : Text → GithubRepository → Option ℕ
unfolding strip_prefix slug parse_unsigned to_ascii_lowercase
parse_reference reference repository = elim (strip_prefix (codes "#") reference) [
  | some number ↦ parse_number number
  | none ↦ elim (strip_prefix (slug repository ++ codes "#") (to_ascii_lowercase reference)) [
    | some number ↦ parse_number number
    | none ↦
        elim (strip_prefix (codes "https://github.com/" ++ slug repository ++ codes "/issues/")
          (to_ascii_lowercase reference)) [ some number ↦ parse_number number | none ↦ none ]
  ]
]

abbrev pub closing_keywords : List Text
closing_keywords =
    codes "close"
    ∷ codes "closes"
    ∷ codes "closed"
    ∷ codes "fix"
    ∷ codes "fixes"
    ∷ codes "fixed"
    ∷ codes "resolve"
    ∷ codes "resolves"
    ∷ codes "resolved"
    ∷ []

unfoldable pub is_closing : Text → Bool
unfolding trim_matches is_ascii_alphabetic to_ascii_lowercase
is_closing token =
    let keyword = to_ascii_lowercase (trim_matches (λ c. not (is_ascii_alphabetic c)) token) in
    any (text_eq keyword) closing_keywords

abbrev pub is_reference_mark : ℕ → Bool
is_reference_mark c = any (λ m. c == m) (codes ",.;:()[]")

-- The pairs of neighbouring tokens.
unfoldable pub closing_pairs : GithubRepository → Text → List Text → Set ℕ → Set ℕ
unfolding is_closing trim_matches parse_reference
closing_pairs repository first [] issues = issues
closing_pairs repository first (second ∷ rest) issues = closing_pairs repository second rest (
    if is_closing first
    then (elim (parse_reference (trim_matches is_reference_mark second) repository) [
      | some number ↦ add number issues
      | none ↦ issues
    ])
    else issues)

unfoldable pub explicit_closing_references : Text → GithubRepository → Set ℕ
unfolding closing_pairs split_whitespace
explicit_closing_references body repository = elim (split_whitespace body) [
  | [] ↦ []
  | first ∷ rest ↦ closing_pairs repository first rest []
]

abbrev pub Graph : Type 0
Graph = Map Text EvidenceNode × Map Text EvidenceEdge

abbrev pub remote_node : NodeKind → Text → Origin → EvidenceNode
remote_node kind id origin = record {
  id = id;
  kind = kind;
  status = RecordStatus.current;
  subject_id = none;
  outcome_id = none;
  origin = origin;
}

abbrev pub link : EvidenceEdge → Graph → Graph
link e g = (g.0, insert e.id e g.1)

-- The edges to the issues of the batch that a pull request closes.
unfoldable pub resolve_issues : Library → Set ℕ → Text → Origin → List ℕ → Graph → Graph
unfolding evidence_edge
resolve_issues lib known id origin [] g = g
resolve_issues lib known id origin (n ∷ ns) g = resolve_issues lib known id origin ns (
    if has n known
    then link (evidence_edge lib EdgeKind.resolves_issue id (issue_id n) origin) g
    else g)

-- The commits of a pull request.
unfoldable pub include_commits : Library → Text → Origin → List ApiCommit → Graph → Graph
unfolding evidence_edge
include_commits lib id origin [] g = g
include_commits lib id origin (c ∷ cs) g = include_commits lib id origin cs (
    link (evidence_edge lib EdgeKind.included_in_pr c.sha id origin)
      (or_insert c.sha (remote_node NodeKind.change c.sha (github_origin c.html_url)) g.0, g.1))

abbrev pub or_empty : Option Text → Text
or_empty none = []
or_empty (some body) = body

abbrev pub commits_of : Option (List ApiCommit) → List ApiCommit
commits_of none = []
commits_of (some cs) = cs

-- One item of the batch.
unfoldable pub add_item :
    Library → GithubRepository → Set ℕ → Map ℕ (List ApiCommit) → ApiItem → Graph → Graph
unfolding resolve_issues include_commits explicit_closing_references
add_item lib repository known commits item g =
    let origin = github_origin item.html_url in
    let id = if item.is_pull then pull_id item.number else issue_id item.number in
    let kind = if item.is_pull then NodeKind.review else NodeKind.work_item in
    let g' : Graph = (insert id (remote_node kind id origin) g.0, g.1) in
    if item.is_pull
    then include_commits lib id origin (commits_of (get item.number commits)) (
        resolve_issues lib known id origin
          (explicit_closing_references (or_empty item.body) repository) g')
    else g'

unfoldable pub add_items :
    Library → GithubRepository → Set ℕ → Map ℕ (List ApiCommit) → List ApiItem → Graph → Graph
unfolding add_item
add_items lib repository known commits [] g = g
add_items lib repository known commits (item ∷ items) g =
    add_items lib repository known commits items (add_item lib repository known commits item g)

abbrev pub issue_numbers : List ApiItem → Set ℕ
issue_numbers items = extend [] (map (λ i. i.number) (keep (λ i. not i.is_pull) items))

unfoldable pub build_evidence :
    Library
    → GithubRepository
    → List ApiItem
    → Map ℕ (List ApiCommit)
    → GithubCursor
    → RateLimit
    → GithubEvidence
unfolding add_items
build_evidence lib repository items commits cursor rate_limit =
    let g = add_items lib repository (issue_numbers items) commits items ([], []) in
    record { records = values g.0; edges = values g.1; cursor = cursor; rate_limit = rate_limit }
