-- ===== src/Engine/Query/Tests.antt =====
-- crates/rationale-engine/src/lib.rs at a concrete query: a commit with a partial proof, and a decision
-- that shares a word with it.
use rationale.Prelude.{true, ◌≡◌, refl, ◌≤◌, none, some, List, [], ◌∷◌, All, length}
use rationale.Prelude.Int.{pos}
use rationale.Result.{Result, ok, err}
use rationale.Order.{list_ord, nat_ord, pair_ord}
use rationale.Map.{Map, contains_key, insert}
use rationale.Text.{Text, codes}
use rationale.Model.{
  NodeKind, EdgeKind, RecordStatus, SourceKind, EvidenceNode, EvidenceEdge, KernelResponse, proof,
  Verdict, GapCode,
}
use rationale.Git.{ResolvedTarget, commit, lines, CommitEvidence, TargetState, ReferenceKind}
use rationale.Store.Types.{SnapshotPhase, Db, Json}
use rationale.Store.Session.Closed.{empty_db}
use rationale.Engine.Types.{Services, WhyResult}
use rationale.Engine.Evidence.{Library}
use rationale.Engine.Candidate.{max_candidates}
use rationale.Engine.Attach.{attach_target}
use rationale.Engine.Attach.Joined.{IsJoined, attach_target-IsJoined}
use rationale.Engine.Suggest.{candidates_for_response}
use rationale.Engine.Suggest.New.{IsNew, candidates_for_response-IsNew}
use rationale.Engine.Query.{Lookup, why}
use rationale.Engine.Query.Answers.{Answers, why-Answers}

abbrev record_of : NodeKind → Text → EvidenceNode
record_of kind id = record {
  id = id;
  kind = kind;
  status = RecordStatus.current;
  subject_id = none;
  outcome_id = none;
  origin = record {
    source_kind = SourceKind.git;
    locator = codes "p";
    revision = none;
    observed_at = none;
  };
}

abbrev change : CommitEvidence
change = record {
  id = codes "f";
  summary = codes "adr";
  committed_at = pos 0;
  parent_ids = [];
  references = record { kind = ReferenceKind.decision; value = codes "adr" } ∷ [];
}

abbrev library : Library
library = record { hash_hex = λ t. t; timestamp_text = λ s. none }

-- A JSON library that knows records by their identifiers.
abbrev json : Json
json = record {
  node_text = λ n. some n.id;
  edge_text = λ e. some e.id;
  conflict_text = λ k. some k.rule_id;
  origin_text = λ o. some o.locator;
  read_node = λ t. some (record_of NodeKind.decision t);
  read_edge = λ t. none;
  read_conflict = λ t. none;
  read_origin = λ t. none;
}

abbrev services : Services
services = record {
  library = library;
  json = json;
  node_json = λ n. n.id;
  edge_json = λ e. e.id;
  conflict_json = λ k. k.rule_id;
  source_kind_json = λ k. [];
  encode_cursor = λ c. none;
  now = codes "t";
}

-- One snapshot with the commit and a decision.
abbrev stored : Db
stored = record empty_db {
  records =
      (codes "adr", record { content_json = codes "adr"; origin_json = []; created_at = [] })
      ∷ (codes "f", record { content_json = codes "f"; origin_json = []; created_at = [] })
      ∷ [];
  snapshots =
      (
        codes "s",
        record { created_at = []; published_at = some []; state = SnapshotPhase.published },
      )
      ∷ [];
  snapshot_records = (codes "s", codes "adr") ∷ (codes "s", codes "f") ∷ [];
  current_snapshot = some (codes "s");
}

abbrev partly_proved : KernelResponse
partly_proved = proof 1 (codes "q") (codes "s") (record {
  verdict = Verdict.partial;
  proof_chains = [];
  gaps =
      record { code = GapCode.change_to_review; from_node_id = some (codes "f"); to_kind = none }
      ∷ [];
  conflicts = [];
})

abbrev lookup : Lookup
lookup = record {
  services = services;
  resolve_for_proof = λ t. ok (commit [] change);
  resolve = λ t. ok (commit [] change);
  evaluate = λ r. ok partly_proved;
  parse_second = λ t. none;
}

abbrev or_result : {E : Type 0} → Result WhyResult E → WhyResult → WhyResult
or_result (ok r) other = r
or_result (err e) other = other

abbrev empty_result : WhyResult
empty_result = record { target = []; response = partly_proved; candidates = []; freshness = [] }

abbrev asked : Text
asked = codes "commit:f"

abbrev answer : WhyResult
answer = or_result (why lookup asked (some stored)) empty_result

-- The query answers.
runs : why lookup asked (some stored) ≡ ok answer
unfolding why rationale.Engine.Query.validate_input rationale.Git.Target.from_str
    rationale.Engine.Query.why_resolved rationale.Engine.Query.proof_seed_ids
    rationale.Store.Read.load_current_proof_slice rationale.Store.Read.enforce_limit
    rationale.Store.Read.reachable rationale.Store.Read.reached_nodes
    rationale.Store.Read.reached_edges rationale.Store.Read.reached_conflicts
    rationale.Store.Publish.members rationale.Store.Read.load_rows rationale.Map.get
    rationale.Set.has rationale.Set.extend rationale.Engine.Query.candidate_inputs
    rationale.Engine.Suggest.proof_needs_candidates rationale.Store.Read.load_snapshot_records
    rationale.Engine.Suggest.candidates_for_response rationale.Engine.Candidate.rank_candidates
    rationale.Text.strip_prefix rationale.Git.Target.parse_commit rationale.Text.is_whitespace
    rationale.Store.Read.edge_rows rationale.Store.Read.conflict_ends
runs = refl

why-Answers_example : Answers lookup asked (some stored) answer
why-Answers_example = why-Answers lookup asked (some stored) answer runs

abbrev records : List EvidenceNode
records = record_of NodeKind.decision (codes "adr") ∷ record_of NodeKind.change (codes "f") ∷ []

candidates_for_response-IsNew_example :
    All
      (IsNew partly_proved (commit [] change))
      (candidates_for_response (λ t. none) partly_proved asked (commit [] change) records)
    × (length (candidates_for_response (λ t. none) partly_proved asked (commit [] change) records)
        ≤ max_candidates)
candidates_for_response-IsNew_example =
    candidates_for_response-IsNew (λ t. none) partly_proved asked (commit [] change) records

-- A slice with an edge, and a line target that a new commit introduced.
abbrev graph : Map Text EvidenceNode × Map Text EvidenceEdge
graph = (
  (codes "adr", record_of NodeKind.decision (codes "adr"))
      ∷ (codes "f", record_of NodeKind.change (codes "f"))
      ∷ [],
  (
    codes "e",
    record {
      id = codes "e";
      kind = EdgeKind.documents;
      source_id = codes "f";
      target_id = codes "adr";
      status = RecordStatus.current;
      origin = record {
        source_kind = SourceKind.git;
        locator = [];
        revision = none;
        observed_at = none;
      };
    },
  )
      ∷ [],
)

graph-IsJoined : IsJoined graph.0 graph.1
unfolding contains_key rationale.Map.get
graph-IsJoined = (refl, tt)

abbrev place : ResolvedTarget
place = lines (record {
  repository_root = [];
  path = codes "a.rs";
  start_line = 1;
  end_line = 2;
  revision = codes "g";
  state = TargetState.committed;
  introduced_by = record { line = 1; commit_id = codes "g"; original_path = codes "a.rs" } ∷ [];
  changed_by = [];
  history_complete = true;
})

attach_target-IsJoined_example :
    (contains_key (attach_target library place graph).0 (attach_target library place graph).1.0
      ≡ true)
    × IsJoined (attach_target library place graph).1.0 (attach_target library place graph).1.1
attach_target-IsJoined_example = attach_target-IsJoined library place graph graph-IsJoined
