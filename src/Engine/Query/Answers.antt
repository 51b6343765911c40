-- ===== src/Engine/Query/Answers.antt =====
-- crates/rationale-engine/src/lib.rs: an answer of `why` is the proof worker's, about the current
-- snapshot and the target.
use rationale.Prelude.{
  ℕ, true, false, ◌≡◌, refl, sym, ap, ◌∙◌, ◌⊎◌, inl, inr, Option, none, some, List, [], All,
  All-of_In, length, ◌≤◌, ltb, map, Bool-cases, arith,
}
use rationale.Result.{Result, ok, err, fail_if, ok_or, bind-ok}
use rationale.Order.{list_ord, nat_ord}
use rationale.Set.{has, has-here}
use rationale.Docs.Normalize.Owned.{fail_if-ok}
use rationale.Text.{Text, codes, len, is_empty}
use rationale.Model.{KernelRequest, KernelResponse, EvidenceNode}
use rationale.Git.{invalid_target, ResolvedTarget, commit, lines}
use rationale.Git.Target.{TargetSpec, InvalidTarget, max_target_bytes, from_str}
use rationale.Store.Types.{GraphSlice, Db}
use rationale.Store.Read.{load_current_proof_slice, load_snapshot_records}
use rationale.Store.Read.Limits.{IsWithin, load-IsWithin, load_current_proof_slice-snapshot}
use rationale.Engine.Candidate.{max_candidates}
use rationale.Engine.Attach.{request_of}
use rationale.Engine.Attach.Request.{IsRequest, request_of-IsRequest}
use rationale.Engine.Suggest.{proof_needs_candidates, candidates_for_response}
use rationale.Engine.Suggest.New.{IsNew, commits_of, has-extend-In, candidates_for_response-IsNew}
use rationale.Engine.Types.{EngineError, git, store, proof_unavailable, no_snapshot, WhyResult}
use rationale.Engine.Query.{
  raise, detail_of, validate_input, proof_seed_ids, proof_limits, freshness_view, Lookup,
  candidate_inputs, why_resolved, why,
}

raise-ok :
    {A E : Type 0} (wrap : E → EngineError) (m : Result A E) (a : A)
    → raise wrap m ≡ ok a
    → m ≡ ok a
raise-ok wrap (ok b) a h = ap (λ b. ok b) (ground (arith))
raise-ok wrap (err e) a h = ground (arith)

ok_or-ok : {A : Type 0} (o : Option A) (e : EngineError) (a : A) → ok_or o e ≡ ok a → o ≡ some a
ok_or-ok none e a h = ground (arith)
ok_or-ok (some b) e a h = ground (arith)

-- The target, what it resolves to, the slice for it, the request to the worker and the worker's answer.
pub record Answers (k : Lookup) (target : Text) (file : Option Db) (result : WhyResult)
    : Type 0 where
  pub not_empty : is_empty target ≡ false
  pub bounded : len target ≤ max_target_bytes
  pub db : Db
  pub parsed : TargetSpec
  pub evidence : ResolvedTarget
  pub slice : GraphSlice
  pub request : KernelRequest
  pub opened : file ≡ some db
  pub parses : from_str target ≡ ok parsed
  pub resolves : k.resolve_for_proof parsed ≡ ok evidence
  pub seeded : All (λ id. has id (proof_seed_ids evidence) ≡ true) (commits_of evidence)
  pub loads :
      load_current_proof_slice k.services.json (proof_seed_ids evidence) proof_limits db
      ≡ ok (some slice)
  pub current : db.current_snapshot ≡ some request.snapshot_id
  pub within : IsWithin proof_limits slice
  pub asks : IsRequest evidence slice request
  pub evaluates : k.evaluate request ≡ ok result.response
  pub same_target : result.target ≡ target
  pub same_freshness : result.freshness ≡ map freshness_view slice.sources
  pub suggests :
      (full : ResolvedTarget) × All (IsNew result.response full) result.candidates
      × ((full ≡ evidence) ⊎ (k.resolve parsed ≡ ok full))
  pub few : length result.candidates ≤ max_candidates

-- The commits of the target are the seeds of its slice.
proof_seed_ids-seeded :
    (evidence : ResolvedTarget)
    → All (λ id. has id (proof_seed_ids evidence) ≡ true) (commits_of evidence)
unfolding proof_seed_ids
proof_seed_ids-seeded (commit root c) = (has-here c.id [], tt)
proof_seed_ids-seeded (lines l) =
    let ids = map (λ a. a.commit_id) l.introduced_by in
    All-of_In _ ids (λ id m. has-extend-In id [] ids m)

validate_input-bounds :
    (value name : Text) (limit : ℕ)
    → validate_input value name limit ≡ ok tt
    → (is_empty value ≡ false) × (len value ≤ limit)
unfolding validate_input
validate_input-bounds value name limit h =
    let (u, first, second) = bind-ok (fail_if (is_empty value) _) _ tt h in
    let short = fail_if-ok (ltb limit (len value)) _ second in
    (fail_if-ok (is_empty value) _ first, ground (arith))

candidate_inputs-full :
    (k : Lookup) (parsed : TargetSpec) (evidence : ResolvedTarget) (id : Text)
    (response : KernelResponse) (db : Db) (inputs : ResolvedTarget × List EvidenceNode)
    → candidate_inputs k parsed evidence id response db ≡ ok inputs
    → (inputs.0 ≡ evidence) ⊎ (k.resolve parsed ≡ ok inputs.0)
unfolding candidate_inputs
candidate_inputs-full k parsed evidence id response db inputs h =
    elim (Bool-cases (proof_needs_candidates response)) [
      | inr b ↦ inl (ground (arith))
      | inl b ↦
          let (full, e, g) =
            bind-ok (raise git (k.resolve parsed)) _ inputs (rw (b, candidate_inputs) at h) in
          let (records, f, g) =
            bind-ok (raise store (load_snapshot_records k.services.json id 4000 db)) _ inputs g in
          let same : full ≡ inputs.0 = ground (arith) in
          inr (rw (← same) (raise-ok git (k.resolve parsed) full e))
    ]

resolved-Answers :
    (k : Lookup) (target : Text) (parsed : TargetSpec) (evidence : ResolvedTarget) (db : Db)
    (result : WhyResult)
    → (is_empty target ≡ false) × (len target ≤ max_target_bytes)
    → from_str target ≡ ok parsed
    → k.resolve_for_proof parsed ≡ ok evidence
    → why_resolved k target parsed evidence db ≡ ok result
    → Answers k target (some db) result
unfolding why_resolved
resolved-Answers k target parsed evidence db result bounds parses resolves h =
    let loading =
      load_current_proof_slice k.services.json (proof_seed_ids evidence) proof_limits db in
    let (found, loads, h) = bind-ok (raise store loading) _ result h in
    let (slice, there, h) = bind-ok (ok_or found no_snapshot) _ result h in
    let request = request_of k.services.library target evidence slice in
    let (response, evaluates, h) =
      bind-ok (raise proof_unavailable (k.evaluate request)) _ result h in
    let (inputs, read, h) =
      bind-ok (candidate_inputs k parsed evidence slice.snapshot_id response db) _ result h in
    let loaded : loading ≡ ok (some slice) =
      raise-ok store loading found loads
      ∙ ap (λ o. ok o) (ok_or-ok found no_snapshot slice there) in
    let asks = request_of-IsRequest k.services.library target evidence slice in
    let views = candidates_for_response-IsNew k.parse_second response target inputs.0 inputs.1 in
    let shape : record {
      target = target;
      response = response;
      candidates = candidates_for_response k.parse_second response target inputs.0 inputs.1;
      freshness = map freshness_view slice.sources;
    }
        ≡ result =
      ground (arith) in
    rw (← shape) record {
      not_empty = bounds.0;
      bounded = bounds.1;
      db = db;
      parsed = parsed;
      evidence = evidence;
      slice = slice;
      request = request;
      opened = refl;
      parses = parses;
      resolves = resolves;
      seeded = proof_seed_ids-seeded evidence;
      loads = loaded;
      current =
          load_current_proof_slice-snapshot k.services.json (proof_seed_ids evidence) proof_limits
            db slice loaded
          ∙ ap (λ x. some x) (sym asks.same_snapshot);
      within =
          load-IsWithin k.services.json db (proof_seed_ids evidence) proof_limits slice
            (inr loaded);
      asks = asks;
      evaluates = raise-ok proof_unavailable (k.evaluate request) response evaluates;
      same_target = refl;
      same_freshness = refl;
      suggests = (
        inputs.0,
        views.0,
        candidate_inputs-full k parsed evidence slice.snapshot_id response db inputs read,
      );
      few = views.1;
    }

-- When `why` answers, the target is neither empty nor over the byte limit, and parsed and resolved to evidence whose
-- commits are all seeds of a slice of the current snapshot, within the limits of a proof. The response is the
-- worker's to a request with this snapshot, this slice's conflicts, and nodes for the target, each of its
-- commits and each node of the slice. The freshness shown is that of the slice's sources. There are at
-- most ten suggestions, only for a proof that is partial or not established, and none is a node where a gap
-- starts or a commit of the target, resolved again or as it was.
pub why-Answers :
    (k : Lookup) (target : Text) (file : Option Db) (result : WhyResult)
    → why k target file ≡ ok result
    → Answers k target file result
unfolding why
why-Answers k target file result h =
    let (valid, v, h) =
      bind-ok (validate_input target (codes "target") max_target_bytes) _ result h in
    let wrap : InvalidTarget → EngineError = λ e. git (invalid_target (detail_of e)) in
    let (parsed, parses, h) = bind-ok (raise wrap (from_str target)) _ result h in
    let (evidence, resolves, h) = bind-ok (raise git (k.resolve_for_proof parsed)) _ result h in
    let (db, there, h) = bind-ok (ok_or file no_snapshot) _ result h in
    rw (ok_or-ok file no_snapshot db there) (
      resolved-Answers k target parsed evidence db result
        (validate_input-bounds target (codes "target") max_target_bytes v)
        (raise-ok wrap (from_str target) parsed parses)
        (raise-ok git (k.resolve_for_proof parsed) evidence resolves) h)
