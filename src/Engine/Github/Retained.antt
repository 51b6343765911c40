-- ===== src/Engine/Github/Retained.antt =====
-- crates/rationale-engine/src/lib.rs: a synchronization settles whatever GitHub answers, and one that
-- GitHub fails keeps what GitHub contributed before.
use rationale.Prelude.{
  Bool, true, ◌≡◌, refl, List, [], ◌∷◌, keep, inl, inr, In, In-map, All-In, Bool-cases, arith,
}
use rationale.Result.{Result, ok, err, Result-cases}
use rationale.Order.{list_ord, nat_ord, pair_ord}
use rationale.Map.{contains_key, values}
use rationale.Map.Laws.{get-contains_key, In-get}
use rationale.Set.{has}
use rationale.Text.{Text}
use rationale.Github.{GithubError, GithubSyncOutcome, updated, not_modified}
use rationale.Store.Types.{Db, Json}
use rationale.Engine.Evidence.{PreparedEvidence, merge_github_evidence}
use rationale.Engine.Evidence.Closure.{IsConsistent, IsPlaced, merge_github_evidence-IsConsistent}
use rationale.Engine.Types.{Services}
use rationale.Engine.Sync.Steps.{IsStored}
use rationale.Engine.Sync.Links.{IsLinked}
use rationale.Engine.Sync.Filled.{Holds}
use rationale.Engine.Github.{
  PriorGithubContribution, Contribution, contribute, encoded_cursor, stale_contribution,
}

pub In-keep-true :
    {A : Type 0} (p : A → Bool) (x : A) (xs : List A) → In x xs → p x ≡ true → In x (keep p xs)
In-keep-true p x [] h b = absurd h
In-keep-true p x (y ∷ xs) (inl e) b = rw (e, rw e at b) (inl refl)
In-keep-true p x (y ∷ xs) (inr h) b = elim (Bool-cases (p y)) [
  | inl c ↦ rw c (inr (In-keep-true p x xs h b))
  | inr c ↦ rw c (In-keep-true p x xs h b)
]

-- What is stored for a key of the evidence.
pub stored-has :
    (json : Json) (id : Text) (evidence : PreparedEvidence) (db : Db)
    → IsConsistent evidence
    → Holds json id evidence db
    → ((key : Text)
        → contains_key key evidence.records ≡ true
        → has (id, key) db.snapshot_records ≡ true)
      × ((key : Text)
          → contains_key key evidence.edges ≡ true
          → has (id, key) db.snapshot_edges ≡ true)
stored-has json id evidence db consistent holds = (
  λ key h.
      let (r, g) = get-contains_key key evidence.records h in
      let entry = In-get key r evidence.records g in
      let same : key ≡ r.id = All-In _ (key, r) evidence.records consistent.keyed entry in
      let (row, f, t, m) =
        All-In (λ r. IsStored json r id db) r (values evidence.records) holds.records_stored
          (In-map (λ e. e.1) (key, r) evidence.records entry) in
      rw same m,
  λ key h.
      let (e, g) = get-contains_key key evidence.edges h in
      let entry = In-get key e evidence.edges g in
      let placed =
        All-In (IsPlaced evidence.records) (key, e) evidence.edges consistent.placed entry in
      let (row, f, t, m) =
        All-In (λ e. IsLinked json e id db) e (values evidence.edges) holds.edges_stored
          (In-map (λ e. e.1) (key, e) evidence.edges entry) in
      rw placed.0 m,
)

-- Every contribution is consistent, so that publishing it never fails for a reference.
pub contribute-IsConsistent :
    (w : Services) (source_id : Text) (evidence : PreparedEvidence)
    (prior : PriorGithubContribution) (outcome : Result GithubSyncOutcome GithubError)
    (c : Contribution)
    → IsConsistent evidence
    → contribute w source_id evidence prior outcome ≡ ok c
    → IsConsistent c.evidence
unfolding contribute stale_contribution
contribute-IsConsistent w source_id evidence prior (ok (updated update)) c good h =
    elim (Result-cases (encoded_cursor w update.cursor)) [
      | inr (e, k) ↦ ground (arith)
      | inl (text, k) ↦
          let same : merge_github_evidence update.records update.edges evidence ≡ c.evidence =
            ground (arith) in
          rw (← same) (merge_github_evidence-IsConsistent update.records update.edges evidence good)
    ]
contribute-IsConsistent w source_id evidence prior (ok (not_modified cursor rate)) c good h =
    elim (Result-cases (encoded_cursor w cursor)) [
      | inr (e, k) ↦ ground (arith)
      | inl (text, k) ↦
          let same : merge_github_evidence prior.records prior.edges evidence ≡ c.evidence =
            ground (arith) in
          rw (← same) (merge_github_evidence-IsConsistent prior.records prior.edges evidence good)
    ]
contribute-IsConsistent w source_id evidence prior (err e) c good h =
    let merged = merge_github_evidence-IsConsistent prior.records prior.edges evidence good in
    let same : stale_contribution w source_id evidence prior ≡ c = ground (arith) in
    rw (← same) record { keyed = merged.keyed; placed = merged.placed; opposed = merged.opposed }
