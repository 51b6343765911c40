-- ===== src/Engine/Github/Settled.antt =====
-- crates/rationale-engine/src/lib.rs: how a synchronization with GitHub ends, whatever GitHub answers.
use rationale.Prelude.{
  Bool, List, Option, ◌≡◌, refl, ap, ◌⊎◌, inl, inr, ◌++◌, [], ◌∷◌, Option-cases, arith,
}
use rationale.Result.{Result, ok, err, Result-cases}
use rationale.Text.{Text}
use rationale.Github.{GithubError, GithubSyncOutcome, updated, not_modified, invalid_cursor}
use rationale.Github.Client.{Failure, failed, panicked}
use rationale.Store.Types.{StoreError, SourceState, Db}
use rationale.Store.Read.{load_current_slice}
use rationale.Store.Read.Failures.{IsReadFailure, load_current_slice-failure}
use rationale.Store.Session.{Reaches}
use rationale.Engine.Evidence.{PreparedEvidence}
use rationale.Engine.Evidence.Closure.{IsConsistent}
use rationale.Engine.Types.{EngineError, store, github, GithubRateLimitView, SyncReport, Services}
use rationale.Engine.Sync.{publish_evidence}
use rationale.Engine.Sync.Inserts.{IsRefusal, TextsDiffer}
use rationale.Engine.Sync.Ready.{IsReady, reached-IsReady}
use rationale.Engine.Sync.Outcome.{publish_evidence-Ends, publish_evidence-Reaches}
use rationale.Engine.Github.{
  LocalSync, local_sources, PriorGithubContribution, prior_github_contribution, cursor_of,
  Contribution, contribute, slice_limits, Ended, returned, interrupted, publish_contribution,
  sync_with_github_client,
}
use rationale.Engine.Github.Retained.{contribute-IsConsistent}

-- The errors of a synchronization: a refused candidate, a current snapshot that cannot be read, or a
-- cursor that has no text.
abbrev pub IsSyncFailure : EngineError → Type 0
IsSyncFailure (store e) = IsRefusal e ⊎ IsReadFailure e
IsSyncFailure (github invalid_cursor) = Unit
IsSyncFailure _ = ⊥

-- A report with a database that the store reached, or a failure that leaves the database as it was.
abbrev pub Publishes : Services → Db → Result SyncReport EngineError × Db → Type 0
Publishes w db answer =
    ((r : SyncReport) × (answer.0 ≡ ok r) × Reaches w.json db answer.1 × IsReady w.json answer.1)
    ⊎ ((e : EngineError) × (answer ≡ (err e, db)) × IsSyncFailure e)

-- The client panicked on the cursor of the current snapshot, and the database is as it was.
abbrev pub Interrupted :
    Services → Text → (Option Text → Result GithubSyncOutcome Failure) → Db → Db → Type 0
Interrupted w source_id client db db' =
    (db' ≡ db)
    × ((prior : PriorGithubContribution) × (prior_github_contribution w source_id db ≡ ok prior)
        × (client (cursor_of prior.source) ≡ err panicked))

abbrev pub Settles :
    Services → Text → (Option Text → Result GithubSyncOutcome Failure) → Db → Ended × Db → Type 0
Settles w source_id client db (returned r, db') = Publishes w db (r, db')
Settles w source_id client db (interrupted, db') = Interrupted w source_id client db db'

prior-failure :
    (w : Services) (source_id : Text) (db : Db) (e : StoreError)
    → prior_github_contribution w source_id db ≡ err e
    → IsReadFailure e
unfolding prior_github_contribution
prior-failure w source_id db e h = elim (Result-cases (load_current_slice w.json slice_limits db)) [
  | inl (slice, k) ↦ ground (arith)
  | inr (x, k) ↦ load_current_slice-failure w.json slice_limits db e (ground (arith))
]

contribute-failure :
    (w : Services) (source_id : Text) (evidence : PreparedEvidence)
    (prior : PriorGithubContribution) (outcome : Result GithubSyncOutcome GithubError)
    (e : EngineError)
    → contribute w source_id evidence prior outcome ≡ err e
    → IsSyncFailure e
unfolding contribute
contribute-failure w source_id evidence prior (ok (updated update)) e h =
    elim (Option-cases (w.encode_cursor update.cursor)) [
      | inl n ↦ let p : github invalid_cursor ≡ e = ground (arith) in rw (← p) tt
      | inr (text, k) ↦ ground (arith)
    ]
contribute-failure w source_id evidence prior (ok (not_modified cursor rate)) e h =
    elim (Option-cases (w.encode_cursor cursor)) [
      | inl n ↦ let p : github invalid_cursor ≡ e = ground (arith) in rw (← p) tt
      | inr (text, k) ↦ ground (arith)
    ]
contribute-failure w source_id evidence prior (err x) e h = ground (arith)

-- Behind a contribution stands `publish_evidence`.
pub publish_contribution-eq :
    (w : Services) (source_id : Text) (local : LocalSync) (prior : PriorGithubContribution)
    (outcome : Result GithubSyncOutcome GithubError) (db : Db) (c : Contribution)
    → contribute w source_id local.evidence prior outcome ≡ ok c
    → publish_contribution w source_id local prior outcome db
      ≡ publish_evidence w c.evidence
          (local_sources local w.now ++ c.source ∷ [])
          local.history_complete
          c.rate
          db
unfolding publish_contribution
publish_contribution-eq w source_id local prior outcome db c k = rw (k, publish_contribution) refl

pub publish_evidence-Publishes :
    (w : Services) (evidence : PreparedEvidence) (sources : List SourceState) (complete : Bool)
    (rate : Option GithubRateLimitView) (db : Db)
    → TextsDiffer w.json
    → IsConsistent evidence
    → IsReady w.json db
    → Publishes w db (publish_evidence w evidence sources complete rate db)
publish_evidence-Publishes w evidence sources complete rate db differ good ready =
    let reaches = publish_evidence-Reaches w evidence sources complete rate db differ good ready in
    let ready' = reached-IsReady w.json db _ differ reaches ready in
    elim (publish_evidence-Ends w evidence sources complete rate db differ good ready) [
      | inl (current, e) ↦ inl (_, ap (λ p. p.0) e, reaches, ready')
      | inr (inl (db', e, current, holds, step)) ↦ inl (_, ap (λ p. p.0) e, reaches, ready')
      | inr (inr (x, e, refusal)) ↦ inr (store x, e, inl refusal)
    ]

publish_contribution-Publishes :
    (w : Services) (source_id : Text) (local : LocalSync) (prior : PriorGithubContribution)
    (outcome : Result GithubSyncOutcome GithubError) (db : Db)
    → TextsDiffer w.json
    → IsConsistent local.evidence
    → IsReady w.json db
    → Publishes w db (publish_contribution w source_id local prior outcome db)
unfolding publish_contribution
publish_contribution-Publishes w source_id local prior outcome db differ consistent ready =
    elim (Result-cases (contribute w source_id local.evidence prior outcome)) [
      | inr (e, k) ↦ inr (
        e,
        rw (k, publish_contribution) refl,
        contribute-failure w source_id local.evidence prior outcome e k,
      )
      | inl (c, k) ↦
          let good =
            contribute-IsConsistent w source_id local.evidence prior outcome c consistent k in
          let sources = local_sources local w.now ++ c.source ∷ [] in
          rw (publish_contribution-eq w source_id local prior outcome db c k) (
            publish_evidence-Publishes w c.evidence sources local.history_complete c.rate db differ
              good ready)
    ]

pub sync_with_github_client-Settles :
    (w : Services) (source_id : Text) (local : LocalSync)
    (client : Option Text → Result GithubSyncOutcome Failure) (db : Db)
    → TextsDiffer w.json
    → IsConsistent local.evidence
    → IsReady w.json db
    → Settles w source_id client db (sync_with_github_client w source_id local client db)
unfolding sync_with_github_client
sync_with_github_client-Settles w source_id local client db differ consistent ready =
    elim (Result-cases (prior_github_contribution w source_id db)) [
      | inr (e, h) ↦
          rw (h, sync_with_github_client)
            (inr (store e, refl, inr (prior-failure w source_id db e h)))
      | inl (prior, h) ↦ elim (Result-cases (client (cursor_of prior.source))) [
        | inl (outcome, k) ↦
            rw (h, k, sync_with_github_client)
              (publish_contribution-Publishes w source_id local prior (ok outcome) db differ
                consistent ready)
        | inr (failed x, k) ↦
            rw (h, k, sync_with_github_client)
              (publish_contribution-Publishes w source_id local prior (err x) db differ consistent
                ready)
        | inr (panicked, k) ↦ rw (h, k, sync_with_github_client) (refl, (prior, h, k))
      ]
    ]

-- However it ends, the database is ready for the next one.
pub Settles-IsReady :
    (w : Services) (source_id : Text) (client : Option Text → Result GithubSyncOutcome Failure)
    (db : Db) (answer : Ended × Db)
    → IsReady w.json db
    → Settles w source_id client db answer
    → IsReady w.json answer.1
Settles-IsReady w source_id client db (returned r, db') ready (inl (s, e, reaches, ready')) = ready'
Settles-IsReady w source_id client db (returned r, db') ready (inr (e, h, f)) =
    rw (ap (λ p. p.1) h) ready
Settles-IsReady w source_id client db (interrupted, db') ready (same, h) = rw same ready
