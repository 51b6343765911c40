-- ===== src/Engine/Github/Outage.antt =====
-- crates/rationale-engine/src/lib.rs: a synchronization that GitHub fails keeps what GitHub contributed
-- to the current snapshot before, and reports the source as stale.
use rationale.Prelude.{
  true, false, ◌≡◌, refl, sym, ap, ◌∙◌, some, ◌++◌, [], ◌∷◌, Option, ◌⊎◌, inl, inr, In, In-map,
  In-append_right, arith,
}
use rationale.Result.{Result, ok, err}
use rationale.Order.{list_ord, nat_ord, pair_ord}
use rationale.Sort.{sort_by}
use rationale.Sort.Laws.{In-sort_by}
use rationale.Map.{contains_key}
use rationale.Set.{has}
use rationale.Text.{Text}
use rationale.Model.{EvidenceNode, EvidenceEdge}
use rationale.Github.{GithubError, GithubSyncOutcome}
use rationale.Github.Client.{Failure, failed}
use rationale.Store.Types.{Db}
use rationale.Engine.Evidence.{PreparedEvidence, merge_github_evidence}
use rationale.Engine.Evidence.Closure.{IsConsistent, or_insert_records-contains}
use rationale.Engine.Evidence.Merge.{merge_github_evidence-Merges}
use rationale.Engine.Types.{EngineError, SyncReport, Services}
use rationale.Engine.Sync.{source_le, is_stale, report}
use rationale.Engine.Sync.Inserts.{TextsDiffer}
use rationale.Engine.Sync.Ready.{IsReady}
use rationale.Engine.Sync.Outcome.{id_of, report_of, publish_evidence-Ends}
use rationale.Engine.Github.{
  LocalSync, local_sources, PriorGithubContribution, prior_github_contribution, cursor_of,
  contribute, stale_contribution, returned, return, publish_contribution, sync_with_github_client,
}
use rationale.Engine.Github.Retained.{In-keep-true, stored-has, contribute-IsConsistent}
use rationale.Engine.Github.Settled.{publish_contribution-eq}

-- A record of the local evidence, or of the earlier contribution.
abbrev pub IsKnown : PreparedEvidence → PriorGithubContribution → Text → Type 0
IsKnown evidence prior id =
    (contains_key id evidence.records ≡ true)
    ⊎ ((n : EvidenceNode) × In n prior.records × (n.id ≡ id))

pub record Retains (source_id : Text) (evidence : PreparedEvidence)
    (prior : PriorGithubContribution) (r : SyncReport) (db : Db) : Type 0 where
  pub current : db.current_snapshot ≡ some r.snapshot_id
  pub stale : In source_id r.stale_sources
  pub records_there :
      (n : EvidenceNode) → In n prior.records → has (r.snapshot_id, n.id) db.snapshot_records ≡ true
  pub edges_there :
      (e : EvidenceEdge)
      → In e prior.edges
      → IsKnown evidence prior e.source_id
      → IsKnown evidence prior e.target_id
      → has (r.snapshot_id, e.id) db.snapshot_edges ≡ true

known-contains :
    (w : Services) (source_id : Text) (evidence : PreparedEvidence)
    (prior : PriorGithubContribution) (id : Text)
    → IsKnown evidence prior id
    → contains_key id (stale_contribution w source_id evidence prior).evidence.records ≡ true
unfolding stale_contribution merge_github_evidence
known-contains w source_id evidence prior id (inl h) =
    or_insert_records-contains prior.records evidence.records id h
known-contains w source_id evidence prior id (inr (n, m, e)) =
    rw (← e) ((merge_github_evidence-Merges prior.records prior.edges evidence).records_there n m)

stale-reported :
    (w : Services) (source_id : Text) (local : LocalSync) (prior : PriorGithubContribution)
    → (let c = stale_contribution w source_id local.evidence prior in
        In source_id
          (report_of w c.evidence
            (local_sources local w.now ++ c.source ∷ [])
            local.history_complete
            c.rate
            false).stale_sources)
unfolding stale_contribution report
stale-reported w source_id local prior =
    let c = stale_contribution w source_id local.evidence prior in
    let sources = local_sources local w.now ++ c.source ∷ [] in
    In-map (λ s. s.source_id) c.source _
      (In-keep-true is_stale c.source (sort_by source_le sources)
        (In-sort_by source_le c.source sources
          (In-append_right c.source (local_sources local w.now) (c.source ∷ []) (inl refl)))
        refl)

returned_same :
    (answer : Result SyncReport EngineError × Db) (r : SyncReport) (db : Db)
    → return answer ≡ (returned (ok r), db)
    → answer ≡ (ok r, db)
returned_same (q, end) r db h = ground (arith)

-- Consider consistent local evidence, a ready database and JSON that tells edges apart, and a
-- contribution of GitHub in the current snapshot. When the client fails and the synchronization
-- reports a change: its snapshot is the current one and has every record of that contribution, and
-- every edge of it whose ends are local or of that contribution; the source is reported as stale.
pub outage-Retains :
    (w : Services) (source_id : Text) (local : LocalSync)
    (client : Option Text → Result GithubSyncOutcome Failure) (db db' : Db)
    (prior : PriorGithubContribution) (x : GithubError) (r : SyncReport)
    → TextsDiffer w.json
    → IsConsistent local.evidence
    → IsReady w.json db
    → prior_github_contribution w source_id db ≡ ok prior
    → client (cursor_of prior.source) ≡ err (failed x)
    → sync_with_github_client w source_id local client db ≡ (returned (ok r), db')
    → r.unchanged ≡ false
    → Retains source_id local.evidence prior r db'
unfolding contribute report stale_contribution sync_with_github_client
outage-Retains w source_id local client db db' prior x r differ consistent ready found fails answer
      changed =
    let c = stale_contribution w source_id local.evidence prior in
    let sources = local_sources local w.now ++ c.source ∷ [] in
    let chosen : contribute w source_id local.evidence prior (err x) ≡ ok c = refl in
    let good =
      contribute-IsConsistent w source_id local.evidence prior (err x) c consistent chosen in
    let ends : sync_with_github_client w source_id local client db
        ≡ return (publish_contribution w source_id local prior (err x) db) =
      rw (found, fails, sync_with_github_client) refl in
    let published =
      sym (publish_contribution-eq w source_id local prior (err x) db c chosen)
      ∙ returned_same (publish_contribution w source_id local prior (err x) db) r db'
          (sym ends ∙ answer) in
    elim (publish_evidence-Ends w c.evidence sources local.history_complete c.rate db differ good
      ready) [
        | inl (current, e) ↦ ground (arith)
        | inr (inr (y, e, refusal)) ↦ ground (arith)
        | inr (inl (end, e, current, holds, step)) ↦
            let both = sym e ∙ published in
            let same_db : end ≡ db' = ap (λ p. p.1) both in
            let same_report : report_of w c.evidence sources local.history_complete c.rate false
                ≡ r =
              ground (arith) in
            let id = id_of w c.evidence sources in
            let (stored, linked) = stored-has w.json id c.evidence end good holds in
            let merges = merge_github_evidence-Merges prior.records prior.edges local.evidence in
            rw (← same_db, ← same_report)
              record {
                current = current;
                stale = stale-reported w source_id local prior;
                records_there = λ n m. stored n.id (merges.records_there n m);
                edges_there = λ f m a b. linked f.id (
                    merges.edges_there f m (
                      ground (
                        arith,
                        known-contains w source_id local.evidence prior f.source_id a,
                        known-contains w source_id local.evidence prior f.target_id b,
                      )));
              }
      ]
