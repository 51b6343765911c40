-- ===== src/Engine/Sync/Refusal.antt =====
-- crates/rationale-engine/src/lib.rs: when a synchronization is refused. Snapshots are identified by
-- their content and rows of evidence never change, so a return to earlier evidence and an edit of a
-- stored record are both refused.
use rationale.Prelude.{
  true, false, ◌≡◌, ◌≢◌, refl, sym, ap, ◌∙◌, some, inl, inr, Bool, List, Option, All-In, In, arith,
}
use rationale.Result.{ok, err}
use rationale.Order.{list_ord, nat_ord, list_cmp-same}
use rationale.Map.{get, contains_key, values}
use rationale.Model.{EvidenceNode}
use rationale.Store.Types.{StoreError, database, unique, SourceState, RecordRow, Db}
use rationale.Store.Candidate.{begin_candidate}
use rationale.Store.Session.{Reaches}
use rationale.Store.Session.Kept.{snapshots_immutable, Step-Grows}
use rationale.Engine.Evidence.{PreparedEvidence}
use rationale.Engine.Evidence.Closure.{IsConsistent}
use rationale.Engine.Types.{store, GithubRateLimitView, SyncReport, Services}
use rationale.Engine.Sync.{is_current, stage, publish_staged, publish_evidence}
use rationale.Engine.Sync.Inserts.{IsRefusal, TextsDiffer}
use rationale.Engine.Sync.Steps.{IsStored}
use rationale.Engine.Sync.Ready.{IsReady, Step-IsReady}
use rationale.Engine.Sync.Outcome.{id_of, publish_evidence-Ends}

known_snapshot :
    (w : Services) (evidence : PreparedEvidence) (sources : List SourceState) (complete : Bool)
    (rate : Option GithubRateLimitView) (db : Db)
    → is_current (id_of w evidence sources) db ≡ false
    → contains_key (id_of w evidence sources) db.snapshots ≡ true
    → publish_evidence w evidence sources complete rate db ≡ (err (store (database unique)), db)
unfolding publish_evidence publish_staged stage begin_candidate
known_snapshot w evidence sources complete rate db other known = rw (other, known) refl

-- A synchronization that succeeds makes its snapshot the current one, in a ready database.
synced_current :
    (w : Services) (evidence : PreparedEvidence) (sources : List SourceState) (complete : Bool)
    (rate : Option GithubRateLimitView) (a b : Db) (r : SyncReport)
    → TextsDiffer w.json
    → IsConsistent evidence
    → IsReady w.json a
    → publish_evidence w evidence sources complete rate a ≡ (ok r, b)
    → (b.current_snapshot ≡ some (id_of w evidence sources)) × IsReady w.json b
synced_current w evidence sources complete rate a b r differ consistent ready h =
    elim (publish_evidence-Ends w evidence sources complete rate a differ consistent ready) [
      | inl (current, e) ↦
          let same : a ≡ b = ap (λ p. p.1) (sym e ∙ h) in rw (← same) (current, ready)
      | inr (inl (db', e, current, holds, step)) ↦
          let same : db' ≡ b = ap (λ p. p.1) (sym e ∙ h) in
          rw (← same) (current, Step-IsReady w.json a db' differ step ready)
      | inr (inr (x, e, refusal)) ↦ ground (arith)
    ]

-- After a synchronization that succeeded, however the store went on from there: evidence with the same
-- identifier is refused by the key of `snapshots` when it is not current at that time, and the
-- database stays as it is.
pub returned_evidence_refused :
    (w v : Services) (evidence : PreparedEvidence) (sources states : List SourceState)
    (complete complete' : Bool) (rate rate' : Option GithubRateLimitView) (a b c : Db)
    (r : SyncReport)
    → TextsDiffer w.json
    → IsConsistent evidence
    → IsReady w.json a
    → publish_evidence w evidence sources complete rate a ≡ (ok r, b)
    → Reaches w.json b c
    → id_of v evidence states ≡ id_of w evidence sources
    → is_current (id_of v evidence states) c ≡ false
    → publish_evidence v evidence states complete' rate' c ≡ (err (store (database unique)), c)
returned_evidence_refused w v evidence sources states complete complete' rate rate' a b c r differ
      consistent ready h reaches same other =
    let (current, ready_b) =
      synced_current w evidence sources complete rate a b r differ consistent ready h in
    let listed =
      (snapshots_immutable w.json b c reaches).listed (id_of w evidence sources)
        (ready_b.sound.current (id_of w evidence sources) current) in
    known_snapshot v evidence states complete' rate' c other (rw same listed)

-- Evidence in which a stored record has other content than its row is refused, unless it is the
-- current snapshot, and the database stays as it is.
pub changed_record_refused :
    (w : Services) (evidence : PreparedEvidence) (sources : List SourceState) (complete : Bool)
    (rate : Option GithubRateLimitView) (db : Db) (r : EvidenceNode) (row : RecordRow)
    → TextsDiffer w.json
    → IsConsistent evidence
    → IsReady w.json db
    → In r (values evidence.records)
    → get r.id db.records ≡ some row
    → w.json.node_text r ≢ some row.content_json
    → is_current (id_of w evidence sources) db ≡ false
    → (e : StoreError) × (publish_evidence w evidence sources complete rate db
        ≡ (err (store e), db))
      × IsRefusal e
changed_record_refused w evidence sources complete rate db r row differ consistent ready there found
      changed other =
    elim (publish_evidence-Ends w evidence sources complete rate db differ consistent ready) [
      | inl (current, e) ↦
          let s = id_of w evidence sources in ground (arith, rw current at other, list_cmp-same s)
      | inr (inl (db', e, current, holds, step)) ↦
          let id = id_of w evidence sources in
          let (new, g, t, m) =
            All-In (λ r. IsStored w.json r id db') r (values evidence.records) holds.records_stored
              there in
          let kept = (Step-Grows w.json db db' step).keeps.records_kept r.id row found in
          let same : new ≡ row = ground (arith) in absurd (changed (rw same at t))
      | inr (inr refused) ↦ refused
    ]
