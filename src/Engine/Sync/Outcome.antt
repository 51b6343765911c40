-- ===== src/Engine/Sync/Outcome.antt =====
-- crates/rationale-engine/src/lib.rs: every way in which a synchronization can end.
use rationale.Prelude.{
  true, false, ◌≡◌, refl, ap, ◌∙◌, some, ◌⊎◌, inl, inr, All-In, All-of_In, Bool-cases, Option-cases,
  Option, Bool, List, arith,
}
use rationale.Result.{Result, ok, err, Result-cases}
use rationale.Order.{list_ord, nat_ord, list_cmp-equal}
use rationale.Sort.{sort_by}
use rationale.Sort.Laws.{sort_by-All, In-sort_by}
use rationale.Text.{Text}
use rationale.Store.Types.{StoreError, CandidateMetadata, SourceState, Db, Json}
use rationale.Store.Candidate.{CandidateSnapshot, begin_candidate}
use rationale.Store.Publish.{publish_rows}
use rationale.Store.Publish.Verdict.{IsClosed, publish-iff_IsClosed}
use rationale.Store.Session.{Built, Step, published, Reaches, here, next}
use rationale.Store.Session.Frame.{Built-Frame}
use rationale.Engine.Evidence.{PreparedEvidence, opposes}
use rationale.Engine.Evidence.Closure.{IsConsistent}
use rationale.Engine.Types.{EngineError, store, GithubRateLimitView, SyncReport, Services}
use rationale.Engine.Sync.{
  set_source_states, quarantine_all, stage, sort_evidence, conflict_le, source_le,
  evidence_snapshot_id, report, is_current, finish, publish_staged, publish_evidence,
}
use rationale.Engine.Sync.Inserts.{IsRefusal, TextsDiffer}
use rationale.Engine.Sync.Conflicts.{IsOpposed}
use rationale.Engine.Sync.Loops.{Built-trans}
use rationale.Engine.Sync.Ready.{IsReady}
use rationale.Engine.Sync.Staged.{
  set_source_states-Built, quarantine_all-Built, begin_candidate-refused, begin_candidate-id,
  begun-IsGood,
}
use rationale.Engine.Sync.Filled.{Holds, Holds-Built, fill-cases}

abbrev pub new_candidate : Services → Text → CandidateMetadata
new_candidate w id = record { id = id; created_at = w.now }

-- The candidate of a synchronization: it began in `db`, holds the evidence and is closed.
pub record IsStaged (w : Services) (id : Text) (evidence : PreparedEvidence) (db : Db)
    (c : CandidateSnapshot) : Type 0 where
  pub begun : CandidateSnapshot
  pub begins : begin_candidate db (new_candidate w id) ≡ ok begun
  pub built : Built w.json begun c
  pub same_id : c.snapshot_id ≡ id
  pub holds : Holds w.json c.snapshot_id evidence c.inside

stage-cases :
    (w : Services) (id : Text) (evidence : PreparedEvidence) (sources : List SourceState) (db : Db)
    → TextsDiffer w.json
    → IsConsistent evidence
    → IsReady w.json db
    → ((c : CandidateSnapshot) × (stage w id evidence sources db ≡ ok c)
        × IsStaged w id evidence db c)
      ⊎ ((e : StoreError) × (stage w id evidence sources db ≡ err e) × IsRefusal e)
unfolding stage
stage-cases w id evidence sources db differ consistent ready =
    elim (Result-cases (begin_candidate db (new_candidate w id))) [
      | inr (e, h) ↦ inr (e, rw h refl, begin_candidate-refused db (new_candidate w id) e h)
      | inl (c, h) ↦
          let good = begun-IsGood w.json db (new_candidate w id) c ready h in
          elim (fill-cases w evidence differ consistent c good) [
            | inr (e, k, r) ↦ inr (e, rw (h, k) refl, r)
            | inl (d, k, first, good_d, holds) ↦
                let a = set_source_states sources d in
                let b = quarantine_all evidence.diagnostics a in
                let (second, good_a) = set_source_states-Built w.json sources d good_d in
                let (third, good_b) = quarantine_all-Built w.json evidence.diagnostics a good_a in
                let later = Built-trans w.json d a b second third in
                let all = Built-trans w.json c d b first later in
                inl (
                  b,
                  rw (h, k) refl,
                  record {
                    begun = c;
                    begins = h;
                    built = all;
                    same_id =
                        (Built-Frame w.json c b all).same_id
                        ∙ begin_candidate-id db (new_candidate w id) c h;
                    holds = Holds-Built w.json evidence d b later good_b holds;
                  },
                )
          ]
    ]

-- The ends of a synchronization under the identifier `id`.
abbrev pub Ends :
    Services
    → SyncReport
    → SyncReport
    → Text
    → PreparedEvidence
    → Db
    → Result SyncReport EngineError × Db
    → Type 0
Ends w same changed id evidence db answer =
    ((db.current_snapshot ≡ some id) × (answer ≡ (ok same, db)))
    ⊎ (((db' : Db) × (answer ≡ (ok changed, db'))
          × (db'.current_snapshot ≡ some id)
          × Holds w.json id evidence db'
          × Step w.json db db')
        ⊎ ((e : StoreError) × (answer ≡ (err (store e), db)) × IsRefusal e))

Holds-publish_rows :
    (json : Json) (at : Text) (evidence : PreparedEvidence) (c : CandidateSnapshot)
    → IsClosed c.snapshot_id (publish_rows at c)
    → Holds json c.snapshot_id evidence c.inside
    → Holds json c.snapshot_id evidence (publish_rows at c)
unfolding publish_rows
Holds-publish_rows json at evidence c closed h = record {
  closed = closed;
  records_stored = h.records_stored;
  edges_stored = h.edges_stored;
  conflicts_stored = h.conflicts_stored;
}

is_current-eq : (id : Text) (db : Db) → is_current id db ≡ true → db.current_snapshot ≡ some id
is_current-eq id db h = elim (Option-cases db.current_snapshot) [
  | inl e ↦ ground (arith)
  | inr (s, e) ↦ let same : s ≡ id = ground (arith, list_cmp-equal s id) in e ∙ ap some same
]

publish_staged-Ends :
    (w : Services) (same changed : SyncReport) (id : Text) (evidence : PreparedEvidence)
    (sources : List SourceState) (db : Db)
    → TextsDiffer w.json
    → IsConsistent evidence
    → IsReady w.json db
    → Ends w same changed id evidence db (publish_staged w same changed id evidence sources db)
unfolding publish_staged finish
publish_staged-Ends w same changed id evidence sources db differ consistent ready =
    elim (Bool-cases (is_current id db)) [
      | inl b ↦ inl (is_current-eq id db b, rw b refl)
      | inr b ↦ elim (stage-cases w id evidence sources db differ consistent ready) [
        | inr (e, h, r) ↦ inr (inr (e, rw (b, h) refl, r))
        | inl (c, h, staged) ↦ elim (publish-iff_IsClosed w.now c) [
          | inr (open_end, rest) ↦ absurd (open_end staged.holds.closed)
          | inl (closed, k, closed') ↦ inr (
              inl (
                publish_rows w.now c,
                rw (b, h, k) refl,
                unfold publish_rows in ap some staged.same_id,
                rw (← staged.same_id)
                    (Holds-publish_rows w.json w.now evidence c closed' staged.holds),
                rw k at (
                    published db (new_candidate w id) w.now staged.begun c staged.begins
                      staged.built),
              ))
        ]
      ]
    ]

sort_evidence-IsConsistent :
    (evidence : PreparedEvidence) → IsConsistent evidence → IsConsistent (sort_evidence evidence)
unfolding sort_evidence
sort_evidence-IsConsistent evidence h = record {
  keyed = h.keyed;
  placed = h.placed;
  opposed =
      sort_by-All conflict_le (λ k. opposes evidence.records k ≡ true) evidence.conflicts h.opposed;
}

Holds-unsorted :
    (json : Json) (id : Text) (evidence : PreparedEvidence) (db : Db)
    → Holds json id (sort_evidence evidence) db
    → Holds json id evidence db
unfolding sort_evidence
Holds-unsorted json id evidence db h = record {
  closed = h.closed;
  records_stored = h.records_stored;
  edges_stored = h.edges_stored;
  conflicts_stored =
      All-of_In (λ k. IsOpposed json k id db) evidence.conflicts
        (λ k m.
          All-In (λ k. IsOpposed json k id db) k (sort_by conflict_le evidence.conflicts)
            h.conflicts_stored (In-sort_by conflict_le k evidence.conflicts m));
}

-- The identifier of the snapshot, and the report.
abbrev pub id_of : Services → PreparedEvidence → List SourceState → Text
id_of w evidence sources =
    evidence_snapshot_id w (sort_evidence evidence) (sort_by source_le sources)

abbrev pub report_of :
    Services
    → PreparedEvidence
    → List SourceState
    → Bool
    → Option GithubRateLimitView
    → Bool
    → SyncReport
report_of w evidence sources complete rate unchanged =
    report (id_of w evidence sources) (sort_evidence evidence) (sort_by source_le sources) complete
      rate unchanged

-- On a ready database, with consistent evidence and JSON that tells edges apart, there are three ends.
-- The snapshot is the current one and nothing changes. Or it becomes the current one, in one step of
-- the store, is closed, and holds every record, edge and conflict of the evidence under its own JSON.
-- Or the database stays as it was, and the error is a known snapshot, a value without JSON or other
-- content under an old key: never an unresolved reference.
pub publish_evidence-Ends :
    (w : Services) (evidence : PreparedEvidence) (sources : List SourceState) (complete : Bool)
    (rate : Option GithubRateLimitView) (db : Db)
    → TextsDiffer w.json
    → IsConsistent evidence
    → IsReady w.json db
    → Ends w
        (report_of w evidence sources complete rate true)
        (report_of w evidence sources complete rate false)
        (id_of w evidence sources)
        evidence
        db
        (publish_evidence w evidence sources complete rate db)
unfolding publish_evidence
publish_evidence-Ends w evidence sources complete rate db differ consistent ready =
    let id = id_of w evidence sources in
    elim (publish_staged-Ends w (report_of w evidence sources complete rate true)
      (report_of w evidence sources complete rate false) id (sort_evidence evidence)
      (sort_by source_le sources) db differ (sort_evidence-IsConsistent evidence consistent)
      ready) [
        | inl same ↦ inl same
        | inr (inr refused) ↦ inr (inr refused)
        | inr (inl (db', answer, current, holds, step)) ↦
            inr (inl (db', answer, current, Holds-unsorted w.json id evidence db' holds, step))
      ]

-- Whatever a synchronization answers, its database is reached by steps of the store.
pub publish_evidence-Reaches :
    (w : Services) (evidence : PreparedEvidence) (sources : List SourceState) (complete : Bool)
    (rate : Option GithubRateLimitView) (db : Db)
    → TextsDiffer w.json
    → IsConsistent evidence
    → IsReady w.json db
    → Reaches w.json db (publish_evidence w evidence sources complete rate db).1
publish_evidence-Reaches w evidence sources complete rate db differ consistent ready =
    elim (publish_evidence-Ends w evidence sources complete rate db differ consistent ready) [
      | inl (current, e) ↦ rw e (here db)
      | inr (inl (db', e, current, holds, step)) ↦ rw e (next db db' db' step (here db'))
      | inr (inr (x, e, refusal)) ↦ rw e (here db)
    ]
