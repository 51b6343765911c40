-- ===== src/Engine/Sync/Ready.antt =====
-- crates/rationale-store/src/lib.rs: what synchronizations rely on of a database, kept over the life
-- of the store: sound snapshots, no members without a snapshot, and edges stored as their JSON.
use rationale.Prelude.{false, ◌≡◌, refl, sym, ◌∙◌, ap, inl, inr, arith, Bool-cases}
use rationale.Result.{ok}
use rationale.Order.{list_ord, nat_ord, pair_ord, list_cmp-equal}
use rationale.Map.{get, contains_key}
use rationale.Set.{has}
use rationale.Text.{Text, text_eq}
use rationale.Store.Types.{CandidateMetadata, ConflictKey, Db, Json}
use rationale.Store.Candidate.{CandidateSnapshot, begin_candidate, set_source_state, quarantine}
use rationale.Store.Candidate.Cases.{insert_record-cases, insert_edge-cases, insert_conflict-cases}
use rationale.Store.Publish.{publish_rows}
use rationale.Store.Session.{
  Op, recorded, linked, opposed, observed, quarantined, Built, Step, Reaches, here, next,
}
use rationale.Store.Session.Frame.{Built-Frame}
use rationale.Store.Session.Kept.{begin_candidate-Begun, Step-cases, set_published-listed}
use rationale.Store.Session.Closed.{IsSound, Step-IsSound, empty_db, empty_db-IsSound}
use rationale.Engine.Sync.Inserts.{HasTexts, TextsDiffer}
use rationale.Engine.Sync.Links.{insert_edge_row-IsFound, HasTexts-new}
use rationale.Engine.Sync.Loops.{Built-keeps}

-- A snapshot that is not in the database has no edges and no conflicts.
pub record IsOwned (db : Db) : Type 0 where
  pub edges_owned :
      (t id : Text) → contains_key t db.snapshots ≡ false → has (t, id) db.snapshot_edges ≡ false
  pub conflicts_owned :
      (t : Text) (key : ConflictKey)
      → contains_key t db.snapshots ≡ false
      → has (t, key) db.snapshot_conflicts ≡ false

pub record IsReady (json : Json) (db : Db) : Type 0 where
  pub sound : IsSound db
  pub owned : IsOwned db
  pub texts : HasTexts json db

Op-HasTexts :
    (json : Json)
    → TextsDiffer json
    → (c d : CandidateSnapshot) → Op json c d
    → HasTexts json c.inside
    → HasTexts json d.inside
unfolding set_source_state quarantine
Op-HasTexts json differ _ _ (recorded node c d h) texts =
    let (content, origin, t, new, g, e) = insert_record-cases json node c d h in rw e texts
Op-HasTexts json differ _ _ (linked edge c d h) texts =
    let (content, origin, t, new, g, e) = insert_edge-cases json edge c d h in
    let found =
      insert_edge_row-IsFound json edge content origin c.created_at c.inside new differ texts t g in
    rw e (HasTexts-new edge content c.inside new found json texts t)
Op-HasTexts json differ _ _ (opposed k c d h) texts =
    let (content, t, new, g, e) = insert_conflict-cases json k c d h in rw e texts
Op-HasTexts json differ _ _ (observed source c) texts = texts
Op-HasTexts json differ _ _ (quarantined q c) texts = texts

-- A snapshot that is missing behind a candidate is not the candidate's, and was missing before.
IsOwned-publish_rows :
    (json : Json) (a : Db) (metadata : CandidateMetadata) (at : Text) (c d : CandidateSnapshot)
    → begin_candidate a metadata ≡ ok c
    → Built json c d
    → IsOwned a
    → IsOwned (publish_rows at d)
unfolding publish_rows
IsOwned-publish_rows json a metadata at c d h built owned =
    let begun = begin_candidate-Begun a metadata c h in
    let frame = Built-Frame json c d built in
    let missing : (t : Text)
        → contains_key t (publish_rows at d).snapshots ≡ false
        → contains_key t c.inside.snapshots ≡ false =
      λ t m.
        ap (contains_key t) (sym frame.same_snapshots)
        ∙ sym (set_published-listed d.snapshot_id at t d.inside.snapshots)
        ∙ m in
    let other : (t : Text)
        → contains_key t c.inside.snapshots ≡ false
        → text_eq t c.snapshot_id ≡ false =
      λ t m. elim (Bool-cases (text_eq t c.snapshot_id)) [
        | inl e ↦
            let same : t ≡ c.snapshot_id = ground (arith, list_cmp-equal t c.snapshot_id) in
            ground (arith, rw same at m, begun.own)
        | inr e ↦ e
      ] in
    let before : (t : Text)
        → contains_key t c.inside.snapshots ≡ false
        → contains_key t a.snapshots ≡ false =
      λ t m. ground (arith, begun.listed t) in
    record {
      edges_owned = λ t id m.
          (frame.isolated t (other t (missing t m))).same_edges id
          ∙ (begun.members t).same_edges id
          ∙ owned.edges_owned t id (before t (missing t m));
      conflicts_owned = λ t key m.
          (frame.isolated t (other t (missing t m))).same_conflicts key
          ∙ (begun.members t).same_conflicts key
          ∙ owned.conflicts_owned t key (before t (missing t m));
    }

pub Step-IsReady :
    (json : Json) (a b : Db) → TextsDiffer json → Step json a b → IsReady json a → IsReady json b
Step-IsReady json a b differ step ready = elim (Step-cases json a b step) [
  | inl e ↦ rw e ready
  | inr (metadata, at, c, d, h, built, e, closed) ↦
      let begun = begin_candidate-Begun a metadata c h in
      let start : HasTexts json c.inside = rw begun.same_edges ready.texts in
      let texts =
        Built-keeps json (λ x. HasTexts json x.inside) (Op-HasTexts json differ) c d built start in
      record {
        sound = Step-IsSound json a b step ready.sound;
        owned = rw e (IsOwned-publish_rows json a metadata at c d h built ready.owned);
        texts = rw e (unfold publish_rows in texts);
      }
]

-- From a ready database, such as an empty one, every database that is reached is ready.
pub reached-IsReady :
    (json : Json) (a b : Db) → TextsDiffer json → Reaches json a b → IsReady json a → IsReady json b
reached-IsReady json _ _ differ (here a) ready = ready
reached-IsReady json _ _ differ (next a b c step rest) ready =
    reached-IsReady json b c differ rest (Step-IsReady json a b differ step ready)

pub empty_db-IsReady : (json : Json) → IsReady json empty_db
unfolding get has
empty_db-IsReady json = record {
  sound = empty_db-IsSound;
  owned = record { edges_owned = λ t id m. refl; conflicts_owned = λ t key m. refl };
  texts = λ id row g. ground (arith);
}
