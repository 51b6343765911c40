-- ===== src/Store/Session/Closed.antt =====
-- crates/rationale-store/src/lib.rs: over the life of a store, every snapshot in the database is
-- closed under its references.
use rationale.Prelude.{true, ◌≡◌, sym, ap, ◌∙◌, ◌||◌, inl, inr, arith, none, some, Option-cases, []}
use rationale.Result.{ok}
use rationale.Order.{list_ord, nat_ord, pair_ord, list_cmp-equal}
use rationale.Map.{Map, get, contains_key}
use rationale.Map.Laws.{contains_key-insert, get-contains_key, contains_key-get_same}
use rationale.Set.{has, has-add, has-none}
use rationale.Text.{Text, text_eq}
use rationale.Model.{EvidenceEdge}
use rationale.Store.Types.{CandidateMetadata, EdgeRow, Db, Json}
use rationale.Store.Candidate.{
  CandidateSnapshot, begin_candidate, insert_edge_row, set_source_state, quarantine,
}
use rationale.Store.Candidate.Cases.{insert_record-cases, insert_edge-cases, insert_conflict-cases}
use rationale.Store.Publish.{publish_rows}
use rationale.Store.Publish.Verdict.{IsClosed, IsClosed-publish_rows}
use rationale.Store.Session.{
  Op, recorded, linked, opposed, observed, quarantined, Built, start, then, Step, Reaches, here,
  next,
}
use rationale.Store.Session.Frame.{Keeps, SameMembers, Built-Frame}
use rationale.Store.Session.Kept.{
  begin_candidate-Begun, Grows, Step-Grows, Step-cases, set_published-listed,
}

-- The foreign key of `snapshot_edges`: a member has its row.
abbrev pub HasRows : Db → Type 0
HasRows db = (t id : Text) → has (t, id) db.snapshot_edges ≡ true → contains_key id db.edges ≡ true

insert_edge_row-contains :
    (edge : EvidenceEdge) (content origin at : Text) (db : Db) (new : Map Text EdgeRow) (id : Text)
    → insert_edge_row edge content origin at db ≡ ok new
    → (text_eq id edge.id || contains_key id db.edges) ≡ true
    → contains_key id new ≡ true
unfolding insert_edge_row
insert_edge_row-contains edge content origin at db new id h m =
    elim (Option-cases (get edge.id db.edges)) [
      | inl e ↦ ground (
        arith,
        contains_key-insert edge.id id
            (record {
              source_id = edge.source_id;
              target_id = edge.target_id;
              content_json = content;
              origin_json = origin;
              created_at = at;
            })
            db.edges,
      )
      | inr (old, e) ↦ ground (arith, contains_key-get_same edge.id id old db.edges)
    ]

Op-HasRows :
    (json : Json) (c d : CandidateSnapshot) → Op json c d → HasRows c.inside → HasRows d.inside
unfolding set_source_state quarantine
Op-HasRows json _ _ (recorded node c d h) rows =
    let (content, origin, t, new, g, e) = insert_record-cases json node c d h in rw e rows
Op-HasRows json _ _ (linked edge c d h) rows =
    let (content, origin, t, new, g, e) = insert_edge-cases json edge c d h in
    rw e (λ t id m. insert_edge_row-contains edge content origin c.created_at c.inside new id g (
      ground (
        arith,
        rows t id,
        has-add (c.snapshot_id, edge.id) (t, id) c.inside.snapshot_edges,
        list_cmp-equal t c.snapshot_id,
      )))
Op-HasRows json _ _ (opposed k c d h) rows =
    let (content, t, new, g, e) = insert_conflict-cases json k c d h in rw e rows
Op-HasRows json _ _ (observed source c) rows = rows
Op-HasRows json _ _ (quarantined q c) rows = rows

Built-HasRows :
    (json : Json) (c d : CandidateSnapshot) → Built json c d → HasRows c.inside → HasRows d.inside
Built-HasRows json _ _ (start c) rows = rows
Built-HasRows json _ _ (then c d e op rest) rows =
    Built-HasRows json d e rest (Op-HasRows json c d op rows)

-- Every snapshot is closed, and the current one is in the database.
pub record IsSound (db : Db) : Type 0 where
  pub has_rows : HasRows db
  pub closed : (t : Text) → contains_key t db.snapshots ≡ true → IsClosed t db
  pub current : (t : Text) → db.current_snapshot ≡ some t → contains_key t db.snapshots ≡ true

-- A snapshot stays closed while its members stay and evidence only grows.
IsClosed-Grows :
    (t : Text) (a b : Db) → HasRows a → Keeps a b → SameMembers t a b → IsClosed t a → IsClosed t b
IsClosed-Grows t a b rows keeps same closed = record {
  edges_inside = λ id row m g.
      let old : has (t, id) a.snapshot_edges ≡ true = sym (same.same_edges id) ∙ m in
      let (first, e) = get-contains_key id a.edges (rows t id old) in
      let unchanged : first ≡ row = ground (arith, keeps.edges_kept id first e) in
      let inside = closed.edges_inside id row old (rw unchanged at e) in
      (same.same_records row.source_id ∙ inside.0, same.same_records row.target_id ∙ inside.1);
  conflicts_inside = λ key m.
      let inside = closed.conflicts_inside key (sym (same.same_conflicts key) ∙ m) in
      (same.same_records key.0 ∙ inside.0, same.same_records key.1.0 ∙ inside.1);
}

IsSound-publish_rows :
    (json : Json) (a : Db) (metadata : CandidateMetadata) (at : Text) (c d : CandidateSnapshot)
    → begin_candidate a metadata ≡ ok c
    → Built json c d
    → IsClosed d.snapshot_id d.inside
    → Grows a (publish_rows at d)
    → IsSound a
    → IsSound (publish_rows at d)
unfolding publish_rows
IsSound-publish_rows json a metadata at c d h built closed grows sound =
    let begun = begin_candidate-Begun a metadata c h in
    let frame = Built-Frame json c d built in
    let start_rows : HasRows c.inside = rw (begun.same_edges, begun.same_members) sound.has_rows in
    let rows = Built-HasRows json c d built start_rows in
    record {
      has_rows = rows;
      closed = λ t m.
          elim (begun.only t (
            ap (contains_key t) (sym frame.same_snapshots)
            ∙ sym (set_published-listed d.snapshot_id at t d.inside.snapshots)
            ∙ m)) [
              | inl e ↦ rw (e, ← frame.same_id) (IsClosed-publish_rows d.snapshot_id at d closed)
              | inr old ↦
                  IsClosed-Grows t a (publish_rows at d) sound.has_rows grows.keeps
                    (grows.members t old) (sound.closed t old)
            ];
      current = λ t m.
          let same : d.snapshot_id ≡ t = ground (arith) in
          rw
            (
              ← same,
              set_published-listed d.snapshot_id at d.snapshot_id d.inside.snapshots,
              frame.same_snapshots,
              frame.same_id,
            )
            begun.own;
    }

pub Step-IsSound : (json : Json) (a b : Db) → Step json a b → IsSound a → IsSound b
Step-IsSound json a b step sound = elim (Step-cases json a b step) [
  | inl e ↦ rw e sound
  | inr (metadata, at, c, d, h, built, e, closed) ↦
      let grows : Grows a (publish_rows at d) = rw e at (Step-Grows json a b step) in
      rw e (IsSound-publish_rows json a metadata at c d h built closed grows sound)
]

-- From a sound database, such as an empty one, every database that is reached by building candidates
-- and publishing or abandoning them is sound: the ends of each snapshot's edges and conflicts are
-- records of that snapshot, and the current snapshot exists.
pub reached-IsSound : (json : Json) (a b : Db) → Reaches json a b → IsSound a → IsSound b
reached-IsSound json _ _ (here a) sound = sound
reached-IsSound json _ _ (next a b c step rest) sound =
    reached-IsSound json b c rest (Step-IsSound json a b step sound)

abbrev pub empty_db : Db
empty_db = record {
  records = [];
  edges = [];
  conflicts = [];
  snapshots = [];
  snapshot_records = [];
  snapshot_edges = [];
  snapshot_conflicts = [];
  snapshot_sources = [];
  source_cursors = [];
  quarantined_inputs = [];
  current_snapshot = none;
}

pub empty_db-IsSound : IsSound empty_db
unfolding contains_key get
empty_db-IsSound = record {
  has_rows = λ t id m. has-none (t, id) m;
  closed = λ t m. ground (arith);
  current = λ t m. ground (arith);
}
