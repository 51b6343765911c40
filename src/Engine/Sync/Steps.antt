-- ===== src/Engine/Sync/Steps.antt =====
-- crates/rationale-engine/src/lib.rs, crates/rationale-store/src/lib.rs: an insertion into the
-- candidate of a synchronization succeeds and keeps the new snapshot closed, or it is refused, but
-- never for a reference.
use rationale.Prelude.{true, ◌≡◌, refl, some, Option-cases, ◌⊎◌, inl, inr, arith}
use rationale.Result.{ok, err, Result-cases}
use rationale.Order.{list_ord, nat_ord, pair_ord, list_cmp-equal, list_cmp-same}
use rationale.Map.{Map, get}
use rationale.Map.Laws.{get-insert}
use rationale.Set.{has, add, has-add, has-add_here}
use rationale.Text.{Text}
use rationale.Model.{EvidenceNode}
use rationale.Store.Types.{
  StoreError, Entity, canonical_json, content_mismatch, RecordRow, Db, Json,
}
use rationale.Store.Candidate.{CandidateSnapshot, insert_record, insert_immutable}
use rationale.Store.Candidate.Cases.{insert_record-cases}
use rationale.Store.Publish.Verdict.{IsClosed}
use rationale.Store.Session.{Op, recorded}
use rationale.Engine.Sync.Inserts.{IsRefusal, IsGood}

pub IsRefusal-of : (e f : StoreError) → f ≡ e → IsRefusal f → IsRefusal e
IsRefusal-of e f p h = rw (← p) h

insert_immutable-refused :
    (id content origin at : Text) (rows : Map Text RecordRow) (e : StoreError)
    → insert_immutable id content origin at rows ≡ err e
    → IsRefusal e
unfolding insert_immutable
insert_immutable-refused id content origin at rows e h = elim (Option-cases (get id rows)) [
  | inl g ↦ ground (arith)
  | inr (row, g) ↦ IsRefusal-of e (content_mismatch Entity.records id) (ground (arith)) tt
]

insert_record-refused :
    (json : Json) (node : EvidenceNode) (c : CandidateSnapshot) (e : StoreError)
    → insert_record json node c ≡ err e
    → IsRefusal e
unfolding insert_record
insert_record-refused json node c e h = elim (Option-cases (json.node_text node)) [
  | inl g ↦ IsRefusal-of e canonical_json (ground (arith)) tt
  | inr (content, g) ↦ elim (Option-cases (json.origin_text node.origin)) [
    | inl f ↦ IsRefusal-of e canonical_json (ground (arith)) tt
    | inr (origin, f) ↦
        insert_immutable-refused node.id content origin c.created_at c.inside.records e
          (elim (Result-cases
            (insert_immutable node.id content origin c.created_at c.inside.records)) [
              | inl (rows, m) ↦ ground (arith)
              | inr (x, m) ↦ ground (arith)
            ])
  ]
]

insert_immutable-stored :
    (id content origin at : Text) (rows new : Map Text RecordRow)
    → insert_immutable id content origin at rows ≡ ok new
    → (row : RecordRow) × (get id new ≡ some row) × (content ≡ row.content_json)
unfolding insert_immutable
insert_immutable-stored id content origin at rows new h = elim (Option-cases (get id rows)) [
  | inl g ↦
      let row : RecordRow = record {
        content_json = content;
        origin_json = origin;
        created_at = at;
      } in
      (row, ground (arith, get-insert id id row rows, list_cmp-same id), refl)
  | inr (row, g) ↦ (row, ground (arith), ground (arith, list_cmp-equal row.content_json content))
]

-- The record is stored with its own content, and is a member of the candidate's snapshot.
abbrev pub IsStored : Json → EvidenceNode → Text → Db → Type 0
IsStored json r s db =
    (row : RecordRow) × (get r.id db.records ≡ some row)
    × (json.node_text r ≡ some row.content_json)
    × (has (s, r.id) db.snapshot_records ≡ true)

-- More records in a snapshot leave it closed.
IsClosed-add_record :
    (s id : Text) (db : Db) (rows : Map Text RecordRow)
    → IsClosed s db
    → IsClosed s (record db { records = rows; snapshot_records = add (s, id) db.snapshot_records })
IsClosed-add_record s id db rows h = record {
  edges_inside = λ e row m g.
      let (a, b) = h.edges_inside e row m g in
      (
        ground (arith, has-add (s, id) (s, row.source_id) db.snapshot_records),
        ground (arith, has-add (s, id) (s, row.target_id) db.snapshot_records),
      );
  conflicts_inside = λ key m.
      let (a, b) = h.conflicts_inside key m in
      (
        ground (arith, has-add (s, id) (s, key.0) db.snapshot_records),
        ground (arith, has-add (s, id) (s, key.1.0) db.snapshot_records),
      );
}

pub insert_record-step :
    (json : Json) (r : EvidenceNode) (c : CandidateSnapshot)
    → IsGood json c
    → ((d : CandidateSnapshot) × (insert_record json r c ≡ ok d)
        × Op json c d
        × IsGood json d
        × IsStored json r d.snapshot_id d.inside)
      ⊎ ((e : StoreError) × (insert_record json r c ≡ err e) × IsRefusal e)
insert_record-step json r c good = elim (Result-cases (insert_record json r c)) [
  | inr (e, h) ↦ inr (e, h, insert_record-refused json r c e h)
  | inl (d, h) ↦
      let (content, origin, t, rows, g, e) = insert_record-cases json r c d h in
      let (row, found, same) =
        insert_immutable-stored r.id content origin c.created_at c.inside.records rows g in
      inl (
        d,
        h,
        recorded r c d h,
        rw e record {
          closed = IsClosed-add_record c.snapshot_id r.id c.inside rows good.closed;
          texts = good.texts;
        },
        rw e (
          row,
          found,
          rw same at t,
          has-add_here (c.snapshot_id, r.id) c.inside.snapshot_records,
        ),
      )
]
