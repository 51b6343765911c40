-- ===== src/Engine/Sync/Conflicts.antt =====
-- crates/rationale-engine/src/lib.rs, crates/rationale-store/src/lib.rs: a conflict between records
-- of the snapshot is inserted, or refused for its JSON or for other content under its key.
use rationale.Prelude.{true, ◌≡◌, refl, ap, some, Option-cases, ◌⊎◌, inl, inr, arith}
use rationale.Result.{ok, err, Result-cases}
use rationale.Order.{list_ord, nat_ord, pair_ord, list_cmp-equal}
use rationale.Map.{Map, get, insert, contains_key}
use rationale.Map.Laws.{get-insert_same}
use rationale.Set.{has, add, has-add_here, has-add_cases}
use rationale.Text.{Text}
use rationale.Model.{Conflict}
use rationale.Store.Types.{
  StoreError, Entity, canonical_json, content_mismatch, ConflictRow, ConflictKey, Db, Json,
}
use rationale.Store.Candidate.{
  CandidateSnapshot, insert_conflict, insert_conflict_row, key_of, conflict_id,
}
use rationale.Store.Candidate.Cases.{insert_conflict-cases}
use rationale.Store.Publish.Verdict.{IsClosed}
use rationale.Store.Session.{Op, opposed}
use rationale.Engine.Sync.Inserts.{IsRefusal, Present, IsGood}
use rationale.Engine.Sync.Steps.{IsRefusal-of}

insert_conflict_row-refused :
    (k : Conflict) (content at : Text) (db : Db) (e : StoreError)
    → contains_key k.left_node_id db.records ≡ true
    → contains_key k.right_node_id db.records ≡ true
    → insert_conflict_row k content at db ≡ err e
    → IsRefusal e
unfolding insert_conflict_row
insert_conflict_row-refused k content at db e a b h =
    elim (Option-cases (get (key_of k) db.conflicts)) [
      | inl g ↦ ground (arith)
      | inr (row, g) ↦
          IsRefusal-of e (content_mismatch Entity.conflict (conflict_id k)) (ground (arith)) tt
    ]

insert_conflict-refused :
    (json : Json) (k : Conflict) (c : CandidateSnapshot) (e : StoreError)
    → contains_key k.left_node_id c.inside.records ≡ true
    → contains_key k.right_node_id c.inside.records ≡ true
    → insert_conflict json k c ≡ err e
    → IsRefusal e
unfolding insert_conflict
insert_conflict-refused json k c e a b h = elim (Option-cases (json.conflict_text k)) [
  | inl g ↦ IsRefusal-of e canonical_json (ground (arith)) tt
  | inr (content, g) ↦
      insert_conflict_row-refused k content c.created_at c.inside e a b
        (elim (Result-cases (insert_conflict_row k content c.created_at c.inside)) [
          | inl (rows, m) ↦ ground (arith)
          | inr (x, m) ↦ ground (arith)
        ])
]

insert_conflict_row-stored :
    (k : Conflict) (content at : Text) (db : Db) (new : Map ConflictKey ConflictRow)
    → insert_conflict_row k content at db ≡ ok new
    → (row : ConflictRow) × (get (key_of k) new ≡ some row) × (content ≡ row.content_json)
unfolding insert_conflict_row
insert_conflict_row-stored k content at db new h =
    elim (Option-cases (get (key_of k) db.conflicts)) [
      | inl g ↦
          let row : ConflictRow = record { content_json = content; created_at = at } in
          let shape : new ≡ insert (key_of k) row db.conflicts = ground (arith) in
          (row, rw shape (get-insert_same (key_of k) row db.conflicts), refl)
      | inr (row, g) ↦
          (row, ground (arith), ground (arith, list_cmp-equal row.content_json content))
    ]

-- The conflict is stored with its own content, and is a member of the candidate's snapshot.
abbrev pub IsOpposed : Json → Conflict → Text → Db → Type 0
IsOpposed json k s db =
    (row : ConflictRow) × (get (key_of k) db.conflicts ≡ some row)
    × (json.conflict_text k ≡ some row.content_json)
    × (has (s, key_of k) db.snapshot_conflicts ≡ true)

IsClosed-add_conflict :
    (s : Text) (k : Conflict) (db : Db) (rows : Map ConflictKey ConflictRow)
    → has (s, k.left_node_id) db.snapshot_records ≡ true
    → has (s, k.right_node_id) db.snapshot_records ≡ true
    → IsClosed s db
    → IsClosed s (record db {
      conflicts = rows;
      snapshot_conflicts = add (s, key_of k) db.snapshot_conflicts;
    })
IsClosed-add_conflict s k db rows a b h = record {
  edges_inside = h.edges_inside;
  conflicts_inside = λ key m. elim (has-add_cases (s, key_of k) (s, key) db.snapshot_conflicts m) [
    | inl p ↦ let same : key ≡ key_of k = ap (λ e. e.1) p in rw same (a, b)
    | inr member ↦ h.conflicts_inside key member
  ];
}

pub insert_conflict-step :
    (json : Json) (k : Conflict) (c : CandidateSnapshot)
    → Present c k.left_node_id
    → Present c k.right_node_id
    → IsGood json c
    → ((d : CandidateSnapshot) × (insert_conflict json k c ≡ ok d)
        × Op json c d
        × IsGood json d
        × IsOpposed json k d.snapshot_id d.inside)
      ⊎ ((e : StoreError) × (insert_conflict json k c ≡ err e) × IsRefusal e)
insert_conflict-step json k c a b good = elim (Result-cases (insert_conflict json k c)) [
  | inr (e, h) ↦ inr (e, h, insert_conflict-refused json k c e a.0 b.0 h)
  | inl (d, h) ↦
      let (content, t, rows, g, e) = insert_conflict-cases json k c d h in
      let (row, found, same) = insert_conflict_row-stored k content c.created_at c.inside rows g in
      inl (
        d,
        h,
        opposed k c d h,
        rw e record {
          closed = IsClosed-add_conflict c.snapshot_id k c.inside rows a.1 b.1 good.closed;
          texts = good.texts;
        },
        rw e (
          row,
          found,
          rw same at t,
          has-add_here (c.snapshot_id, key_of k) c.inside.snapshot_conflicts,
        ),
      )
]
