-- ===== src/Engine/Sync/Links.antt =====
-- crates/rationale-engine/src/lib.rs, crates/rationale-store/src/lib.rs: an edge or a conflict between
-- records of the snapshot is inserted, or refused for its JSON or for other content under its key.
use rationale.Prelude.{true, ◌≡◌, refl, ap, some, Option-cases, Bool-cases, ◌⊎◌, inl, inr, arith}
use rationale.Result.{ok, err, Result-cases}
use rationale.Order.{list_ord, nat_ord, pair_ord, list_cmp-equal, list_cmp-same}
use rationale.Map.{Map, get, insert, contains_key}
use rationale.Map.Laws.{get-insert}
use rationale.Set.{has, add, has-add_here, has-add_cases}
use rationale.Text.{Text, text_eq}
use rationale.Model.{EvidenceEdge}
use rationale.Store.Types.{StoreError, Entity, canonical_json, content_mismatch, EdgeRow, Db, Json}
use rationale.Store.Candidate.{CandidateSnapshot, insert_edge, insert_edge_row}
use rationale.Store.Candidate.Cases.{insert_edge-cases}
use rationale.Store.Publish.Verdict.{IsClosed}
use rationale.Store.Session.{Op, linked}
use rationale.Engine.Sync.Inserts.{IsRefusal, Present, HasTexts, TextsDiffer, IsGood}
use rationale.Engine.Sync.Steps.{IsRefusal-of}

insert_edge_row-refused :
    (edge : EvidenceEdge) (content origin at : Text) (db : Db) (e : StoreError)
    → contains_key edge.source_id db.records ≡ true
    → contains_key edge.target_id db.records ≡ true
    → insert_edge_row edge content origin at db ≡ err e
    → IsRefusal e
unfolding insert_edge_row
insert_edge_row-refused edge content origin at db e a b h =
    elim (Option-cases (get edge.id db.edges)) [
      | inl g ↦ ground (arith)
      | inr (row, g) ↦ IsRefusal-of e (content_mismatch Entity.edges edge.id) (ground (arith)) tt
    ]

insert_edge-refused :
    (json : Json) (edge : EvidenceEdge) (c : CandidateSnapshot) (e : StoreError)
    → contains_key edge.source_id c.inside.records ≡ true
    → contains_key edge.target_id c.inside.records ≡ true
    → insert_edge json edge c ≡ err e
    → IsRefusal e
unfolding insert_edge
insert_edge-refused json edge c e a b h = elim (Option-cases (json.edge_text edge)) [
  | inl g ↦ IsRefusal-of e canonical_json (ground (arith)) tt
  | inr (content, g) ↦ elim (Option-cases (json.origin_text edge.origin)) [
    | inl f ↦ IsRefusal-of e canonical_json (ground (arith)) tt
    | inr (origin, f) ↦
        insert_edge_row-refused edge content origin c.created_at c.inside e a b
          (elim (Result-cases (insert_edge_row edge content origin c.created_at c.inside)) [
            | inl (rows, m) ↦ ground (arith)
            | inr (x, m) ↦ ground (arith)
          ])
  ]
]

-- The row of an inserted edge has its content and its ends, and every other row was there before.
pub record IsFound (edge : EvidenceEdge) (content : Text) (old new : Map Text EdgeRow)
    : Type 0 where
  pub row : EdgeRow
  pub found : get edge.id new ≡ some row
  pub text : content ≡ row.content_json
  pub source : edge.source_id ≡ row.source_id
  pub target : edge.target_id ≡ row.target_id
  pub others :
      (id : Text) (r : EdgeRow) → get id new ≡ some r → (id ≡ edge.id) ⊎ (get id old ≡ some r)

pub insert_edge_row-IsFound :
    (json : Json) (edge : EvidenceEdge) (content origin at : Text) (db : Db)
    (new : Map Text EdgeRow)
    → TextsDiffer json
    → HasTexts json db
    → json.edge_text edge ≡ some content
    → insert_edge_row edge content origin at db ≡ ok new
    → IsFound edge content db.edges new
unfolding insert_edge_row
insert_edge_row-IsFound json edge content origin at db new differ texts t h =
    elim (Option-cases (get edge.id db.edges)) [
      | inl g ↦
          let row : EdgeRow = record {
            source_id = edge.source_id;
            target_id = edge.target_id;
            content_json = content;
            origin_json = origin;
            created_at = at;
          } in
          let shape : new ≡ insert edge.id row db.edges = ground (arith) in
          rw shape record {
            row = row;
            found = ground (arith, get-insert edge.id edge.id row db.edges, list_cmp-same edge.id);
            text = refl;
            source = refl;
            target = refl;
            others = λ id r m. elim (Bool-cases (text_eq id edge.id)) [
              | inl p ↦ inl (list_cmp-equal id edge.id (ground (arith)))
              | inr p ↦ inr (ground (arith, get-insert edge.id id row db.edges))
            ];
          }
      | inr (row, g) ↦
          let shape : new ≡ db.edges = ground (arith) in
          let text : content ≡ row.content_json =
            ground (arith, list_cmp-equal row.content_json content) in
          let (e, has_text, a, b) = texts edge.id row g in
          let same : edge ≡ e = differ edge e row.content_json (rw text at t) has_text in
          rw shape record {
            row = row;
            found = g;
            text = text;
            source = rw same a;
            target = rw same b;
            others = λ id r m. inr m;
          }
    ]

-- The edge is stored with its own content, and is a member of the candidate's snapshot.
abbrev pub IsLinked : Json → EvidenceEdge → Text → Db → Type 0
IsLinked json edge s db =
    (row : EdgeRow) × (get edge.id db.edges ≡ some row)
    × (json.edge_text edge ≡ some row.content_json)
    × (has (s, edge.id) db.snapshot_edges ≡ true)

module _ (edge : EvidenceEdge) (content : Text) (db : Db) (new : Map Text EdgeRow)
    (f : IsFound edge content db.edges new) where
  -- What stands under the edge's identifier is the row that was found.
  own_row : (id : Text) (r : EdgeRow) → id ≡ edge.id → get id new ≡ some r → f.row ≡ r
  own_row id r p g = ground (arith, f.found, rw p at g)

  pub HasTexts-new :
      (json : Json)
      → HasTexts json db
      → json.edge_text edge ≡ some content
      → HasTexts json (record db { edges = new })
  HasTexts-new json texts t id r g = elim (f.others id r g) [
    | inl p ↦ rw (← own_row id r p g) (edge, rw f.text at t, f.source, f.target)
    | inr old ↦ texts id r old
  ]

  IsClosed-add_edge :
      (s : Text)
      → has (s, edge.source_id) db.snapshot_records ≡ true
      → has (s, edge.target_id) db.snapshot_records ≡ true
      → IsClosed s db
      → IsClosed s (record db { edges = new; snapshot_edges = add (s, edge.id) db.snapshot_edges })
  IsClosed-add_edge s a b h = record {
    edges_inside = λ id r m g. elim (f.others id r g) [
      | inl p ↦ rw (← own_row id r p g) (rw f.source at a, rw f.target at b)
      | inr old ↦ elim (has-add_cases (s, edge.id) (s, id) db.snapshot_edges m) [
        | inl p ↦ rw (← own_row id r (ap (λ e. e.1) p) g) (rw f.source at a, rw f.target at b)
        | inr member ↦ h.edges_inside id r member old
      ]
    ];
    conflicts_inside = h.conflicts_inside;
  }

pub insert_edge-step :
    (json : Json) (edge : EvidenceEdge) (c : CandidateSnapshot)
    → TextsDiffer json
    → Present c edge.source_id
    → Present c edge.target_id
    → IsGood json c
    → ((d : CandidateSnapshot) × (insert_edge json edge c ≡ ok d)
        × Op json c d
        × IsGood json d
        × IsLinked json edge d.snapshot_id d.inside)
      ⊎ ((e : StoreError) × (insert_edge json edge c ≡ err e) × IsRefusal e)
insert_edge-step json edge c differ a b good = elim (Result-cases (insert_edge json edge c)) [
  | inr (e, h) ↦ inr (e, h, insert_edge-refused json edge c e a.0 b.0 h)
  | inl (d, h) ↦
      let (content, origin, t, rows, g, e) = insert_edge-cases json edge c d h in
      let f =
        insert_edge_row-IsFound json edge content origin c.created_at c.inside rows differ
          good.texts t g in
      inl (
        d,
        h,
        linked edge c d h,
        rw e record {
          closed = IsClosed-add_edge edge content c.inside rows f c.snapshot_id a.1 b.1 good.closed;
          texts = HasTexts-new edge content c.inside rows f json good.texts t;
        },
        rw e (
          f.row,
          f.found,
          rw f.text at t,
          has-add_here (c.snapshot_id, edge.id) c.inside.snapshot_edges,
        ),
      )
]
