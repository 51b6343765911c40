-- ===== src/Store/Session/Frame.antt =====
-- crates/rationale-store: stored evidence is immutable, and a candidate touches no snapshot but its
-- own.
use rationale.Prelude.{
  false, ◌≡◌, refl, ap, ◌∙◌, none, some, Option-cases, Bool-cases, inl, inr, arith,
}
use rationale.Result.{ok}
use rationale.Order.{Ord, list_ord, nat_ord, pair_ord, is_eq}
use rationale.Map.{Map, get, insert}
use rationale.Map.Laws.{get-insert}
use rationale.Set.{Set, has, add, has-add}
use rationale.Text.{Text, text_eq}
use rationale.Model.{EvidenceEdge, Conflict}
use rationale.Store.Candidate.Cases.{insert_record-cases, insert_edge-cases, insert_conflict-cases}
use rationale.Store.Types.{RecordRow, EdgeRow, ConflictRow, ConflictKey, Db, Json}
use rationale.Store.Candidate.{
  CandidateSnapshot, key_of, set_source_state, quarantine, insert_immutable, insert_edge_row,
  insert_conflict_row,
}
use rationale.Store.Session.{
  Op, recorded, linked, opposed, observed, quarantined, Built, start, then,
}

-- Every row of evidence of `a` stands unchanged in `b`.
pub record Keeps (a b : Db) : Type 0 where
  pub records_kept :
      (id : Text) (row : RecordRow) → get id a.records ≡ some row → get id b.records ≡ some row
  pub edges_kept :
      (id : Text) (row : EdgeRow) → get id a.edges ≡ some row → get id b.edges ≡ some row
  pub conflicts_kept :
      (key : ConflictKey) (row : ConflictRow)
      → get key a.conflicts ≡ some row
      → get key b.conflicts ≡ some row

-- The snapshot `t` has the same members in `a` and `b`.
pub record SameMembers (t : Text) (a b : Db) : Type 0 where
  pub same_records : (k : Text) → has (t, k) b.snapshot_records ≡ has (t, k) a.snapshot_records
  pub same_edges : (k : Text) → has (t, k) b.snapshot_edges ≡ has (t, k) a.snapshot_edges
  pub same_conflicts :
      (k : ConflictKey) → has (t, k) b.snapshot_conflicts ≡ has (t, k) a.snapshot_conflicts

pub Keeps-refl : (a : Db) → Keeps a a
Keeps-refl a = record {
  records_kept = λ id row h. h;
  edges_kept = λ id row h. h;
  conflicts_kept = λ key row h. h;
}

pub Keeps-trans : (a b c : Db) → Keeps a b → Keeps b c → Keeps a c
Keeps-trans a b c h k = record {
  records_kept = λ id row g. k.records_kept id row (h.records_kept id row g);
  edges_kept = λ id row g. k.edges_kept id row (h.edges_kept id row g);
  conflicts_kept = λ key row g. k.conflicts_kept key row (h.conflicts_kept key row g);
}

pub SameMembers-refl : (t : Text) (a : Db) → SameMembers t a a
SameMembers-refl t a = record {
  same_records = λ k. refl;
  same_edges = λ k. refl;
  same_conflicts = λ k. refl;
}

-- A new key leaves the old rows alone.
module _ {K V : Type 0} ⦃o : Ord K⦄ where
  get-insert_new :
      (k j : K) (v w : V) (m : Map K V)
      → get k m ≡ none
      → get j m ≡ some w
      → get j (insert k v m) ≡ some w
  get-insert_new k j v w m h g = elim (Bool-cases (is_eq (o.cmp j k))) [
    | inl e ↦ let same : j ≡ k = ground (arith, o.equal j k) in ground (arith, rw same at g)
    | inr e ↦ ground (arith, get-insert k j v m)
  ]

module _ {K : Type 0} ⦃o : Ord K⦄ where
  has-add_other :
      (s t : Text) (k j : K) (rows : Set (Text × K))
      → text_eq t s ≡ false
      → has (t, j) (add (s, k) rows) ≡ has (t, j) rows
  has-add_other s t k j rows h = ground (arith, has-add (s, k) (t, j) rows)

insert_immutable-keeps :
    (id content origin at : Text) (rows new : Map Text RecordRow)
    → insert_immutable id content origin at rows ≡ ok new
    → (j : Text) (row : RecordRow) → get j rows ≡ some row
    → get j new ≡ some row
unfolding insert_immutable
insert_immutable-keeps id content origin at rows new h j row g = elim (Option-cases (get id rows)) [
  | inl e ↦ ground (
    arith,
    get-insert_new id j (record { content_json = content; origin_json = origin; created_at = at })
        row rows,
  )
  | inr (old, e) ↦ ground (arith)
]

insert_edge_row-keeps :
    (edge : EvidenceEdge) (content origin at : Text) (db : Db) (new : Map Text EdgeRow)
    → insert_edge_row edge content origin at db ≡ ok new
    → (j : Text) (row : EdgeRow) → get j db.edges ≡ some row
    → get j new ≡ some row
unfolding insert_edge_row
insert_edge_row-keeps edge content origin at db new h j row g =
    elim (Option-cases (get edge.id db.edges)) [
      | inl e ↦ ground (
        arith,
        get-insert_new edge.id j
            (record {
              source_id = edge.source_id;
              target_id = edge.target_id;
              content_json = content;
              origin_json = origin;
              created_at = at;
            })
            row db.edges,
      )
      | inr (old, e) ↦ ground (arith)
    ]

insert_conflict_row-keeps :
    (k : Conflict) (content at : Text) (db : Db) (new : Map ConflictKey ConflictRow)
    → insert_conflict_row k content at db ≡ ok new
    → (j : ConflictKey) (row : ConflictRow) → get j db.conflicts ≡ some row
    → get j new ≡ some row
unfolding insert_conflict_row
insert_conflict_row-keeps k content at db new h j row g =
    elim (Option-cases (get (key_of k) db.conflicts)) [
      | inl e ↦ ground (
        arith,
        get-insert_new (key_of k) j (record { content_json = content; created_at = at }) row
            db.conflicts,
      )
      | inr (old, e) ↦ ground (arith)
    ]

-- What one operation leaves as it was.
pub record Frame (c d : CandidateSnapshot) : Type 0 where
  pub same_id : d.snapshot_id ≡ c.snapshot_id
  pub same_before : d.before ≡ c.before
  pub same_snapshots : d.inside.snapshots ≡ c.inside.snapshots
  pub same_current : d.inside.current_snapshot ≡ c.inside.current_snapshot
  pub kept : Keeps c.inside d.inside
  pub isolated : (t : Text) → text_eq t c.snapshot_id ≡ false → SameMembers t c.inside d.inside

pub Op-Frame : (json : Json) (c d : CandidateSnapshot) → Op json c d → Frame c d
unfolding set_source_state quarantine
Op-Frame json _ _ (recorded node c d h) =
    let (content, origin, t, rows, g, e) = insert_record-cases json node c d h in
    rw e record {
      same_id = refl;
      same_before = refl;
      same_snapshots = refl;
      same_current = refl;
      kept = record {
        records_kept =
            insert_immutable-keeps node.id content origin c.created_at c.inside.records rows g;
        edges_kept = λ id row m. m;
        conflicts_kept = λ key row m. m;
      };
      isolated = λ t n. record {
        same_records = λ k. has-add_other c.snapshot_id t node.id k c.inside.snapshot_records n;
        same_edges = λ k. refl;
        same_conflicts = λ k. refl;
      };
    }
Op-Frame json _ _ (linked edge c d h) =
    let (content, origin, t, rows, g, e) = insert_edge-cases json edge c d h in
    rw e record {
      same_id = refl;
      same_before = refl;
      same_snapshots = refl;
      same_current = refl;
      kept = record {
        records_kept = λ id row m. m;
        edges_kept = insert_edge_row-keeps edge content origin c.created_at c.inside rows g;
        conflicts_kept = λ key row m. m;
      };
      isolated = λ t n. record {
        same_records = λ k. refl;
        same_edges = λ k. has-add_other c.snapshot_id t edge.id k c.inside.snapshot_edges n;
        same_conflicts = λ k. refl;
      };
    }
Op-Frame json _ _ (opposed k c d h) =
    let (content, t, rows, g, e) = insert_conflict-cases json k c d h in
    rw e record {
      same_id = refl;
      same_before = refl;
      same_snapshots = refl;
      same_current = refl;
      kept = record {
        records_kept = λ id row m. m;
        edges_kept = λ id row m. m;
        conflicts_kept = insert_conflict_row-keeps k content c.created_at c.inside rows g;
      };
      isolated = λ t n. record {
        same_records = λ j. refl;
        same_edges = λ j. refl;
        same_conflicts =
            λ j. has-add_other c.snapshot_id t (key_of k) j c.inside.snapshot_conflicts n;
      };
    }
Op-Frame json _ _ (observed source c) = record {
  same_id = refl;
  same_before = refl;
  same_snapshots = refl;
  same_current = refl;
  kept = record {
    records_kept = λ id row m. m;
    edges_kept = λ id row m. m;
    conflicts_kept = λ key row m. m;
  };
  isolated = λ t n. record {
    same_records = λ k. refl;
    same_edges = λ k. refl;
    same_conflicts = λ k. refl;
  };
}
Op-Frame json _ _ (quarantined q c) = record {
  same_id = refl;
  same_before = refl;
  same_snapshots = refl;
  same_current = refl;
  kept = record {
    records_kept = λ id row m. m;
    edges_kept = λ id row m. m;
    conflicts_kept = λ key row m. m;
  };
  isolated = λ t n. record {
    same_records = λ k. refl;
    same_edges = λ k. refl;
    same_conflicts = λ k. refl;
  };
}

pub SameMembers-trans :
    (t : Text) (a b c : Db) → SameMembers t a b → SameMembers t b c → SameMembers t a c
SameMembers-trans t a b c h k = record {
  same_records = λ j. k.same_records j ∙ h.same_records j;
  same_edges = λ j. k.same_edges j ∙ h.same_edges j;
  same_conflicts = λ j. k.same_conflicts j ∙ h.same_conflicts j;
}

pub Built-Frame : (json : Json) (c d : CandidateSnapshot) → Built json c d → Frame c d
Built-Frame json _ _ (start c) = record {
  same_id = refl;
  same_before = refl;
  same_snapshots = refl;
  same_current = refl;
  kept = Keeps-refl c.inside;
  isolated = λ t n. SameMembers-refl t c.inside;
}
Built-Frame json _ _ (then c d e op rest) =
    let f = Op-Frame json c d op in
    let g = Built-Frame json d e rest in
    record {
      same_id = g.same_id ∙ f.same_id;
      same_before = g.same_before ∙ f.same_before;
      same_snapshots = g.same_snapshots ∙ f.same_snapshots;
      same_current = g.same_current ∙ f.same_current;
      kept = Keeps-trans c.inside d.inside e.inside f.kept g.kept;
      isolated = λ t n.
          SameMembers-trans t c.inside d.inside e.inside (f.isolated t n)
            (g.isolated t (ap (text_eq t) f.same_id ∙ n));
    }
