-- ===== src/Store/Session/Kept.antt =====
-- crates/rationale-store/src/lib.rs: over the life of a store, stored evidence is immutable, and so
-- are the members of a snapshot once it is published.
use rationale.Prelude.{
  true, false, ◌≡◌, refl, ap, ◌∙◌, ◌⊎◌, Bool-cases, inl, inr, arith, none, some, Option-cases,
}
use rationale.Result.{ok}
use rationale.Order.{list_ord, nat_ord, list_cmp-equal, list_cmp-same}
use rationale.Map.{Map, get, insert, contains_key}
use rationale.Map.Laws.{contains_key-insert, contains_key-insert_old}
use rationale.Text.{Text, text_eq}
use rationale.Store.Types.{CandidateMetadata, Db, Json, SnapshotPhase, SnapshotRow}
use rationale.Store.Candidate.{CandidateSnapshot, begin_candidate}
use rationale.Store.Publish.{publish_rows, set_published, abandon}
use rationale.Store.Publish.Verdict.{IsClosed, publish-iff_IsClosed}
use rationale.Store.Session.{Built, Step, published, abandoned, Reaches, here, next}
use rationale.Store.Session.Frame.{
  Keeps, SameMembers, Keeps-refl, Keeps-trans, SameMembers-refl, SameMembers-trans, Built-Frame,
}

-- What a candidate starts from.
pub record Begun (db : Db) (c : CandidateSnapshot) : Type 0 where
  pub is_new : contains_key c.snapshot_id db.snapshots ≡ false
  pub starts : c.before ≡ db
  pub keeps : Keeps db c.inside
  pub members : (t : Text) → SameMembers t db c.inside
  pub listed :
      (t : Text) → contains_key t db.snapshots ≡ true → contains_key t c.inside.snapshots ≡ true
  pub own : contains_key c.snapshot_id c.inside.snapshots ≡ true
  pub only :
      (t : Text)
      → contains_key t c.inside.snapshots ≡ true
      → (t ≡ c.snapshot_id) ⊎ (contains_key t db.snapshots ≡ true)
  pub same_edges : c.inside.edges ≡ db.edges
  pub same_members : c.inside.snapshot_edges ≡ db.snapshot_edges
  pub current : c.inside.current_snapshot ≡ db.current_snapshot

pub begin_candidate-Begun :
    (db : Db) (metadata : CandidateMetadata) (c : CandidateSnapshot)
    → begin_candidate db metadata ≡ ok c
    → Begun db c
unfolding begin_candidate
begin_candidate-Begun db metadata c h = elim (Bool-cases (contains_key metadata.id db.snapshots)) [
  | inl e ↦ ground (arith)
  | inr e ↦
      let row : SnapshotRow = record {
        created_at = metadata.created_at;
        published_at = none;
        state = SnapshotPhase.candidate;
      } in
      let shape : c ≡ record {
        inside = record db { snapshots = insert metadata.id row db.snapshots };
        before = db;
        snapshot_id = metadata.id;
        created_at = metadata.created_at;
      } =
        ground (arith) in
      rw shape record {
        is_new = e;
        starts = refl;
        keeps = record {
          records_kept = λ id row m. m;
          edges_kept = λ id row m. m;
          conflicts_kept = λ key row m. m;
        };
        members = λ t. record {
          same_records = λ k. refl;
          same_edges = λ k. refl;
          same_conflicts = λ k. refl;
        };
        listed = λ t m. ground (arith, contains_key-insert metadata.id t row db.snapshots);
        own = ground (
          arith,
          contains_key-insert metadata.id metadata.id row db.snapshots,
          list_cmp-same metadata.id,
        );
        only = λ t m. elim (Bool-cases (text_eq t metadata.id)) [
          | inl f ↦ inl (ground (arith, list_cmp-equal t metadata.id))
          | inr f ↦ inr (ground (arith, contains_key-insert metadata.id t row db.snapshots))
        ];
        same_edges = refl;
        same_members = refl;
        current = refl;
      }
]

pub set_published-listed :
    (s at t : Text) (rows : Map Text SnapshotRow)
    → contains_key t (set_published s at rows) ≡ contains_key t rows
unfolding set_published
set_published-listed s at t rows = elim (Option-cases (get s rows)) [
  | inl e ↦ ground (arith)
  | inr (row, e) ↦ ground (
    arith,
    contains_key-insert_old s t
        (record row { state = SnapshotPhase.published; published_at = some at }) row rows,
  )
]

-- From `a` to `b` no evidence changed, and no snapshot of `a` went or changed its members.
pub record Grows (a b : Db) : Type 0 where
  pub keeps : Keeps a b
  pub listed : (t : Text) → contains_key t a.snapshots ≡ true → contains_key t b.snapshots ≡ true
  pub members : (t : Text) → contains_key t a.snapshots ≡ true → SameMembers t a b

Grows-refl : (a : Db) → Grows a a
Grows-refl a = record {
  keeps = Keeps-refl a;
  listed = λ t m. m;
  members = λ t m. SameMembers-refl t a;
}

pub not_new :
    (db : Db) (s t : Text)
    → contains_key s db.snapshots ≡ false
    → contains_key t db.snapshots ≡ true
    → text_eq t s ≡ false
not_new db s t h m = elim (Bool-cases (text_eq t s)) [
  | inl e ↦ let same : t ≡ s = ground (arith, list_cmp-equal t s) in ground (arith, rw same at m)
  | inr e ↦ e
]

built-Grows :
    (json : Json) (db : Db) (metadata : CandidateMetadata) (c d : CandidateSnapshot)
    → begin_candidate db metadata ≡ ok c
    → Built json c d
    → Grows db d.inside
built-Grows json db metadata c d h b =
    let begun = begin_candidate-Begun db metadata c h in
    let frame = Built-Frame json c d b in
    record {
      keeps = Keeps-trans db c.inside d.inside begun.keeps frame.kept;
      listed = λ t m. rw frame.same_snapshots (begun.listed t m);
      members = λ t m.
          SameMembers-trans t db c.inside d.inside (begun.members t)
            (frame.isolated t (not_new db c.snapshot_id t begun.is_new m));
    }

Grows-publish_rows :
    (db : Db) (at : Text) (c : CandidateSnapshot) → Grows db c.inside → Grows db (publish_rows at c)
unfolding publish_rows
Grows-publish_rows db at c g = record {
  keeps = record {
    records_kept = g.keeps.records_kept;
    edges_kept = g.keeps.edges_kept;
    conflicts_kept = g.keeps.conflicts_kept;
  };
  listed = λ t m. set_published-listed c.snapshot_id at t c.inside.snapshots ∙ g.listed t m;
  members = λ t m. record {
    same_records = (g.members t m).same_records;
    same_edges = (g.members t m).same_edges;
    same_conflicts = (g.members t m).same_conflicts;
  };
}

abandoned_before :
    (json : Json) (db : Db) (metadata : CandidateMetadata) (c d : CandidateSnapshot)
    → begin_candidate db metadata ≡ ok c
    → Built json c d
    → d.before ≡ db
abandoned_before json db metadata c d h b =
    (Built-Frame json c d b).same_before ∙ (begin_candidate-Begun db metadata c h).starts

-- A step is a publication of a closed candidate, or leaves the database as it was.
pub Step-cases :
    (json : Json) (a b : Db)
    → Step json a b
    → (b ≡ a)
      ⊎ ((metadata : CandidateMetadata) × (at : Text) × (c d : CandidateSnapshot) × (begin_candidate
              a metadata
            ≡ ok c)
          × Built json c d
          × (b ≡ publish_rows at d)
          × IsClosed d.snapshot_id d.inside)
unfolding abandon
Step-cases json _ _ (published db metadata at c d h b) = elim (publish-iff_IsClosed at d) [
  | inl (closed, e, f) ↦ inr (metadata, at, c, d, h, b, ap (λ r. r.1) e, closed)
  | inr (leaves, (detail, e)) ↦ inl (ap (λ r. r.1) e ∙ abandoned_before json db metadata c d h b)
]
Step-cases json _ _ (abandoned db metadata c d h b) =
    inl (abandoned_before json db metadata c d h b)

pub Step-Grows : (json : Json) (a b : Db) → Step json a b → Grows a b
Step-Grows json a b step = elim (Step-cases json a b step) [
  | inl e ↦ rw e (Grows-refl a)
  | inr (metadata, at, c, d, h, built, e, closed) ↦
      rw e (Grows-publish_rows a at d (built-Grows json a metadata c d h built))
]

-- Whatever candidates are built, published, refused or abandoned between `a` and `b`: every row of
-- evidence in `a` stands unchanged in `b`, and every snapshot of `a` is in `b` with the same records,
-- edges and conflicts.
pub snapshots_immutable : (json : Json) (a b : Db) → Reaches json a b → Grows a b
snapshots_immutable json _ _ (here a) = Grows-refl a
snapshots_immutable json _ _ (next a b c step rest) =
    let g = Step-Grows json a b step in
    let k = snapshots_immutable json b c rest in
    record {
      keeps = Keeps-trans a b c g.keeps k.keeps;
      listed = λ t m. k.listed t (g.listed t m);
      members = λ t m. SameMembers-trans t a b c (g.members t m) (k.members t (g.listed t m));
    }
