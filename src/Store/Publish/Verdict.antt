-- ===== src/Store/Publish/Verdict.antt =====
-- crates/rationale-store/src/lib.rs: `validate_candidate` and `publish` against a description of a
-- snapshot that is closed under its references.
use rationale.Prelude.{
  ◌++◌, Bool, true, false, ◌≡◌, refl, ◌⊎◌, inl, inr, none, some, [], ◌∷◌, Bool-cases, Option-cases,
  arith,
}
use rationale.Result.{ok, err}
use rationale.Order.{Ord, list_ord, nat_ord, pair_ord, list_cmp-same, list_cmp-equal}
use rationale.Map.{get}
use rationale.Set.{Set, has, has-here, has-there, has-cases, has-none}
use rationale.Text.{Text, codes}
use rationale.Store.Types.{unresolved_reference, EdgeRow, ConflictKey, Db}
use rationale.Store.Candidate.{CandidateSnapshot}
use rationale.Store.Publish.{
  members, edge_leaves, conflict_leaves, first_leaving, least_rule, validate_candidate,
  publish_rows, publish,
}

-- Both ends of every edge and of every conflict of the snapshot are records of the snapshot.
pub record IsClosed (s : Text) (db : Db) : Type 0 where
  pub edges_inside :
      (id : Text) (row : EdgeRow)
      → has (s, id) db.snapshot_edges ≡ true
      → get id db.edges ≡ some row
      → (has (s, row.source_id) db.snapshot_records ≡ true)
        × (has (s, row.target_id) db.snapshot_records ≡ true)
  pub conflicts_inside :
      (key : ConflictKey)
      → has (s, key) db.snapshot_conflicts ≡ true
      → (has (s, key.0) db.snapshot_records ≡ true) × (has (s, key.1.0) db.snapshot_records ≡ true)

module _ {K : Type 0} ⦃o : Ord K⦄ where
  pub has-members :
      (s : Text) (k : K) (rows : Set (Text × K)) → has k (members s rows) ≡ has (s, k) rows
  unfolding members has
  has-members s k [] = refl
  has-members s k ((t, j) ∷ rows) = ground (
    arith,
    has-members s k rows,
    list_cmp-equal s t,
    list_cmp-equal t s,
    list_cmp-same s,
    list_cmp-same t,
  )

  first_leaving-none :
      (p : K → Bool) (k : K) (ks : Set K)
      → first_leaving p ks ≡ none
      → has k ks ≡ true
      → p k ≡ false
  unfolding first_leaving has
  first_leaving-none p k [] h m = ground (arith)
  first_leaving-none p k (j ∷ ks) h m = ground (arith, first_leaving-none p k ks, o.equal k j)

  first_leaving-some :
      (p : K → Bool) (k : K) (ks : Set K)
      → first_leaving p ks ≡ some k
      → (has k ks ≡ true) × (p k ≡ true)
  unfolding first_leaving has
  first_leaving-some p k [] h = ground (arith)
  first_leaving-some p k (j ∷ ks) h = ground (arith, first_leaving-some p k ks, o.same k, o.same j)

least_rule-none :
    (p : ConflictKey → Bool) (k : ConflictKey) (ks : Set ConflictKey)
    → least_rule p ks ≡ none
    → has k ks ≡ true
    → p k ≡ false
unfolding least_rule
least_rule-none p k [] h m = has-none k m
least_rule-none p k (j ∷ ks) h m = elim (has-cases k j ks m) [
  | inl e ↦ rw e ground (arith)
  | inr e ↦ ground (arith, least_rule-none p k ks)
]

least_rule-some :
    (p : ConflictKey → Bool) (r : Text) (ks : Set ConflictKey)
    → least_rule p ks ≡ some r
    → (k : ConflictKey) × (has k ks ≡ true) × (p k ≡ true)
unfolding least_rule
least_rule-some p r [] h = ground (arith)
least_rule-some p r (j ∷ ks) h = elim (Bool-cases (p j)) [
  | inl e ↦ (j, has-here j ks, e)
  | inr e ↦ let k = least_rule-some p r ks (ground (arith)) in (k.0, has-there k.0 j ks k.1, k.2)
]

validate_candidate-IsClosed : (db : Db) (s : Text) → validate_candidate db s ≡ ok tt → IsClosed s db
unfolding validate_candidate edge_leaves conflict_leaves
validate_candidate-IsClosed db s h =
    elim (Option-cases (first_leaving (edge_leaves db s) (members s db.snapshot_edges))) [
      | inl e ↦
          elim (Option-cases
            (least_rule (conflict_leaves db s) (members s db.snapshot_conflicts))) [
              | inl f ↦ record {
                edges_inside = λ id row m g. ground (
                  arith,
                  first_leaving-none (edge_leaves db s) id (members s db.snapshot_edges),
                  has-members s id db.snapshot_edges,
                );
                conflicts_inside = λ key m. ground (
                  arith,
                  least_rule-none (conflict_leaves db s) key (members s db.snapshot_conflicts),
                  has-members s key db.snapshot_conflicts,
                );
              }
              | inr (r, f) ↦ ground (arith)
            ]
      | inr (r, e) ↦ ground (arith)
    ]

validate_candidate-ok : (db : Db) (s : Text) → IsClosed s db → validate_candidate db s ≡ ok tt
unfolding validate_candidate edge_leaves conflict_leaves
validate_candidate-ok db s closed =
    elim (Option-cases (first_leaving (edge_leaves db s) (members s db.snapshot_edges))) [
      | inl e ↦
          elim (Option-cases
            (least_rule (conflict_leaves db s) (members s db.snapshot_conflicts))) [
              | inl f ↦ ground (arith)
              | inr (r, f) ↦
                  let found =
                    least_rule-some (conflict_leaves db s) r (members s db.snapshot_conflicts) f in
                  let inside =
                    closed.conflicts_inside found.0
                      (ground (arith, found.1, has-members s found.0 db.snapshot_conflicts)) in
                  ground (arith, found.2, inside)
            ]
      | inr (id, e) ↦
          let found = first_leaving-some (edge_leaves db s) id (members s db.snapshot_edges) e in
          elim (Option-cases (get id db.edges)) [
            | inl g ↦ ground (arith, found.1)
            | inr (row, g) ↦
                let inside =
                  closed.edges_inside id row
                    (ground (arith, found.0, has-members s id db.snapshot_edges)) g in
                ground (arith, found.1, inside)
          ]
    ]

validate_candidate-cases :
    (db : Db) (s : Text)
    → (validate_candidate db s ≡ ok tt)
      ⊎ ((detail : Text) × (validate_candidate db s ≡ err (unresolved_reference detail)))
unfolding validate_candidate
validate_candidate-cases db s =
    elim (Option-cases (first_leaving (edge_leaves db s) (members s db.snapshot_edges))) [
      | inl e ↦
          elim (Option-cases
            (least_rule (conflict_leaves db s) (members s db.snapshot_conflicts))) [
              | inl f ↦ inl (ground (arith))
              | inr (r, f) ↦ inr (
                codes "conflict " ++ r ++ codes " leaves the snapshot",
                rw (e, f, validate_candidate) refl,
              )
            ]
      | inr (id, e) ↦
          inr (codes "edge " ++ id ++ codes " leaves the snapshot", rw (e, validate_candidate) refl)
    ]

-- Publishing keeps what a closed snapshot is about.
pub IsClosed-publish_rows :
    (s : Text) (at : Text) (c : CandidateSnapshot)
    → IsClosed s c.inside
    → IsClosed s (publish_rows at c)
unfolding publish_rows
IsClosed-publish_rows s at c closed = record {
  edges_inside = closed.edges_inside;
  conflicts_inside = closed.conflicts_inside;
}

-- A candidate is published if and only if its snapshot is closed: both ends of each of its edges
-- and conflicts are its own records. Published, it is the current snapshot, and the database is the
-- candidate's with its row, cursors and current snapshot set. Else the answer names an unresolved
-- reference, and the database is as it was before the candidate.
pub publish-iff_IsClosed :
    (at : Text) (c : CandidateSnapshot)
    → (IsClosed c.snapshot_id c.inside
        × (publish at c ≡ (ok tt, publish_rows at c))
        × IsClosed c.snapshot_id (publish_rows at c))
      ⊎ ((¬ IsClosed c.snapshot_id c.inside)
          × ((detail : Text) × (publish at c ≡ (err (unresolved_reference detail), c.before))))
unfolding publish
publish-iff_IsClosed at c = elim (validate_candidate-cases c.inside c.snapshot_id) [
  | inl e ↦
      let closed = validate_candidate-IsClosed c.inside c.snapshot_id e in
      inl (closed, rw (e, publish) refl, IsClosed-publish_rows c.snapshot_id at c closed)
  | inr (detail, e) ↦ inr (
    λ closed. ground (arith, validate_candidate-ok c.inside c.snapshot_id closed),
    (detail, rw (e, publish) refl),
  )
]
