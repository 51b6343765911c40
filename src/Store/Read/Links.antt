-- ===== src/Store/Read/Links.antt =====
-- crates/rationale-store/src/lib.rs: the links that `REACHABLE_CTE` follows are the steps of the
-- snapshot's rows, each edge forwards and each conflict both ways.
use rationale.Prelude.{
  true, ◌≡◌, refl, sym, ap, ◌∙◌, inl, inr, ◌⊎◌, Option, some, List, [], ◌∷◌, In, map,
  In-append_left, In-append_right, In-append_cases, In-map, In-map_back, Option-cases,
}
use rationale.Order.{Ord, list_ord, nat_ord, pair_ord}
use rationale.Map.{get}
use rationale.Set.{Set, has, has-none, has-cases, has-here, has-there}
use rationale.Text.{Text}
use rationale.Store.Types.{EdgeRow, ConflictKey, Db}
use rationale.Store.Publish.{members}
use rationale.Store.Publish.Verdict.{has-members}
use rationale.Store.Read.{rows_of, edge_ends, forwards, backwards, edge_rows, conflict_ends, links}

-- An edge of the snapshot leads from its source to its target, and a conflict from either side to the
-- other.
pub data Step (db : Db) (s : Text) (a b : Text) : Type 0 where
  by_edge :
      (id : Text) (row : EdgeRow)
      → has (s, id) db.snapshot_edges ≡ true
      → get id db.edges ≡ some row
      → row.source_id ≡ a
      → row.target_id ≡ b
      → Step db s a b
  to_right : (rule : Text) → has (s, (a, (b, rule))) db.snapshot_conflicts ≡ true → Step db s a b
  to_left : (rule : Text) → has (s, (b, (a, rule))) db.snapshot_conflicts ≡ true → Step db s a b

module _ {K : Type 0} ⦃o : Ord K⦄ where
  In-of_has : (k : K) (s : Set K) → has k s ≡ true → In k s
  In-of_has k [] h = has-none k h
  In-of_has k (j ∷ s) h = elim (has-cases k j s h) [ inl e ↦ inl e | inr m ↦ inr (In-of_has k s m) ]

module _ {K V : Type 0} where
  In-rows_of :
      (find : K → Option V) (k : K) (v : V) (ks : List K)
      → In k ks
      → find k ≡ some v
      → In v (rows_of find ks)
  unfolding rows_of
  In-rows_of find k v [] m e = absurd m
  In-rows_of find k v (j ∷ ks) (inl f) e =
      let g : find j ≡ some v = rw f at e in rw (g, rows_of) (inl refl)
  In-rows_of find k v (j ∷ ks) (inr m) e = elim (Option-cases (find j)) [
    | inl f ↦ rw (f, rows_of) (In-rows_of find k v ks m e)
    | inr (w, f) ↦ rw (f, rows_of) (inr (In-rows_of find k v ks m e))
  ]

edge_link :
    (db : Db) (s id : Text) (row : EdgeRow)
    → has (s, id) db.snapshot_edges ≡ true
    → get id db.edges ≡ some row
    → In (row.source_id, row.target_id) (links db s)
unfolding links edge_rows conflict_ends
edge_link db s id row m e =
    In-append_left (edge_ends row) (map edge_ends (edge_rows db s)) (conflict_ends db s) (
      In-map edge_ends row (edge_rows db s) (
        In-rows_of (λ j. get j db.edges) id row (members s db.snapshot_edges)
          (In-of_has id (members s db.snapshot_edges) (has-members s id db.snapshot_edges ∙ m)) e))

conflict_links :
    (db : Db) (s : Text) (key : ConflictKey)
    → has (s, key) db.snapshot_conflicts ≡ true
    → In (key.0, key.1.0) (links db s) × In (key.1.0, key.0) (links db s)
unfolding links edge_rows conflict_ends
conflict_links db s key m =
    let keys = members s db.snapshot_conflicts in
    let found = In-of_has key keys (has-members s key db.snapshot_conflicts ∙ m) in
    let edges = map edge_ends (edge_rows db s) in
    (
      In-append_right (key.0, key.1.0) edges (conflict_ends db s)
          (In-append_left (key.0, key.1.0) (map forwards keys) (map backwards keys)
            (In-map forwards key keys found)),
      In-append_right (key.1.0, key.0) edges (conflict_ends db s)
          (In-append_right (key.1.0, key.0) (map forwards keys) (map backwards keys)
            (In-map backwards key keys found)),
    )

pub link-of_Step : (db : Db) (s a b : Text) → Step db s a b → In (a, b) (links db s)
link-of_Step db s a b (by_edge id row m e p q) = rw (← p, ← q) (edge_link db s id row m e)
link-of_Step db s a b (to_right rule m) = (conflict_links db s (a, (b, rule)) m).0
link-of_Step db s a b (to_left rule m) = (conflict_links db s (b, (a, rule)) m).1

-- What a row comes from.
In-rows_back :
    {K V : Type 0} (find : K → Option V) (v : V) (ks : List K)
    → In v (rows_of find ks)
    → (k : K) × In k ks × (find k ≡ some v)
unfolding rows_of
In-rows_back find v [] h = absurd h
In-rows_back find v (k ∷ ks) h = elim (Option-cases (find k)) [
  | inl e ↦ let (j, m, g) = In-rows_back find v ks (rw (e, rows_of) at h) in (j, inr m, g)
  | inr (w, e) ↦
      let both : (v ≡ w) ⊎ In v (rows_of find ks) = rw (e, rows_of) at h in
      elim both [
        | inl same ↦ (k, inl refl, e ∙ ap (λ x. some x) (sym same))
        | inr m ↦ let (j, i, g) = In-rows_back find v ks m in (j, inr i, g)
      ]
]

has_of_In : {K : Type 0} ⦃o : Ord K⦄ (k : K) (s : Set K) → In k s → has k s ≡ true
has_of_In k [] h = absurd h
has_of_In k (j ∷ s) (inl e) = rw e (has-here j s)
has_of_In k (j ∷ s) (inr m) = has-there k j s (has_of_In k s m)

pub Step-of_link : (db : Db) (s a b : Text) → In (a, b) (links db s) → Step db s a b
unfolding links edge_rows conflict_ends
Step-of_link db s a b h =
    let keys = members s db.snapshot_conflicts in
    elim (In-append_cases (a, b) (map edge_ends (edge_rows db s)) (conflict_ends db s) h) [
      | inl m ↦
          let (row, i, e) = In-map_back edge_ends (a, b) (edge_rows db s) m in
          let (id, j, g) = In-rows_back (λ k. get k db.edges) row (members s db.snapshot_edges) i in
          by_edge id row
            (sym (has-members s id db.snapshot_edges)
              ∙ has_of_In id (members s db.snapshot_edges) j)
            g (ap (λ p. p.0) (sym e)) (ap (λ p. p.1) (sym e))
      | inr m ↦ elim (In-append_cases (a, b) (map forwards keys) (map backwards keys) m) [
        | inl i ↦
            let (key, j, e) = In-map_back forwards (a, b) keys i in
            to_right key.1.1 (
              rw (ap (λ p. p.0) e, ap (λ p. p.1) e)
                (sym (has-members s key db.snapshot_conflicts) ∙ has_of_In key keys j))
        | inr i ↦
            let (key, j, e) = In-map_back backwards (a, b) keys i in
            to_left key.1.1 (
              rw (ap (λ p. p.0) e, ap (λ p. p.1) e)
                (sym (has-members s key db.snapshot_conflicts) ∙ has_of_In key keys j))
      ]
    ]
