-- ===== src/Store/Read/Limits.antt =====
-- crates/rationale-store/src/lib.rs: no slice is larger than the limits it was asked for with.
use rationale.Prelude.{
  ℕ, ◌≤◌, ◌<◌, ◌≡◌, refl, sym, ap, ◌∙◌, ◌⊎◌, inl, inr, Option, some, List, [], ◌∷◌, length, map,
  Option-cases, arith,
}
use rationale.Result.{ok, err, Result-cases, bind-ok}
use rationale.Order.{list_ord, nat_ord, pair_ord}
use rationale.Map.{get}
use rationale.Text.{Text}
use rationale.Store.Types.{
  Entity, ConflictKey, RecordRow, EdgeRow, ConflictRow, slice_limit_exceeded, Db, Json, SliceLimits,
  GraphSlice,
}
use rationale.Store.Publish.{members}
use rationale.Store.Read.{
  enforce_limit, rows_of, decode_rows, record_contents, edge_contents, conflict_contents, reachable,
  reached_nodes, reached_edges, reached_conflicts, load_sources, load_rows, load_current_slice,
  load_current_proof_slice,
}

-- A slice within the limits.
pub record IsWithin (limits : SliceLimits) (slice : GraphSlice) : Type 0 where
  pub nodes_within : length slice.nodes ≤ limits.max_nodes
  pub edges_within : length slice.edges ≤ limits.max_edges
  pub conflicts_within : length slice.conflicts ≤ limits.max_conflicts

enforce_limit-cases :
    (kind : Entity) (actual limit : ℕ)
    → ((enforce_limit kind actual limit ≡ ok tt) × (actual ≤ limit))
      ⊎ ((enforce_limit kind actual limit ≡ err (slice_limit_exceeded kind actual limit))
          × (limit < actual))
unfolding enforce_limit
enforce_limit-cases kind actual limit = ground (arith)

length-rows_of :
    {K V : Type 0} (find : K → Option V) (ks : List K) → length (rows_of find ks) ≤ length ks
unfolding rows_of
length-rows_of find [] = omega arith
length-rows_of find (k ∷ ks) = ground (arith, length-rows_of find ks)

length-map : {A B : Type 0} (f : A → B) (xs : List A) → length (map f xs) ≡ length xs
length-map f [] = refl
length-map f (x ∷ xs) = ground (arith, length-map f xs)

length-decode_rows :
    {A : Type 0} (read : Text → Option A) (ts : List Text) (found : List A)
    → decode_rows read ts ≡ ok found
    → length found ≡ length ts
unfolding decode_rows
length-decode_rows read [] found h = ground (arith)
length-decode_rows read (t ∷ ts) found h = elim (Option-cases (read t)) [
  | inl e ↦ ground (arith)
  | inr (a, e) ↦ elim (Result-cases (decode_rows read ts)) [
    | inl (rest, f) ↦ ground (arith, length-decode_rows read ts rest f)
    | inr (x, f) ↦ ground (arith)
  ]
]

bounded :
    {A : Type 0} (kind : Entity) (read : Text → Option A) (ts : List Text) (n limit : ℕ)
    (a : Unit {0}) (found xs : List A)
    → enforce_limit kind n limit ≡ ok a
    → length ts ≤ n
    → decode_rows read ts ≡ ok found
    → xs ≡ found
    → length xs ≤ limit
bounded kind read ts n limit a found xs h k d e = elim (enforce_limit-cases kind n limit) [
  | inl (f, g) ↦ rw e (omega (arith, length-decode_rows read ts found d))
  | inr (f, g) ↦ ground (arith)
]

module _ (json : Json) (db : Db) where
  length-record_contents : (ids : List Text) → length (record_contents db ids) ≤ length ids
  unfolding record_contents
  length-record_contents ids =
      let find : Text → Option RecordRow = λ id. get id db.records in
      omega
        (arith, length-rows_of find ids, length-map (λ row. row.content_json) (rows_of find ids))

  length-edge_contents : (ids : List Text) → length (edge_contents db ids) ≤ length ids
  unfolding edge_contents
  length-edge_contents ids =
      let find : Text → Option EdgeRow = λ id. get id db.edges in
      omega
        (arith, length-rows_of find ids, length-map (λ row. row.content_json) (rows_of find ids))

  length-conflict_contents :
      (keys : List ConflictKey) → length (conflict_contents db keys) ≤ length keys
  unfolding conflict_contents
  length-conflict_contents keys =
      let find : ConflictKey → Option ConflictRow = λ k. get k db.conflicts in
      omega
        (arith, length-rows_of find keys, length-map (λ row. row.content_json) (rows_of find keys))

  load_rows-IsWithin :
      (limits : SliceLimits) (s : Text) (node_ids edge_ids : List Text) (keys : List ConflictKey)
      (slice : GraphSlice)
      → load_rows json limits db s node_ids edge_ids keys ≡ ok (some slice)
      → IsWithin limits slice
  unfolding load_rows
  load_rows-IsWithin limits s node_ids edge_ids keys slice h =
      let (a, a_ok, h) =
        bind-ok (enforce_limit Entity.nodes (length node_ids) limits.max_nodes) _ (some slice) h in
      let (b, b_ok, h) =
        bind-ok (enforce_limit Entity.edges (length edge_ids) limits.max_edges) _ (some slice) h in
      let (c, c_ok, h) =
        bind-ok (enforce_limit Entity.conflicts (length keys) limits.max_conflicts) _ (some slice)
          h in
      let (nodes, n_ok, h) =
        bind-ok (decode_rows json.read_node (record_contents db node_ids)) _ (some slice) h in
      let (edges, e_ok, h) =
        bind-ok (decode_rows json.read_edge (edge_contents db edge_ids)) _ (some slice) h in
      let (conflicts, k_ok, h) =
        bind-ok (decode_rows json.read_conflict (conflict_contents db keys)) _ (some slice) h in
      let same : record {
        snapshot_id = s;
        nodes = nodes;
        edges = edges;
        conflicts = conflicts;
        sources = load_sources db s;
      }
          ≡ slice =
        ground (arith) in
      record {
        nodes_within =
            bounded Entity.nodes json.read_node (record_contents db node_ids) (length node_ids)
              limits.max_nodes a nodes slice.nodes a_ok (length-record_contents node_ids) n_ok
              (sym (ap (λ x. x.nodes) same));
        edges_within =
            bounded Entity.edges json.read_edge (edge_contents db edge_ids) (length edge_ids)
              limits.max_edges b edges slice.edges b_ok (length-edge_contents edge_ids) e_ok
              (sym (ap (λ x. x.edges) same));
        conflicts_within =
            bounded Entity.conflicts json.read_conflict (conflict_contents db keys) (length keys)
              limits.max_conflicts c conflicts slice.conflicts c_ok (length-conflict_contents keys)
              k_ok (sym (ap (λ x. x.conflicts) same));
      }

load_rows-snapshot :
    (json : Json) (db : Db) (limits : SliceLimits) (s : Text) (node_ids edge_ids : List Text)
    (keys : List ConflictKey) (slice : GraphSlice)
    → load_rows json limits db s node_ids edge_ids keys ≡ ok (some slice)
    → slice.snapshot_id ≡ s
unfolding load_rows
load_rows-snapshot json db limits s node_ids edge_ids keys slice h =
    let (a, a_ok, h) =
      bind-ok (enforce_limit Entity.nodes (length node_ids) limits.max_nodes) _ (some slice) h in
    let (b, b_ok, h) =
      bind-ok (enforce_limit Entity.edges (length edge_ids) limits.max_edges) _ (some slice) h in
    let (c, c_ok, h) =
      bind-ok (enforce_limit Entity.conflicts (length keys) limits.max_conflicts) _ (some slice)
        h in
    let (nodes, n_ok, h) =
      bind-ok (decode_rows json.read_node (record_contents db node_ids)) _ (some slice) h in
    let (edges, e_ok, h) =
      bind-ok (decode_rows json.read_edge (edge_contents db edge_ids)) _ (some slice) h in
    let (conflicts, k_ok, h) =
      bind-ok (decode_rows json.read_conflict (conflict_contents db keys)) _ (some slice) h in
    ground (arith)

-- A proof slice is of the current snapshot.
pub load_current_proof_slice-snapshot :
    (json : Json) (seeds : List Text) (limits : SliceLimits) (db : Db) (slice : GraphSlice)
    → load_current_proof_slice json seeds limits db ≡ ok (some slice)
    → db.current_snapshot ≡ some slice.snapshot_id
unfolding load_current_proof_slice
load_current_proof_slice-snapshot json seeds limits db slice h =
    let (u, u_ok, g) =
      bind-ok (enforce_limit Entity.nodes (length seeds) limits.max_nodes) _ (some slice) h in
    elim (Option-cases db.current_snapshot) [
      | inl e ↦ ground (arith)
      | inr (s, e) ↦
          let reach = reachable db s seeds in
          e
          ∙ ap (λ x. some x)
              (sym (
                load_rows-snapshot json db limits s (reached_nodes db s reach)
                  (reached_edges db s reach) (reached_conflicts db s reach) slice (ground (arith))))
    ]

-- Whoever reads the current snapshot, or the part of it that a proof needs, gets no more nodes, edges
-- and conflicts than the limits allow.
pub load-IsWithin :
    (json : Json) (db : Db) (seeds : List Text) (limits : SliceLimits) (slice : GraphSlice)
    → (load_current_slice json limits db ≡ ok (some slice))
      ⊎ (load_current_proof_slice json seeds limits db ≡ ok (some slice))
    → IsWithin limits slice
unfolding load_current_slice load_current_proof_slice
load-IsWithin json db seeds limits slice (inl h) = elim (Option-cases db.current_snapshot) [
  | inl e ↦ ground (arith)
  | inr (s, e) ↦
      load_rows-IsWithin json db limits s (members s db.snapshot_records)
        (members s db.snapshot_edges) (members s db.snapshot_conflicts) slice (ground (arith))
]
load-IsWithin json db seeds limits slice (inr h) =
    let (a, a_ok, g) =
      bind-ok (enforce_limit Entity.nodes (length seeds) limits.max_nodes) _ (some slice) h in
    elim (Option-cases db.current_snapshot) [
      | inl e ↦ ground (arith)
      | inr (s, e) ↦
          let reach = reachable db s seeds in
          load_rows-IsWithin json db limits s (reached_nodes db s reach) (reached_edges db s reach)
            (reached_conflicts db s reach) slice (ground (arith))
    ]
