-- ===== src/Store/Read/Slice.antt =====
-- crates/rationale-store/src/lib.rs: a proof slice is closed, loses no conflict and keeps its limits.
use rationale.Prelude.{
  Bool, true, ◌&&◌, ◌||◌, ◌≡◌, refl, ap₂, ◌∙◌, inl, inr, some, List, [], ◌∷◌, keep, Bool-cases,
  arith,
}
use rationale.Order.{Ord, list_ord, nat_ord, pair_ord, is_eq}
use rationale.Map.{get}
use rationale.Set.{Set, has}
use rationale.Text.{Text}
use rationale.Store.Types.{EdgeRow, ConflictKey, Db}
use rationale.Store.Publish.{members}
use rationale.Store.Publish.Verdict.{IsClosed, has-members}
use rationale.Store.Read.{reachable, starts_in, reached_nodes, reached_edges, reached_conflicts}
use rationale.Store.Read.Links.{Step, by_edge, to_right, to_left}
use rationale.Store.Read.Reach.{along, reachable-iff_Connected}

module _ {K : Type 0} ⦃o : Ord K⦄ where
  has-keep : (p : K → Bool) (k : K) (s : Set K) → has k (keep p s) ≡ (has k s && p k)
  unfolding has
  has-keep p k [] = refl
  has-keep p k (j ∷ s) = elim (Bool-cases (is_eq (o.cmp k j))) [
    | inl e ↦
        let same : k ≡ j = ground (arith, o.equal k j) in
        rw same (ground (arith, has-keep p j s, o.same j))
    | inr e ↦ ground (arith, has-keep p k s)
  ]

reaches_along :
    (db : Db) (s : Text) (seeds : List Text) (a b : Text)
    → Step db s a b
    → has a (reachable db s seeds) ≡ true
    → has b (reachable db s seeds) ≡ true
reaches_along db s seeds a b m h =
    (reachable-iff_Connected db s seeds b).1
      (along a b ((reachable-iff_Connected db s seeds a).0 h) m)

-- In a closed snapshot, both ends of every edge of a proof slice are nodes of the slice.
pub reached_edges-closed :
    (db : Db) (s : Text) (seeds : List Text) (id : Text) (row : EdgeRow)
    → IsClosed s db
    → get id db.edges ≡ some row
    → has id (reached_edges db s (reachable db s seeds)) ≡ true
    → (has row.source_id (reached_nodes db s (reachable db s seeds)) ≡ true)
      × (has row.target_id (reached_nodes db s (reachable db s seeds)) ≡ true)
unfolding reached_edges reached_nodes
reached_edges-closed db s seeds id row closed e h =
    let reach = reachable db s seeds in
    let member : has (s, id) db.snapshot_edges ≡ true = ground (
      arith,
      has-keep (starts_in db reach) id (members s db.snapshot_edges),
      has-members s id db.snapshot_edges,
    ) in
    let starts : has row.source_id reach ≡ true =
      ground (arith, has-keep (starts_in db reach) id (members s db.snapshot_edges)) in
    let inside = closed.edges_inside id row member e in
    let ends =
      reaches_along db s seeds row.source_id row.target_id (by_edge id row member e refl refl)
        starts in
    (
      ground (
        arith,
        inside,
        has-keep (λ j. has j reach) row.source_id (members s db.snapshot_records),
        has-members s row.source_id db.snapshot_records,
      ),
      ground (
        arith,
        inside,
        has-keep (λ j. has j reach) row.target_id (members s db.snapshot_records),
        has-members s row.target_id db.snapshot_records,
      ),
    )

-- A conflict of the snapshot with either side reached is in the proof slice, and so, in a closed
-- snapshot, are both its sides: an explicit conflict cannot disappear.
pub reached_conflicts_complete :
    (db : Db) (s : Text) (seeds : List Text) (key : ConflictKey)
    → IsClosed s db
    → has (s, key) db.snapshot_conflicts ≡ true
    → (has key.0 (reachable db s seeds) || has key.1.0 (reachable db s seeds)) ≡ true
    → (has key (reached_conflicts db s (reachable db s seeds)) ≡ true)
      × (has key.0 (reached_nodes db s (reachable db s seeds)) ≡ true)
      × (has key.1.0 (reached_nodes db s (reachable db s seeds)) ≡ true)
unfolding reached_conflicts reached_nodes
reached_conflicts_complete db s seeds key closed m h =
    let reach = reachable db s seeds in
    let left : has key.0 reach ≡ true =
      ground (arith, reaches_along db s seeds key.1.0 key.0 (to_left key.1.1 m)) in
    let right : has key.1.0 reach ≡ true =
      reaches_along db s seeds key.0 key.1.0 (to_right key.1.1 m) left in
    let inside = closed.conflicts_inside key m in
    (
      has-keep (λ k. has k.0 reach && has k.1.0 reach) key (members s db.snapshot_conflicts)
          ∙ ap₂ (λ x y. x && y) (has-members s key db.snapshot_conflicts ∙ m) (ground (arith)),
      ground (
        arith,
        inside,
        has-keep (λ j. has j reach) key.0 (members s db.snapshot_records),
        has-members s key.0 db.snapshot_records,
      ),
      ground (
        arith,
        inside,
        has-keep (λ j. has j reach) key.1.0 (members s db.snapshot_records),
        has-members s key.1.0 db.snapshot_records,
      ),
    )
