-- ===== src/Store/Publish.antt =====
-- crates/rationale-store/src/lib.rs: the end of a candidate, `validate_candidate`, `publish` and
-- `abandon`.
pub mod Verdict
use rationale.Prelude.{
  Bool, false, not, ◌&&◌, Option, none, some, List, [], ◌∷◌, ◌++◌, if◌then◌else◌,
}
use rationale.Result.{Result, ok, err}
use rationale.Store.Types.{StoreError}
use rationale.Order.{list_cmp, list_ord, nat_ord, pair_ord, is_lt}
use rationale.Map.{Map, get, insert}
use rationale.Set.{Set, has}
use rationale.Text.{Text, codes, text_eq}
use rationale.Store.Types.{
  unresolved_reference, SourceState, SnapshotRow, SnapshotPhase, CursorRow, ConflictKey, Db,
}
use rationale.Store.Candidate.{CandidateSnapshot}

-- The rows of a membership table with `snapshot_id = s`.
unfoldable pub members {ℓ} : {K : Type ℓ} → Text → Set (Text × K) → List K
members s [] = []
members s ((t, k) ∷ rows) = let rest = members s rows in if text_eq t s then k ∷ rest else rest

unfoldable pub edge_leaves : Db → Text → Text → Bool
edge_leaves db s id = elim (get id db.edges) [
  | none ↦ false
  | some row ↦
      not (has (s, row.source_id) db.snapshot_records && has (s, row.target_id) db.snapshot_records)
]

unfoldable pub conflict_leaves : Db → Text → ConflictKey → Bool
conflict_leaves db s key =
    not (has (s, key.0) db.snapshot_records && has (s, key.1.0) db.snapshot_records)

unfoldable pub first_leaving {ℓ} : {K : Type ℓ} → (K → Bool) → List K → Option K
first_leaving p [] = none
first_leaving p (k ∷ ks) = let rest = first_leaving p ks in if p k then some k else rest

-- `ORDER BY rule_id LIMIT 1`
unfoldable pub least_rule : (ConflictKey → Bool) → List ConflictKey → Option Text
least_rule p [] = none
least_rule p (k ∷ ks) =
    let rest = least_rule p ks in
    if p k
    then (elim rest [
      | none ↦ some k.1.1
      | some r ↦ if is_lt (list_cmp r k.1.1) then some r else some k.1.1
    ])
    else rest

-- `validate_candidate`
unfoldable pub validate_candidate : Db → Text → Result (Unit {0}) StoreError
unfolding first_leaving least_rule
validate_candidate db s = elim (first_leaving (edge_leaves db s) (members s db.snapshot_edges)) [
  | some id ↦ err (unresolved_reference (codes "edge " ++ id ++ codes " leaves the snapshot"))
  | none ↦ elim (least_rule (conflict_leaves db s) (members s db.snapshot_conflicts)) [
    | some rule ↦
        err (unresolved_reference (codes "conflict " ++ rule ++ codes " leaves the snapshot"))
    | none ↦ ok tt
  ]
]

-- The upsert of the cursors of the snapshot's sources.
unfoldable pub commit_cursors :
    Text → Text → Map (Text × Text) SourceState → Map Text CursorRow → Map Text CursorRow
commit_cursors s at [] cursors = cursors
commit_cursors s at (((t, id), source) ∷ rows) cursors = elim source.cursor [
  | none ↦ commit_cursors s at rows cursors
  | some cursor ↦
      if text_eq t s
      then commit_cursors s at rows
          (insert id (record { cursor = cursor; snapshot_id = s; updated_at = at }) cursors)
      else commit_cursors s at rows cursors
]

unfoldable pub set_published : Text → Text → Map Text SnapshotRow → Map Text SnapshotRow
set_published s at rows = elim (get s rows) [
  | none ↦ rows
  | some row ↦
      insert s (record row { state = SnapshotPhase.published; published_at = some at }) rows
]

-- The three statements of `publish`: the snapshot's row, the cursors and the current snapshot.
unfoldable pub publish_rows : Text → CandidateSnapshot → Db
unfolding commit_cursors set_published
publish_rows at c = record c.inside {
  snapshots = set_published c.snapshot_id at c.inside.snapshots;
  source_cursors =
      commit_cursors c.snapshot_id at c.inside.snapshot_sources c.inside.source_cursors;
  current_snapshot = some c.snapshot_id;
}

-- `CandidateSnapshot::publish`: the answer, and the database afterwards. On an error the transaction
-- is dropped, which rolls it back.
unfoldable pub publish : Text → CandidateSnapshot → Result (Unit {0}) StoreError × Db
publish at c = elim (validate_candidate c.inside c.snapshot_id) [
  | err e ↦ (err e, c.before)
  | ok u ↦ (ok tt, publish_rows at c)
]

-- `CandidateSnapshot::abandon`, and a candidate that is dropped.
unfoldable pub abandon : CandidateSnapshot → Db
abandon c = c.before
