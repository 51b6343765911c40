-- ===== src/Store/Read.antt =====
-- crates/rationale-store/src/lib.rs: what is read of the current snapshot, whole or as far as it is
-- reachable from seeds, within limits. The recursive query `REACHABLE_CTE` is a fixed number of
-- rounds, one for each link of the snapshot; `Read/Reach` proves that they are enough.
pub mod Links
pub mod Reach
pub mod Slice
pub mod Limits
pub mod Failures
use rationale.Prelude.{
  ℕ, zero, suc, Bool, false, Option, none, some, List, [], ◌∷◌, ◌++◌, map, keep, length, ltb, ◌&&◌,
  if◌then◌else◌,
}
use rationale.Result.{Result, ok, err, ◌>>=◌, ◌>>◌}
use rationale.Order.{list_ord, nat_ord, pair_ord}
use rationale.Map.{Map, get}
use rationale.Set.{Set, has, add, extend}
use rationale.Text.{Text, text_eq}
use rationale.Model.{EvidenceNode, EvidenceEdge, Conflict, Origin}
use rationale.Store.Types.{
  Entity, StoreError, stored_json, slice_limit_exceeded, SourceState, QuarantineDiagnostic,
  QuarantineRow, SliceLimits, GraphSlice, EdgeRow, ConflictKey, Db, Json,
}
use rationale.Store.Publish.{members}

-- `EvidenceStore::current_snapshot_id`
abbrev pub current_snapshot_id : Db → Option Text
current_snapshot_id db = db.current_snapshot

-- `enforce_limit` and `enforce_query_limit`, of a count.
unfoldable pub enforce_limit : Entity → ℕ → ℕ → Result (Unit {0}) StoreError
enforce_limit kind actual limit =
    if ltb limit actual then err (slice_limit_exceeded kind actual limit) else ok tt

-- One column of the row that a query found.
abbrev pub column {ℓ κ} : {A : Type ℓ} {B : Type κ} → (A → B) → Option A → Option B
column f none = none
column f (some row) = some (f row)

-- The rows of a table for keys: the inner join drops a key without a row.
unfoldable pub rows_of {ℓ κ} : {K : Type ℓ} {V : Type κ} → (K → Option V) → List K → List V
rows_of find [] = []
rows_of find (k ∷ ks) =
    let rest = rows_of find ks in elim (find k) [ none ↦ rest | some v ↦ v ∷ rest ]

-- `load_json_rows`, of the rows' texts.
unfoldable pub decode_rows {ℓ} :
    {A : Type ℓ} → (Text → Option A) → List Text → Result (List A) StoreError
decode_rows read [] = ok []
decode_rows read (t ∷ ts) = elim (read t) [
  | none ↦ err stored_json
  | some a ↦ decode_rows read ts >>= λ rest. ok (a ∷ rest)
]

unfoldable pub record_contents : Db → List Text → List Text
unfolding rows_of
record_contents db ids = map (λ row. row.content_json) (rows_of (λ id. get id db.records) ids)

unfoldable pub edge_contents : Db → List Text → List Text
unfolding rows_of
edge_contents db ids = map (λ row. row.content_json) (rows_of (λ id. get id db.edges) ids)

unfoldable pub conflict_contents : Db → List ConflictKey → List Text
unfolding rows_of
conflict_contents db keys = map (λ row. row.content_json) (rows_of (λ k. get k db.conflicts) keys)

-- `load_sources`
unfoldable pub load_sources : Db → Text → List SourceState
load_sources db s = map (λ e. e.1) (keep (λ e. text_eq e.0.0 s) db.snapshot_sources)

-- The limits on the three lists of keys, then the rows behind them and the sources.
unfoldable pub load_rows :
    Json
    → SliceLimits
    → Db
    → Text
    → List Text
    → List Text
    → List ConflictKey
    → Result (Option GraphSlice) StoreError
unfolding enforce_limit decode_rows record_contents edge_contents conflict_contents load_sources
load_rows json limits db s node_ids edge_ids keys = do
  enforce_limit Entity.nodes (length node_ids) limits.max_nodes
  enforce_limit Entity.edges (length edge_ids) limits.max_edges
  enforce_limit Entity.conflicts (length keys) limits.max_conflicts
  nodes ← decode_rows json.read_node (record_contents db node_ids)
  edges ← decode_rows json.read_edge (edge_contents db edge_ids)
  conflicts ← decode_rows json.read_conflict (conflict_contents db keys)
  ok (
      some (record {
        snapshot_id = s;
        nodes = nodes;
        edges = edges;
        conflicts = conflicts;
        sources = load_sources db s;
      }))

-- `EvidenceStore::load_current_slice`
unfoldable pub load_current_slice : Json → SliceLimits → Db → Result (Option GraphSlice) StoreError
unfolding load_rows
load_current_slice json limits db = elim (current_snapshot_id db) [
  | none ↦ ok none
  | some s ↦
      load_rows json limits db s (members s db.snapshot_records) (members s db.snapshot_edges)
        (members s db.snapshot_conflicts)
]

abbrev pub edge_ends : EdgeRow → Text × Text
edge_ends row = (row.source_id, row.target_id)

abbrev pub forwards : ConflictKey → Text × Text
forwards key = (key.0, key.1.0)

abbrev pub backwards : ConflictKey → Text × Text
backwards key = (key.1.0, key.0)

unfoldable pub edge_rows : Db → Text → List EdgeRow
unfolding members rows_of
edge_rows db s = rows_of (λ id. get id db.edges) (members s db.snapshot_edges)

unfoldable pub conflict_ends : Db → Text → List (Text × Text)
unfolding members
conflict_ends db s =
    map forwards (members s db.snapshot_conflicts)
    ++ map backwards (members s db.snapshot_conflicts)

-- The links that `REACHABLE_CTE` follows: edges forwards, conflicts both ways.
unfoldable pub links : Db → Text → List (Text × Text)
links db s = map edge_ends (edge_rows db s) ++ conflict_ends db s

-- One round of the recursion.
unfoldable pub grow : List (Text × Text) → Set Text → Set Text
grow [] set = set
grow ((a, b) ∷ ls) set = if has a set then grow ls (add b set) else grow ls set

unfoldable pub grow_rounds : ℕ → List (Text × Text) → Set Text → Set Text
unfolding grow
grow_rounds zero ls set = set
grow_rounds (suc n) ls set = grow_rounds n ls (grow ls set)

-- `REACHABLE_CTE`
unfoldable pub reachable : Db → Text → List Text → Set Text
unfolding links grow_rounds
reachable db s seeds = let ls = links db s in grow_rounds (length ls) ls (extend [] seeds)

unfoldable pub reached_nodes : Db → Text → Set Text → List Text
reached_nodes db s reach = keep (λ id. has id reach) (members s db.snapshot_records)

abbrev pub starts_in : Db → Set Text → Text → Bool
starts_in db reach id = elim (get id db.edges) [ none ↦ false | some row ↦ has row.source_id reach ]

unfoldable pub reached_edges : Db → Text → Set Text → List Text
reached_edges db s reach = keep (starts_in db reach) (members s db.snapshot_edges)

unfoldable pub reached_conflicts : Db → Text → Set Text → List ConflictKey
reached_conflicts db s reach =
    keep (λ key. has key.0 reach && has key.1.0 reach) (members s db.snapshot_conflicts)

-- `EvidenceStore::load_current_proof_slice`, with `enforce_reachable_limits` and the three loads.
unfoldable pub load_current_proof_slice :
    Json → List Text → SliceLimits → Db → Result (Option GraphSlice) StoreError
unfolding load_rows reachable reached_nodes reached_edges reached_conflicts
load_current_proof_slice json seeds limits db =
    enforce_limit Entity.nodes (length seeds) limits.max_nodes >> (elim (current_snapshot_id db) [
      | none ↦ ok none
      | some s ↦
          let reach = reachable db s seeds in
          load_rows json limits db s (reached_nodes db s reach) (reached_edges db s reach)
            (reached_conflicts db s reach)
    ])

-- `EvidenceStore::load_snapshot_records`
unfoldable pub load_snapshot_records : Json → Text → ℕ → Db → Result (List EvidenceNode) StoreError
unfolding enforce_limit decode_rows record_contents
load_snapshot_records json s max_nodes db =
    enforce_limit Entity.nodes (length (members s db.snapshot_records)) max_nodes
    >> decode_rows json.read_node (record_contents db (members s db.snapshot_records))

unfoldable pub decode_row {ℓ} :
    {A : Type ℓ} → (Text → Option A) → Option Text → Result (Option A) StoreError
decode_row read none = ok none
decode_row read (some t) = elim (read t) [ none ↦ err stored_json | some a ↦ ok (some a) ]

-- `EvidenceStore::record_origin`
unfoldable pub record_origin : Json → Text → Db → Result (Option Origin) StoreError
unfolding decode_row
record_origin json id db =
    decode_row json.read_origin (column (λ row. row.origin_json) (get id db.records))

-- `EvidenceStore::current_record`
unfoldable pub current_record : Json → Text → Db → Result (Option EvidenceNode) StoreError
unfolding decode_row
current_record json id db = elim (current_snapshot_id db) [
  | none ↦ ok none
  | some s ↦
      if has (s, id) db.snapshot_records
      then decode_row json.read_node (column (λ row. row.content_json) (get id db.records))
      else ok none
]

-- `EvidenceStore::current_freshness`
unfoldable pub current_freshness : Db → List SourceState
unfolding load_sources
current_freshness db = elim (current_snapshot_id db) [ none ↦ [] | some s ↦ load_sources db s ]

-- `EvidenceStore::source_cursor`
unfoldable pub source_cursor : Text → Db → Option Text
source_cursor id db = column (λ row. row.cursor) (get id db.source_cursors)

-- `EvidenceStore::current_quarantine`
unfoldable pub current_quarantine : Db → List QuarantineDiagnostic
current_quarantine db = elim (current_snapshot_id db) [
  | none ↦ []
  | some s ↦
      map (λ row. row.diagnostic) (keep (λ row. text_eq row.snapshot_id s) db.quarantined_inputs)
]
