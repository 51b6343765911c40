-- ===== src/Store/Read/Failures.antt =====
-- crates/rationale-store/src/lib.rs: reading a slice fails for a limit or for a stored text that is no
-- JSON of its kind, and for nothing else.
use rationale.Prelude.{
  ℕ, ltb, Option, List, [], ◌∷◌, ◌≡◌, length, inl, inr, Option-cases, Bool-cases, arith,
}
use rationale.Result.{ok, err, ◌>>=◌, Result-cases, bind-err}
use rationale.Text.{Text}
use rationale.Store.Types.{
  StoreError, Entity, stored_json, slice_limit_exceeded, ConflictKey, SliceLimits, Db, Json,
}
use rationale.Store.Read.{
  enforce_limit, decode_rows, record_contents, edge_contents, conflict_contents, load_rows,
  current_snapshot_id, load_current_slice,
}

abbrev pub IsReadFailure : StoreError → Type 0
IsReadFailure stored_json = Unit
IsReadFailure (slice_limit_exceeded kind actual limit) = Unit
IsReadFailure _ = ⊥

enforce_limit-failure :
    (kind : Entity) (actual limit : ℕ) (e : StoreError)
    → enforce_limit kind actual limit ≡ err e
    → IsReadFailure e
unfolding enforce_limit
enforce_limit-failure kind actual limit e h = elim (Bool-cases (ltb limit actual)) [
  | inl b ↦ let p : slice_limit_exceeded kind actual limit ≡ e = ground (arith) in rw (← p) tt
  | inr b ↦ ground (arith)
]

decode_rows-failure :
    {A : Type 0} (read : Text → Option A) (ts : List Text) (e : StoreError)
    → decode_rows read ts ≡ err e
    → IsReadFailure e
unfolding decode_rows
decode_rows-failure read [] e h = ground (arith)
decode_rows-failure read (t ∷ ts) e h = elim (Option-cases (read t)) [
  | inl n ↦ let p : stored_json ≡ e = ground (arith) in rw (← p) tt
  | inr (a, s) ↦ elim (Result-cases (decode_rows read ts)) [
    | inl (rest, k) ↦ ground (arith)
    | inr (x, k) ↦ decode_rows-failure read ts e (ground (arith))
  ]
]

-- The three decodings behind the limits.
decodes-failure :
    {A B C D : Type 0} (f : Text → Option A) (g : Text → Option B) (h : Text → Option C)
    (ts us vs : List Text) (k : List A → List B → List C → D) (e : StoreError)
    → (decode_rows f ts >>= λ a. decode_rows g us >>= λ b. decode_rows h vs >>= λ c. ok (k a b c))
      ≡ err e
    → IsReadFailure e
decodes-failure f g h ts us vs k e fails = elim (bind-err (decode_rows f ts) _ e fails) [
  | inl x ↦ decode_rows-failure f ts e x
  | inr (a, x, rest) ↦ elim (bind-err (decode_rows g us) _ e rest) [
    | inl y ↦ decode_rows-failure g us e y
    | inr (b, y, last) ↦ elim (bind-err (decode_rows h vs) _ e last) [
      | inl z ↦ decode_rows-failure h vs e z
      | inr (c, z, done) ↦ ground (arith)
    ]
  ]
]

load_rows-failure :
    (json : Json) (limits : SliceLimits) (db : Db) (s : Text) (node_ids edge_ids : List Text)
    (keys : List ConflictKey) (e : StoreError)
    → load_rows json limits db s node_ids edge_ids keys ≡ err e
    → IsReadFailure e
unfolding load_rows
load_rows-failure json limits db s node_ids edge_ids keys e h =
    elim (bind-err (enforce_limit Entity.nodes (length node_ids) limits.max_nodes) _ e h) [
      | inl f ↦ enforce_limit-failure _ _ _ e f
      | inr (u, f, h) ↦
          elim (bind-err (enforce_limit Entity.edges (length edge_ids) limits.max_edges) _ e h) [
            | inl f ↦ enforce_limit-failure _ _ _ e f
            | inr (u, f, h) ↦
                elim (bind-err (enforce_limit Entity.conflicts (length keys) limits.max_conflicts) _
                  e h) [
                    | inl f ↦ enforce_limit-failure _ _ _ e f
                    | inr (u, f, h) ↦
                        decodes-failure json.read_node json.read_edge json.read_conflict
                          (record_contents db node_ids) (edge_contents db edge_ids)
                          (conflict_contents db keys) _ e h
                  ]
          ]
    ]

pub load_current_slice-failure :
    (json : Json) (limits : SliceLimits) (db : Db) (e : StoreError)
    → load_current_slice json limits db ≡ err e
    → IsReadFailure e
unfolding load_current_slice
load_current_slice-failure json limits db e h = elim (Option-cases (current_snapshot_id db)) [
  | inl n ↦ ground (arith)
  | inr (s, k) ↦ load_rows-failure json limits db s _ _ _ e (rw k at h)
]
