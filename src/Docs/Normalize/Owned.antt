-- ===== src/Docs/Normalize/Owned.antt =====
-- crates/rationale-docs/src/lib.rs: what a document is turned into belongs to the document.
use rationale.Prelude.{
  Bool, true, false, not, ◌||◌, ◌≤◌, ltb, all, List, [], ◌∷◌, ◌≡◌, refl, ◌⊎◌, All, arith,
}
use rationale.Order.{list_ord, nat_ord, is_eq, list_cmp}
use rationale.Result.{Result, ok, err, bind-ok, fail_if}
use rationale.Set.{extend}
use rationale.Set.Ascending.{extend-IsAscending, remove-gone}
use rationale.Sort.{sort_by}
use rationale.Sort.Laws.{sort_by-All, dedup_by-All}
use rationale.Text.{Text, len, is_empty, trim}
use rationale.Model.{NodeKind, EdgeKind, EvidenceNode, EvidenceEdge, Conflict}
use rationale.Docs.{IdPatterns, ParsedInput, ConflictMetadata, RationaleMetadata, Formats}
use rationale.Docs.Identifiers.{is_id_char, validate_id, markdown_identifiers}
use rationale.Docs.Normalize.{
  with_code, rationale_code, edges_to, same_id, edge_le, order_edges, conflicts_of,
  document_targets,
}

pub fail_if-ok : {E : Type 0} (b : Bool) (e : E) → fail_if b e ≡ ok tt → b ≡ false
fail_if-ok false e h = refl
fail_if-ok true e h = absurd (ground arith)

-- Between 1 and 128 bytes of letters, digits and `#-_.:`.
pub record IsId (id : Text) : Type 0 where
  pub not_nil : is_empty id ≡ false
  pub short : len id ≤ 128
  pub id_chars : all is_id_char id ≡ true

pub validate_id-IsId : (id : Text) → validate_id id ≡ ok tt → IsId id
unfolding validate_id
validate_id-IsId id h =
    let (u, e, k) = bind-ok (fail_if (is_empty id || ltb 128 (len id)) _) _ tt h in
    let short = fail_if-ok (is_empty id || ltb 128 (len id)) _ e in
    let chars = fail_if-ok (not (all is_id_char id)) _ k in
    record { not_nil = ground arith; short = ground arith; id_chars = ground arith }

-- Both ends are identifiers, and the edge has the status and the origin of the record.
pub record IsPlain (node : EvidenceNode) (e : EvidenceEdge) : Type 0 where
  pub source_valid : IsId e.source_id
  pub target_valid : IsId e.target_id
  pub same_status : e.status ≡ node.status
  pub same_origin : e.origin ≡ node.origin

-- From the record: to what it documents, which is never itself, supersedes or is verified by. Or, where
-- the document is a verification, from what it verifies to the record.
abbrev pub Links : EvidenceNode → EvidenceEdge → Type 0
Links node e = elim e.kind [
  | EdgeKind.documents ↦ (e.source_id ≡ node.id) × (is_eq (list_cmp node.id e.target_id) ≡ false)
  | EdgeKind.supersedes ↦ e.source_id ≡ node.id
  | EdgeKind.verified_by ↦
      (e.source_id ≡ node.id) ⊎ ((e.target_id ≡ node.id) × (node.kind ≡ NodeKind.verification))
  | _ ↦ ⊥
]

abbrev pub IsOwnEdge : EvidenceNode → EvidenceEdge → Type 0
IsOwnEdge node e = IsPlain node e × Links node e

pub record IsOwnConflict (node : EvidenceNode) (k : Conflict) : Type 0 where
  pub left_is_record : k.left_node_id ≡ node.id
  pub right_valid : IsId k.right_node_id
  pub rule_ne_nil : is_empty (trim k.rule_id) ≡ false

pub record IsOwned (parsed : ParsedInput) : Type 0 where
  pub id_valid : IsId parsed.node.id
  pub own_edges : All (IsOwnEdge parsed.node) parsed.edges
  pub own_conflicts : All (IsOwnConflict parsed.node) parsed.conflicts

pub with_code-ok :
    {A : Type 0} (code : Text) (r : Result A Text) (a : A) → with_code code r ≡ ok a → r ≡ ok a
with_code-ok code (ok b) a h = ground arith
with_code-ok code (err m) a h = absurd (ground arith)

pub edges_to-All :
    (P : EvidenceEdge → Type 0) (Q : Text → Type 0) (code : Text) (edge_to : Text → EvidenceEdge)
    → ((t : Text) → Q t → validate_id t ≡ ok tt → P (edge_to t))
    → (targets : List Text) (es : List EvidenceEdge) → All Q targets
    → edges_to code edge_to targets ≡ ok es
    → All P es
unfolding edges_to
edges_to-All P Q code edge_to f [] es a h = let e : [] ≡ es = ground arith in rw (← e) tt
edges_to-All P Q code edge_to f (t ∷ ts) es a h =
    let (u, v, k) = bind-ok (with_code code (validate_id t)) _ es h in
    let (rest, r, l) = bind-ok (edges_to code edge_to ts) _ es k in
    let e : edge_to t ∷ rest ≡ es = ground arith in
    rw (← e) (
      f t a.0 (with_code-ok code (validate_id t) tt v),
      edges_to-All P Q code edge_to f ts rest a.1 r,
    )

pub order_edges-All :
    (P : EvidenceEdge → Type 0) (es : List EvidenceEdge) → All P es → All P (order_edges es)
unfolding order_edges
order_edges-All P es h =
    dedup_by-All edge_le P same_id (sort_by edge_le es) (sort_by-All edge_le P es h)

pub conflicts_of-All :
    (node : EvidenceNode) (cs : List ConflictMetadata) (ks : List Conflict)
    → conflicts_of node.id cs ≡ ok ks
    → All (IsOwnConflict node) ks
unfolding conflicts_of
conflicts_of-All node [] ks h = let e : [] ≡ ks = ground arith in rw (← e) tt
conflicts_of-All node (c ∷ cs) ks h =
    let (u, v, k) = bind-ok (with_code rationale_code (validate_id c.other)) _ ks h in
    let (w, x, l) = bind-ok (fail_if (is_empty (trim c.rule_id)) _) _ ks k in
    let (rest, r, m) = bind-ok (conflicts_of node.id cs) _ ks l in
    let e : record { left_node_id = node.id; right_node_id = c.other; rule_id = c.rule_id } ∷ rest
        ≡ ks =
      ground arith in
    rw (← e) (
      record {
        left_is_record = refl;
        right_valid =
            validate_id-IsId c.other (with_code-ok rationale_code (validate_id c.other) tt v);
        rule_ne_nil = fail_if-ok (is_empty (trim c.rule_id)) _ x;
      },
      conflicts_of-All node cs rest r,
    )

pub document_targets-others :
    (formats : Formats) (body : Text) (patterns : IdPatterns) (metadata : RationaleMetadata)
    → All
        (λ t. is_eq (list_cmp metadata.id t) ≡ false)
        (document_targets formats body patterns metadata)
unfolding document_targets
document_targets-others formats body patterns metadata =
    remove-gone metadata.id
      (extend (extend [] metadata.documents) (markdown_identifiers formats body patterns))
      (extend-IsAscending (extend [] metadata.documents)
        (markdown_identifiers formats body patterns) (extend-IsAscending [] metadata.documents tt))
