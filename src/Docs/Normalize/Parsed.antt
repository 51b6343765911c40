-- ===== src/Docs/Normalize/Parsed.antt =====
-- crates/rationale-docs/src/lib.rs: both kinds of document give only what belongs to them.
use rationale.Prelude.{
  false, not, ◌==◌, Option, none, some, List, [], ◌∷◌, ◌++◌, ◌≡◌, refl, inl, inr, All, All-append,
}
use rationale.Order.{list_ord, nat_ord, is_eq, list_cmp}
use rationale.Result.{Result, ok, err, ok_or, ◌>>=◌, fail_if, Ensures, Ensures-bind}
use rationale.Sort.Laws.{sort_by-All}
use rationale.Text.{Text, codes, is_empty, trim}
use rationale.Model.{
  NodeKind, EdgeKind, RecordStatus, SourceKind, Origin, EvidenceNode, EvidenceEdge,
}
use rationale.Docs.{
  IdPatterns, ParsedInput, ParseFailure, RationaleMetadata, VerificationMetadata, Formats,
  conflict_le,
}
use rationale.Docs.Identifiers.{validate_id}
use rationale.Docs.Structure.{ParsedFrontMatter, front_matter, validate_structural_nesting}
use rationale.Docs.Normalize.{
  with_code, recode, rationale_code, verification_code, parse_status, edge, edges_to, conflicts_of,
  kind_of, document_targets, normalize_markdown, normalize_verification, origin_of, no_elements,
  normalize_some, normalize_found, read_manifest, parse_markdown, parse_verification,
  decode_rationale,
}
use rationale.Docs.Normalize.Owned.{
  IsPlain, Links, IsOwnEdge, IsOwnConflict, IsOwned, with_code-ok, edges_to-All, order_edges-All,
  conflicts_of-All, document_targets-others, validate_id-IsId,
}

every : {A : Type 0} (xs : List A) → All (λ x. Unit {0}) xs
every [] = tt
every (x ∷ xs) = (tt, every xs)

abbrev node_of : RationaleMetadata → NodeKind → RecordStatus → Origin → EvidenceNode
node_of metadata k status origin = record {
  id = metadata.id;
  kind = k;
  status = status;
  subject_id = metadata.subject_id;
  outcome_id = metadata.outcome_id;
  origin = origin;
}

module _ (formats : Formats) (path : Text) where
  -- A plain edge of a record, between valid identifiers.
  edge-IsPlain :
      (node : EvidenceNode) (k : EdgeKind) (source target : Text)
      → validate_id source ≡ ok tt
      → validate_id target ≡ ok tt
      → IsPlain node (edge formats k source target node.status node.origin)
  unfolding edge
  edge-IsPlain node k source target s t = record {
    source_valid = validate_id-IsId source s;
    target_valid = validate_id-IsId target t;
    same_status = refl;
    same_origin = refl;
  }

  edges_to-own :
      (node : EvidenceNode) (k : EdgeKind) (Q : Text → Type 0)
      → validate_id node.id ≡ ok tt
      → ((t : Text) → Q t → Links node (edge formats k node.id t node.status node.origin))
      → (targets : List Text) (es : List EvidenceEdge) → All Q targets
      → edges_to rationale_code (λ t. edge formats k node.id t node.status node.origin) targets
        ≡ ok es
      → All (IsOwnEdge node) es
  edges_to-own node k Q valid links targets es =
      edges_to-All (IsOwnEdge node) Q rationale_code _
        (λ t q v. (edge-IsPlain node k node.id t valid v, links t q)) targets es

  normalize_markdown-Ensures :
      (body : Text) (patterns : IdPatterns) (metadata : RationaleMetadata)
      → Ensures IsOwned (normalize_markdown formats path body patterns metadata)
  unfolding normalize_markdown
  normalize_markdown-Ensures body patterns metadata =
      Ensures-bind IsOwned (with_code rationale_code (validate_id metadata.id)) _ λ u1 v1.
        Ensures-bind IsOwned (ok_or (kind_of patterns metadata) _) _ λ k v2.
          Ensures-bind IsOwned (parse_status metadata.status) _ λ status v3.
            Ensures-bind IsOwned
              (edges_to rationale_code _ (document_targets formats body patterns metadata)) _
              λ es1 v4.
                Ensures-bind IsOwned (edges_to rationale_code _ metadata.supersedes) _ λ es2 v5.
                  Ensures-bind IsOwned (edges_to rationale_code _ metadata.verified_by) _ λ es3 v6.
                    Ensures-bind IsOwned (conflicts_of metadata.id metadata.conflicts) _ λ ks v7.
                      let node =
                        node_of metadata k status
                          (origin_of SourceKind.document (path ++ codes "#rationale")) in
                      let valid = with_code-ok rationale_code (validate_id metadata.id) tt v1 in
                      let own1 =
                        edges_to-own node EdgeKind.documents
                          (λ t. is_eq (list_cmp metadata.id t) ≡ false) valid (λ t q. (refl, q))
                          (document_targets formats body patterns metadata) es1
                          (document_targets-others formats body patterns metadata) v4 in
                      let own2 =
                        edges_to-own node EdgeKind.supersedes (λ t. Unit {0}) valid (λ t q. refl)
                          metadata.supersedes es2 (every metadata.supersedes) v5 in
                      let own3 =
                        edges_to-own node EdgeKind.verified_by (λ t. Unit {0}) valid
                          (λ t q. inl refl) metadata.verified_by es3 (every metadata.verified_by)
                          v6 in
                      record {
                        id_valid = validate_id-IsId _ valid;
                        own_edges = order_edges-All (IsOwnEdge node) (es1 ++ (es2 ++ es3)) (
                            All-append (IsOwnEdge node) es1 (es2 ++ es3) own1
                              (All-append (IsOwnEdge node) es2 es3 own2 own3));
                        own_conflicts =
                            sort_by-All conflict_le (IsOwnConflict node) ks
                              (conflicts_of-All node metadata.conflicts ks v7);
                      }

  normalize_verification-Ensures :
      (verification : VerificationMetadata)
      → Ensures IsOwned (normalize_verification formats path verification)
  unfolding normalize_verification
  normalize_verification-Ensures verification =
      Ensures-bind IsOwned (with_code verification_code (validate_id verification.id)) _ λ u1 v1.
        Ensures-bind IsOwned (fail_if (is_empty (trim verification.artifact)) _) _ λ u2 v2.
          Ensures-bind IsOwned (fail_if (no_elements verification.targets) _) _ λ u3 v3.
            Ensures-bind IsOwned (recode verification_code (parse_status verification.status)) _
              λ status v4.
                Ensures-bind IsOwned (edges_to verification_code _ verification.targets) _ λ es v5.
                  let node : EvidenceNode = record {
                    id = verification.id;
                    kind = NodeKind.verification;
                    status = status;
                    subject_id = none;
                    outcome_id = some verification.artifact;
                    origin = origin_of SourceKind.verification (path ++ codes "#verification");
                  } in
                  let valid = with_code-ok verification_code (validate_id verification.id) tt v1 in
                  record {
                    id_valid = validate_id-IsId _ valid;
                    own_edges = order_edges-All (IsOwnEdge node) es (
                        edges_to-All (IsOwnEdge node) (λ t. Unit {0}) verification_code _
                          (λ t q v. (
                            edge-IsPlain node EdgeKind.verified_by t node.id v valid,
                            inr (refl, refl),
                          ))
                          verification.targets es (every verification.targets) v5);
                    own_conflicts = tt;
                  }

-- Of a document that is evidence.
abbrev pub OwnedIfAny : Option ParsedInput → Type 0
OwnedIfAny none = Unit
OwnedIfAny (some parsed) = IsOwned parsed

some-Ensures :
    (r : Result ParsedInput ParseFailure)
    → Ensures IsOwned r
    → Ensures OwnedIfAny (r >>= λ parsed. ok (some parsed))
some-Ensures (ok parsed) h = h
some-Ensures (err e) h = tt

module _ (formats : Formats) (path source : Text) (patterns : IdPatterns) where
  normalize_some-Ensures :
      (body : Text) (found : Option RationaleMetadata)
      → Ensures OwnedIfAny (normalize_some formats path body patterns found)
  unfolding normalize_some
  normalize_some-Ensures body none = tt
  normalize_some-Ensures body (some metadata) =
      some-Ensures (normalize_markdown formats path body patterns metadata)
        (normalize_markdown-Ensures formats path body patterns metadata)

  body-Ensures :
      (found : Option ParsedFrontMatter)
      → Ensures OwnedIfAny (normalize_found formats path patterns found)
  unfolding normalize_found
  body-Ensures none = tt
  body-Ensures (some (k, (metadata, body))) =
      Ensures-bind OwnedIfAny (decode_rationale formats k metadata) _
        λ found e. normalize_some-Ensures body found

  pub parse_markdown-Ensures : Ensures OwnedIfAny (parse_markdown formats path source patterns)
  unfolding parse_markdown
  parse_markdown-Ensures =
      Ensures-bind OwnedIfAny (front_matter source) _ λ found e. body-Ensures found

pub parse_verification-Ensures :
    (formats : Formats) (path source : Text)
    → Ensures OwnedIfAny (parse_verification formats path source)
unfolding parse_verification
parse_verification-Ensures formats path source =
    Ensures-bind OwnedIfAny (validate_structural_nesting source) _ λ u v.
      Ensures-bind OwnedIfAny (read_manifest formats path source) _ λ manifest w.
        Ensures-bind OwnedIfAny (fail_if (not (manifest.version == 1)) _) _ λ x y.
          some-Ensures (normalize_verification formats path manifest.verification)
            (normalize_verification-Ensures formats path manifest.verification)
