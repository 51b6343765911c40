-- ===== src/Docs/Normalize.antt =====
-- crates/rationale-docs/src/lib.rs: one document, from its text to a record with its edges and
-- conflicts.
pub mod Owned
pub mod Parsed
use rationale.Prelude.{
  ℕ, Bool, true, false, not, ◌&&◌, ◌||◌, ◌==◌, Option, none, some, List, [], ◌∷◌, ◌++◌, any, take,
  if◌then◌else◌,
}
use rationale.Order.{list_ord, nat_ord, list_cmp, is_le}
use rationale.Result.{Result, ok, err, ok_or, ◌>>=◌, ◌>>◌, Done, fail_if}
use rationale.Set.{Set, extend, remove}
use rationale.Sort.{sort_by, dedup_by}
use rationale.Text.{Text, codes, text_eq, is_empty, trim}
use rationale.Model.{
  NodeKind, EdgeKind, RecordStatus, SourceKind, Origin, EvidenceNode, EvidenceEdge, Conflict,
}
use rationale.Engine.Evidence.{debug_kind}
use rationale.Docs.{
  IdPatterns, ParsedInput, ParseFailure, FrontMatterKind, yaml, toml, MetadataKind, node_kind,
  ConflictMetadata, RationaleMetadata, VerificationMetadata, VerificationManifest, Formats,
  conflict_le,
}
use rationale.Docs.Identifiers.{kind, markdown_identifiers, validate_id}
use rationale.Docs.Paths.{has_extension}
use rationale.Docs.Structure.{ParsedFrontMatter, validate_structural_nesting, front_matter}

-- `map_err` of a message to a failure with a code.
abbrev pub with_code {ℓ} : {A : Type ℓ} → Text → Result A Text → Result A ParseFailure
with_code code (ok a) = ok a
with_code code (err message) = err (code, message)

-- `map_err(|(_, message)| (code, message))`
abbrev pub recode {ℓ} : {A : Type ℓ} → Text → Result A ParseFailure → Result A ParseFailure
recode code (ok a) = ok a
recode code (err (old, message)) = err (code, message)

abbrev pub rationale_code : Text
rationale_code = codes "invalid_rationale"

abbrev pub verification_code : Text
verification_code = codes "invalid_verification"

abbrev pub front_matter_code : Text
front_matter_code = codes "invalid_front_matter"

-- `Vec::is_empty`
abbrev pub no_elements {ℓ} : {A : Type ℓ} → List A → Bool
no_elements [] = true
no_elements (x ∷ xs) = false

unfoldable pub parse_status : Text → Result RecordStatus ParseFailure
parse_status status =
    if text_eq status (codes "accepted") || text_eq status (codes "current")
    then ok RecordStatus.current
    else if text_eq status (codes "historical")
    then ok RecordStatus.historical
    else err (rationale_code, codes "status must be accepted, current, or historical")

-- `edge`
unfoldable pub edge : Formats → EdgeKind → Text → Text → RecordStatus → Origin → EvidenceEdge
unfolding debug_kind
edge formats edge_kind source target status origin =
    let material = debug_kind edge_kind ++ 0 ∷ source ++ 0 ∷ target ++ 0 ∷ origin.locator in
    record {
      id = codes "edge:" ++ take 24 (formats.hash_hex material);
      kind = edge_kind;
      source_id = source;
      target_id = target;
      status = status;
      origin = origin;
    }

-- One of the loops that validate targets and make an edge for each.
unfoldable pub edges_to :
    Text → (Text → EvidenceEdge) → List Text → Result (List EvidenceEdge) ParseFailure
unfolding validate_id
edges_to code edge_to [] = ok []
edges_to code edge_to (target ∷ targets) = do
  with_code code (validate_id target)
  edges ← edges_to code edge_to targets
  ok (edge_to target ∷ edges)

abbrev pub same_id : EvidenceEdge → EvidenceEdge → Bool
same_id left right = text_eq left.id right.id

abbrev pub edge_le : EvidenceEdge → EvidenceEdge → Bool
edge_le left right = is_le (list_cmp left.id right.id)

-- `sort_by` and `dedup_by` of the identifiers.
unfoldable pub order_edges : List EvidenceEdge → List EvidenceEdge
unfolding sort_by dedup_by
order_edges edges = dedup_by same_id (sort_by edge_le edges)

-- The loop over the conflicts.
unfoldable pub conflicts_of : Text → List ConflictMetadata → Result (List Conflict) ParseFailure
unfolding validate_id trim
conflicts_of id [] = ok []
conflicts_of id (c ∷ rest) = do
  with_code rationale_code (validate_id c.other)
  fail_if (is_empty (trim c.rule_id)) (rationale_code, codes "conflict rule_id must not be empty")
  conflicts ← conflicts_of id rest
  ok (record { left_node_id = id; right_node_id = c.other; rule_id = c.rule_id } ∷ conflicts)

-- The kind that the metadata names, or that the prefix of the identifier tells.
unfoldable pub kind_of : IdPatterns → RationaleMetadata → Option NodeKind
unfolding kind
kind_of patterns metadata = elim metadata.kind [
  | some k ↦ some (node_kind k)
  | none ↦ kind patterns metadata.id
]

-- `document_targets`
unfoldable pub document_targets : Formats → Text → IdPatterns → RationaleMetadata → Set Text
unfolding extend remove markdown_identifiers
document_targets formats body patterns metadata =
    remove metadata.id
      (extend (extend [] metadata.documents) (markdown_identifiers formats body patterns))

abbrev pub origin_of : SourceKind → Text → Origin
origin_of source_kind locator = record {
  source_kind = source_kind;
  locator = locator;
  revision = none;
  observed_at = none;
}

unfoldable pub normalize_markdown :
    Formats → Text → Text → IdPatterns → RationaleMetadata → Result ParsedInput ParseFailure
unfolding validate_id kind_of parse_status document_targets edge edges_to order_edges conflicts_of
    sort_by
normalize_markdown formats path body patterns metadata = do
  with_code rationale_code (validate_id metadata.id)
  node_kind ←
      ok_or (kind_of patterns metadata) (
        rationale_code,
        codes "record kind cannot be inferred from its configured identifier prefix",
      )
  status ← parse_status metadata.status
  let origin = origin_of SourceKind.document (path ++ codes "#rationale")
  let edge_of = λ (k : EdgeKind) (target : Text). edge formats k metadata.id target status origin
  documents ←
      edges_to rationale_code (edge_of EdgeKind.documents)
        (document_targets formats body patterns metadata)
  supersedes ← edges_to rationale_code (edge_of EdgeKind.supersedes) metadata.supersedes
  verified ← edges_to rationale_code (edge_of EdgeKind.verified_by) metadata.verified_by
  conflicts ← conflicts_of metadata.id metadata.conflicts
  ok (record {
    node = record {
      id = metadata.id;
      kind = node_kind;
      status = status;
      subject_id = metadata.subject_id;
      outcome_id = metadata.outcome_id;
      origin = origin;
    };
    edges = order_edges (documents ++ (supersedes ++ verified));
    conflicts = sort_by conflict_le conflicts;
  })

-- The member `rationale` of the metadata, decoded.
unfoldable pub rationale_of :
    {V : Type 0}
    → Option V
    → (V → Option V)
    → (V → Option RationaleMetadata)
    → Text
    → Result (Option RationaleMetadata) ParseFailure
rationale_of document member decode message = do
  value ← ok_or document (front_matter_code, message)
  elim (member value) [
    | none ↦ ok none
    | some rationale ↦ elim (decode rationale) [
      | none ↦ err (rationale_code, codes "rationale metadata is invalid")
      | some metadata ↦ ok (some metadata)
    ]
  ]

unfoldable pub decode_rationale :
    Formats → FrontMatterKind → Text → Result (Option RationaleMetadata) ParseFailure
unfolding validate_structural_nesting rationale_of
decode_rationale formats yaml metadata =
    validate_structural_nesting metadata
    >> rationale_of (formats.yaml_value metadata) (formats.json_member (codes "rationale"))
        formats.json_metadata (codes "YAML front matter is invalid")
decode_rationale formats toml metadata =
    validate_structural_nesting metadata
    >> rationale_of (formats.toml_table metadata) (formats.toml_member (codes "rationale"))
        formats.toml_metadata (codes "TOML front matter is invalid")

-- `normalize_markdown(..).map(Some)`, where there is metadata.
unfoldable pub normalize_some :
    Formats
    → Text
    → Text
    → IdPatterns
    → Option RationaleMetadata
    → Result (Option ParsedInput) ParseFailure
unfolding normalize_markdown
normalize_some formats path body patterns none = ok none
normalize_some formats path body patterns (some metadata) = do
  parsed ← normalize_markdown formats path body patterns metadata
  ok (some parsed)

-- Behind the front matter, where there is any.
unfoldable pub normalize_found :
    Formats
    → Text
    → IdPatterns
    → Option ParsedFrontMatter
    → Result (Option ParsedInput) ParseFailure
unfolding decode_rationale normalize_some
normalize_found formats path patterns none = ok none
normalize_found formats path patterns (some (k, (metadata, body))) = do
  found ← decode_rationale formats k metadata
  normalize_some formats path body patterns found

unfoldable pub parse_markdown :
    Formats → Text → Text → IdPatterns → Result (Option ParsedInput) ParseFailure
unfolding front_matter normalize_found
parse_markdown formats path source patterns = do
  found ← front_matter source
  normalize_found formats path patterns found

-- The checks of a manifest and its record, behind the decoding.
unfoldable pub normalize_verification :
    Formats → Text → VerificationMetadata → Result ParsedInput ParseFailure
unfolding validate_id trim parse_status edge edges_to order_edges
normalize_verification formats path verification = do
  with_code verification_code (validate_id verification.id)
  fail_if (is_empty (trim verification.artifact))
      (verification_code, codes "verification artifact must not be empty")
  fail_if (no_elements verification.targets)
      (verification_code, codes "verification must name at least one target")
  status ← recode verification_code (parse_status verification.status)
  let origin = origin_of SourceKind.verification (path ++ codes "#verification")
  edges ←
      edges_to verification_code
        (λ target. edge formats EdgeKind.verified_by target verification.id status origin)
        verification.targets
  ok (record {
    node = record {
      id = verification.id;
      kind = NodeKind.verification;
      status = status;
      subject_id = none;
      outcome_id = some verification.artifact;
      origin = origin;
    };
    edges = order_edges edges;
    conflicts = [];
  })

-- The manifest, decoded by the extension of its path.
unfoldable pub read_manifest : Formats → Text → Text → Result VerificationManifest ParseFailure
unfolding has_extension
read_manifest formats path source =
    if has_extension path (codes "toml")
    then ok_or (formats.toml_manifest source)
        (verification_code, codes "TOML verification manifest is invalid")
    else ok_or (formats.yaml_manifest source)
        (verification_code, codes "YAML verification manifest is invalid")

unfoldable pub parse_verification : Formats → Text → Text → Result (Option ParsedInput) ParseFailure
unfolding validate_structural_nesting normalize_verification read_manifest
parse_verification formats path source = do
  validate_structural_nesting source
  manifest ← read_manifest formats path source
  fail_if (not (manifest.version == 1))
      (verification_code, codes "verification manifest version must be 1")
  parsed ← normalize_verification formats path manifest.verification
  ok (some parsed)
