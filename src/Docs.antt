-- ===== src/Docs.antt =====
-- crates/rationale-docs/src/lib.rs: documents in, normalized evidence and diagnostics out. Here are
-- the types; the libraries that decode YAML and TOML, read Markdown and hash are the fields of the
-- record `Formats`.
pub mod Identifiers
pub mod Structure
pub mod Paths
pub mod Normalize
pub mod Ingest
pub mod Tests
use rationale.Prelude.{ℕ, Bool, Option, none, some, List, [], ◌∷◌, ◌*◌}
use rationale.Order.{list_ord, nat_ord, pair_ord, pair_cmp, is_le}
use rationale.Text.{Text, codes}
use rationale.Model.{NodeKind, EvidenceNode, EvidenceEdge, Conflict}

pub record DocumentInput : Type 0 where
  pub path : Text
  pub content : Text

pub record IdPatterns : Type 0 where
  pub work_items : List Text
  pub decisions : List Text
  pub verifications : List Text

-- `IdPatterns::default`
abbrev pub default_patterns : IdPatterns
default_patterns = record {
  work_items = codes "#" ∷ codes "ISSUE-" ∷ codes "STORY-" ∷ [];
  decisions = codes "ADR-" ∷ [];
  verifications = codes "VERIFY-" ∷ [];
}

pub record IngestConfig : Type 0 where
  pub max_file_bytes : ℕ
  pub max_documents : ℕ
  pub id_patterns : IdPatterns

-- `IngestConfig::default`
abbrev pub default_config : IngestConfig
default_config = record {
  max_file_bytes = 1024 * 1024;
  max_documents = 10000;
  id_patterns = default_patterns;
}

pub record IngestDiagnostic : Type 0 where
  pub source_locator : Text
  pub code : Text
  pub message : Text

pub record IngestResult : Type 0 where
  pub records : List EvidenceNode
  pub edges : List EvidenceEdge
  pub conflicts : List Conflict
  pub diagnostics : List IngestDiagnostic

-- The derived order of diagnostics, and the tuple order of conflicts.
abbrev pub diagnostic_key : IngestDiagnostic → Text × (Text × Text)
diagnostic_key d = (d.source_locator, (d.code, d.message))

abbrev pub diagnostic_le : IngestDiagnostic → IngestDiagnostic → Bool
diagnostic_le a b = is_le (pair_cmp (diagnostic_key a) (diagnostic_key b))

abbrev pub conflict_key : Conflict → Text × (Text × Text)
conflict_key k = (k.left_node_id, (k.right_node_id, k.rule_id))

abbrev pub conflict_le : Conflict → Conflict → Bool
conflict_le a b = is_le (pair_cmp (conflict_key a) (conflict_key b))

pub record ParsedInput : Type 0 where
  pub node : EvidenceNode
  pub edges : List EvidenceEdge
  pub conflicts : List Conflict

-- The code and the message.
abbrev pub ParseFailure : Type 0
ParseFailure = Text × Text

pub data FrontMatterKind : Type 0 where
  yaml toml : FrontMatterKind

pub data MetadataKind : Type 0 where
  work_item decision verification : MetadataKind

-- `From<MetadataKind> for NodeKind`
abbrev pub node_kind : MetadataKind → NodeKind
node_kind work_item = NodeKind.work_item
node_kind decision = NodeKind.decision
node_kind verification = NodeKind.verification

-- `other` is the source's field `with`.
pub record ConflictMetadata : Type 0 where
  pub other : Text
  pub rule_id : Text

-- With the defaults of absent members filled in.
pub record RationaleMetadata : Type 0 where
  pub id : Text
  pub kind : Option MetadataKind
  pub subject_id : Option Text
  pub outcome_id : Option Text
  pub status : Text
  pub documents : List Text
  pub supersedes : List Text
  pub verified_by : List Text
  pub conflicts : List ConflictMetadata

pub record VerificationMetadata : Type 0 where
  pub id : Text
  pub artifact : Text
  pub targets : List Text
  pub status : Text

pub record VerificationManifest : Type 0 where
  pub version : ℕ
  pub verification : VerificationMetadata

-- The events of the Markdown parser that the program reads.
pub data MarkdownEvent : Type 0 where
  text inline_code link : Text → MarkdownEvent
  other : MarkdownEvent

pub record Formats : Type 1 where
  -- `serde_json::Value` and `toml::Value`
  pub JsonValue : Type 0
  pub TomlValue : Type 0
  -- `serde_saphyr::from_str`, `get` and `serde_json::from_value`
  pub yaml_value : Text → Option JsonValue
  pub json_member : Text → JsonValue → Option JsonValue
  pub json_metadata : JsonValue → Option RationaleMetadata
  -- `parse::<toml::Table>`, as the value of a table; `get` and `try_into`
  pub toml_table : Text → Option TomlValue
  pub toml_member : Text → TomlValue → Option TomlValue
  pub toml_metadata : TomlValue → Option RationaleMetadata
  -- A verification manifest by either.
  pub toml_manifest : Text → Option VerificationManifest
  pub yaml_manifest : Text → Option VerificationManifest
  -- `pulldown_cmark::Parser::new`
  pub markdown : Text → List MarkdownEvent
  -- `blake3::hash(..).to_hex()`
  pub hash_hex : Text → Text
