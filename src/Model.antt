-- ===== src/Model.antt =====
-- crates/rationale-model/src/protocol.rs: the types that the Rust host and the proof kernel share.
use rationale.Prelude.{ℕ, Option, List}
use rationale.Text.{Text}

-- `PROTOCOL_VERSION`
abbrev pub protocol_version : ℕ
protocol_version = 1

pub data NodeKind : Type 0 where
  code_target change work_item review decision verification : NodeKind

pub data EdgeKind : Type 0 where
  introduced_by changed_by included_in_pr resolves_issue documents supersedes verified_by : EdgeKind

pub data RecordStatus : Type 0 where
  current historical : RecordStatus

pub data SourceKind : Type 0 where
  git github document verification synthetic : SourceKind

pub record Origin : Type 0 where
  pub source_kind : SourceKind
  pub locator : Text
  pub revision : Option Text
  pub observed_at : Option Text

pub record EvidenceNode : Type 0 where
  pub id : Text
  pub kind : NodeKind
  pub status : RecordStatus
  pub subject_id : Option Text
  pub outcome_id : Option Text
  pub origin : Origin

pub record EvidenceEdge : Type 0 where
  pub id : Text
  pub kind : EdgeKind
  pub source_id : Text
  pub target_id : Text
  pub status : RecordStatus
  pub origin : Origin

pub record Conflict : Type 0 where
  pub left_node_id : Text
  pub right_node_id : Text
  pub rule_id : Text

pub record ProofGoal : Type 0 where
  pub target_id : Text
  pub anchor_kinds : List NodeKind

pub record KernelRequest : Type 0 where
  pub protocol_version : ℕ
  pub request_id : Text
  pub snapshot_id : Text
  pub goal : ProofGoal
  pub nodes : List EvidenceNode
  pub edges : List EvidenceEdge
  pub conflicts : List Conflict

pub data Verdict : Type 0 where
  established partial not_established conflicted : Verdict

pub data GapCode : Type 0 where
  target_to_change change_to_review change_to_work_item work_item_to_decision : GapCode
  decision_to_verification no_current_anchor : GapCode

pub record Gap : Type 0 where
  pub code : GapCode
  pub from_node_id : Option Text
  pub to_kind : Option NodeKind

pub record ProofChain : Type 0 where
  pub node_ids : List Text
  pub edge_ids : List Text
  pub rule_ids : List Text

pub record ProofResult : Type 0 where
  pub verdict : Verdict
  pub proof_chains : List ProofChain
  pub gaps : List Gap
  pub conflicts : List Conflict

pub data ErrorCode : Type 0 where
  unsupported_protocol invalid_request missing_record resource_limit internal : ErrorCode

pub record ProtocolError : Type 0 where
  pub code : ErrorCode
  pub message : Text

pub data KernelResponse : Type 0 where
  -- protocol_version, request_id, snapshot_id, proof
  proof : ℕ → Text → Text → ProofResult → KernelResponse
  -- protocol_version, request_id, error
  error : ℕ → Text → ProtocolError → KernelResponse
