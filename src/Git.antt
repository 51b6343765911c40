-- ===== src/Git.antt =====
-- crates/rationale-git/src/lib.rs: the types of Git evidence.
pub mod Target
pub mod References
use rationale.Prelude.{ℕ, Bool, Option, List}
use rationale.Prelude.Int.{ℤ}
use rationale.Text.{Text}

pub data GitEvidenceError : Type 0 where
  invalid_target repository_discovery : Text → GitEvidenceError
  bare_repository : GitEvidenceError
  invalid_path path_escape missing_path : Text → GitEvidenceError
  -- revision, detail
  invalid_revision : Text → Text → GitEvidenceError
  -- path, line, line_count
  line_out_of_range : Text → ℕ → ℕ → GitEvidenceError
  -- path, line
  working_copy_unattributed : Text → ℕ → GitEvidenceError
  git : Text → GitEvidenceError

pub data ReferenceKind : Type 0 where
  issue story decision forge_url : ReferenceKind

pub record ExplicitReference : Type 0 where
  pub kind : ReferenceKind
  pub value : Text

pub record CommitEvidence : Type 0 where
  pub id : Text
  pub summary : Text
  pub committed_at : ℤ
  pub parent_ids : List Text
  pub references : List ExplicitReference

pub data TargetState : Type 0 where
  committed working_copy : TargetState

pub record LineAttribution : Type 0 where
  pub line : ℕ
  pub commit_id : Text
  pub original_path : Text

pub record PathChange : Type 0 where
  pub commit : CommitEvidence
  pub path : Text
  pub renamed_from : Option Text
  pub deleted : Bool

pub record CommitHistory : Type 0 where
  pub commits : List CommitEvidence
  pub complete : Bool

pub data WorkingChangeKind : Type 0 where
  added modified deleted renamed conflicted : WorkingChangeKind

pub record WorkingChange : Type 0 where
  pub path : Text
  pub kind : WorkingChangeKind

pub record ResolvedLines : Type 0 where
  pub repository_root : Text
  pub path : Text
  pub start_line : ℕ
  pub end_line : ℕ
  pub revision : Text
  pub state : TargetState
  pub introduced_by : List LineAttribution
  pub changed_by : List PathChange
  pub history_complete : Bool

pub data ResolvedTarget : Type 0 where
  -- repository_root, commit
  commit : Text → CommitEvidence → ResolvedTarget
  lines : ResolvedLines → ResolvedTarget
