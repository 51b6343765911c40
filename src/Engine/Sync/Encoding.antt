-- ===== src/Engine/Sync/Encoding.antt =====
-- An encoding of edges as texts that tells them apart, for the tests of synchronizations.
use rationale.Prelude.{ℕ, ◌≡◌, refl, ap, sym, ◌∙◌, Option, none, some, [], ◌∷◌, ◌++◌, length, arith}
use rationale.Text.{Text}
use rationale.Model.{EdgeKind, RecordStatus, SourceKind, EvidenceEdge}

-- Each text behind its length.
abbrev field : Text → Text
field t = length t ∷ t

abbrev optional : Option Text → Text
optional none = 0 ∷ []
optional (some t) = 1 ∷ field t

abbrev kind_code : EdgeKind → ℕ
kind_code EdgeKind.introduced_by = 0
kind_code EdgeKind.changed_by = 1
kind_code EdgeKind.included_in_pr = 2
kind_code EdgeKind.resolves_issue = 3
kind_code EdgeKind.documents = 4
kind_code EdgeKind.supersedes = 5
kind_code EdgeKind.verified_by = 6

abbrev status_code : RecordStatus → ℕ
status_code RecordStatus.current = 0
status_code RecordStatus.historical = 1

abbrev source_code : SourceKind → ℕ
source_code SourceKind.git = 0
source_code SourceKind.github = 1
source_code SourceKind.document = 2
source_code SourceKind.verification = 3
source_code SourceKind.synthetic = 4

abbrev times_code : EvidenceEdge → Text
times_code e = optional e.origin.revision ++ optional e.origin.observed_at

abbrev ends_code : EvidenceEdge → Text
ends_code e = field e.target_id ++ (field e.origin.locator ++ times_code e)

abbrev names_code : EvidenceEdge → Text
names_code e = field e.id ++ (field e.source_id ++ ends_code e)

abbrev pub edge_code : EvidenceEdge → Text
edge_code e =
    kind_code e.kind ∷ status_code e.status ∷ source_code e.origin.source_kind ∷ names_code e

append-cancel : (a b x y : Text) → length a ≡ length b → a ++ x ≡ b ++ y → (a ≡ b) × (x ≡ y)
append-cancel [] [] x y h e = (refl, e)
append-cancel [] (d ∷ b) x y h e = ground (arith)
append-cancel (c ∷ a) [] x y h e = ground (arith)
append-cancel (c ∷ a) (d ∷ b) x y h e =
    let (p, q) = append-cancel a b x y (omega (arith)) (ground (arith)) in (ground (arith), q)

field-cancel : (a b x y : Text) → field a ++ x ≡ field b ++ y → (a ≡ b) × (x ≡ y)
field-cancel a b x y h = append-cancel a b x y (ground (arith)) (ground (arith))

optional-cancel :
    (a b : Option Text) (x y : Text) → optional a ++ x ≡ optional b ++ y → (a ≡ b) × (x ≡ y)
optional-cancel none none x y h = (refl, ground (arith))
optional-cancel none (some t) x y h = ground (arith)
optional-cancel (some t) none x y h = ground (arith)
optional-cancel (some t) (some u) x y h =
    let (p, q) = field-cancel t u x y (ground (arith)) in (ap some p, q)

append_nil : (a : Text) → a ++ [] ≡ a
append_nil [] = refl
append_nil (c ∷ a) = ap (λ t. c ∷ t) (append_nil a)

kind_code-cancel : (a b : EdgeKind) → kind_code a ≡ kind_code b → a ≡ b
kind_code-cancel a b h = ground (arith)

status_code-cancel : (a b : RecordStatus) → status_code a ≡ status_code b → a ≡ b
status_code-cancel a b h = ground (arith)

source_code-cancel : (a b : SourceKind) → source_code a ≡ source_code b → a ≡ b
source_code-cancel a b h = ground (arith)

pub edge_code-cancel : (e f : EvidenceEdge) → edge_code e ≡ edge_code f → e ≡ f
edge_code-cancel e f h =
    let kind = kind_code-cancel e.kind f.kind (ground (arith)) in
    let status = status_code-cancel e.status f.status (ground (arith)) in
    let source = source_code-cancel e.origin.source_kind f.origin.source_kind (ground (arith)) in
    let names : names_code e ≡ names_code f = ground (arith) in
    let (id, h1) =
      field-cancel e.id f.id (field e.source_id ++ ends_code e) (field f.source_id ++ ends_code f)
        names in
    let (from, h2) = field-cancel e.source_id f.source_id (ends_code e) (ends_code f) h1 in
    let (to, h3) =
      field-cancel e.target_id f.target_id (field e.origin.locator ++ times_code e)
        (field f.origin.locator ++ times_code f) h2 in
    let (locator, h4) =
      field-cancel e.origin.locator f.origin.locator (times_code e) (times_code f) h3 in
    let (revision, h5) =
      optional-cancel e.origin.revision f.origin.revision (optional e.origin.observed_at)
        (optional f.origin.observed_at) h4 in
    let (time, h6) = optional-cancel e.origin.observed_at f.origin.observed_at [] [] (
      append_nil (optional e.origin.observed_at)
      ∙ h5
      ∙ sym (append_nil (optional f.origin.observed_at))) in
    ground (arith)
