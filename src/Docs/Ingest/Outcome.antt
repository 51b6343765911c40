-- ===== src/Docs/Ingest/Outcome.antt =====
-- crates/rationale-docs/src/lib.rs: what `ingest` makes of a whole batch.
use rationale.Prelude.{
  ℕ, suc, Option, none, some, List, [], ◌∷◌, ◌≡◌, refl, inl, inr, All, In, leb, ltb, Bool-cases,
}
use rationale.Order.{list_ord, nat_ord, pair_ord}
use rationale.Result.{Result, ok, err, Ensures}
use rationale.Text.{Text, codes, len}
use rationale.Model.{EvidenceNode}
use rationale.Docs.{DocumentInput, IngestConfig, ParsedInput, ParseFailure, Formats}
use rationale.Docs.Paths.{normalize_path, is_verification_manifest, has_extension}
use rationale.Docs.Normalize.Parsed.{OwnedIfAny, parse_markdown-Ensures, parse_verification-Ensures}
use rationale.Docs.Ingest.{Batch, parse_document, ingest_from}
use rationale.Docs.Ingest.Grows.{
  Reading, refused, passed_over, evidence, reading_of, reading_at, reading, apply, ingest_one-apply,
}
use rationale.Docs.Ingest.Belongs.{Belongs, Fits, apply-Belongs}

parse_document-Ensures :
    (config : IngestConfig) (formats : Formats) (path content : Text)
    → Ensures OwnedIfAny (parse_document config formats path content)
unfolding parse_document
parse_document-Ensures config formats path content =
    elim (Bool-cases (is_verification_manifest path)) [
      | inl e ↦ rw e (parse_verification-Ensures formats path content)
      | inr e ↦ elim (Bool-cases (has_extension path (codes "md"))) [
        | inl f ↦ rw (e, f) (parse_markdown-Ensures formats path content config.id_patterns)
        | inr f ↦ rw (e, f) tt
      ]
    ]

-- The record is the one of a document of the batch, read at some place.
pub record ReadFrom (config : IngestConfig) (formats : Formats) (inputs : List DocumentInput)
    (n : EvidenceNode) : Type 0 where
  pub input : DocumentInput
  pub index : ℕ
  pub path : Text
  pub parsed : ParsedInput
  pub in_batch : In input inputs
  pub is_read : reading config formats index input ≡ evidence path parsed
  pub is_node : parsed.node ≡ n

abbrev OwnedReading : Reading → Type 0
OwnedReading = Fits (λ n. Unit {0})

reading_of-Owned :
    (path : Text) (r : Result (Option ParsedInput) ParseFailure)
    → Ensures OwnedIfAny r
    → OwnedReading (reading_of path r)
reading_of-Owned path (err (c, m)) h = tt
reading_of-Owned path (ok none) h = tt
reading_of-Owned path (ok (some parsed)) h = (tt, h)

reading_at-Owned :
    (config : IngestConfig) (formats : Formats) (input : DocumentInput) (p : Result Text Text)
    → OwnedReading (reading_at config formats input p)
reading_at-Owned config formats input (err m) = tt
reading_at-Owned config formats input (ok path) =
    reading_of-Owned path (parse_document config formats path input.content)
      (parse_document-Ensures config formats path input.content)

reading-Owned :
    (config : IngestConfig) (formats : Formats) (index : ℕ) (input : DocumentInput)
    → OwnedReading (reading config formats index input)
reading-Owned config formats index input = elim (Bool-cases (leb config.max_documents index)) [
  | inl e ↦ rw e tt
  | inr e ↦ elim (Bool-cases (ltb config.max_file_bytes (len input.content))) [
    | inl f ↦ rw (e, f) tt
    | inr f ↦ rw (e, f) (reading_at-Owned config formats input (normalize_path input.path))
  ]
]

Fits-of :
    (P : EvidenceNode → Type 0) (r : Reading)
    → OwnedReading r
    → ((path : Text) (parsed : ParsedInput) → r ≡ evidence path parsed → P parsed.node)
    → Fits P r
Fits-of P (refused path code message) o h = tt
Fits-of P passed_over o h = tt
Fits-of P (evidence path parsed) o h = (h path parsed refl, o.1)

module _ (config : IngestConfig) (formats : Formats) (inputs : List DocumentInput) where
  pub ingest_from-Belongs :
      (index : ℕ) (rest : List DocumentInput) (b : Batch)
      → All (λ i. In i inputs) rest
      → Belongs (ReadFrom config formats inputs) b
      → Belongs (ReadFrom config formats inputs) (ingest_from config formats index rest b)
  unfolding ingest_from
  ingest_from-Belongs index [] b m g = g
  ingest_from-Belongs index (input ∷ rest) b m g =
      let r = reading config formats index input in
      let fits =
        Fits-of (ReadFrom config formats inputs) r (reading-Owned config formats index input)
          (λ path parsed e. record {
            input = input;
            index = index;
            path = path;
            parsed = parsed;
            in_batch = m.0;
            is_read = e;
            is_node = refl;
          }) in
      rw ingest_one-apply (
        ingest_from-Belongs (suc index) rest (apply r b) m.1
          (apply-Belongs (ReadFrom config formats inputs) r b fits g))
