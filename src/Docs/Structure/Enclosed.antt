-- ===== src/Docs/Structure/Enclosed.antt =====
-- crates/rationale-docs/src/lib.rs: what front matter is, as `front_matter` finds it.
use rationale.Prelude.{
  some, List, [], ◌∷◌, ◌++◌, ◌≡◌, refl, sym, ap, ◌∙◌, ◌↔◌, inl, inr, All, arith, Bool-cases,
  Option-cases,
}
use mathlib.Core.List.{append_assoc, append-nil}
use rationale.Order.{list_ord, nat_ord, list_cmp-same, list_cmp-equal}
use rationale.Result.{ok}
use rationale.Text.{Text, codes, text_eq, trim_end_matches}
use rationale.Text.Split.{split_once, split_once-append, split_once_sound, Lacks}
use rationale.Docs.{FrontMatterKind, yaml, toml}
use rationale.Docs.Structure.{
  split_inclusive, is_return, is_line_end, join, delimiter_kind, until_delimiter, front_matter,
}
use rationale.Docs.Structure.Split.{
  newline, IsLineBefore, join-split_inclusive, split_inclusive-line, split_inclusive-last,
  split_inclusive-Proper, IsInner, Ends, until_delimiter_sound,
}

split_inclusive-before :
    (rest l : Text) → IsLineBefore rest l → split_inclusive (l ++ rest) ≡ l ∷ split_inclusive rest
split_inclusive-before rest l (inl (t, e, h)) =
    rw e (ap split_inclusive (append_assoc t (newline ∷ []) rest) ∙ split_inclusive-line t rest h)
split_inclusive-before rest l (inr (e, f, h)) =
    rw (e, append-nil l) (unfold split_inclusive in split_inclusive-last l f h)

split_inclusive-lines :
    (delimiter : Text) (ls : List Text) (rest : Text)
    → All (IsInner delimiter) ls
    → split_inclusive (join ls ++ rest) ≡ ls ++ split_inclusive rest
split_inclusive-lines delimiter [] rest h = refl
split_inclusive-lines delimiter (l ∷ ls) rest h =
    ap split_inclusive (append_assoc l (join ls) rest)
    ∙ split_inclusive-before (join ls ++ rest) l (inl h.0.0)
    ∙ ap (◌∷◌ l) (split_inclusive-lines delimiter ls rest h.1)

until_delimiter-lines :
    (delimiter : Text) (ls : List Text) (closing : Text) (rest : List Text)
    → All (IsInner delimiter) ls
    → trim_end_matches is_line_end closing ≡ delimiter
    → until_delimiter delimiter (ls ++ closing ∷ rest) ≡ some (join ls, join rest)
unfolding until_delimiter
until_delimiter-lines delimiter [] closing rest h e = rw (e, list_cmp-same delimiter)
until_delimiter-lines delimiter (l ∷ ls) closing rest h e =
    rw (h.0.1, until_delimiter-lines delimiter ls closing rest h.1 e)

until_delimiter_complete :
    (delimiter source metadata body : Text)
    → Ends delimiter source metadata body
    → until_delimiter delimiter (split_inclusive source) ≡ some (metadata, body)
until_delimiter_complete delimiter source metadata body s =
    let lines : split_inclusive source ≡ s.inner ++ s.closing ∷ split_inclusive body =
      ap split_inclusive s.splits
      ∙ ap (λ m. split_inclusive (m ++ (s.closing ++ body))) s.metadata_lines
      ∙ split_inclusive-lines delimiter s.inner (s.closing ++ body) s.all_inner
      ∙ ap (λ r. s.inner ++ r) (split_inclusive-before body s.closing s.closing_line) in
    rw lines (
      until_delimiter-lines delimiter s.inner s.closing (split_inclusive body) s.all_inner s.closes
      ∙ ap (λ b. some (join s.inner, b)) (join-split_inclusive body)
      ∙ ap (λ m. some (m, body)) (sym s.metadata_lines))

-- The delimiter of each kind.
abbrev pub mark : FrontMatterKind → Text
mark yaml = codes "---"
mark toml = codes "+++"

delimiter_kind-mark : (k : FrontMatterKind) → delimiter_kind (mark k) ≡ some k
unfolding delimiter_kind
delimiter_kind-mark yaml = refl
delimiter_kind-mark toml = refl

delimiter_kind_sound :
    (first : Text) (k : FrontMatterKind) → delimiter_kind first ≡ some k → first ≡ mark k
unfolding delimiter_kind
delimiter_kind_sound first k h = elim (Bool-cases (text_eq first (codes "---"))) [
  | inl e ↦
      let same : yaml ≡ k = ground arith in
      rw (← same) (list_cmp-equal first (codes "---") (ground arith))
  | inr e ↦ elim (Bool-cases (text_eq first (codes "+++"))) [
    | inl f ↦
        let same : toml ≡ k = ground arith in
        rw (← same) (list_cmp-equal first (codes "+++") (ground arith))
    | inr f ↦ absurd (ground arith)
  ]
]

-- The first line is the delimiter of the kind, returns aside; whole lines that are not the delimiter follow,
-- and are the metadata; then comes a line that is the delimiter, and the body behind it.
pub record Encloses (k : FrontMatterKind) (source metadata body : Text) : Type 0 where
  pub opening : Text
  pub rest : Text
  pub splits : source ≡ opening ++ newline ∷ rest
  pub one_line : Lacks newline opening
  pub opens : trim_end_matches is_return opening ≡ mark k
  pub ends : Ends (mark k) rest metadata body

front_matter_sound :
    (k : FrontMatterKind) (source metadata body : Text)
    → front_matter source ≡ ok (some (k, (metadata, body)))
    → Encloses k source metadata body
unfolding front_matter
front_matter_sound k source metadata body h = elim (Option-cases (split_once newline source)) [
  | inl e ↦ absurd (ground arith)
  | inr ((line, rest), e) ↦
      let (splits, one) = split_once_sound newline source line rest e in
      elim (Option-cases (delimiter_kind (trim_end_matches is_return line))) [
        | inl f ↦ absurd (ground arith)
        | inr (j, f) ↦
            let first = delimiter_kind_sound (trim_end_matches is_return line) j f in
            elim (Option-cases
              (until_delimiter (trim_end_matches is_return line) (split_inclusive rest))) [
                | inl g ↦ absurd (ground arith)
                | inr ((m, b), g) ↦
                    let ek : j ≡ k = ground arith in
                    let em : m ≡ metadata = ground arith in
                    let eb : b ≡ body = ground arith in
                    let found =
                      until_delimiter_sound (trim_end_matches is_return line) (split_inclusive rest)
                        m b (split_inclusive-Proper rest) g in
                    rw (← ek, ← em, ← eb)
                      (record {
                        opening = line;
                        rest = rest;
                        splits = splits;
                        one_line = one;
                        opens = first;
                        ends = rw (first, join-split_inclusive rest) at found;
                      })
              ]
      ]
]

-- Front matter of a kind with this metadata and this body is found in a document exactly when it stands
-- there: the delimiter as the first line, the metadata as whole lines that are not the delimiter, the first
-- line that is the delimiter again, and the body behind it.
pub front_matter-iff_Encloses :
    (k : FrontMatterKind) (source metadata body : Text)
    → (front_matter source ≡ ok (some (k, (metadata, body)))) ↔ Encloses k source metadata body
unfolding front_matter
front_matter-iff_Encloses k source metadata body = (
  front_matter_sound k source metadata body,
  λ s.
      let once = split_once-append newline s.opening s.rest s.one_line in
      let found = until_delimiter_complete (mark k) s.rest metadata body s.ends in
      let kind_found = rw (← s.opens) at (delimiter_kind-mark k) in
      rw (s.splits, once, front_matter, kind_found, rw (← s.opens) at found),
)
