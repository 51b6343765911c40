-- ===== src/Docs/Structure/Split.antt =====
-- crates/rationale-docs/src/lib.rs: the lines of a text, and the first delimiter line among them.
use rationale.Prelude.{
  ℕ, false, ◌==◌, some, List, [], ◌∷◌, ◌++◌, ◌≡◌, refl, sym, ap, ◌∙◌, ◌⊎◌, inl, inr, All, arith,
  Bool-cases, Option-cases, ==_iff,
}
use mathlib.Core.List.{append_assoc}
use rationale.Order.{list_ord, nat_ord, list_cmp-equal}
use rationale.Text.{Text, text_eq, is_empty, trim_end_matches}
use rationale.Text.Split.{Lacks}
use rationale.Docs.Structure.{extend_line, split_inclusive, is_line_end, join, until_delimiter}

abbrev pub newline : ℕ
newline = b'\n'

-- A line with its end: the only line break is the last character.
abbrev pub IsLine : Text → Type 0
IsLine l = (t : Text) × (l ≡ t ++ newline ∷ []) × Lacks newline t

-- The last line of a text may lack the line break, when nothing is behind it.
abbrev pub IsLineBefore : Text → Text → Type 0
IsLineBefore rest l = IsLine l ⊎ ((rest ≡ []) × (is_empty l ≡ false) × Lacks newline l)

join-extend_line : (c : ℕ) (ls : List Text) → join (extend_line c ls) ≡ c ∷ join ls
join-extend_line c [] = refl
join-extend_line c (l ∷ ls) = refl

pub join-split_inclusive : (s : Text) → join (split_inclusive s) ≡ s
unfolding split_inclusive
join-split_inclusive [] = refl
join-split_inclusive (c ∷ s) = elim (Bool-cases (c == newline)) [
  | inl e ↦ rw e (ap (◌∷◌ c) (join-split_inclusive s))
  | inr e ↦ rw e (join-extend_line c (split_inclusive s) ∙ ap (◌∷◌ c) (join-split_inclusive s))
]

pub split_inclusive-line :
    (t s : Text)
    → Lacks newline t
    → split_inclusive (t ++ newline ∷ s) ≡ (t ++ newline ∷ []) ∷ split_inclusive s
unfolding split_inclusive
split_inclusive-line [] s h = refl
split_inclusive-line (c ∷ t) s h = rw (h.0, split_inclusive-line t s h.1)

pub split_inclusive-last :
    (t : Text) → is_empty t ≡ false → Lacks newline t → split_inclusive t ≡ t ∷ []
unfolding split_inclusive
split_inclusive-last [] e h = cc
split_inclusive-last (c ∷ []) e h = rw h.0
split_inclusive-last (c ∷ d ∷ t) e h = rw (h.0, split_inclusive-last (d ∷ t) refl h.1)

IsLineBefore-ne_nil : (rest l : Text) → IsLineBefore rest l → is_empty l ≡ false
IsLineBefore-ne_nil rest l (inl ([], e, h)) = rw e refl
IsLineBefore-ne_nil rest l (inl (c ∷ t, e, h)) = rw e refl
IsLineBefore-ne_nil rest l (inr (p, e, h)) = e

IsLine-of_more : (rest l : Text) → is_empty rest ≡ false → IsLineBefore rest l → IsLine l
IsLine-of_more rest l e (inl line) = line
IsLine-of_more rest l e (inr (p, q, r)) = absurd (ground arith)

-- Every line but the last has its line break.
abbrev pub Proper : List Text → Type 0
Proper [] = Unit
Proper (l ∷ ls) = IsLineBefore (join ls) l × Proper ls

extend_line-Proper :
    (c : ℕ) (ls : List Text) → (c == newline) ≡ false → Proper ls → Proper (extend_line c ls)
extend_line-Proper c [] e h = (inr (refl, refl, (e, tt)), tt)
extend_line-Proper c (l ∷ ls) e h = (
  elim h.0 [
    | inl (t, p, q) ↦ inl (c ∷ t, ap (◌∷◌ c) p, (e, q))
    | inr (p, q, r) ↦ inr (p, refl, (e, r))
  ],
  h.1,
)

pub split_inclusive-Proper : (s : Text) → Proper (split_inclusive s)
unfolding split_inclusive
split_inclusive-Proper [] = tt
split_inclusive-Proper (c ∷ s) = elim (Bool-cases (c == newline)) [
  | inl e ↦ rw e (inl ([], ap (λ x. x ∷ []) ((==_iff c newline).0 e), tt), split_inclusive-Proper s)
  | inr e ↦ rw e (extend_line-Proper c (split_inclusive s) e (split_inclusive-Proper s))
]

-- A whole line that is not the delimiter.
abbrev pub IsInner : Text → Text → Type 0
IsInner delimiter l = IsLine l × (text_eq (trim_end_matches is_line_end l) delimiter ≡ false)

-- A text of lines up to the first delimiter line.
pub record Ends (delimiter source metadata body : Text) : Type 0 where
  pub inner : List Text
  pub closing : Text
  pub splits : source ≡ metadata ++ (closing ++ body)
  pub metadata_lines : metadata ≡ join inner
  pub all_inner : All (IsInner delimiter) inner
  pub closing_line : IsLineBefore body closing
  pub closes : trim_end_matches is_line_end closing ≡ delimiter

is_empty-append_middle : (s t u : Text) → is_empty t ≡ false → is_empty (s ++ (t ++ u)) ≡ false
is_empty-append_middle [] [] u h = cc
is_empty-append_middle [] (c ∷ t) u h = refl
is_empty-append_middle (d ∷ s) t u h = refl

pub until_delimiter_sound :
    (delimiter : Text) (ls : List Text) (metadata body : Text)
    → Proper ls
    → until_delimiter delimiter ls ≡ some (metadata, body)
    → Ends delimiter (join ls) metadata body
unfolding until_delimiter
until_delimiter_sound delimiter [] metadata body w h = absurd (ground arith)
until_delimiter_sound delimiter (l ∷ ls) metadata body w h =
    elim (Bool-cases (text_eq (trim_end_matches is_line_end l) delimiter)) [
      | inl e ↦
          let em : [] ≡ metadata = ground arith in
          let eb : join ls ≡ body = ground arith in
          rw (← em, ← eb)
            (record {
              inner = [];
              closing = l;
              splits = refl;
              metadata_lines = refl;
              all_inner = tt;
              closing_line = w.0;
              closes = list_cmp-equal _ _ (ground arith);
            })
      | inr e ↦ elim (Option-cases (until_delimiter delimiter ls)) [
        | inl f ↦ absurd (ground arith)
        | inr ((m, b), f) ↦
            let r = until_delimiter_sound delimiter ls m b w.1 f in
            let em : l ++ m ≡ metadata = ground arith in
            let eb : b ≡ body = ground arith in
            let more : is_empty (join ls) ≡ false = rw r.splits (
              is_empty-append_middle m r.closing b
                (IsLineBefore-ne_nil b r.closing r.closing_line)) in
            rw (← em, ← eb)
              (record {
                inner = l ∷ r.inner;
                closing = r.closing;
                splits = ap (λ t. l ++ t) r.splits ∙ sym (append_assoc l m (r.closing ++ b));
                metadata_lines = ap (λ t. l ++ t) r.metadata_lines;
                all_inner = ((IsLine-of_more (join ls) l more w.0, e), r.all_inner);
                closing_line = r.closing_line;
                closes = r.closes;
              })
      ]
    ]
