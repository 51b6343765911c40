-- ===== src/Git/References/Extracted.antt =====
-- crates/rationale-git/src/references.rs: every extracted reference is of a documented form.
use rationale.Prelude.{
  true, ◌≡◌, ◌≢◌, ◌⊎◌, ◌≤◌, refl, ap, all, none, some, Option, ◌++◌, List, [], ◌∷◌, All,
  Option-cases, Bool-cases, inl, inr, arith,
}
use rationale.Sort.{sort_by}
use rationale.Sort.Laws.{sort_by-All, dedup_by-All}
use rationale.Text.{
  Text, codes, trim_matches, strip_prefix, starts_with, contains, is_ascii_digit,
  to_ascii_uppercase,
}
use rationale.Text.Prefix.{starts_with_sound}
use rationale.Text.Split.{split_whitespace}
use rationale.Git.{ReferenceKind, ExplicitReference}
use rationale.Git.References.{
  digits, is_mark, number_after, is_story_word, is_forge_url, named_reference, token_reference,
  token_references, reference_le, same_reference, extract,
}

-- Decimal digits, at least one.
pub record IsNumber (n : Text) : Type 0 where
  pub not_nil : n ≢ []
  pub decimal : All (λ c. (48 ≤ c) × (c ≤ 57)) n

-- `part` stands somewhere in `t`.
pub record Within (part t : Text) : Type 0 where
  pub before : Text
  pub after : Text
  pub splits : t ≡ before ++ part ++ after

-- A text behind `https://` or `http://`, with `/issues/` or `/pull/` somewhere in the whole.
pub record IsForgeUrl (t : Text) : Type 0 where
  pub scheme : (rest : Text) × ((t ≡ codes "https://" ++ rest) ⊎ (t ≡ codes "http://" ++ rest))
  pub mentions : Within (codes "/issues/") t ⊎ Within (codes "/pull/") t

-- A prefix and a number, or the URL of an issue or a pull request.
abbrev pub HasForm : ExplicitReference → Type 0
HasForm r = elim r.kind [
  | ReferenceKind.issue ↦ (n : Text) × IsNumber n × (r.value ≡ codes "#" ++ n)
  | ReferenceKind.story ↦ (n : Text) × IsNumber n × (r.value ≡ codes "STORY-" ++ n)
  | ReferenceKind.decision ↦ (n : Text) × IsNumber n × (r.value ≡ codes "ADR-" ++ n)
  | ReferenceKind.forge_url ↦ IsForgeUrl r.value
]

all_digits : (n : Text) → all is_ascii_digit n ≡ true → All (λ c. (48 ≤ c) × (c ≤ 57)) n
unfolding is_ascii_digit
all_digits [] h = tt
all_digits (c ∷ n) h = ((ground (arith), ground (arith)), all_digits n (ground (arith)))

digits-IsNumber : (n : Text) → digits n ≡ true → IsNumber n
unfolding digits
digits-IsNumber [] h = ground (arith)
digits-IsNumber (c ∷ n) h = record {
  not_nil = λ e. ground (arith);
  decimal = all_digits (c ∷ n) (ground (arith));
}

contains-Within : (part t : Text) → contains part t ≡ true → Within part t
unfolding contains
contains-Within [] [] h = record { before = []; after = []; splits = refl }
contains-Within (p ∷ part) [] h = ground (arith)
contains-Within part (c ∷ t) h = elim (Bool-cases (starts_with part (c ∷ t))) [
  | inl e ↦
      let (rest, splits) = starts_with_sound part (c ∷ t) e in
      record { before = []; after = rest; splits = splits }
  | inr e ↦
      let w = contains-Within part t (ground (arith)) in
      record { before = c ∷ w.before; after = w.after; splits = ap (λ x. c ∷ x) w.splits }
]

is_forge_url-IsForgeUrl : (t : Text) → is_forge_url t ≡ true → IsForgeUrl t
unfolding is_forge_url
is_forge_url-IsForgeUrl t h = record {
  scheme = elim (Bool-cases (starts_with (codes "https://") t)) [
    | inl e ↦ let (rest, s) = starts_with_sound (codes "https://") t e in (rest, inl s)
    | inr e ↦
        let (rest, s) = starts_with_sound (codes "http://") t (ground (arith)) in (rest, inr s)
  ];
  mentions = elim (Bool-cases (contains (codes "/issues/") t)) [
    | inl e ↦ inl (contains-Within (codes "/issues/") t e)
    | inr e ↦ inr (contains-Within (codes "/pull/") t (ground (arith)))
  ];
}

number_after-IsNumber : (p value n : Text) → number_after p value ≡ some n → IsNumber n
unfolding number_after
number_after-IsNumber p value n h = elim (Option-cases (strip_prefix p value)) [
  | inl e ↦ ground (arith)
  | inr (m, e) ↦ elim (Bool-cases (digits m)) [
    | inl b ↦ let same : m ≡ n = ground (arith) in rw (← same) (digits-IsNumber m b)
    | inr b ↦ ground (arith)
  ]
]

named_reference-HasForm :
    (cleaned : Text) (r : ExplicitReference) → named_reference cleaned ≡ some r → HasForm r
unfolding named_reference
named_reference-HasForm cleaned r h =
    let upper = to_ascii_uppercase cleaned in
    elim (Option-cases (number_after (codes "STORY-") upper)) [
      | inr (n, e) ↦
          let same : record { kind = ReferenceKind.story; value = codes "STORY-" ++ n } ≡ r =
            ground (arith) in
          rw (← same) (n, number_after-IsNumber (codes "STORY-") upper n e, refl)
      | inl e ↦ elim (Option-cases (number_after (codes "ADR-") upper)) [
        | inr (n, f) ↦
            let same : record { kind = ReferenceKind.decision; value = codes "ADR-" ++ n } ≡ r =
              ground (arith) in
            rw (← same) (n, number_after-IsNumber (codes "ADR-") upper n f, refl)
        | inl f ↦ elim (Bool-cases (is_forge_url cleaned)) [
          | inl b ↦
              let same : record { kind = ReferenceKind.forge_url; value = cleaned } ≡ r =
                ground (arith) in
              rw (← same) (is_forge_url-IsForgeUrl cleaned b)
          | inr b ↦ ground (arith)
        ]
      ]
    ]

token_reference-HasForm :
    (previous : Option Text) (token : Text) (r : ExplicitReference)
    → token_reference previous token ≡ some r
    → HasForm r
unfolding token_reference
token_reference-HasForm previous token r h =
    let cleaned = trim_matches is_mark token in
    elim (Option-cases (number_after (codes "#") cleaned)) [
      | inl e ↦ named_reference-HasForm cleaned r (ground (arith))
      | inr (n, e) ↦
          let number = number_after-IsNumber (codes "#") cleaned n e in
          elim (Bool-cases (is_story_word previous)) [
            | inl b ↦
                let same : record { kind = ReferenceKind.story; value = codes "STORY-" ++ n } ≡ r =
                  ground (arith) in
                rw (← same) (n, number, refl)
            | inr b ↦
                let same : record { kind = ReferenceKind.issue; value = b'#' ∷ n } ≡ r =
                  ground (arith) in
                rw (← same) (n, number, refl)
          ]
    ]

token_references-HasForm :
    (previous : Option Text) (tokens : List Text) → All HasForm (token_references previous tokens)
unfolding token_references
token_references-HasForm previous [] = tt
token_references-HasForm previous (token ∷ rest) =
    elim (Option-cases (token_reference previous token)) [
      | inl e ↦ rw (e, token_references) (token_references-HasForm (some token) rest)
      | inr (r, e) ↦
          rw (e, token_references)
            (token_reference-HasForm previous token r e, token_references-HasForm (some token) rest)
    ]

-- Whatever the message is, every extracted reference has its kind's form: `#`, `STORY-` or `ADR-` before
-- one decimal digit or more, or a text that starts with `https://` or `http://` and has `/issues/` or
-- `/pull/` somewhere in it.
pub extract-HasForm : (message : Text) → All HasForm (extract message)
unfolding extract
extract-HasForm message =
    dedup_by-All reference_le HasForm same_reference
      (sort_by reference_le (token_references none (split_whitespace message)))
      (sort_by-All reference_le HasForm (token_references none (split_whitespace message))
        (token_references-HasForm none (split_whitespace message)))
