-- ===== src/Docs/Identifiers/Found.antt =====
-- crates/rationale-docs/src/lib.rs: which identifiers are found in a text.
use rationale.Prelude.{
  ◌==◌, ℕ, true, false, Option, none, some, List, [], ◌∷◌, ◌++◌, ◌≡◌, refl, sym, ap, ◌∙◌, ◌↔◌, ◌⊎◌,
  inl, inr, all, In, arith, Option-cases,
}
use rationale.Order.{list_ord, nat_ord, list_cmp-equal}
use rationale.Set.{Set, has, has-add_here, has-add_cases, has-add, has-none}
use rationale.Sort.{sort_by}
use rationale.Sort.Laws.{In-sort_by, In-of_In-sort_by, In-dedup_by, In-of_In-dedup_by}
use rationale.Text.{is_ascii_alphanumeric, Text, text_eq, is_empty}
use rationale.Docs.{IdPatterns}
use rationale.Docs.Identifiers.{
  is_suffix_char, longer_first, prefixes, boundary_before, identifier_at, identifiers_at,
  identifiers_from, find_identifiers,
}
use rationale.Docs.Identifiers.Place.{Stops, identifier_at_sound, identifier_at_complete}

-- The identifier of some known prefix at one place.
abbrev AtPlace : Option ℕ → Text → List Text → Text → Type 0
AtPlace previous rest known id =
    (prefix : Text) × In prefix known × (identifier_at previous rest prefix ≡ some id)

identifiers_at_sound :
    (previous : Option ℕ) (rest : Text) (known : List Text) (found : Set Text) (id : Text)
    → has id (identifiers_at previous rest known found) ≡ true
    → AtPlace previous rest known id ⊎ (has id found ≡ true)
unfolding identifiers_at
identifiers_at_sound previous rest [] found id h = inr h
identifiers_at_sound previous rest (p ∷ known) found id h =
    elim (Option-cases (identifier_at previous rest p)) [
      | inl e ↦
          elim (identifiers_at_sound previous rest known found id (rw (e, identifiers_at) at h)) [
            | inl (q, m, f) ↦ inl (q, inr m, f)
            | inr m ↦ inr m
          ]
      | inr (j, e) ↦
          elim (identifiers_at_sound previous rest known _ id (rw (e, identifiers_at) at h)) [
            | inl (q, m, f) ↦ inl (q, inr m, f)
            | inr m ↦ elim (has-add_cases j id found m) [
              | inl same ↦ inl (p, inl refl, e ∙ ap some (sym same))
              | inr old ↦ inr old
            ]
          ]
    ]

identifiers_at-keeps :
    (previous : Option ℕ) (rest : Text) (known : List Text) (found : Set Text) (id : Text)
    → has id found ≡ true
    → has id (identifiers_at previous rest known found) ≡ true
unfolding identifiers_at
identifiers_at-keeps previous rest [] found id h = h
identifiers_at-keeps previous rest (p ∷ known) found id h =
    elim (Option-cases (identifier_at previous rest p)) [
      | inl e ↦ rw (e, identifiers_at) (identifiers_at-keeps previous rest known found id h)
      | inr (j, e) ↦
          rw (e, identifiers_at)
            (identifiers_at-keeps previous rest known _ id (ground (arith, has-add j id found)))
    ]

identifiers_at_complete :
    (previous : Option ℕ) (rest : Text) (known : List Text) (found : Set Text) (id : Text)
    → AtPlace previous rest known id
    → has id (identifiers_at previous rest known found) ≡ true
unfolding identifiers_at
identifiers_at_complete previous rest [] found id (q, m, f) = absurd m
identifiers_at_complete previous rest (p ∷ known) found id (q, inl same, f) =
    let e : identifier_at previous rest p ≡ some id = rw same at f in
    rw (e, identifiers_at) (identifiers_at-keeps previous rest known _ id (has-add_here id found))
identifiers_at_complete previous rest (p ∷ known) found id (q, inr m, f) =
    identifiers_at_complete previous rest known _ id (q, m, f)

-- The character before the end of a text that itself stands behind `previous`.
abbrev pub last_of : Option ℕ → Text → Option ℕ
last_of previous [] = previous
last_of previous (c ∷ s) = last_of (some c) s

-- At some place of the text.
record Somewhere (known : List Text) (previous : Option ℕ) (source id : Text) : Type 0 where
  before : Text
  rest : Text
  splits : source ≡ before ++ rest
  not_end : is_empty rest ≡ false
  at_place : AtPlace (last_of previous before) rest known id

Somewhere-cons :
    (known : List Text) (previous : Option ℕ) (c : ℕ) (s id : Text)
    → Somewhere known (some c) s id
    → Somewhere known previous (c ∷ s) id
Somewhere-cons known previous c s id w = record {
  before = c ∷ w.before;
  rest = w.rest;
  splits = ap (◌∷◌ c) w.splits;
  not_end = w.not_end;
  at_place = w.at_place;
}

identifiers_from_sound :
    (known : List Text) (previous : Option ℕ) (source : Text) (found : Set Text) (id : Text)
    → has id (identifiers_from known previous source found) ≡ true
    → Somewhere known previous source id ⊎ (has id found ≡ true)
unfolding identifiers_from
identifiers_from_sound known previous [] found id h = inr h
identifiers_from_sound known previous (c ∷ s) found id h =
    elim (identifiers_from_sound known (some c) s _ id h) [
      | inl w ↦ inl (Somewhere-cons known previous c s id w)
      | inr m ↦ elim (identifiers_at_sound previous (c ∷ s) known found id m) [
        | inl a ↦
            inl (record { before = []; rest = c ∷ s; splits = refl; not_end = refl; at_place = a })
        | inr old ↦ inr old
      ]
    ]

identifiers_from-keeps :
    (known : List Text) (previous : Option ℕ) (source : Text) (found : Set Text) (id : Text)
    → has id found ≡ true
    → has id (identifiers_from known previous source found) ≡ true
unfolding identifiers_from
identifiers_from-keeps known previous [] found id h = h
identifiers_from-keeps known previous (c ∷ s) found id h =
    identifiers_from-keeps known (some c) s _ id
      (identifiers_at-keeps previous (c ∷ s) known found id h)

identifiers_from_complete :
    (known : List Text) (previous : Option ℕ) (before rest : Text) (found : Set Text) (id : Text)
    → is_empty rest ≡ false
    → AtPlace (last_of previous before) rest known id
    → has id (identifiers_from known previous (before ++ rest) found) ≡ true
unfolding identifiers_from
identifiers_from_complete known previous [] [] found id h a = cc
identifiers_from_complete known previous [] (c ∷ rest) found id h a =
    identifiers_from-keeps known (some c) rest _ id
      (identifiers_at_complete previous (c ∷ rest) known found id a)
identifiers_from_complete known previous (c ∷ before) rest found id h a =
    identifiers_from_complete known (some c) before rest _ id h a

-- The prefixes of a configuration, in any order.
abbrev pub configured : IdPatterns → List Text
configured patterns = patterns.work_items ++ (patterns.decisions ++ patterns.verifications)

equal_text : (a b : Text) → text_eq a b ≡ true → a ≡ b
equal_text a b h = list_cmp-equal a b (ground arith)

prefixes_iff :
    (patterns : IdPatterns) (p : Text) → In p (prefixes patterns) ↔ In p (configured patterns)
unfolding prefixes
prefixes_iff patterns p =
    let sorted = sort_by longer_first (configured patterns) in
    (
      λ m.
          In-of_In-sort_by longer_first p (configured patterns)
            (In-of_In-dedup_by text_eq p sorted m),
      λ m.
          In-dedup_by text_eq equal_text p sorted
            (In-sort_by longer_first p (configured patterns) m),
    )

-- The start of the text, or a character that is no letter, digit or `_`.
abbrev pub IsBoundary : Option ℕ → Type 0
IsBoundary none = Unit
IsBoundary (some c) = (is_ascii_alphanumeric c ≡ false) × ((c == b'_') ≡ false)

IsBoundary-iff : (previous : Option ℕ) → (boundary_before previous ≡ true) ↔ IsBoundary previous
unfolding boundary_before
IsBoundary-iff none = (λ h. tt, λ h. refl)
IsBoundary-iff (some c) = (λ h. (ground arith, ground arith), λ h. ground arith)

-- A configured prefix, behind a character that is no letter, digit or `_`, and the longest run of letters,
-- digits, `-` and `_` that follows it, which is not empty.
pub record Stands (patterns : IdPatterns) (source id : Text) : Type 0 where
  pub before : Text
  pub prefix : Text
  pub run : Text
  pub after : Text
  pub splits : source ≡ before ++ (prefix ++ (run ++ after))
  pub is_id : id ≡ prefix ++ run
  pub configured_prefix : In prefix (configured patterns)
  pub boundary : IsBoundary (last_of none before)
  pub run_ne_nil : is_empty run ≡ false
  pub run_chars : all is_suffix_char run ≡ true
  pub stops : Stops after

is_empty-append_right : (s t u : Text) → is_empty t ≡ false → is_empty (s ++ (t ++ u)) ≡ false
is_empty-append_right [] [] u h = cc
is_empty-append_right [] (c ∷ t) u h = refl
is_empty-append_right (d ∷ s) t u h = refl

-- An identifier is found in a text exactly when it stands there: a configured prefix at a word boundary with
-- the longest run of identifier characters behind it.
pub find_identifiers-iff_Stands :
    (source : Text) (patterns : IdPatterns) (id : Text)
    → (has id (find_identifiers source patterns) ≡ true) ↔ Stands patterns source id
unfolding find_identifiers
find_identifiers-iff_Stands source patterns id = (
  λ h. elim (identifiers_from_sound (prefixes patterns) none source [] id h) [
    | inl w ↦
        let (p, m, f) = w.at_place in
        let s = identifier_at_sound (last_of none w.before) w.rest p id f in
        record {
          before = w.before;
          prefix = p;
          run = s.run;
          after = s.after;
          splits = w.splits ∙ ap (λ t. w.before ++ t) s.splits;
          is_id = s.is_id;
          configured_prefix = (prefixes_iff patterns p).0 m;
          boundary = (IsBoundary-iff (last_of none w.before)).0 s.boundary;
          run_ne_nil = s.run_ne_nil;
          run_chars = s.run_chars;
          stops = s.stops;
        }
    | inr old ↦ has-none id old
  ],
  λ s. rw s.splits (
      identifiers_from_complete (prefixes patterns) none s.before (s.prefix ++ (s.run ++ s.after))
        [] id (is_empty-append_right s.prefix s.run s.after s.run_ne_nil)
        (
          s.prefix,
          (prefixes_iff patterns s.prefix).1 s.configured_prefix,
          identifier_at_complete (last_of none s.before) (s.prefix ++ (s.run ++ s.after)) s.prefix
              id
              (record {
                run = s.run;
                after = s.after;
                splits = refl;
                is_id = s.is_id;
                boundary = (IsBoundary-iff (last_of none s.before)).1 s.boundary;
                run_ne_nil = s.run_ne_nil;
                run_chars = s.run_chars;
                stops = s.stops;
              }),
        )),
)
