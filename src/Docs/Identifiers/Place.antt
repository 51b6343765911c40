-- ===== src/Docs/Identifiers/Place.antt =====
-- crates/rationale-docs/src/lib.rs: the identifier with a given prefix at a given place of a text.
use rationale.Prelude.{
  ℕ, true, false, Option, some, [], ◌∷◌, ◌++◌, ◌≡◌, refl, sym, ap, ◌∙◌, inl, inr, all, arith,
  Bool-cases, Option-cases,
}
use rationale.Order.{list_ord, nat_ord}
use rationale.Text.{Text, is_empty, strip_prefix}
use rationale.Text.Prefix.{strip_prefix-append, strip_prefix_sound}
use rationale.Docs.Identifiers.{
  is_suffix_char, valid_prefixed, boundary_before, suffix_run, identifier_at,
}

-- A text that does not go on with a letter, a digit, `-` or `_`.
abbrev pub Stops : Text → Type 0
Stops [] = Unit
Stops (c ∷ s) = is_suffix_char c ≡ false

suffix_run_sound :
    (s : Text)
    → (after : Text) × (s ≡ suffix_run s ++ after)
      × (all is_suffix_char (suffix_run s) ≡ true)
      × Stops after
unfolding suffix_run
suffix_run_sound [] = ([], refl, refl, tt)
suffix_run_sound (c ∷ s) = elim (Bool-cases (is_suffix_char c)) [
  | inl e ↦ let (after, p, q, r) = suffix_run_sound s in rw e (after, ap (◌∷◌ c) p, rw e q, r)
  | inr e ↦ rw e (c ∷ s, refl, refl, e)
]

suffix_run-append :
    (run after : Text)
    → all is_suffix_char run ≡ true
    → Stops after
    → suffix_run (run ++ after) ≡ run
unfolding suffix_run
suffix_run-append [] [] h k = refl
suffix_run-append [] (c ∷ after) h k = rw k
suffix_run-append (c ∷ run) after h k = ground (arith, suffix_run-append run after)

-- What stands at one place: a prefix, and the longest run behind it.
pub record Starts (previous : Option ℕ) (rest prefix id : Text) : Type 0 where
  pub run : Text
  pub after : Text
  pub splits : rest ≡ prefix ++ (run ++ after)
  pub is_id : id ≡ prefix ++ run
  pub boundary : boundary_before previous ≡ true
  pub run_ne_nil : is_empty run ≡ false
  pub run_chars : all is_suffix_char run ≡ true
  pub stops : Stops after

pub identifier_at_sound :
    (previous : Option ℕ) (rest prefix id : Text)
    → identifier_at previous rest prefix ≡ some id
    → Starts previous rest prefix id
unfolding identifier_at
identifier_at_sound previous rest prefix id h = elim (Option-cases (strip_prefix prefix rest)) [
  | inl e ↦ absurd (ground arith)
  | inr (suffix, e) ↦
      let (after, p, q, r) = suffix_run_sound suffix in
      let whole : rest ≡ prefix ++ suffix = strip_prefix_sound prefix rest suffix e in
      record {
        run = suffix_run suffix;
        after = after;
        splits = whole ∙ ap (λ t. prefix ++ t) p;
        is_id = ground arith;
        boundary = ground arith;
        run_ne_nil = ground arith;
        run_chars = q;
        stops = r;
      }
]

valid_prefixed-append :
    (prefix run : Text)
    → is_empty run ≡ false
    → all is_suffix_char run ≡ true
    → valid_prefixed (prefix ++ run) prefix ≡ true
unfolding valid_prefixed
valid_prefixed-append prefix run h k = rw (strip_prefix-append prefix run, valid_prefixed, h, k)

pub identifier_at_complete :
    (previous : Option ℕ) (rest prefix id : Text)
    → Starts previous rest prefix id
    → identifier_at previous rest prefix ≡ some id
unfolding identifier_at
identifier_at_complete previous rest prefix id s =
    let e : strip_prefix prefix rest ≡ some (s.run ++ s.after) =
      rw s.splits (strip_prefix-append prefix (s.run ++ s.after)) in
    let r = suffix_run-append s.run s.after s.run_chars s.stops in
    let v : valid_prefixed (prefix ++ s.run) prefix ≡ true =
      valid_prefixed-append prefix s.run s.run_ne_nil s.run_chars in
    rw (e, identifier_at, r, s.boundary, s.run_ne_nil, v) (ap some (sym s.is_id))
