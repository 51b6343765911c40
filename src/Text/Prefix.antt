-- ===== src/Text/Prefix.antt =====
-- `strip_prefix` and `starts_with` tell exactly the texts that begin with the prefix.
use rationale.Prelude.{true, some, [], ◌∷◌, ◌++◌, ◌≡◌, refl, arith, Option-cases, inl, inr}
use rationale.Text.{Text, strip_prefix, starts_with}

pub strip_prefix-append : (p s : Text) → strip_prefix p (p ++ s) ≡ some s
unfolding strip_prefix
strip_prefix-append [] s = refl
strip_prefix-append (c ∷ p) s = ground (arith, strip_prefix-append p s)

pub strip_prefix_sound : (p s t : Text) → strip_prefix p s ≡ some t → s ≡ p ++ t
unfolding strip_prefix
strip_prefix_sound [] s t h = ground arith
strip_prefix_sound (c ∷ p) [] t h = ground arith
strip_prefix_sound (c ∷ p) (d ∷ s) t h = ground (arith, strip_prefix_sound p s t)

pub starts_with_sound : (p s : Text) → starts_with p s ≡ true → (rest : Text) × (s ≡ p ++ rest)
unfolding starts_with
starts_with_sound p s h = elim (Option-cases (strip_prefix p s)) [
  | inl e ↦ absurd (ground arith)
  | inr (rest, e) ↦ (rest, strip_prefix_sound p s rest e)
]
