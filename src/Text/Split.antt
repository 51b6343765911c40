-- ===== src/Text/Split.antt =====
-- Splitting: `split_once`, `rsplit_once`, `split`, `split_whitespace`, and their laws.
use rationale.Prelude.{
  ℕ, Bool, false, not, Option, none, some, List, [], ◌∷◌, ◌++◌, ◌≡◌, refl, ap, ◌==◌, All, keep,
  arith, if◌then◌else◌, Option-cases, Bool-cases, ==_iff, inl, inr,
}
use rationale.Text.{Text, is_empty, is_whitespace}

-- `s.split_once(c)`: before and after the first `c`.
unfoldable pub split_once : ℕ → Text → Option (Text × Text)
split_once c [] = none
split_once c (d ∷ s) =
    if d == c
    then some ([], s)
    else elim (split_once c s) [ some (a, b) ↦ some (d ∷ a, b) | none ↦ none ]

-- `s.rsplit_once(c)`: before and after the last `c`.
unfoldable pub rsplit_once : ℕ → Text → Option (Text × Text)
rsplit_once c [] = none
rsplit_once c (d ∷ s) = elim (rsplit_once c s) [
  | some (a, b) ↦ some (d ∷ a, b)
  | none ↦ if d == c then some ([], s) else none
]

-- `s.split(p)`: the pieces between the characters at which `p` holds, empty ones included.
unfoldable pub split : (ℕ → Bool) → Text → List Text
split p [] = [] ∷ []
split p (c ∷ s) = elim (split p s) [
  | [] ↦ (c ∷ []) ∷ []
  | w ∷ ws ↦ if p c then [] ∷ w ∷ ws else (c ∷ w) ∷ ws
]

unfoldable pub split_whitespace : Text → List Text
unfolding split is_whitespace
split_whitespace s = keep (λ w. not (is_empty w)) (split is_whitespace s)

-- `c` does not occur in the text.
abbrev pub Lacks : ℕ → Text → Type 0
Lacks c s = All (λ d. (d == c) ≡ false) s

pub split_once-append : (c : ℕ) (a b : Text) → Lacks c a → split_once c (a ++ c ∷ b) ≡ some (a, b)
unfolding split_once
split_once-append c [] b h = ground arith
split_once-append c (d ∷ a) b h = ground (arith, split_once-append c a b h.1)

pub split_once-none : (c : ℕ) (s : Text) → Lacks c s → split_once c s ≡ none
unfolding split_once
split_once-none c [] h = refl
split_once-none c (d ∷ s) h = ground (arith, split_once-none c s h.1)

pub split_once_sound :
    (c : ℕ) (s a b : Text) → split_once c s ≡ some (a, b) → (s ≡ a ++ c ∷ b) × Lacks c a
unfolding split_once
split_once_sound c [] a b h = absurd (ground arith)
split_once_sound c (d ∷ s) a b h = elim (Bool-cases (d == c)) [
  | inl e ↦
      let ea : [] ≡ a = ground arith in
      let eb : s ≡ b = ground arith in rw (← ea, ← eb) (ap (λ x. x ∷ s) ((==_iff d c).0 e), tt)
  | inr e ↦ elim (Option-cases (split_once c s)) [
    | inl f ↦ absurd (ground arith)
    | inr ((a', b'), f) ↦
        let (p, q) = split_once_sound c s a' b' f in
        let ea : d ∷ a' ≡ a = ground arith in
        let eb : b' ≡ b = ground arith in rw (← ea, ← eb) (ap (◌∷◌ d) p, (e, q))
  ]
]

pub rsplit_once-none : (c : ℕ) (s : Text) → Lacks c s → rsplit_once c s ≡ none
unfolding rsplit_once
rsplit_once-none c [] h = refl
rsplit_once-none c (d ∷ s) h = ground (arith, rsplit_once-none c s h.1)

pub rsplit_once-append : (c : ℕ) (a b : Text) → Lacks c b → rsplit_once c (a ++ c ∷ b) ≡ some (a, b)
unfolding rsplit_once
rsplit_once-append c [] b h = ground (arith, rsplit_once-none c b h)
rsplit_once-append c (d ∷ a) b h = ground (arith, rsplit_once-append c a b h)

Lacks-of_rsplit_once : (c : ℕ) (s : Text) → rsplit_once c s ≡ none → Lacks c s
unfolding rsplit_once
Lacks-of_rsplit_once c [] h = tt
Lacks-of_rsplit_once c (d ∷ s) h = ground (arith, Lacks-of_rsplit_once c s)

-- The parts of a split, put together again, are the text, and the separator was the last.
pub rsplit_once_sound :
    (c : ℕ) (s a b : Text) → rsplit_once c s ≡ some (a, b) → (s ≡ a ++ c ∷ b) × Lacks c b
unfolding rsplit_once
rsplit_once_sound c [] a b h = absurd (ground arith)
rsplit_once_sound c (d ∷ s) a b h = elim (Option-cases (rsplit_once c s)) [
  | inl e ↦ ground (arith, Lacks-of_rsplit_once c s)
  | inr ((a', b'), e) ↦
      let (p, q) = rsplit_once_sound c s a' b' e in
      let ea : d ∷ a' ≡ a = ground arith in
      let eb : b' ≡ b = ground arith in rw (← ea, ← eb) (ap (◌∷◌ d) p, q)
]
