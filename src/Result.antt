-- ===== src/Result.antt =====
-- `Result<A, E>`, the `?` operator as `>>=`, and the case analysis that the components use.
use rationale.Prelude.{arith, ◌≡◌, refl, ◌⊎◌, inl, inr, Bool, true, false, Option, none, some}

pub data Result {ℓ} (A : Type ℓ) (E : Type 0) : Type ℓ where
  ok : A → Result A E
  err : E → Result A E

-- The answer of a call that has nothing to answer.
abbrev pub Done : Type 0 → Type 0
Done = Result (Unit {0})

infixl 5 ◌>>=◌ ◌>>◌
abbrev pub ◌>>=◌ {ℓ κ} :
    {E : Type 0} {A : Type ℓ} {B : Type κ} → Result A E → (A → Result B E) → Result B E
err e >>= next = err e
ok a >>= next = next a

abbrev pub ◌>>◌ {κ} : {E : Type 0} {B : Type κ} → Done E → Result B E → Result B E
done >> next = done >>= λ _. next

-- `if test { return Err(e) }`
abbrev pub fail_if : {E : Type 0} → Bool → E → Done E
fail_if false e = ok tt
fail_if true e = err e

-- `Option::ok_or`
abbrev pub ok_or {ℓ} : {E : Type 0} {A : Type ℓ} → Option A → E → Result A E
ok_or none e = err e
ok_or (some a) e = ok a

module _ {ℓ} {E : Type 0} {A : Type ℓ} where
  pub Result-cases : (r : Result A E) → ((a : A) × (r ≡ ok a)) ⊎ ((e : E) × (r ≡ err e))
  Result-cases (ok a) = inl (a, refl)
  Result-cases (err e) = inr (e, refl)

  -- What succeeds in a sequence.
  pub bind-ok {κ} :
      {B : Type κ} (m : Result A E) (f : A → Result B E) (b : B)
      → (m >>= f) ≡ ok b
      → (a : A) × (m ≡ ok a) × (f a ≡ ok b)
  bind-ok (ok a) f b h = (a, refl, h)
  bind-ok (err e) f b h = cc

  -- What fails in a sequence.
  pub bind-err {κ} :
      {B : Type κ} (m : Result A E) (f : A → Result B E) (e : E)
      → (m >>= f) ≡ err e
      → (m ≡ err e) ⊎ ((a : A) × (m ≡ ok a) × (f a ≡ err e))
  bind-err (ok a) f e h = inr (a, refl, h)
  bind-err (err x) f e h = inl (ground arith)

-- What holds of the value, if there is one.
abbrev pub Ensures {ℓ κ} : {E : Type 0} {A : Type ℓ} → (A → Type κ) → Result A E → Type κ
Ensures P (ok a) = P a
Ensures P (err e) = Unit

module _ {E : Type 0} {B : Type 0} (P : B → Type 0) where
  pub Ensures-bind :
      {A : Type 0} (m : Result A E) (f : A → Result B E)
      → ((a : A) → m ≡ ok a → Ensures P (f a))
      → Ensures P (m >>= f)
  Ensures-bind (ok a) f h = h a refl
  Ensures-bind (err e) f h = tt

  pub Ensures-ok : (r : Result B E) (b : B) → Ensures P r → r ≡ ok b → P b
  Ensures-ok (ok a) b h e = let same : a ≡ b = ground arith in rw (← same) h
  Ensures-ok (err x) b h e = absurd (ground arith)
