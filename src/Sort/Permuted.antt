-- ===== src/Sort/Permuted.antt =====
-- A sort forgets the order in which the elements came, where its order tells them apart.
use mathlib.Core.List.{Permᴰ}
use mathlib.Core.Path.{subst}
use rationale.Prelude.{Bool, false, ◌&&◌, List, [], ◌∷◌, ◌≡◌, refl, ◌∙◌, ap, ap₂, All, arith}
use rationale.Sort.{insert_by, sort_by, IsOrder}

module _ {ℓ} {A : Type ℓ} (le : A → A → Bool) where
  -- No two elements that the order does not tell apart.
  abbrev pub Apart : List A → Type 0
  Apart [] = Unit
  Apart (x ∷ xs) = All (λ y. (le x y && le y x) ≡ false) xs × Apart xs

  All-Perm {κ} : (P : A → Type κ) {xs ys : List A} → Permᴰ xs ys → All P xs → All P ys
  All-Perm P Permᴰ.nil h = tt
  All-Perm P (Permᴰ.cons e p) h = (rw (← e) h.0, All-Perm P p h.1)
  All-Perm P (Permᴰ.swap e f) h = (rw (← f) h.1.0, (rw (← e) h.0, h.1.1))
  All-Perm P (Permᴰ.trans p q) h = All-Perm P q (All-Perm P p h)

  Apart_comm : (x y : A) → (le x y && le y x) ≡ false → (le y x && le x y) ≡ false
  Apart_comm x y h = ground arith

  apart_of_eq :
      {a b : A} (l : List A)
      → a ≡ b
      → All (λ y. (le a y && le y a) ≡ false) l
      → All (λ y. (le b y && le y b) ≡ false) l
  apart_of_eq l e = subst (λ x. All (λ y. (le x y && le y x) ≡ false) l) e

  Apart-Perm : {xs ys : List A} → Permᴰ xs ys → Apart xs → Apart ys
  Apart-Perm Permᴰ.nil h = tt
  Apart-Perm (Permᴰ.cons {l₂ = l} e p) h = (apart_of_eq l e (All-Perm _ p h.0), Apart-Perm p h.1)
  Apart-Perm (Permᴰ.swap {a = a} {b = b} {l = l} e f) h = (
    (rw (← e, ← f) (Apart_comm a b h.0.0), apart_of_eq l f h.1.0),
    (apart_of_eq l e h.0.1, h.1.1),
  )
  Apart-Perm (Permᴰ.trans p q) h = Apart-Perm q (Apart-Perm p h)

  module _ (order : IsOrder le) where
    insert_by_comm :
        (x y : A) (xs : List A)
        → (le x y && le y x) ≡ false
        → insert_by le x (insert_by le y xs) ≡ insert_by le y (insert_by le x xs)
    unfolding insert_by
    insert_by_comm x y [] h = ground (arith, order.total x y, order.total y x)
    insert_by_comm x y (z ∷ zs) h = ground (
      arith,
      order.total x y,
      order.total y x,
      order.chain x y z,
      order.chain y x z,
      order.total x z,
      order.total y z,
      insert_by_comm x y zs,
    )

    -- The sort of elements that are apart depends on which they are only.
    pub sort_by-Perm : {xs ys : List A} → Permᴰ xs ys → Apart xs → sort_by le xs ≡ sort_by le ys
    unfolding sort_by
    sort_by-Perm Permᴰ.nil h = refl
    sort_by-Perm (Permᴰ.cons e p) h = ap₂ (insert_by le) e (sort_by-Perm p h.1)
    sort_by-Perm (Permᴰ.swap {a = a} {b = b} {l = l} e f) h =
        insert_by_comm a b (sort_by le l) h.0.0
        ∙ ap₂ (insert_by le) f (ap (λ x. insert_by le x (sort_by le l)) e)
    sort_by-Perm (Permᴰ.trans p q) h = sort_by-Perm p h ∙ sort_by-Perm q (Apart-Perm p h)
