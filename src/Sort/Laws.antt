-- ===== src/Sort/Laws.antt =====
-- Sorting keeps the elements, orders them, and forgets the order in which they came.
use rationale.Prelude.{
  ℕ, zero, suc, take, All-take, ◌+◌, Bool, true, List, [], ◌∷◌, ◌≡◌, refl, sym, ◌∙◌, All, In, inl,
  inr, ◌⊎◌, length, arith, Bool-cases,
}
use rationale.Sort.{insert_by, sort_by, dedup_from, dedup_by, Ordered, IsOrder}

module _ {ℓ} {A : Type ℓ} (le : A → A → Bool) where
  length-insert_by : (x : A) (xs : List A) → length (insert_by le x xs) ≡ length xs + 1
  unfolding insert_by
  length-insert_by x [] = omega arith
  length-insert_by x (y ∷ ys) = ground (arith, length-insert_by x ys)

  pub length-sort_by : (xs : List A) → length (sort_by le xs) ≡ length xs
  unfolding sort_by
  length-sort_by [] = refl
  length-sort_by (x ∷ xs) = omega (arith, length-insert_by x (sort_by le xs), length-sort_by xs)

  insert_by-All {κ} :
      (P : A → Type κ) (x : A) (xs : List A) → P x → All P xs → All P (insert_by le x xs)
  unfolding insert_by
  insert_by-All P x [] p h = (p, tt)
  insert_by-All P x (y ∷ ys) p h = ground (arith, insert_by-All P x ys p h.1)

  pub sort_by-All {κ} : (P : A → Type κ) (xs : List A) → All P xs → All P (sort_by le xs)
  unfolding sort_by
  sort_by-All P [] h = tt
  sort_by-All P (x ∷ xs) h = insert_by-All P x (sort_by le xs) h.0 (sort_by-All P xs h.1)

  module _ (order : IsOrder le) where
    All-le_trans :
        (x y : A) (ys : List A)
        → le x y ≡ true
        → All (λ z. le y z ≡ true) ys
        → All (λ z. le x z ≡ true) ys
    All-le_trans x y [] h a = tt
    All-le_trans x y (z ∷ zs) h a = (order.chain x y z h a.0, All-le_trans x y zs h a.1)

    insert_by-Ordered : (x : A) (xs : List A) → Ordered le xs → Ordered le (insert_by le x xs)
    unfolding insert_by
    insert_by-Ordered x [] s = (tt, tt)
    insert_by-Ordered x (y ∷ ys) s = elim (Bool-cases (le x y)) [
      | inl e ↦ rw e ((e, All-le_trans x y ys e s.0), s)
      | inr e ↦ rw e (
        insert_by-All (λ z. le y z ≡ true) x ys (order.total x y e) s.0,
        insert_by-Ordered x ys s.1,
      )
    ]

    pub sort_by-Ordered : (xs : List A) → Ordered le (sort_by le xs)
    unfolding sort_by
    sort_by-Ordered [] = tt
    sort_by-Ordered (x ∷ xs) = insert_by-Ordered x (sort_by le xs) (sort_by-Ordered xs)

  pub dedup_by-All {κ} :
      (P : A → Type κ) (same : A → A → Bool) (xs : List A) → All P xs → All P (dedup_by same xs)
  unfolding dedup_by
  dedup_by-All P same [] h = tt
  dedup_by-All P same (x ∷ xs) h = go x xs h.0 h.1
    where
      go : (x : A) (xs : List A) → P x → All P xs → All P (dedup_from same x xs)
      go x [] p h = (p, tt)
      go x (y ∷ ys) p h = ground (arith, go x ys p h.1, go y ys h.0 h.1)

  pub Ordered-take : (n : ℕ) (xs : List A) → Ordered le xs → Ordered le (take n xs)
  Ordered-take zero xs s = tt
  Ordered-take (suc n) [] s = tt
  Ordered-take (suc n) (x ∷ xs) s = (All-take _ n xs s.0, Ordered-take n xs s.1)

module _ {A : Type 0} (le : A → A → Bool) where
  In-insert_by_self : (x : A) (xs : List A) → In x (insert_by le x xs)
  unfolding insert_by
  In-insert_by_self x [] = inl refl
  In-insert_by_self x (y ∷ ys) = elim (Bool-cases (le x y)) [
    | inl e ↦ rw e (inl refl)
    | inr e ↦ rw e (inr (In-insert_by_self x ys))
  ]

  In-insert_by_of_In : (z x : A) (xs : List A) → In z xs → In z (insert_by le x xs)
  unfolding insert_by
  In-insert_by_of_In z x (y ∷ ys) m = elim (Bool-cases (le x y)) [
    | inl e ↦ rw e (inr m)
    | inr e ↦ rw e (elim m [ inl p ↦ inl p | inr n ↦ inr (In-insert_by_of_In z x ys n) ])
  ]
  In-insert_by_of_In z x [] m = absurd m

  In-insert_by_cases : (z x : A) (xs : List A) → In z (insert_by le x xs) → (z ≡ x) ⊎ In z xs
  unfolding insert_by
  In-insert_by_cases z x [] m = m
  In-insert_by_cases z x (y ∷ ys) m = ground (arith, In-insert_by_cases z x ys)

  -- Sorting keeps exactly the elements.
  pub In-sort_by : (z : A) (xs : List A) → In z xs → In z (sort_by le xs)
  unfolding sort_by
  In-sort_by z (x ∷ xs) (inl e) = rw e (In-insert_by_self x (sort_by le xs))
  In-sort_by z (x ∷ xs) (inr m) = In-insert_by_of_In z x (sort_by le xs) (In-sort_by z xs m)
  In-sort_by z [] m = absurd m

  pub In-of_In-sort_by : (z : A) (xs : List A) → In z (sort_by le xs) → In z xs
  unfolding sort_by
  In-of_In-sort_by z [] m = m
  In-of_In-sort_by z (x ∷ xs) m = elim (In-insert_by_cases z x (sort_by le xs) m) [
    | inl e ↦ inl e
    | inr n ↦ inr (In-of_In-sort_by z xs n)
  ]

module _ {A : Type 0} (same : A → A → Bool) where
  In-of_In-dedup_from : (z x : A) (xs : List A) → In z (dedup_from same x xs) → In z (x ∷ xs)
  unfolding dedup_from
  In-of_In-dedup_from z x [] m = m
  In-of_In-dedup_from z x (y ∷ ys) m = elim (Bool-cases (same x y)) [
    | inl e ↦ elim (In-of_In-dedup_from z x ys (rw (e, dedup_from) at m)) [
      | inl p ↦ inl p
      | inr n ↦ inr (inr n)
    ]
    | inr e ↦ elim (rw (e, dedup_from) at m) [
      | inl p ↦ inl p
      | inr n ↦ inr (In-of_In-dedup_from z y ys n)
    ]
  ]

  pub In-of_In-dedup_by : (z : A) (xs : List A) → In z (dedup_by same xs) → In z xs
  unfolding dedup_by
  In-of_In-dedup_by z [] m = m
  In-of_In-dedup_by z (x ∷ xs) m = In-of_In-dedup_from z x xs m

  module _ (sound : (x y : A) → same x y ≡ true → x ≡ y) where
    In-dedup_from : (z x : A) (xs : List A) → In z (x ∷ xs) → In z (dedup_from same x xs)
    unfolding dedup_from
    In-dedup_from z x [] m = m
    In-dedup_from z x (y ∷ ys) m = elim (Bool-cases (same x y)) [
      | inl e ↦
          rw (e, dedup_from)
            (In-dedup_from z x ys (elim m [
              | inl p ↦ inl p
              | inr (inl p) ↦ inl (p ∙ sym (sound x y e))
              | inr (inr n) ↦ inr n
            ]))
      | inr e ↦ rw (e, dedup_from) (elim m [ inl p ↦ inl p | inr n ↦ inr (In-dedup_from z y ys n) ])
    ]

    -- Removing neighbours that are equal keeps exactly the elements.
    pub In-dedup_by : (z : A) (xs : List A) → In z xs → In z (dedup_by same xs)
    unfolding dedup_by
    In-dedup_by z [] m = m
    In-dedup_by z (x ∷ xs) m = In-dedup_from z x xs m
