-- ===== src/Prelude/Membership.antt =====
-- Membership by recursion, and strictly ordered lists, which their members determine.
use mathlib.Core.Path.{◌≡◌, refl, sym, ◌∙◌, ap₂, subst}
use mathlib.Core.Logic.{◌⊎◌, inl, inr}
use mathlib.Core.Bool.{Bool}
use mathlib.Core.List.{List, [], ◌∷◌}
use native.Mathlib.Omega.{arith}
use ta_platform.Prelude.Tests.{Bool-cases}
use ta_platform.Prelude.Lists.{All}
use ta_platform.Prelude.Sorting.{insert_sorted, sort_stable}
use ta_platform.Prelude.Int.{ℤ, ◌<ℤ◌}

abbrev pub In : {A : Type 0} → A → List A → Type 0
In a [] = ⊥
In a (x ∷ xs) = (a ≡ x) ⊎ In a xs

module _ {A : Type 0} where
  pub All-In : (P : A → Type 0) (xs : List A) {a : A} → All P xs → In a xs → P a
  All-In P [] h m = absurd m
  All-In P (x ∷ xs) h (inl e) = subst P (sym e) h.0
  All-In P (x ∷ xs) h (inr m) = All-In P xs h.1 m

  pub In-All : (P : A → Type 0) (xs : List A) → ((a : A) → In a xs → P a) → All P xs
  In-All P [] h = tt
  In-All P (x ∷ xs) h = (h x (inl refl), In-All P xs (λ a m. h a (inr m)))

  -- Two lists with the same members.
  abbrev pub SameMembers : List A → List A → Type 0
  SameMembers xs ys = (a : A) → (In a xs → In a ys) × (In a ys → In a xs)

  -- A member of the tail or the new head, with another head put between.
  under : (a x y : A) (ys : List A) → In a (x ∷ ys) → In a (x ∷ y ∷ ys)
  under a x y ys (inl p) = inl p
  under a x y ys (inr q) = inr (inr q)

  In-cons : (a x : A) (xs ys : List A) → (In a xs → In a ys) → In a (x ∷ xs) → In a (x ∷ ys)
  In-cons a x xs ys f (inl p) = inl p
  In-cons a x xs ys f (inr q) = inr (f q)

module _ {A : Type 0} (less : A → A → Bool) where
  pub insert_sorted-In : (x a : A) (ys : List A) → In a (insert_sorted less x ys) → In a (x ∷ ys)
  unfolding insert_sorted
  insert_sorted-In x a [] m = m
  insert_sorted-In x a (y ∷ ys) m = elim (Bool-cases (less y x)) [
    | inl e ↦
        let m' : (a ≡ y) ⊎ In a (insert_sorted less x ys) = rw e at m in
        elim m' [ inl p ↦ inr (inl p) | inr q ↦ under a x y ys (insert_sorted-In x a ys q) ]
    | inr e ↦ rw e at m
  ]

  pub In-insert_sorted : (x a : A) (ys : List A) → In a (x ∷ ys) → In a (insert_sorted less x ys)
  unfolding insert_sorted
  In-insert_sorted x a [] m = m
  In-insert_sorted x a (y ∷ ys) m = elim (Bool-cases (less y x)) [
    | inl e ↦ rw e (elim m [
      | inl p ↦ inr (In-insert_sorted x a ys (inl p))
      | inr (inl p) ↦ inl p
      | inr (inr q) ↦ inr (In-insert_sorted x a ys (inr q))
    ])
    | inr e ↦ rw e m
  ]

  -- Sorting keeps the members.
  pub sort_stable-SameMembers : (xs : List A) → SameMembers (sort_stable less xs) xs
  unfolding sort_stable
  sort_stable-SameMembers [] a = (λ m. m, λ m. m)
  sort_stable-SameMembers (x ∷ xs) a =
      let (down, up) = sort_stable-SameMembers xs a in
      (
        λ m.
            In-cons a x (sort_stable less xs) xs down
              (insert_sorted-In x a (sort_stable less xs) m),
        λ m. In-insert_sorted x a (sort_stable less xs) (In-cons a x xs (sort_stable less xs) up m),
      )

-- Lists that are strictly ordered by a key.
module _ {A : Type 0} (key : A → ℤ) where
  abbrev pub IsStrict : List A → Type 0
  IsStrict [] = Unit
  IsStrict (x ∷ xs) = All (λ y. key x <ℤ key y) xs × IsStrict xs

  above : (x : A) (xs : List A) → IsStrict (x ∷ xs) → (a : A) → In a xs → key x <ℤ key a
  above x xs h a m = All-In (λ y. key x <ℤ key y) xs h.0 m

  -- The heads of two such lists with the same members are equal.
  heads :
      (x y : A) (xs ys : List A)
      → IsStrict (x ∷ xs)
      → IsStrict (y ∷ ys)
      → In x (y ∷ ys)
      → In y (x ∷ xs)
      → x ≡ y
  heads x y xs ys h k (inl p) n = p
  heads x y xs ys h k (inr m) (inl q) = sym q
  heads x y xs ys h k (inr m) (inr n) = absurd (omega (arith, above y ys k x m, above x xs h y n))

  -- A member of the tail is a member of the other tail.
  tails :
      (x y : A) (xs ys : List A)
      → IsStrict (x ∷ xs)
      → x ≡ y
      → (a : A) → In a xs
      → In a (y ∷ ys)
      → In a ys
  tails x y xs ys h e a m (inr n) = n
  tails x y xs ys h e a m (inl p) =
      absurd (not_below (key x) (subst (λ t. key x <ℤ key t) (p ∙ sym e) (above x xs h a m)))
    where
      not_below : (n : ℤ) → n <ℤ n → ⊥
      not_below n h = omega arith

  -- A strictly ordered list is determined by its members.
  pub IsStrict-ext : (xs ys : List A) → IsStrict xs → IsStrict ys → SameMembers xs ys → xs ≡ ys
  IsStrict-ext [] [] h k s = refl
  IsStrict-ext [] (y ∷ ys) h k s = absurd ((s y).1 (inl refl))
  IsStrict-ext (x ∷ xs) [] h k s = absurd ((s x).0 (inl refl))
  IsStrict-ext (x ∷ xs) (y ∷ ys) h k s =
      let e = heads x y xs ys h k ((s x).0 (inl refl)) ((s y).1 (inl refl)) in
      ap₂ (λ a l. a ∷ l) e
        (IsStrict-ext xs ys h.1 k.1 (λ a. (
          λ m. tails x y xs ys h e a m ((s a).0 (inr m)),
          λ m. tails y x ys xs k (sym e) a m ((s a).1 (inr m)),
        )))
