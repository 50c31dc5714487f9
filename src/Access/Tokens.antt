-- ===== src/Access/Tokens.antt =====
-- internal/auth/auth.go: which headers carry a token.
use ta_platform.Prelude.{
  ℕ, ◌≡◌, refl, sym, ap, ◌↔◌, Bool, true, false, not, ◌||◌, Option, none, some, List, [], ◌∷◌, ◌++◌,
  ◌==◌, ==_iff, arith, inl, inr, Bool-cases, some_eq, All,
}
use ta_platform.Access.{
  space, cut, cut_after, equal_fold, bearer, has_space, is_empty, token_of, bearer_token,
}

no_space_parts :
    (b : ℕ) (bs : List ℕ) → has_space (b ∷ bs) ≡ false → (b == 32 ≡ false) × (has_space bs ≡ false)
unfolding has_space
no_space_parts b bs h = ground arith

cut-scheme :
    (scheme token : List ℕ)
    → has_space scheme ≡ false
    → cut (scheme ++ (space ∷ token)) ≡ some (scheme, token)
unfolding cut has_space
cut-scheme [] token h = refl
cut-scheme (b ∷ bs) token h =
    let (first, rest) = no_space_parts b bs h in rw (first, cut-scheme bs token rest) refl

cut_after-some :
    (b : ℕ) (r : Option (List ℕ × List ℕ)) (x y : List ℕ)
    → cut_after b r ≡ some (x, y)
    → (z : List ℕ) × (r ≡ some (z, y)) × (x ≡ b ∷ z)
cut_after-some b none x y h = absurd (cc)
cut_after-some b (some (z, w)) x y h =
    let eq = some_eq (b ∷ z, w) (x, y) h in
    (z, ap (λ v. some (z, v)) (ap (λ p. p.1) eq), sym (ap (λ p. p.0) eq))

cut-parts : (h x y : List ℕ) → cut h ≡ some (x, y) → h ≡ x ++ (space ∷ y)
unfolding cut
cut-parts [] x y e = absurd (cc)
cut-parts (b ∷ bs) x y e = elim (Bool-cases (b == 32)) [
  | inl at_space ↦
      let eq = some_eq ([], bs) (x, y) (rw at_space at e) in
      let first : [] ≡ x = ap (λ p. p.0) eq in
      let second : bs ≡ y = ap (λ p. p.1) eq in
      rw (← first, ← second, (==_iff b 32).0 at_space) refl
  | inr other ↦
      let (z, rest, shape) = cut_after-some b (cut bs) x y (rw other at e) in
      rw shape (ap (λ l. b ∷ l) (cut-parts bs z y rest))
]

equal_fold-no_space :
    (bs cs : List ℕ)
    → All (λ c. c == 32 ≡ false) cs
    → equal_fold bs cs ≡ true
    → has_space bs ≡ false
unfolding equal_fold has_space
equal_fold-no_space [] cs h e = refl
equal_fold-no_space (b ∷ bs) [] h e = absurd (cc)
equal_fold-no_space (b ∷ bs) (c ∷ cs) h e = ground (arith, equal_fold-no_space bs cs h.1, h.0)

-- A header that is read as a token.
abbrev pub IsBearer : List ℕ → List ℕ → Type 0
IsBearer header token =
    (scheme : List ℕ) × (header ≡ scheme ++ (space ∷ token))
    × (equal_fold scheme bearer ≡ true)
    × (is_empty token ≡ false)
    × (has_space token ≡ false)

token_of-some :
    (r : Option (List ℕ × List ℕ)) (token : List ℕ)
    → token_of r ≡ some token
    → (scheme : List ℕ) × (r ≡ some (scheme, token))
      × (equal_fold scheme bearer ≡ true)
      × (is_empty token ≡ false)
      × (has_space token ≡ false)
token_of-some none token h = absurd (cc)
token_of-some (some (scheme, t)) token h =
    elim (Bool-cases (not (equal_fold scheme bearer) || (is_empty t || has_space t))) [
      | inl refused ↦ absurd (none_some (rw refused at h))
      | inr fine ↦
          let same = some_eq t token (rw fine at h) in
          let (scheme_ok, full, one) =
            parts (equal_fold scheme bearer) (is_empty t) (has_space t) fine in
          (scheme, ap (λ v. some (scheme, v)) same, scheme_ok, rw (← same) full, rw (← same) one)
    ]
  where
    none_some : ◌≡◌ {A = Option (List ℕ)} none (some token) → ⊥
    none_some h = cc

    parts : (a b c : Bool) → not a || (b || c) ≡ false → (a ≡ true) × (b ≡ false) × (c ≡ false)
    parts true false false h = (refl, refl, refl)
    parts true false true h = absurd (cc)
    parts true true c h = absurd (cc)
    parts false b c h = absurd (cc)

-- A header carries a token exactly if it is a scheme that reads "Bearer" in any case, one space,
-- and the token, which is not empty and has no space.
pub bearer_token_lem :
    (header token : List ℕ) → bearer_token header ≡ some token ↔ IsBearer header token
unfolding bearer_token
bearer_token_lem header token = (
  λ h.
      let (scheme, shape, folded, full, one) = token_of-some (cut header) token h in
      (scheme, cut-parts header scheme token shape, folded, full, one),
  λ (scheme, shape, folded, full, one).
      let whole = cut-scheme scheme token (
        equal_fold-no_space scheme bearer (refl, (refl, (refl, (refl, (refl, (refl, tt))))))
          folded) in
      rw (shape, whole, folded, full, one) refl,
)
