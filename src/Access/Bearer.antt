-- ===== src/Access/Bearer.antt =====
-- internal/auth/auth.go: BearerToken, on the bytes of the Authorization header. Folding the case
-- of "Bearer" meets only the ASCII letters.
use ta_platform.Prelude.{
  ℕ, ◌+◌, Bool, true, false, not, ◌&&◌, ◌||◌, Option, none, some, List, [], ◌∷◌, leb, ◌==◌,
  if◌then◌else◌,
}

abbrev pub space : ℕ
space = 32

-- strings.Cut at the first space.
abbrev pub cut_after : ℕ → Option (List ℕ × List ℕ) → Option (List ℕ × List ℕ)
cut_after b none = none
cut_after b (some (x, y)) = some (b ∷ x, y)

unfoldable pub cut : List ℕ → Option (List ℕ × List ℕ)
cut [] = none
cut (b ∷ bs) = let rest = cut bs in if b == space then some ([], bs) else cut_after b rest

abbrev pub lower : ℕ → ℕ
lower b = if leb 65 b && leb b 90 then b + 32 else b

-- strings.EqualFold with a text in lower case.
unfoldable pub equal_fold : List ℕ → List ℕ → Bool
equal_fold [] [] = true
equal_fold (b ∷ bs) (c ∷ cs) = lower b == c && equal_fold bs cs
equal_fold _ _ = false

abbrev pub bearer : List ℕ
bearer = 98 ∷ 101 ∷ 97 ∷ 114 ∷ 101 ∷ 114 ∷ []

unfoldable pub has_space : List ℕ → Bool
has_space [] = false
has_space (b ∷ bs) = b == space || has_space bs

abbrev pub is_empty : List ℕ → Bool
is_empty [] = true
is_empty (b ∷ bs) = false

abbrev pub token_of : Option (List ℕ × List ℕ) → Option (List ℕ)
token_of none = none
token_of (some (scheme, token)) =
    if not (equal_fold scheme bearer) || (is_empty token || has_space token)
    then none
    else some token

unfoldable pub bearer_token : List ℕ → Option (List ℕ)
unfolding cut equal_fold has_space
bearer_token header = token_of (cut header)
