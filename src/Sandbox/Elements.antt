-- ===== src/Sandbox/Elements.antt =====
-- The elements of a path, and what path.Clean keeps of them.
use ta_platform.Prelude.{
  ℕ, ◌≡◌, refl, ◌∙◌, ap, ◌≢◌, ◌⊎◌, inl, inr, Bool, true, false, ◌||◌, List, [], ◌∷◌, ◌++◌, ◌==◌,
  ==_iff, Bool-cases, All,
}
use ta_platform.Sandbox.{
  to_element, elements, join_path, same_path, is_dot, is_dots, is_blank_element, back,
  kept_elements, reversed, has_byte,
}

pub same_path-eq : (a b : List ℕ) → same_path a b ≡ true → a ≡ b
unfolding same_path
same_path-eq [] [] h = refl
same_path-eq [] (b ∷ bs) h = cc
same_path-eq (a ∷ rest) [] h = cc
same_path-eq (a ∷ rest) (b ∷ bs) h = elim (Bool-cases (a == b)) [
  | inl p ↦ rw ((==_iff a b).0 p, same_path-eq rest bs (rw p at h)) refl
  | inr p ↦ cc
]

-- An element has no slash.
abbrev pub NoSlash : List ℕ → Type 0
NoSlash e = has_byte (λ b. b == 47) e ≡ false

head_of : List (List ℕ) → List ℕ
head_of [] = []
head_of (e ∷ es) = e

pub elements-NoSlash : (bs : List ℕ) → All NoSlash (elements bs)
unfolding elements has_byte
elements-NoSlash [] = (refl, tt)
elements-NoSlash (b ∷ bs) = elim (Bool-cases (b == 47)) [
  | inl p ↦ rw p (refl, elements-NoSlash bs)
  | inr p ↦ rw p (joined b p (elements bs) (elements-NoSlash bs))
]
  where
    joined :
        (b : ℕ)
        → (b == 47) ≡ false
        → (es : List (List ℕ)) → All NoSlash es
        → All NoSlash (to_element b es)
    joined b p [] h = (rw p refl, tt)
    joined b p (e ∷ es) h = (rw p h.0, h.1)

-- A path of elements without slashes has these elements.
elements-append : (e rest : List ℕ) → NoSlash e → elements (e ++ 47 ∷ rest) ≡ e ∷ elements rest
unfolding elements has_byte
elements-append [] rest h = refl
elements-append (b ∷ e) rest h = elim (Bool-cases (b == 47)) [
  | inl p ↦ absurd (clash (rw p at h))
  | inr p ↦ rw (p, elements-append e rest (rw p at h)) refl
]
  where
    clash : true ≢ false
    clash h = cc

elements-single : (e : List ℕ) → NoSlash e → elements e ≡ e ∷ []
unfolding elements has_byte
elements-single [] h = refl
elements-single (b ∷ e) h = elim (Bool-cases (b == 47)) [
  | inl p ↦ absurd (clash (rw p at h))
  | inr p ↦ rw (p, elements-single e (rw p at h)) refl
]
  where
    clash : true ≢ false
    clash h = cc

pub elements-join_path :
    (e : List ℕ) (es : List (List ℕ))
    → All NoSlash (e ∷ es)
    → elements (join_path (e ∷ es)) ≡ e ∷ es
unfolding join_path
elements-join_path e [] h = elements-single e h.0
elements-join_path e (f ∷ es) h =
    elements-append e (join_path (f ∷ es)) h.0 ∙ ap (λ l. e ∷ l) (elements-join_path f es h.1)

-- An element that Clean keeps.
abbrev pub IsKept : List ℕ → Type 0
IsKept e = NoSlash e × (is_blank_element e ≡ false) × (is_dot e ≡ false)

abbrev pub IsNormal : List ℕ → Type 0
IsNormal e = IsKept e × (is_dots e ≡ false)

abbrev pub IsDots : List ℕ → Type 0
IsDots e = IsKept e × (is_dots e ≡ true)

-- What is kept, the last first: normal elements over "..".
abbrev IsStack : List (List ℕ) → Type 0
IsStack [] = Unit
IsStack (e ∷ es) = (IsNormal e × IsStack es) ⊎ (IsDots e × All IsDots es)

-- In order: ".." before normal elements.
abbrev pub IsFront : List (List ℕ) → Type 0
IsFront [] = Unit
IsFront (e ∷ es) = (IsDots e × IsFront es) ⊎ (IsNormal e × All IsNormal es)

IsDots-IsDots : IsDots (46 ∷ 46 ∷ [])
unfolding has_byte same_path
IsDots-IsDots = ((refl, refl, refl), refl)

back-IsStack : (out : List (List ℕ)) → IsStack out → IsStack (back out)
back-IsStack [] h = inr (IsDots-IsDots, tt)
back-IsStack (e ∷ es) (inl (n, s)) = rw (n.1) s
back-IsStack (e ∷ es) (inr (d, s)) = rw (d.1) (inr (IsDots-IsDots, (d, s)))

kept_elements-IsStack :
    (out es : List (List ℕ)) → IsStack out → All NoSlash es → IsStack (kept_elements out es)
unfolding kept_elements
kept_elements-IsStack out [] s h = s
kept_elements-IsStack out (e ∷ es) s h = elim (Bool-cases (is_blank_element e || is_dot e)) [
  | inl p ↦ rw p (kept_elements-IsStack out es s h.1)
  | inr p ↦ elim (Bool-cases (is_dots e)) [
    | inl q ↦ rw (p, q) (kept_elements-IsStack (back out) es (back-IsStack out s) h.1)
    | inr q ↦
        let (a, b) = neither (is_blank_element e) (is_dot e) p in
        rw (p, q) (kept_elements-IsStack (e ∷ out) es (inl (((h.0, a, b), q), s)) h.1)
  ]
]
  where
    neither : (x y : Bool) → (x || y) ≡ false → (x ≡ false) × (y ≡ false)
    neither true y h = cc
    neither false y h = (refl, h)

All-IsFront : (es : List (List ℕ)) → All IsNormal es → IsFront es
All-IsFront [] h = tt
All-IsFront (e ∷ es) h = inr (h.0, h.1)

dots-IsFront : (es out : List (List ℕ)) → All IsDots es → IsFront out → IsFront (reversed es out)
unfolding reversed
dots-IsFront [] out h k = k
dots-IsFront (e ∷ es) out h k = dots-IsFront es (e ∷ out) h.1 (inl (h.0, k))

reversed-IsFront :
    (es out : List (List ℕ)) → IsStack es → All IsNormal out → IsFront (reversed es out)
unfolding reversed
reversed-IsFront [] out s k = All-IsFront out k
reversed-IsFront (e ∷ es) out (inl (n, s)) k = reversed-IsFront es (e ∷ out) s (n, k)
reversed-IsFront (e ∷ es) out (inr (d, s)) k =
    dots-IsFront es (e ∷ out) s (inl (d, All-IsFront out k))

-- What Clean keeps of a path, in order.
pub reversed-kept_elements-IsFront :
    (name : List ℕ) → IsFront (reversed (kept_elements [] (elements name)) [])
reversed-kept_elements-IsFront name =
    reversed-IsFront (kept_elements [] (elements name)) []
      (kept_elements-IsStack [] (elements name) tt (elements-NoSlash name)) tt
