-- ===== src/Sandbox/Inside.antt =====
-- What a valid path and a normalized specification are.
use mathlib.Core.Path.{subst}
use ta_platform.Prelude.{
  ℕ, ◌≡◌, refl, sym, ◌∙◌, ap, ◌≢◌, ◌⊎◌, inl, inr, Bool, true, false, not, ◌||◌, none, some, List,
  [], ◌∷◌, ◌==◌, ltb, Bool-cases, All, All-map, length,
}
use ta_platform.Sandbox.{
  elements, join_path, same_path, is_dot, is_dots, is_blank_element, starts_with_slash,
  starts_above, has_byte, clean, kept_elements, reversed, or_dot, valid_path, PathError, bad_length,
  not_relative, not_clean,
}
use ta_platform.Sandbox.Elements.{
  IsNormal, IsFront, NoSlash, same_path-eq, elements-join_path, reversed-kept_elements-IsFront,
}

some_path_error : (e : PathError) → some e ≢ none
some_path_error e h = cc

pub split_or : (x y : Bool) → (x || y) ≡ false → (x ≡ false) × (y ≡ false)
split_or true y h = cc
split_or false y h = (refl, h)

pub not-false : (x : Bool) → not x ≡ false → x ≡ true
not-false true h = refl
not-false false h = cc

-- The tests of a clean path.
valid_path-tests :
    (name : List ℕ)
    → valid_path name ≡ none
    → (same_path (clean name) name ≡ true)
      × (is_dot name ≡ false)
      × (starts_above name ≡ false)
      × (is_dots name ≡ false)
unfolding valid_path
valid_path-tests name h = elim (Bool-cases (is_blank_element name || ltb 255 (length name))) [
  | inl p ↦ absurd (some_path_error bad_length (rw p at h))
  | inr p ↦ elim (Bool-cases (starts_with_slash name || has_byte (λ b. b == 92) name)) [
    | inl q ↦ absurd (some_path_error not_relative (rw (p, q) at h))
    | inr q ↦
        elim (Bool-cases (
          not (same_path (clean name) name)
          || (is_dot name || (starts_above name || is_dots name)))) [
            | inl r ↦ absurd (some_path_error not_clean (rw (p, q, r) at h))
            | inr r ↦
                let (a, b) =
                  split_or (not (same_path (clean name) name))
                    (is_dot name || (starts_above name || is_dots name)) r in
                let (d, e) = split_or (is_dot name) (starts_above name || is_dots name) b in
                let (f, g) = split_or (starts_above name) (is_dots name) e in
                (not-false (same_path (clean name) name) a, d, f, g)
          ]
  ]
]

-- The joined elements are not empty.
or_dot-join_path :
    (e : List ℕ) (es : List (List ℕ))
    → is_blank_element e ≡ false
    → or_dot (join_path (e ∷ es)) ≡ join_path (e ∷ es)
unfolding join_path
or_dot-join_path [] es h = cc
or_dot-join_path (b ∷ e) [] h = refl
or_dot-join_path (b ∷ e) (f ∷ es) h = refl

-- A path that begins with ".." is above its root.
dots_above :
    (e : List ℕ) (es : List (List ℕ))
    → is_dots e ≡ true
    → (is_dots (join_path (e ∷ es)) ≡ true) ⊎ (starts_above (join_path (e ∷ es)) ≡ true)
unfolding join_path same_path
dots_above e [] h = inl h
dots_above e (f ∷ es) h = inr (rw (same_path-eq e (46 ∷ 46 ∷ []) h) refl)

front-IsNormal :
    (name : List ℕ) (front : List (List ℕ))
    → IsFront front
    → or_dot (join_path front) ≡ name
    → is_dot name ≡ false
    → starts_above name ≡ false
    → is_dots name ≡ false
    → All IsNormal (elements name)
unfolding same_path join_path
front-IsNormal name [] f e d a u = absurd (clash (ap is_dot e ∙ d))
  where
    clash : true ≢ false
    clash h = cc
front-IsNormal name (x ∷ xs) (inr (n, ns)) e d a u =
    let same : join_path (x ∷ xs) ≡ name = sym (or_dot-join_path x xs n.0.1) ∙ e in
    let slashes : All NoSlash (x ∷ xs) = (n.0.0, All-map (λ y k. k.0.0) xs ns) in
    subst (All IsNormal) (sym (elements-join_path x xs slashes) ∙ ap elements same) (n, ns)
front-IsNormal name (x ∷ xs) (inl (k, f)) e d a u =
    let same : join_path (x ∷ xs) ≡ name = sym (or_dot-join_path x xs k.0.1) ∙ e in
    absurd (elim (dots_above x xs k.1) [
      | inl p ↦ clash (sym p ∙ ap is_dots same ∙ u)
      | inr p ↦ clash (sym p ∙ ap starts_above same ∙ a)
    ])
  where
    clash : true ≢ false
    clash h = cc

-- A path that ValidatePath accepts stays inside the workspace: between its slashes there is no empty
-- element, no "." and no "..".
pub valid_path-IsNormal : (name : List ℕ) → valid_path name ≡ none → All IsNormal (elements name)
unfolding clean
valid_path-IsNormal name h =
    let (same, d, a, u) = valid_path-tests name h in
    front-IsNormal name (reversed (kept_elements [] (elements name)) [])
      (reversed-kept_elements-IsFront name) (same_path-eq (clean name) name same) d a u
