-- ===== src/Sandbox/Paths.antt =====
-- internal/sandbox/sandbox.go: validPath, on bytes, with path.Clean of a relative path.
use ta_platform.Prelude.{
  ℕ, Bool, true, false, not, ◌&&◌, ◌||◌, Option, none, some, List, [], ◌∷◌, ◌++◌, ◌==◌, ltb, length,
  if◌then◌else◌,
}

-- The elements of a path: what stands between the slashes.
abbrev pub to_element : ℕ → List (List ℕ) → List (List ℕ)
to_element b [] = (b ∷ []) ∷ []
to_element b (e ∷ es) = (b ∷ e) ∷ es

abbrev pub slash : ℕ
slash = 47

unfoldable pub elements : List ℕ → List (List ℕ)
elements [] = [] ∷ []
elements (b ∷ bs) = let rest = elements bs in if b == 47 then [] ∷ rest else to_element b rest

unfoldable pub join_path : List (List ℕ) → List ℕ
join_path [] = []
join_path (e ∷ []) = e
join_path (e ∷ f ∷ es) = e ++ 47 ∷ join_path (f ∷ es)

unfoldable pub same_path : List ℕ → List ℕ → Bool
same_path [] [] = true
same_path (a ∷ rest) (b ∷ bs) = a == b && same_path rest bs
same_path _ _ = false

-- "." and ".."
abbrev pub is_dot : List ℕ → Bool
is_dot e = same_path e (46 ∷ [])

abbrev pub is_dots : List ℕ → Bool
is_dots e = same_path e (46 ∷ 46 ∷ [])

abbrev pub is_blank_element : List ℕ → Bool
is_blank_element [] = true
is_blank_element (b ∷ bs) = false

-- An element that is "..": it takes back the last element, unless there is none or it is "..".
abbrev pub back : List (List ℕ) → List (List ℕ)
back [] = (46 ∷ 46 ∷ []) ∷ []
back (e ∷ es) = if is_dots e then (46 ∷ 46 ∷ []) ∷ e ∷ es else es

-- The elements that Clean keeps, the last one first.
unfoldable pub kept_elements : List (List ℕ) → List (List ℕ) → List (List ℕ)
unfolding same_path
kept_elements out [] = out
kept_elements out (e ∷ es) =
    let skipped = kept_elements out es in
    let backed = kept_elements (back out) es in
    let pushed = kept_elements (e ∷ out) es in
    if is_blank_element e || is_dot e then skipped else if is_dots e then backed else pushed

unfoldable pub reversed : List (List ℕ) → List (List ℕ) → List (List ℕ)
reversed [] out = out
reversed (e ∷ es) out = reversed es (e ∷ out)

abbrev pub or_dot : List ℕ → List ℕ
or_dot [] = 46 ∷ []
or_dot (b ∷ bs) = b ∷ bs

unfoldable pub clean : List ℕ → List ℕ
unfolding elements join_path kept_elements reversed
clean name = or_dot (join_path (reversed (kept_elements [] (elements name)) []))

unfoldable pub has_byte : (ℕ → Bool) → List ℕ → Bool
has_byte test [] = false
has_byte test (b ∷ bs) = test b || has_byte test bs

abbrev pub starts_with_slash : List ℕ → Bool
starts_with_slash [] = false
starts_with_slash (b ∷ bs) = b == 47

-- strings.HasPrefix(name, "../")
abbrev pub starts_above : List ℕ → Bool
starts_above (a ∷ b ∷ c ∷ bs) = a == 46 && (b == 46 && c == 47)
starts_above _ = false

pub data PathError : Type 0 where
  bad_length not_relative not_clean forbidden_byte : PathError

-- validPath; the forbidden bytes are NUL, colon and comma.
unfoldable pub valid_path : List ℕ → Option PathError
unfolding clean same_path has_byte
valid_path name =
    if is_blank_element name || ltb 255 (length name)
    then some bad_length
    else if starts_with_slash name || has_byte (λ b. b == 92) name
    then some not_relative
    else if not (same_path (clean name) name)
        || (is_dot name || (starts_above name || is_dots name))
    then some not_clean
    else if has_byte (λ b. b == 0 || (b == 58 || b == 44)) name
    then some forbidden_byte
    else none
