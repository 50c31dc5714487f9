-- ===== src/Gateway/Entries.antt =====
-- The cache of keys as a list: its entries have companies and keys of their own, and what the eviction
-- of one leaves of the others.
use ta_platform.Prelude.{
  ℕ, ◌≡◌, refl, sym, ◌∙◌, ap, ◌≢◌, ◌⊎◌, inl, inr, String, true, false, none, some, List, [], ◌∷◌,
  str_eq, eq_iff, Bool-cases, All, some_eq,
}
use ta_platform.Prelude.Membership.{In}
use ta_platform.Gateway.{CachedKey, find_entry, remove_entry}

pub same_company : (a b : String) → str_eq a b ≡ true → a ≡ b
same_company a b h = (eq_iff a b).0 h

-- No entry of the list has the key, or the company.
abbrev pub Apart : ℕ → List (String × CachedKey) → Type 0
Apart k es = All (λ x. k ≢ x.1.key) es

abbrev pub Elsewhere : String → List (String × CachedKey) → Type 0
Elsewhere company es = All (λ x. str_eq company x.0 ≡ false) es

abbrev pub keys_of : List (String × CachedKey) → List ℕ
keys_of [] = []
keys_of ((c, e) ∷ es) = e.key ∷ keys_of es

-- Each entry has a company and a key of its own.
abbrev pub IsUnique : List (String × CachedKey) → Type 0
IsUnique [] = Unit
IsUnique ((c, e) ∷ es) = Elsewhere c es × Apart (e.key) es × IsUnique es

pub All-remove_entry :
    (P : String × CachedKey → Type 0) (company : String) (es : List (String × CachedKey))
    → All P es
    → All P (remove_entry company es)
unfolding remove_entry
All-remove_entry P company [] h = tt
All-remove_entry P company ((c, e) ∷ es) h = elim (Bool-cases (str_eq company c)) [
  | inl p ↦ rw p (All-remove_entry P company es h.1)
  | inr p ↦ rw p (h.0, All-remove_entry P company es h.1)
]

pub remove_entry-Elsewhere :
    (company : String) (es : List (String × CachedKey))
    → Elsewhere company (remove_entry company es)
unfolding remove_entry
remove_entry-Elsewhere company [] = tt
remove_entry-Elsewhere company ((c, e) ∷ es) = elim (Bool-cases (str_eq company c)) [
  | inl p ↦ rw p (remove_entry-Elsewhere company es)
  | inr p ↦ rw p (p, remove_entry-Elsewhere company es)
]

pub remove_entry_absent :
    (company : String) (es : List (String × CachedKey))
    → Elsewhere company es
    → remove_entry company es ≡ es
unfolding remove_entry
remove_entry_absent company [] h = refl
remove_entry_absent company ((c, e) ∷ es) h = rw (h.0, remove_entry_absent company es h.1) refl

pub remove_entry-IsUnique :
    (company : String) (es : List (String × CachedKey))
    → IsUnique es
    → IsUnique (remove_entry company es)
unfolding remove_entry
remove_entry-IsUnique company [] h = tt
remove_entry-IsUnique company ((c, e) ∷ es) h = elim (Bool-cases (str_eq company c)) [
  | inl p ↦ rw p (remove_entry-IsUnique company es h.2)
  | inr p ↦ rw p (
    All-remove_entry (λ x. str_eq c x.0 ≡ false) company es h.0,
    All-remove_entry (λ x. (e.key) ≢ x.1.key) company es h.1,
    remove_entry-IsUnique company es h.2,
  )
]

-- The list is the same with the keys of its entries, whatever else they hold.
pub find_entry_All :
    (P : String × CachedKey → Type 0) (company : String) (es : List (String × CachedKey))
    (e : CachedKey)
    → All P es
    → find_entry company es ≡ some e
    → P (company, e)
unfolding find_entry
find_entry_All P company [] e h f = absurd (none_some e f)
  where
    none_some : (e : CachedKey) → none ≢ some e
    none_some e f = cc
find_entry_All P company ((c, x) ∷ es) e h f = elim (Bool-cases (str_eq company c)) [
  | inl p ↦ let q : x ≡ e = some_eq x e (rw p at f) in rw (same_company company c p, sym q) h.0
  | inr p ↦ find_entry_All P company es e h.1 (rw p at f)
]

-- The found entry is the one that is removed.
pub find_entry-Apart :
    (company : String) (es : List (String × CachedKey)) (e : CachedKey)
    → IsUnique es
    → find_entry company es ≡ some e
    → Apart (e.key) (remove_entry company es)
unfolding find_entry remove_entry
find_entry-Apart company [] e u f = tt
find_entry-Apart company ((c, x) ∷ es) e u f = elim (Bool-cases (str_eq company c)) [
  | inl p ↦
      let q : x ≡ e = some_eq x e (rw p at f) in
      rw (p, sym q) (All-remove_entry (λ y. (x.key) ≢ y.1.key) company es u.1)
  | inr p ↦
      let g : find_entry company es ≡ some e = rw p at f in
      rw p (
        λ q. find_entry_All (λ y. (x.key) ≢ y.1.key) company es e u.1 g (sym q),
        find_entry-Apart company es e u.2 g,
      )
]

pub In-remove_entry :
    (company : String) (es : List (String × CachedKey)) (e : CachedKey) (k : ℕ)
    → IsUnique es
    → find_entry company es ≡ some e
    → In k (keys_of es)
    → (k ≡ e.key) ⊎ In k (keys_of (remove_entry company es))
unfolding find_entry remove_entry
In-remove_entry company [] e k u f m = absurd m
In-remove_entry company ((c, x) ∷ es) e k u f m = elim (Bool-cases (str_eq company c)) [
  | inl p ↦
      let q : x ≡ e = some_eq x e (rw p at f) in
      let gone : Elsewhere company es = rw (same_company company c p) u.0 in
      rw (p, remove_entry_absent company es gone)
        (elim m [ inl r ↦ inl (r ∙ ap (λ y. y.key) q) | inr r ↦ inr r ])
  | inr p ↦ rw p (elim m [
    | inl r ↦ inr (inl r)
    | inr r ↦ elim (In-remove_entry company es e k u.2 (rw p at f) r) [
      | inl q ↦ inl q
      | inr q ↦ inr (inr q)
    ]
  ])
]

pub find_entry-none :
    (company : String) (es : List (String × CachedKey))
    → find_entry company es ≡ none
    → Elsewhere company es
unfolding find_entry
find_entry-none company [] f = tt
find_entry-none company ((c, x) ∷ es) f = elim (Bool-cases (str_eq company c)) [
  | inl p ↦ absurd (some_none x (rw p at f))
  | inr p ↦ (p, find_entry-none company es (rw p at f))
]
  where
    some_none : (x : CachedKey) → some x ≢ none
    some_none x f = cc
