-- ===== src/Gateway/Custody.antt =====
-- Where key material is, for the cache of keys under every interleaving of its callers.
use ta_platform.Prelude.Results.{ok}
use ta_platform.Prelude.{
  ℕ, ◌≤◌, ◌<◌, ◌≡◌, refl, ◌∙◌, ◌≢◌, ◌⊎◌, inl, inr, String, some, List, [], ◌∷◌, Bool-cases,
  Option-cases, ◌==◌, ==_refl, arith, All, All-map,
}
use ta_platform.Prelude.Membership.{In}
use ta_platform.Gateway.{
  Crypto, open_envelope, CachedKey, KeyHeap, write_key, zero_key, Vault, find_entry, remove_entry,
  evict, evicted,
}
use ta_platform.Gateway.Entries.{
  Apart, keys_of, IsUnique, All-remove_entry, remove_entry-IsUnique, find_entry-Apart,
  In-remove_entry,
}

-- Some stored envelope opens to these bytes for the company.
abbrev pub Opens : Crypto → String → List ℕ → Type 0
Opens c company bytes = (stored : List ℕ) × (open_envelope c company stored ≡ ok bytes)

abbrev pub Holds : Crypto → KeyHeap → String → ℕ → Type 0
Holds c h company k = (h.secret k ≡ []) ⊎ Opens c company (h.secret k)

abbrev pub Live : Crypto → KeyHeap → List (String × CachedKey) → Type 0
Live c h es = All (λ x. (x.1.key < h.next) × Opens c (x.0) (h.secret (x.1.key))) es

abbrev pub Kept : Crypto → KeyHeap → List (String × ℕ) → Type 0
Kept c h rs = All (λ x. (x.1 < h.next) × Holds c h (x.0) (x.1)) rs

abbrev pub refs_of : List (String × ℕ) → List ℕ
refs_of [] = []
refs_of ((company, k) ∷ rs) = k ∷ refs_of rs

-- Every cached key is one that its company's secret opens to, and no one else's pointer; every copy
-- handed out is such a key or has been wiped; there is no other key material.
pub record Custody (c : Crypto) (v : Vault) (loads handed : List (String × ℕ)) : Type 0 where
  pub unique : IsUnique v.entries
  pub live : Live c v.heap v.entries
  pub loaded : Kept c v.heap loads
  pub owned : Kept c v.heap handed
  pub private : All (λ x. Apart (x.1) v.entries) handed
  pub covered :
      (k : ℕ) → (v.heap.secret k ≡ []) ⊎ (In k (keys_of v.entries) ⊎ In k (refs_of handed))

module _ (c : Crypto) where
  -- A heap that agrees with another on the keys of the entries.
  pub Live-frame :
      (h h' : KeyHeap) (es : List (String × CachedKey))
      → h.next ≤ h'.next
      → All (λ x. (x.1.key < h.next) → h'.secret (x.1.key) ≡ h.secret (x.1.key)) es
      → Live c h es
      → Live c h' es
  Live-frame h h' [] n f l = tt
  Live-frame h h' ((company, e) ∷ es) n f l =
      ((omega (arith, l.0.0), rw (f.0 l.0.0) l.0.1), Live-frame h h' es n f.1 l.1)

  -- A heap that agrees with another on a key, or where the key is wiped.
  pub Holds-frame :
      (h h' : KeyHeap) (company : String) (k : ℕ)
      → (h'.secret k ≡ []) ⊎ (h'.secret k ≡ h.secret k)
      → Holds c h company k
      → Holds c h' company k
  Holds-frame h h' company k (inl e) p = inl e
  Holds-frame h h' company k (inr e) (inl p) = inl (e ∙ p)
  Holds-frame h h' company k (inr e) (inr p) = inr (rw e p)

  pub Kept-frame :
      (h h' : KeyHeap) (rs : List (String × ℕ))
      → h.next ≤ h'.next
      → ((k : ℕ) → k < h.next → (h'.secret k ≡ []) ⊎ (h'.secret k ≡ h.secret k))
      → Kept c h rs
      → Kept c h' rs
  Kept-frame h h' [] n f l = tt
  Kept-frame h h' ((company, k) ∷ rs) n f l = (
    (omega (arith, l.0.0), Holds-frame h h' company k (f k l.0.0) l.0.1),
    Kept-frame h h' rs n f l.1,
  )

  -- A new key is not one of those there are.
  pub Live-Apart :
      (h : KeyHeap) (es : List (String × CachedKey)) (k : ℕ) → h.next ≤ k → Live c h es → Apart k es
  Live-Apart h es k n l = All-map (λ x p q. omega (arith, p.0, n, q)) es l

-- Overwriting a key.
pub zero_key_cases :
    (h : KeyHeap) (k r : ℕ)
    → ((zero_key (some k) h).secret r ≡ []) ⊎ ((zero_key (some k) h).secret r ≡ h.secret r)
unfolding zero_key
zero_key_cases h k r = elim (Bool-cases (r == k)) [
  | inl e ↦ inl (rw e refl)
  | inr e ↦ inr (rw e refl)
]

write_key_other :
    (h : KeyHeap) (k r : ℕ) (b : List ℕ) → k ≢ r → (write_key k b h).secret r ≡ h.secret r
write_key_other h k r b n = ground arith

pub zero_key_self : (h : KeyHeap) (k : ℕ) → (zero_key (some k) h).secret k ≡ []
unfolding zero_key
zero_key_self h k = rw (==_refl k) refl

pub zero_key_other : (h : KeyHeap) (k r : ℕ) → k ≢ r → (zero_key (some k) h).secret r ≡ h.secret r
unfolding zero_key
zero_key_other h k r n = write_key_other h k r [] n

module _ (c : Crypto) where
  -- Evicting a company wipes its key and leaves the other keys.
  pub Live-zero_key :
      (h : KeyHeap) (k : ℕ) (es : List (String × CachedKey))
      → Apart k es
      → Live c h es
      → Live c (zero_key (some k) h) es
  unfolding zero_key
  Live-zero_key h k es a l =
      Live-frame c h (zero_key (some k) h) es (omega arith)
        (All-map (λ x n p. write_key_other h k (x.1.key) [] n) es a) l

  pub Kept-zero_key :
      (h : KeyHeap) (k : ℕ) (rs : List (String × ℕ)) → Kept c h rs → Kept c (zero_key (some k) h) rs
  unfolding zero_key
  Kept-zero_key h k rs l =
      Kept-frame c h (zero_key (some k) h) rs (omega arith) (λ r p. zero_key_cases h k r) l

  evicted-Custody :
      (v : Vault) (loads handed : List (String × ℕ)) (company : String) (e : CachedKey)
      → find_entry company v.entries ≡ some e
      → Custody c v loads handed
      → Custody c (evicted company v (some e)) loads handed
  evicted-Custody v loads handed company e f s = record {
    unique = remove_entry-IsUnique company v.entries s.unique;
    live =
        Live-zero_key v.heap (e.key) (remove_entry company v.entries)
          (find_entry-Apart company v.entries e s.unique f)
          (All-remove_entry (λ x. (x.1.key < v.heap.next) × Opens c (x.0) (v.heap.secret (x.1.key)))
            company v.entries s.live);
    loaded = Kept-zero_key v.heap (e.key) loads s.loaded;
    owned = Kept-zero_key v.heap (e.key) handed s.owned;
    private =
        All-map (λ x a. All-remove_entry (λ y. (x.1) ≢ y.1.key) company v.entries a) handed
          s.private;
    covered = λ k. cover k (zero_key_cases v.heap (e.key) k) (s.covered k);
  }
    where
      kept :
          (k : ℕ)
          → (zero_key (some (e.key)) v.heap).secret k ≡ v.heap.secret k
          → (k ≡ e.key) ⊎ In k (keys_of (remove_entry company v.entries))
          → ((zero_key (some (e.key)) v.heap).secret k ≡ [])
            ⊎ (In k (keys_of (remove_entry company v.entries)) ⊎ In k (refs_of handed))
      kept k q (inl p) = inl (rw p (zero_key_self v.heap (e.key)))
      kept k q (inr m) = inr (inl m)

      cover :
          (k : ℕ)
          → ((zero_key (some (e.key)) v.heap).secret k ≡ [])
            ⊎ ((zero_key (some (e.key)) v.heap).secret k ≡ v.heap.secret k)
          → (v.heap.secret k ≡ []) ⊎ (In k (keys_of v.entries) ⊎ In k (refs_of handed))
          → ((zero_key (some (e.key)) v.heap).secret k ≡ [])
            ⊎ (In k (keys_of (remove_entry company v.entries)) ⊎ In k (refs_of handed))
      cover k (inl z) h = inl z
      cover k (inr q) (inl z) = inl (q ∙ z)
      cover k (inr q) (inr (inr m)) = inr (inr m)
      cover k (inr q) (inr (inl m)) = kept k q (In-remove_entry company v.entries e k s.unique f m)

  pub evict-Custody :
      (v : Vault) (loads handed : List (String × ℕ)) (company : String)
      → Custody c v loads handed
      → Custody c (evict company v) loads handed
  unfolding evict
  evict-Custody v loads handed company s = elim (Option-cases (find_entry company v.entries)) [
    | inl f ↦ rw f s
    | inr (e, f) ↦ rw f (evicted-Custody v loads handed company e f s)
  ]
