-- ===== src/Gateway/Loading.antt =====
-- The keys of the cache: copying one, evicting, marking, and installing a loaded one.
use ta_platform.Prelude.{
  ℕ, ◌<◌, ◌≡◌, refl, ◌∙◌, ◌≢◌, inl, inr, String, Bool, false, some, List, [], ◌∷◌, Bool-cases,
  Option-cases, ◌==◌, arith, All, All-map, ℤ, ◌+ℤ◌, str_eq,
}
use ta_platform.Gateway.{
  Crypto, CachedKey, zero_key, new_key, clone, Vault, VaultConfig, find_entry, remove_entry, evict,
  evict_all, mark_entries, mark_checked, old_key, installed,
}
use ta_platform.Gateway.Entries.{
  keys_of, IsUnique, remove_entry-Elsewhere, remove_entry_absent, find_entry_All, find_entry-none,
}
use ta_platform.Gateway.Custody.{Opens, Custody, evict-Custody, zero_key_other}
use ta_platform.Gateway.Handing.{new_key-Custody, put-Custody, new_key_self}

-- Evicting, as one expression.
pub evict_eq :
    (company : String) (v : Vault)
    → evict company v ≡ record {
      heap = zero_key (old_key (find_entry company v.entries)) v.heap;
      entries = remove_entry company v.entries;
    }
unfolding evict zero_key
evict_eq company v = elim (Option-cases (find_entry company v.entries)) [
  | inl f ↦ rw (f, remove_entry_absent company v.entries (find_entry-none company v.entries f)) refl
  | inr (e, f) ↦ rw f refl
]

module _ (c : Crypto) where
  -- What is cached for a company is what its secret opens to.
  cached-Opens :
      (v : Vault) (loads handed : List (String × ℕ)) (company : String) (e : CachedKey)
      → find_entry company v.entries ≡ some e
      → Custody c v loads handed
      → (e.key < v.heap.next) × Opens c company (v.heap.secret (e.key))
  cached-Opens v loads handed company e f s =
      find_entry_All (λ x. (x.1.key < v.heap.next) × Opens c (x.0) (v.heap.secret (x.1.key)))
        company v.entries e s.live f

  -- A copy of the cached key.
  pub clone-Custody :
      (v : Vault) (loads handed : List (String × ℕ)) (company : String) (e : CachedKey)
      → find_entry company v.entries ≡ some e
      → Custody c v loads handed
      → Custody c
          (record v { heap = (clone (e.key) v.heap).0 })
          loads
          ((company, v.heap.next) ∷ handed)
  unfolding clone
  clone-Custody v loads handed company e f s =
      new_key-Custody c v loads handed company (v.heap.secret (e.key))
        (inr (cached-Opens v loads handed company e f s).1) s

  pub evict_all-Custody :
      (test : CachedKey → Bool) (es : List (String × CachedKey)) (v : Vault)
      (loads handed : List (String × ℕ))
      → Custody c v loads handed
      → Custody c (evict_all test es v).0 loads handed
  unfolding evict_all
  evict_all-Custody test [] v loads handed s = s
  evict_all-Custody test ((company, e) ∷ es) v loads handed s = elim (Bool-cases (test e)) [
    | inl p ↦ rw p (
        evict_all-Custody test es (evict company v) loads handed
          (evict-Custody c v loads handed company s))
    | inr p ↦ rw p (evict_all-Custody test es v loads handed s)
  ]

  -- Marking an entry as checked changes no key and no company.
  mark_entries-All :
      (P : String → ℕ → Type 0) (key : ℕ) (now : ℤ) (es : List (String × CachedKey))
      → All (λ x. P (x.0) (x.1.key)) es
      → All (λ x. P (x.0) (x.1.key)) (mark_entries key now es)
  unfolding mark_entries
  mark_entries-All P key now [] h = tt
  mark_entries-All P key now ((company, e) ∷ es) h = elim (Bool-cases (e.key == key)) [
    | inl p ↦ rw p (h.0, mark_entries-All P key now es h.1)
    | inr p ↦ rw p (h.0, mark_entries-All P key now es h.1)
  ]

  mark_entries-keys_of :
      (key : ℕ) (now : ℤ) (es : List (String × CachedKey))
      → keys_of (mark_entries key now es) ≡ keys_of es
  unfolding mark_entries
  mark_entries-keys_of key now [] = refl
  mark_entries-keys_of key now ((company, e) ∷ es) = elim (Bool-cases (e.key == key)) [
    | inl p ↦ rw (p, mark_entries-keys_of key now es) refl
    | inr p ↦ rw (p, mark_entries-keys_of key now es) refl
  ]

  mark_entries-IsUnique :
      (key : ℕ) (now : ℤ) (es : List (String × CachedKey))
      → IsUnique es
      → IsUnique (mark_entries key now es)
  unfolding mark_entries
  mark_entries-IsUnique key now [] h = tt
  mark_entries-IsUnique key now ((company, e) ∷ es) h =
      let others = mark_entries-All (λ d k. str_eq company d ≡ false) key now es h.0 in
      let apart = mark_entries-All (λ d k. (e.key) ≢ k) key now es h.1 in
      elim (Bool-cases (e.key == key)) [
        | inl p ↦ rw p (others, apart, mark_entries-IsUnique key now es h.2)
        | inr p ↦ rw p (others, apart, mark_entries-IsUnique key now es h.2)
      ]

  pub mark_checked-Custody :
      (v : Vault) (loads handed : List (String × ℕ)) (cached : CachedKey) (now : ℤ)
      → Custody c v loads handed
      → Custody c (mark_checked cached now v) loads handed
  unfolding mark_checked
  mark_checked-Custody v loads handed cached now s = record {
    unique = mark_entries-IsUnique cached.key now v.entries s.unique;
    live =
        mark_entries-All (λ d k. (k < v.heap.next) × Opens c d (v.heap.secret k)) cached.key now
          v.entries s.live;
    loaded = s.loaded;
    owned = s.owned;
    private =
        All-map (λ x a. mark_entries-All (λ d k. (x.1) ≢ k) cached.key now v.entries a) handed
          s.private;
    covered = λ k. rw (mark_entries-keys_of cached.key now v.entries) (s.covered k);
  }

  -- The key that is overwritten is not the new one.
  pub new_key_kept :
      (v : Vault) (loads handed : List (String × ℕ)) (company : String) (bytes : List ℕ)
      → Custody c v loads handed
      → (zero_key (old_key (find_entry company v.entries)) (new_key bytes v.heap).0).secret
          v.heap.next
        ≡ bytes
  unfolding zero_key
  new_key_kept v loads handed company bytes s = elim (Option-cases (find_entry company v.entries)) [
    | inl f ↦ rw f (new_key_self v.heap bytes)
    | inr (e, f) ↦
        let below = (cached-Opens v loads handed company e f s).0 in
        rw f (
          zero_key_other (new_key bytes v.heap).0 (e.key) v.heap.next (omega (arith, below))
          ∙ new_key_self v.heap bytes)
  ]

  -- A load that ends with a key: the key is held by the loader, the company's entry is evicted, the
  -- key is cached, and it is copied.
  pub installed-Custody :
      (cfg : VaultConfig) (v : Vault) (loads handed : List (String × ℕ)) (company version : String)
      (now : ℤ) (bytes : List ℕ)
      → Opens c company bytes
      → Custody c v loads handed
      → let (after, (key, copy)) = installed cfg company version now v (new_key bytes v.heap) in
        Custody c after ((company, key) ∷ loads) ((company, copy) ∷ handed)
  unfolding new_key clone zero_key
  installed-Custody cfg v loads handed company version now bytes o s =
      let v1 : Vault = record v { heap = (new_key bytes v.heap).0 } in
      let e : CachedKey = record {
        key = v.heap.next;
        version = version;
        expires = now +ℤ cfg.ttl;
        checked_at = now;
      } in
      let v2 : Vault = record {
        heap = zero_key (old_key (find_entry company v.entries)) v1.heap;
        entries = remove_entry company v.entries;
      } in
      let kept : v2.heap.secret v.heap.next ≡ bytes = new_key_kept v loads handed company bytes s in
      let held = new_key-Custody c v loads handed company bytes (inr o) s in
      let emptied : Custody c v2 loads ((company, v.heap.next) ∷ handed) =
        rw (evict_eq company v1) at
          (evict-Custody c v1 loads ((company, v.heap.next) ∷ handed) company held) in
      let opens : Opens c company (v2.heap.secret v.heap.next) = rw kept o in
      let fresh = All-map (λ x p q. omega (arith, p.0, q)) handed s.owned in
      let put =
        put-Custody c v2 loads handed company e (remove_entry-Elsewhere company v.entries) opens
          fresh emptied in
      new_key-Custody c (record v2 { entries = (company, e) ∷ v2.entries })
        ((company, v.heap.next) ∷ loads) handed company (v2.heap.secret v.heap.next) (inr opens) put
