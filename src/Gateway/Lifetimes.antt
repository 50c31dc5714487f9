-- ===== src/Gateway/Lifetimes.antt =====
-- How long the cache holds a key, and who may hold one.
use ta_platform.Prelude.Results.{ok}
use ta_platform.Prelude.{
  ℕ, ◌<◌, ◌≡◌, refl, sym, ◌∙◌, ap, ◌⊎◌, inl, inr, ◌≢◌, String, Bool, true, false, some, List, [],
  ◌∷◌, Bool-cases, All, All-map, ℤ, str_eq, eq_iff,
}
use ta_platform.Prelude.Membership.{In, In-All, All-In}
use ta_platform.Gateway.{
  Crypto, open_envelope, CachedKey, KeyHeap, Vault, VaultConfig, VaultRun, VaultAct, remove_entry,
  evict, evict_all, sweep, close_vault, is_expired, perform, perform_all, closes, nth,
}
use ta_platform.Gateway.Entries.{All-remove_entry, remove_entry-Elsewhere}
use ta_platform.Gateway.Custody.{Holds, Opens, refs_of, Custody}
use ta_platform.Gateway.Loading.{evict_eq}
use ta_platform.Gateway.Interleaved.{nth-All}
use ta_platform.Gateway.Performed.{perform_all-IsKept, perform_all-IsFlown, perform-IsKept}

str_eq_refl : (a : String) → str_eq a a ≡ true
str_eq_refl a = (eq_iff a a).1 refl

All-both :
    (P Q : String × CachedKey → Type 0) (xs : List (String × CachedKey))
    → All P xs
    → All Q xs
    → All (λ x. P x × Q x) xs
All-both P Q [] h k = tt
All-both P Q (x ∷ xs) h k = ((h.0, k.0), All-both P Q xs h.1 k.1)

In-All-inr :
    (P : String × CachedKey → Type 0) (xs : List (String × CachedKey)) → All (λ x. P x ⊎ In x xs) xs
In-All-inr P xs = In-All (λ x. P x ⊎ In x xs) xs (λ a m. inr m)

module _ (test : CachedKey → Bool) where
  -- Each entry is one that the test does not pick, or is still to come.
  abbrev Pending : List (String × CachedKey) → String × CachedKey → Type 0
  Pending es x = (test (x.1) ≡ false) ⊎ In x es

  after_evict :
      (company : String) (e : CachedKey) (es : List (String × CachedKey)) (x : String × CachedKey)
      → Pending ((company, e) ∷ es) x × (str_eq company (x.0) ≡ false)
      → Pending es x
  after_evict company e es x (inl p, q) = inl p
  after_evict company e es x (inr (inr m), q) = inr m
  after_evict company e es x (inr (inl p), q) = absurd (differ (x.0) (ap (λ y. y.0) p) q)
    where
      differ : (d : String) → d ≡ company → str_eq company d ≡ false → ⊥
      differ d r q =
          true_not_false (sym (str_eq_refl company) ∙ ap (λ y. str_eq company y) (sym r) ∙ q)
        where
          true_not_false : true ≢ false
          true_not_false h = cc

  after_keep :
      (company : String) (e : CachedKey) (es : List (String × CachedKey)) (x : String × CachedKey)
      → test e ≡ false
      → Pending ((company, e) ∷ es) x
      → Pending es x
  after_keep company e es x t (inl p) = inl p
  after_keep company e es x t (inr (inr m)) = inr m
  after_keep company e es x t (inr (inl p)) = inl (ap (λ y. test (y.1)) p ∙ t)

  evict-entries :
      (company : String) (v : Vault) → (evict company v).entries ≡ remove_entry company v.entries
  evict-entries company v = ap (λ u. u.entries) (evict_eq company v)

  evict_all-unpicked :
      (es : List (String × CachedKey)) (v : Vault)
      → All (Pending es) v.entries
      → All (λ x. test (x.1) ≡ false) (evict_all test es v).0.entries
  unfolding evict_all
  evict_all-unpicked [] v h = All-map (λ x p. elim p [ inl q ↦ q | inr m ↦ absurd m ]) v.entries h
  evict_all-unpicked ((company, e) ∷ es) v h = elim (Bool-cases (test e)) [
    | inl p ↦
        let left =
          All-both (Pending ((company, e) ∷ es)) (λ x. str_eq company (x.0) ≡ false)
            (remove_entry company v.entries)
            (All-remove_entry (Pending ((company, e) ∷ es)) company v.entries h)
            (remove_entry-Elsewhere company v.entries) in
        let rest =
          All-map (λ x q. after_evict company e es x q) (remove_entry company v.entries) left in
        rw p (evict_all-unpicked es (evict company v) (rw (evict-entries company v) rest))
    | inr p ↦
        rw p (evict_all-unpicked es v (All-map (λ x q. after_keep company e es x p q) v.entries h))
  ]

-- After a sweep, no cached key has expired.
pub sweep-is_expired :
    (now : ℤ) (v : Vault) → All (λ x. is_expired now (x.1) ≡ false) (sweep now v).0.entries
unfolding sweep
sweep-is_expired now v =
    evict_all-unpicked (is_expired now) v.entries v
      (In-All-inr (λ x. is_expired now (x.1) ≡ false) v.entries)

-- Closing leaves no entry.
close_vault-entries : (v : Vault) → (close_vault v).entries ≡ []
unfolding close_vault
close_vault-entries v =
    none_left (evict_all (λ e. true) v.entries v).0.entries
      (evict_all-unpicked (λ e. true) v.entries v (In-All-inr (λ x. true ≡ false) v.entries))
  where
    none_left : (es : List (String × CachedKey)) → All (λ x. true ≡ false) es → es ≡ []
    none_left [] h = refl
    none_left (x ∷ es) h = cc

abbrev pub no_keys : KeyHeap
no_keys = record { next = 0; secret = λ k. [] }

-- NewResolver, before any call.
abbrev pub new_run : VaultRun
new_run = record {
  vault = record { heap = no_keys; entries = [] };
  flight = [];
  loads = [];
  handed = [];
}

module _ (c : Crypto) (cfg : VaultConfig) where
  new_run-Custody : Custody c new_run.vault new_run.loads new_run.handed
  new_run-Custody = record {
    unique = tt;
    live = tt;
    loaded = tt;
    owned = tt;
    private = tt;
    covered = λ k. inl refl;
  }

  pub run-Custody :
      (acts : List VaultAct)
      → let s = perform_all cfg c acts new_run in Custody c s.vault s.loads s.handed
  run-Custody acts = perform_all-IsKept c cfg acts new_run tt new_run-Custody

-- Whatever the callers of the resolver, its evictions and the holders of copies do, in any interleaving
-- of its critical sections, and whatever KMS and Secrets Manager answer: the key behind a copy handed
-- out for a company has been wiped by its holder, or is what an envelope opens to for that company.
pub perform_all-Opens :
    (c : Crypto) (cfg : VaultConfig) (acts : List VaultAct) (n : ℕ) (company : String) (k : ℕ)
    → nth n (perform_all cfg c acts new_run).handed ≡ some (company, k)
    → let heap = (perform_all cfg c acts new_run).vault.heap in
      (heap.secret k ≡ [])
      ⊎ ((stored : List ℕ) × (open_envelope c company stored ≡ ok (heap.secret k)))
perform_all-Opens c cfg acts n company k f =
    let s = perform_all cfg c acts new_run in
    (nth-All c (λ y. (y.1 < s.vault.heap.next) × Holds c s.vault.heap (y.0) (y.1)) n s.handed
      (company, k) f (run-Custody c cfg acts).owned).1

-- Some bytes are in memory: behind a pointer to a key, or as the key of a load in flight.
abbrev pub IsInMemory : VaultRun → List ℕ → Type 0
IsInMemory s bytes =
    ((k : ℕ) × (s.vault.heap.secret k ≡ bytes))
    ⊎ ((company : String) × (version : String) × In (company, (bytes, version)) s.flight)

-- The resolver as Close leaves it after some actions.
abbrev pub closed_after : Crypto → VaultConfig → List VaultAct → VaultRun
closed_after c cfg acts = perform cfg c closes (perform_all cfg c acts new_run)

-- After any such run, once the resolver is closed: the bytes of a key that are still in memory are those of
-- a copy that was handed out and that its holder has not wiped, or those of a load that was in flight, which
-- an envelope opens to for the company of the load. (A key in flight is cached when its load ends.)
pub perform_all-close_vault :
    (c : Crypto) (cfg : VaultConfig) (acts : List VaultAct) (bytes : List ℕ)
    → IsInMemory (closed_after c cfg acts) bytes
    → let s = closed_after c cfg acts in
      (bytes ≡ [])
      ⊎ (((k : ℕ) × In k (refs_of s.handed) × (s.vault.heap.secret k ≡ bytes))
          ⊎ ((company : String) × (version : String) × In (company, (bytes, version)) s.flight
              × Opens c company bytes))
unfolding perform
perform_all-close_vault c cfg acts bytes m =
    let s = perform_all cfg c acts new_run in
    let flown = perform_all-IsFlown c cfg acts new_run tt in
    let after = perform-IsKept c cfg closes s flown (run-Custody c cfg acts) in
    elim m [
      | inl (k, p) ↦ elim (after.covered k) [
        | inl z ↦ inl (sym p ∙ z)
        | inr (inl q) ↦ absurd (rw (close_vault-entries s.vault) at q)
        | inr (inr q) ↦ inr (inl (k, q, p))
      ]
      | inr (company, version, q) ↦
          inr (inr (company, version, q, All-In (λ x. Opens c (x.0) (x.1.0)) s.flight flown q))
    ]
