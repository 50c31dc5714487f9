-- ===== src/Gateway/Accounted.antt =====
-- Completions: the record of each, and the keys that they use.
use ta_platform.Prelude.Results.{Result, ok, err}
use ta_platform.Prelude.{
  ℕ, inl, inr, String, Bool, Option, none, some, List, [], ◌∷◌, Bool-cases, ltb_ℤ, str_eq,
}
use ta_platform.Events.{time_sub}
use ta_platform.Gateway.{
  Crypto, CachedKey, KeyHeap, zero_key, Vault, VaultConfig, VaultRun, VaultError, no_key,
  secrets_error, unopened, resolved, to_option, completed, mode_byok, resolve_gateway_key,
  SecretsWorld, resolve_key, load_key, or_load, copy_of, version_checked, after_look_up,
  vault_resolver, key_found, fetch_key, end_load, load_ended, begin_load, look_up, mark_checked,
  copy_if_current, evict_rotated, invalidate, hand_out, Provider, CompleteWorld, CompleteRequest,
  complete, request_key,
}
use ta_platform.Gateway.Custody.{Custody, evict-Custody, zero_key_self}
use ta_platform.Gateway.Handing.{wipe-Custody}
use ta_platform.Gateway.Loading.{mark_checked-Custody}
use ta_platform.Gateway.Interleaved.{
  IsKept, copy_if_current-IsKept, begin_load-IsKept, look_up-IsKept, evict_rotated-IsKept,
  load_ended-IsKept, fetch_key-Opens,
}

module _ (c : Crypto) where
  -- What a call of the resolver leaves: a key for its caller alone, or none.
  abbrev Given : String → Vault × Result VaultError ℕ → Type 0
  Given company (v, err e) = Custody c v [] []
  Given company (v, ok k) = Custody c v [] ((company, k) ∷ [])

  abbrev run_of : Vault → VaultRun
  run_of v = record { vault = v; flight = []; loads = []; handed = [] }

  forget_loads :
      (v : Vault) (loads handed : List (String × ℕ))
      → Custody c v loads handed
      → Custody c v [] handed
  forget_loads v loads handed s = record {
    unique = s.unique;
    live = s.live;
    loaded = tt;
    owned = s.owned;
    private = s.private;
    covered = s.covered;
  }

  -- A first section that gives a copy, and a load otherwise.
  or_load-Given :
      (company : String) (again : Vault → Vault × Result VaultError ℕ) (v : Vault)
      (r : Vault × Option ℕ)
      → ((u : Vault) → Custody c u [] [] → Given company (again u))
      → IsKept c (hand_out company (run_of v) r)
      → Given company (or_load again r)
  or_load-Given company again v (u, none) f h = f u h
  or_load-Given company again v (u, some k) f h = h

  copy_of-Given :
      (company : String) (v : Vault) (r : Vault × Result VaultError (ℕ × ℕ))
      → IsKept c (load_ended company (run_of v) r)
      → Given company (copy_of r)
  copy_of-Given company v (u, err e) h = h
  copy_of-Given company v (u, ok (key, copy)) h =
      forget_loads u ((company, key) ∷ []) ((company, copy) ∷ []) h

  module _ (cfg : VaultConfig) (w : SecretsWorld) (company : String) where
    load_key-Given : (v : Vault) → Custody c v [] [] → Given company (load_key cfg c w company v)
    unfolding load_key
    load_key-Given v h =
        or_load-Given company
          (λ u. copy_of (end_load cfg company w.end_now (fetch_key c company w.secret) u)) v
          (begin_load company w.load_now v)
          (λ u k.
            copy_of-Given company u
              (end_load cfg company w.end_now (fetch_key c company w.secret) u)
              (load_ended-IsKept c cfg (run_of u) company w.end_now (fetch_key c company w.secret)
                (fetch_key-Opens c company w.secret) k))
          (begin_load-IsKept c (run_of v) company w.load_now h)

    copy_or_load-Given :
        (v : Vault) (cached : CachedKey)
        → Custody c v [] []
        → Given company (or_load (load_key cfg c w company) (copy_if_current company cached v))
    copy_or_load-Given v cached h =
        or_load-Given company (load_key cfg c w company) v (copy_if_current company cached v)
          load_key-Given (copy_if_current-IsKept c (run_of v) company cached h)

    version_checked-Given :
        (v : Vault) (cached : CachedKey) (r : Result VaultError String)
        → Custody c v [] []
        → Given company (version_checked cfg c w company cached r v)
    unfolding invalidate
    version_checked-Given v cached (err no_key) h = evict-Custody c v [] [] company h
    version_checked-Given v cached (err secrets_error) h = h
    version_checked-Given v cached (err (unopened e)) h = h
    version_checked-Given v cached (ok version) h =
        elim (Bool-cases (str_eq version cached.version)) [
          | inl p ↦ rw p (
              copy_or_load-Given (mark_checked cached w.now v) cached
                (mark_checked-Custody c v [] [] cached w.now h))
          | inr p ↦ rw p (
              load_key-Given (evict_rotated company cached v)
                (evict_rotated-IsKept c (run_of v) company cached h))
        ]

    after_look_up-Given :
        (r : Vault × Option CachedKey)
        → Custody c (r.0) [] []
        → Given company (after_look_up cfg c w company r)
    after_look_up-Given (v, none) h = load_key-Given v h
    after_look_up-Given (v, some cached) h =
        elim (Bool-cases (ltb_ℤ (time_sub w.now cached.checked_at) cfg.version_check)) [
          | inl p ↦ rw p (copy_or_load-Given v cached h)
          | inr p ↦ rw p (version_checked-Given v cached w.current h)
        ]

    pub resolve_key-Given :
        (v : Vault) → Custody c v [] [] → Given company (resolve_key cfg c w company v)
    unfolding resolve_key
    resolve_key-Given v h =
        after_look_up-Given (look_up company w.now v) (look_up-IsKept c (run_of v) company w.now h)

  -- A copy that its holder wipes is gone.
  wiped-Custody :
      (v : Vault) (company : String) (k : ℕ)
      → Custody c v [] ((company, k) ∷ [])
      → Custody c (record v { heap = zero_key (some k) v.heap }) [] []
  wiped-Custody v company k s =
      let t = wipe-Custody c v [] ((company, k) ∷ []) k s.private.0 s in
      record {
        unique = t.unique;
        live = t.live;
        loaded = tt;
        owned = tt;
        private = tt;
        covered = λ r. elim (t.covered r) [
          | inl z ↦ inl z
          | inr (inl m) ↦ inr (inl m)
          | inr (inr (inl p)) ↦ inl (rw p (zero_key_self v.heap k))
          | inr (inr (inr m)) ↦ absurd m
        ];
      }

  abbrev pub Entries : Type 0
  Entries = List (String × CachedKey)

  abbrev vault_of : Entries × KeyHeap → Vault
  vault_of (entries, heap) = record { heap = heap; entries = entries }

  completed-Custody :
      (p : Provider) (w : CompleteWorld) (r : CompleteRequest) (done : Bool)
      (x : Vault × Result VaultError ℕ)
      → Given r.company_id x
      → let after =
          completed p w r (to_option (resolved done ((x.0.entries, x.0.heap), key_found (x.1)))) in
        Custody c (vault_of (after.state, after.heap)) [] []
  unfolding completed zero_key
  completed-Custody p w r done (v, err e) h = h
  completed-Custody p w r done (v, ok k) h = wiped-Custody v r.company_id k h

-- A completion leaves no key material outside the cache: from an empty cache or after earlier
-- completions, whatever happens to it, every key in memory when it returns is the key of a cached entry,
-- which is what an envelope opens to for the entry's company.
pub complete-Custody :
    (c : Crypto) (cfg : VaultConfig) (secrets : SecretsWorld) (p : Provider) (w : CompleteWorld)
    (r : CompleteRequest) (s : List (String × CachedKey) × KeyHeap)
    → Custody c (record { heap = s.1; entries = s.0 }) [] []
    → let after = complete p (some (vault_resolver cfg c secrets)) w r s in
      Custody c (record { heap = after.heap; entries = after.state }) [] []
unfolding complete request_key resolve_gateway_key completed zero_key
complete-Custody c cfg secrets p w r s h = elim (Bool-cases (str_eq r.mode mode_byok)) [
  | inl e ↦ rw e (
      completed-Custody c p w r w.done_early
        (resolve_key cfg c secrets r.company_id (record { heap = s.1; entries = s.0 }))
        (resolve_key-Given c cfg secrets r.company_id (record { heap = s.1; entries = s.0 }) h))
  | inr e ↦ rw e h
]
