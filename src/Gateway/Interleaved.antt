-- ===== src/Gateway/Interleaved.antt =====
-- The cache of keys under every interleaving of its callers, the evictions and the wiping of copies.
use mathlib.Core.Path.{subst}
use ta_platform.Prelude.Results.{Result, ok, err, ok_eq, err_not_ok}
use ta_platform.Prelude.{
  ℕ, zero, suc, ◌≡◌, refl, sym, ◌∙◌, ap, ◌≢◌, inl, inr, String, true, Option, none, some, List, [],
  ◌∷◌, Bool-cases, Option-cases, ◌==◌, ==_iff, All, ℤ, ltb_ℤ, some_eq,
}
use ta_platform.Gateway.{
  VaultError, unopened, Crypto, open_envelope, OpenError, SecretVersion, CachedKey, new_key, clone,
  is_zeroed, is_nil, VaultConfig, VaultRun, find_entry, is_expired, look_up, is_current,
  evict_rotated, copy_if_current, begin_load, join_load, fetch_key, with_plaintext, end_load, nth,
  hand_out, joined, load_ended, wiped,
}
use ta_platform.Gateway.Entries.{Apart}
use ta_platform.Gateway.Custody.{Opens, Holds, Custody, evict-Custody}
use ta_platform.Gateway.Handing.{new_key-Custody, new_key_empty-Custody, wipe-Custody, new_key_self}
use ta_platform.Gateway.Loading.{installed-Custody, clone-Custody}

module _ (c : Crypto) where
  abbrev pub IsKept : VaultRun → Type 0
  IsKept s = Custody c s.vault s.loads s.handed

  with_plaintext-Opens :
      (company version : String) (value bytes : List ℕ) (v : String) (r : Result OpenError (List ℕ))
      → open_envelope c company value ≡ r
      → with_plaintext version r ≡ ok (bytes, v)
      → Opens c company bytes
  with_plaintext-Opens company version value bytes v (err e) p f =
      absurd (err_not_ok (unopened e) (bytes, v) f)
  with_plaintext-Opens company version value bytes v (ok b) p f =
      (value, p ∙ ap (λ x. ok (x.0)) (ok_eq (b, version) (bytes, v) f))

  pub fetch_key-Opens :
      (company : String) (secret : Result VaultError SecretVersion) (bytes : List ℕ)
      (version : String)
      → fetch_key c company secret ≡ ok (bytes, version)
      → Opens c company bytes
  unfolding fetch_key
  fetch_key-Opens company (err e) bytes version f = absurd (err_not_ok e (bytes, version) f)
  fetch_key-Opens company (ok found) bytes version f =
      with_plaintext-Opens company found.version_id found.value bytes version
        (open_envelope c company found.value) refl f

  pub load_ended-IsKept :
      (cfg : VaultConfig) (s : VaultRun) (company : String) (now : ℤ)
      (fetched : Result VaultError (List ℕ × String))
      → ((bytes : List ℕ) (version : String)
          → fetched ≡ ok (bytes, version)
          → Opens c company bytes)
      → IsKept s
      → IsKept (load_ended company s (end_load cfg company now fetched s.vault))
  unfolding end_load
  load_ended-IsKept cfg s company now (err e) o h = h
  load_ended-IsKept cfg s company now (ok (bytes, version)) o h =
      installed-Custody c cfg s.vault s.loads s.handed company version now bytes
        (o bytes version refl) h

  nil_eq : (b : List ℕ) → is_nil b ≡ true → b ≡ []
  nil_eq [] h = refl
  nil_eq (x ∷ xs) h = cc

  -- What a waiting caller gets.
  join_load-IsKept :
      (s : VaultRun) (company : String) (key : ℕ)
      → Holds c s.vault.heap company key
      → IsKept s
      → IsKept (hand_out company s (join_load key s.vault))
  unfolding join_load clone is_zeroed
  join_load-IsKept s company key p h =
      let heap = s.vault.heap in
      let b = heap.secret key in
      elim (Bool-cases (is_nil ((new_key b heap).0.secret (new_key b heap).1))) [
        | inl z ↦
            let q : b ≡ [] = nil_eq b (rw (new_key_self heap b) at z) in
            rw z (
              subst
                (λ x. Custody c (record (s.vault) { heap = (new_key x heap).0 }) s.loads s.handed)
                (sym q) (new_key_empty-Custody c s.vault s.loads s.handed h))
        | inr z ↦ rw z (new_key-Custody c s.vault s.loads s.handed company b p h)
      ]

  pub nth-All :
      {A : Type 0} (P : A → Type 0) (n : ℕ) (rs : List A) (x : A)
      → nth n rs ≡ some x
      → All P rs
      → P x
  nth-All P n [] x f k = absurd (none_some f)
    where
      none_some : none ≢ some x
      none_some f = cc
  nth-All P zero (y ∷ rs) x f k = rw (sym (some_eq y x f)) k.0
  nth-All P (suc n) (y ∷ rs) x f k = nth-All P n rs x f k.1

  pub joined-IsKept :
      (s : VaultRun) (o : Option (String × ℕ))
      → ((x : String × ℕ) → o ≡ some x → Holds c s.vault.heap (x.0) (x.1))
      → IsKept s
      → IsKept (joined s o)
  joined-IsKept s none p h = h
  joined-IsKept s (some (company, key)) p h =
      join_load-IsKept s company key (p (company, key) refl) h

  pub wiped-IsKept :
      (s : VaultRun) (o : Option (String × ℕ))
      → ((x : String × ℕ) → o ≡ some x → Apart (x.1) s.vault.entries)
      → IsKept s
      → IsKept (wiped s o)
  wiped-IsKept s none p h = h
  wiped-IsKept s (some (company, k)) p h =
      wipe-Custody c s.vault s.loads s.handed k (p (company, k) refl) h

  pub copy_if_current-IsKept :
      (s : VaultRun) (company : String) (cached : CachedKey)
      → IsKept s
      → IsKept (hand_out company s (copy_if_current company cached s.vault))
  unfolding copy_if_current clone new_key
  copy_if_current-IsKept s company cached h =
      elim (Option-cases (find_entry company s.vault.entries)) [
        | inl f ↦ rw f h
        | inr (e, f) ↦ elim (Bool-cases (e.key == cached.key)) [
          | inl p ↦
              let q : (e.key) ≡ cached.key = (==_iff (e.key) cached.key).0 p in
              rw (f, p, sym q) (clone-Custody c s.vault s.loads s.handed company e f h)
          | inr p ↦ rw (f, p) h
        ]
      ]

  pub begin_load-IsKept :
      (s : VaultRun) (company : String) (now : ℤ)
      → IsKept s
      → IsKept (hand_out company s (begin_load company now s.vault))
  unfolding begin_load clone new_key
  begin_load-IsKept s company now h = elim (Option-cases (find_entry company s.vault.entries)) [
    | inl f ↦ rw f h
    | inr (e, f) ↦ elim (Bool-cases (ltb_ℤ now e.expires)) [
      | inl p ↦ rw (f, p) (clone-Custody c s.vault s.loads s.handed company e f h)
      | inr p ↦ rw (f, p) h
    ]
  ]

  pub look_up-IsKept :
      (s : VaultRun) (company : String) (now : ℤ)
      → IsKept s
      → Custody c (look_up company now s.vault).0 s.loads s.handed
  unfolding look_up
  look_up-IsKept s company now h = elim (Option-cases (find_entry company s.vault.entries)) [
    | inl f ↦ rw f h
    | inr (e, f) ↦ elim (Bool-cases (is_expired now e)) [
      | inl p ↦ rw (f, p) (evict-Custody c s.vault s.loads s.handed company h)
      | inr p ↦ rw (f, p) h
    ]
  ]

  pub evict_rotated-IsKept :
      (s : VaultRun) (company : String) (cached : CachedKey)
      → IsKept s
      → Custody c (evict_rotated company cached s.vault) s.loads s.handed
  unfolding evict_rotated
  evict_rotated-IsKept s company cached h =
      elim (Bool-cases (is_current cached (find_entry company s.vault.entries))) [
        | inl p ↦ rw p (evict-Custody c s.vault s.loads s.handed company h)
        | inr p ↦ rw p h
      ]
