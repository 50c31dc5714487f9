-- ===== src/Gateway/Resolve.antt =====
-- internal/aigateway/byok/resolver.go: ResolveKey and load, composed of the critical sections, for one
-- caller at a time; and the interleavings of the sections of all callers with the evictions, as
-- sequences of actions.
use ta_platform.Prelude.Results.{Result, ok, err}
use ta_platform.Prelude.{
  ℕ, zero, suc, String, Option, none, some, List, [], ◌∷◌, str_eq, if◌then◌else◌, ℤ, ltb_ℤ,
}
use ta_platform.Events.{time_sub}
use ta_platform.Gateway.Keys.{zero_key}
use ta_platform.Gateway.Envelope.{Crypto}
use ta_platform.Gateway.Complete.{KeyResolver}
use ta_platform.Gateway.Cache.{
  CachedKey, Vault, SecretVersion, VaultError, no_key, secrets_error, VaultConfig, invalidate,
  sweep, close_vault, look_up, mark_checked, evict_rotated, copy_if_current, begin_load, join_load,
  fetch_key, end_load,
}

-- What one call of ResolveKey meets: the clock at its start, at the start and at the end of a load, the
-- current version and the secret.
pub record SecretsWorld : Type 0 where
  pub now : ℤ
  pub load_now : ℤ
  pub end_now : ℤ
  pub current : Result VaultError String
  pub secret : Result VaultError SecretVersion

abbrev pub copy_of : Vault × Result VaultError (ℕ × ℕ) → Vault × Result VaultError ℕ
copy_of (v, err e) = (v, err e)
copy_of (v, ok (key, copy)) = (v, ok copy)

abbrev pub or_load :
    (Vault → Vault × Result VaultError ℕ) → Vault × Option ℕ → Vault × Result VaultError ℕ
or_load again (v, some k) = (v, ok k)
or_load again (v, none) = again v

unfoldable pub load_key :
    VaultConfig → Crypto → SecretsWorld → String → Vault → Vault × Result VaultError ℕ
unfolding begin_load fetch_key end_load
load_key cfg c w company v =
    or_load (λ u. copy_of (end_load cfg company w.end_now (fetch_key c company w.secret) u))
      (begin_load company w.load_now v)

-- After CurrentVersion.
abbrev pub version_checked :
    VaultConfig
    → Crypto
    → SecretsWorld
    → String
    → CachedKey
    → Result VaultError String
    → Vault
    → Vault × Result VaultError ℕ
version_checked cfg c w company cached (err no_key) v = (invalidate company v, err no_key)
version_checked cfg c w company cached (err e) v = (v, err secrets_error)
version_checked cfg c w company cached (ok version) v =
    if str_eq version cached.version
    then or_load (load_key cfg c w company)
        (copy_if_current company cached (mark_checked cached w.now v))
    else load_key cfg c w company (evict_rotated company cached v)

abbrev pub after_look_up :
    VaultConfig
    → Crypto
    → SecretsWorld
    → String
    → Vault × Option CachedKey
    → Vault × Result VaultError ℕ
after_look_up cfg c w company (v, none) = load_key cfg c w company v
after_look_up cfg c w company (v, some cached) =
    if ltb_ℤ (time_sub w.now cached.checked_at) cfg.version_check
    then or_load (load_key cfg c w company) (copy_if_current company cached v)
    else version_checked cfg c w company cached w.current v

unfoldable pub resolve_key :
    VaultConfig → Crypto → SecretsWorld → String → Vault → Vault × Result VaultError ℕ
unfolding invalidate look_up mark_checked evict_rotated copy_if_current load_key
resolve_key cfg c w company v = after_look_up cfg c w company (look_up company w.now v)

abbrev pub key_found : Result VaultError ℕ → Option ℕ
key_found (err e) = none
key_found (ok k) = some k

-- The resolver that a gateway takes.
abbrev pub vault_resolver :
    VaultConfig → Crypto → SecretsWorld → KeyResolver (List (String × CachedKey))
vault_resolver cfg c w company (entries, heap) =
    let (v, r) = resolve_key cfg c w company (record { heap = heap; entries = entries }) in
    ((v.entries, v.heap), key_found r)

-- One critical section of some caller, an eviction, or a caller that wipes its copy. A waiting caller
-- names the load that it waits for by its place in the list of loads, and a load that ends its place among
-- those in flight.
pub data VaultAct : Type 0 where
  looks_up : String → ℤ → VaultAct
  marks : CachedKey → ℤ → VaultAct
  copies : String → CachedKey → VaultAct
  rotates : String → CachedKey → VaultAct
  begins : String → ℤ → VaultAct
  fetches : String → Result VaultError SecretVersion → VaultAct
  lands : ℕ → ℤ → VaultAct
  joins : ℕ → VaultAct
  invalidates : String → VaultAct
  sweeps : ℤ → VaultAct
  closes : VaultAct
  wipes : ℕ → VaultAct

-- A key that fetch has made for a company, outside the lock: its bytes and its version. No one else has
-- a pointer to it before the last section of the load.
abbrev pub InFlight : Type 0
InFlight = String × (List ℕ × String)

-- The keys of loads in flight, the loads that have ended with a key and the copies handed out, each with
-- its company.
pub record VaultRun : Type 0 where
  pub vault : Vault
  pub flight : List InFlight
  pub loads : List (String × ℕ)
  pub handed : List (String × ℕ)

abbrev pub nth : {A : Type 0} → ℕ → List A → Option A
nth n [] = none
nth zero (x ∷ xs) = some x
nth (suc n) (x ∷ xs) = nth n xs

abbrev pub without_nth : {A : Type 0} → ℕ → List A → List A
without_nth n [] = []
without_nth zero (x ∷ xs) = xs
without_nth (suc n) (x ∷ xs) = x ∷ without_nth n xs

abbrev pub hand_out : String → VaultRun → Vault × Option ℕ → VaultRun
hand_out company s (v, none) = record s { vault = v }
hand_out company s (v, some k) = record s { vault = v; handed = (company, k) ∷ s.handed }

abbrev pub joined : VaultRun → Option (String × ℕ) → VaultRun
joined s none = s
joined s (some (company, key)) = hand_out company s (join_load key s.vault)

abbrev pub load_ended : String → VaultRun → Vault × Result VaultError (ℕ × ℕ) → VaultRun
load_ended company s (v, err e) = record s { vault = v }
load_ended company s (v, ok (key, copy)) = record s {
  vault = v;
  loads = (company, key) ∷ s.loads;
  handed = (company, copy) ∷ s.handed;
}

-- fetch has returned: its key is in flight, or it failed and the load ends with the error.
abbrev pub fetched : String → VaultRun → Result VaultError (List ℕ × String) → VaultRun
fetched company s (err e) = s
fetched company s (ok found) = record s { flight = (company, found) ∷ s.flight }

-- The last section of a load in flight.
abbrev pub landed : VaultConfig → ℤ → VaultRun → List InFlight → Option InFlight → VaultRun
landed cfg now s left none = s
landed cfg now s left (some (company, found)) =
    load_ended company (record s { flight = left }) (end_load cfg company now (ok found) s.vault)

abbrev pub wiped : VaultRun → Option (String × ℕ) → VaultRun
wiped s none = s
wiped s (some (company, k)) = record s {
  vault = record (s.vault) { heap = zero_key (some k) s.vault.heap };
}

unfoldable pub perform : VaultConfig → Crypto → VaultAct → VaultRun → VaultRun
unfolding look_up mark_checked copy_if_current evict_rotated begin_load fetch_key end_load join_load
    invalidate sweep close_vault
perform cfg c (looks_up company now) s = record s { vault = (look_up company now s.vault).0 }
perform cfg c (marks cached now) s = record s { vault = mark_checked cached now s.vault }
perform cfg c (copies company cached) s =
    hand_out company s (copy_if_current company cached s.vault)
perform cfg c (rotates company cached) s = record s { vault = evict_rotated company cached s.vault }
perform cfg c (begins company now) s = hand_out company s (begin_load company now s.vault)
perform cfg c (fetches company secret) s = fetched company s (fetch_key c company secret)
perform cfg c (lands n now) s = landed cfg now s (without_nth n s.flight) (nth n s.flight)
perform cfg c (joins n) s = joined s (nth n s.loads)
perform cfg c (invalidates company) s = record s { vault = invalidate company s.vault }
perform cfg c (sweeps now) s = record s { vault = (sweep now s.vault).0 }
perform cfg c closes s = record s { vault = close_vault s.vault }
perform cfg c (wipes n) s = wiped s (nth n s.handed)

unfoldable pub perform_all : VaultConfig → Crypto → List VaultAct → VaultRun → VaultRun
unfolding perform
perform_all cfg c [] s = s
perform_all cfg c (a ∷ acts) s = perform_all cfg c acts (perform cfg c a s)
