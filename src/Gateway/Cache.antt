-- ===== src/Gateway/Cache.antt =====
-- internal/aigateway/byok/resolver.go: the cache of decrypted keys. Each function below is one critical
-- section under the resolver's lock, or the code between two of them, so a run of the resolver is a
-- sequence of them. An entry holds the only cached pointer to its key, so the source's comparison of
-- entries by pointer is a comparison of their keys. Secrets Manager is an argument.
use ta_platform.Prelude.Results.{Result, ok, err}
use ta_platform.Prelude.{
  ℕ, ◌+◌, String, Bool, true, false, not, Option, none, some, List, [], ◌∷◌, str_eq, if◌then◌else◌,
  ℤ, pos, ◌+ℤ◌, ltb_ℤ, leb_ℤ, ◌==◌,
}
use ta_platform.Gateway.Keys.{KeyHeap, new_key, clone, zero_key, is_zeroed}
use ta_platform.Gateway.Envelope.{Crypto, OpenError, open_envelope}

pub record CachedKey : Type 0 where
  pub key : ℕ
  pub version : String
  pub expires : ℤ
  pub checked_at : ℤ

-- Resolver: the entries by company, over the heap of keys.
pub record Vault : Type 0 where
  pub heap : KeyHeap
  pub entries : List (String × CachedKey)

pub record SecretVersion : Type 0 where
  pub value : List ℕ
  pub version_id : String

-- ErrNoKey, another error of Secrets Manager, or an envelope that does not open.
pub data VaultError : Type 0 where
  no_key secrets_error : VaultError
  unopened : OpenError → VaultError

pub record VaultConfig : Type 0 where
  pub ttl : ℤ
  pub version_check : ℤ

-- NewResolver: the default of the TTL.
unfoldable pub new_config : VaultConfig → VaultConfig
new_config c = record c { ttl = if leb_ℤ c.ttl (pos 0) then pos 300000000000 else c.ttl }

abbrev pub or_head : Bool → CachedKey → Option CachedKey → Option CachedKey
or_head true e rest = some e
or_head false e rest = rest

unfoldable pub find_entry : String → List (String × CachedKey) → Option CachedKey
find_entry company [] = none
find_entry company ((c, e) ∷ es) = or_head (str_eq company c) e (find_entry company es)

unfoldable pub remove_entry : String → List (String × CachedKey) → List (String × CachedKey)
remove_entry company [] = []
remove_entry company ((c, e) ∷ es) =
    let rest = remove_entry company es in if str_eq company c then rest else (c, e) ∷ rest

abbrev pub evicted : String → Vault → Option CachedKey → Vault
evicted company v none = v
evicted company v (some e) = record {
  heap = zero_key (some (e.key)) v.heap;
  entries = remove_entry company v.entries;
}

-- evictLocked
unfoldable pub evict : String → Vault → Vault
unfolding find_entry remove_entry zero_key
evict company v = evicted company v (find_entry company v.entries)

-- Invalidate
unfoldable pub invalidate : String → Vault → Vault
unfolding evict
invalidate company v = evict company v

abbrev pub is_expired : ℤ → CachedKey → Bool
is_expired now e = not (ltb_ℤ now e.expires)

-- The range over the entries in Sweep and Close: evict those of the snapshot that `test` picks, and
-- count them.
unfoldable pub evict_all : (CachedKey → Bool) → List (String × CachedKey) → Vault → Vault × ℕ
unfolding evict
evict_all test [] v = (v, 0)
evict_all test ((c, e) ∷ es) v =
    let (out, n) = evict_all test es (evict c v) in
    let kept = evict_all test es v in if test e then (out, n + 1) else kept

unfoldable pub sweep : ℤ → Vault → Vault × ℕ
unfolding evict_all
sweep now v = evict_all (is_expired now) v.entries v

unfoldable pub close_vault : Vault → Vault
unfolding evict_all
close_vault v = (evict_all (λ e. true) v.entries v).0

abbrev pub looked_up : String → ℤ → Vault → Option CachedKey → Vault × Option CachedKey
looked_up company now v none = (v, none)
looked_up company now v (some e) = if is_expired now e then (evict company v, none) else (v, some e)

-- ResolveKey, the first section: the cached entry, unless it has expired.
unfoldable pub look_up : String → ℤ → Vault → Vault × Option CachedKey
unfolding evict
look_up company now v = looked_up company now v (find_entry company v.entries)

-- The entry of the company is still the one that was looked up.
abbrev pub is_current : CachedKey → Option CachedKey → Bool
is_current cached none = false
is_current cached (some e) = e.key == cached.key

-- cached.checkedAt = now; an entry that is no longer in the map is not seen again.
unfoldable pub mark_entries : ℕ → ℤ → List (String × CachedKey) → List (String × CachedKey)
mark_entries key now [] = []
mark_entries key now ((c, e) ∷ es) =
    (c, if e.key == key then record e { checked_at = now } else e) ∷ mark_entries key now es

unfoldable pub mark_checked : CachedKey → ℤ → Vault → Vault
unfolding mark_entries
mark_checked cached now v = record v { entries = mark_entries cached.key now v.entries }

-- ResolveKey, the section for a rotated key.
unfoldable pub evict_rotated : String → CachedKey → Vault → Vault
unfolding evict find_entry
evict_rotated company cached v =
    if is_current cached (find_entry company v.entries) then evict company v else v

abbrev pub with_clone : Vault → KeyHeap × ℕ → Vault × Option ℕ
with_clone v (heap, k) = (record v { heap = heap }, some k)

-- copyIfCurrent: no key means that it loads.
unfoldable pub copy_if_current : String → CachedKey → Vault → Vault × Option ℕ
unfolding find_entry clone
copy_if_current company cached v =
    if is_current cached (find_entry company v.entries)
    then with_clone v (clone cached.key v.heap)
    else (v, none)

abbrev pub begun : ℤ → Vault → Option CachedKey → Vault × Option ℕ
begun now v none = (v, none)
begun now v (some e) =
    if ltb_ℤ now e.expires then with_clone v (clone (e.key) v.heap) else (v, none)

-- load, the first section: a copy of a key that another caller has loaded.
unfoldable pub begin_load : String → ℤ → Vault → Vault × Option ℕ
unfolding find_entry clone
begin_load company now v = begun now v (find_entry company v.entries)

-- load, for a caller that waited for another's load: its copy of the loaded key, or none if the key
-- was evicted since, when it loads again.
unfoldable pub join_load : ℕ → Vault → Vault × Option ℕ
unfolding clone is_zeroed
join_load key v =
    let (heap, k) = clone key v.heap in
    (record v { heap = heap }, if is_zeroed heap k then none else some k)

abbrev pub with_plaintext : String → Result OpenError (List ℕ) → Result VaultError (List ℕ × String)
with_plaintext version (err e) = err (unopened e)
with_plaintext version (ok plaintext) = ok (plaintext, version)

-- fetch
unfoldable pub fetch_key :
    Crypto → String → Result VaultError SecretVersion → Result VaultError (List ℕ × String)
fetch_key c company (err e) = err e
fetch_key c company (ok s) = with_plaintext s.version_id (open_envelope c company s.value)

abbrev pub old_key : Option CachedKey → Option ℕ
old_key none = none
old_key (some e) = some (e.key)

-- A loaded key takes the place of the company's entry, whose key is overwritten, and is copied.
abbrev pub installed : VaultConfig → String → String → ℤ → Vault → KeyHeap × ℕ → Vault × (ℕ × ℕ)
installed cfg company version now v (heap, key) =
    let (heap', copy) = clone key (zero_key (old_key (find_entry company v.entries)) heap) in
    let e : CachedKey = record {
      key = key;
      version = version;
      expires = now +ℤ cfg.ttl;
      checked_at = now;
    } in
    (record { heap = heap'; entries = (company, e) ∷ remove_entry company v.entries }, (key, copy))

-- load, the last section, given what fetch returned: the key, now shared, and the copy for the caller, or
-- the error. Where the source has a pointer to a key that only this load knows, its bytes stand here.
unfoldable pub end_load :
    VaultConfig
    → String
    → ℤ
    → Result VaultError (List ℕ × String)
    → Vault
    → Vault × Result VaultError (ℕ × ℕ)
unfolding new_key clone zero_key find_entry remove_entry
end_load cfg company now (err e) v = (v, err e)
end_load cfg company now (ok (bytes, version)) v =
    let (after, keys) = installed cfg company version now v (new_key bytes v.heap) in
    (after, ok keys)
