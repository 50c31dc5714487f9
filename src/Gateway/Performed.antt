-- ===== src/Gateway/Performed.antt =====
-- The actions of the resolver's callers, in any interleaving.
use mathlib.Core.Path.{subst}
use ta_platform.Prelude.Results.{Result, ok, err, ok_eq}
use ta_platform.Prelude.{
  ℕ, zero, suc, ◌<◌, ◌≡◌, refl, ap, String, true, Option, none, some, List, [], ◌∷◌, All, ℤ,
}
use ta_platform.Gateway.{
  Vault, VaultError, Crypto, VaultConfig, VaultRun, VaultAct, sweep, close_vault, invalidate,
  is_expired, copy_if_current, begin_load, join_load, fetch_key, end_load, nth, hand_out, joined,
  wiped, perform, perform_all, looks_up, marks, copies, rotates, begins, fetches, lands, fetched,
  landed, without_nth, InFlight, joins, invalidates, sweeps, closes, wipes,
}
use ta_platform.Gateway.Entries.{Apart}
use ta_platform.Gateway.Custody.{Opens, Holds, evict-Custody}
use ta_platform.Gateway.Loading.{evict_all-Custody, mark_checked-Custody}
use ta_platform.Gateway.Interleaved.{
  IsKept, load_ended-IsKept, fetch_key-Opens, look_up-IsKept, copy_if_current-IsKept,
  evict_rotated-IsKept, begin_load-IsKept, joined-IsKept, wiped-IsKept, nth-All,
}

module _ (c : Crypto) where
  -- What is in flight for a company is what an envelope opens to for it.
  abbrev pub IsFlown : List InFlight → Type 0
  IsFlown fs = All (λ x. Opens c (x.0) (x.1.0)) fs

  without_nth-IsFlown : (n : ℕ) (fs : List InFlight) → IsFlown fs → IsFlown (without_nth n fs)
  without_nth-IsFlown n [] h = tt
  without_nth-IsFlown zero (x ∷ fs) h = h.1
  without_nth-IsFlown (suc n) (x ∷ fs) h = (h.0, without_nth-IsFlown n fs h.1)

  fetched-IsFlown :
      (company : String) (s : VaultRun) (r : Result VaultError (List ℕ × String))
      → ((bytes : List ℕ) (version : String) → r ≡ ok (bytes, version) → Opens c company bytes)
      → IsFlown s.flight
      → IsFlown (fetched company s r).flight
  fetched-IsFlown company s (err e) o h = h
  fetched-IsFlown company s (ok (bytes, version)) o h = (o bytes version refl, h)

  fetched-IsKept :
      (company : String) (s : VaultRun) (r : Result VaultError (List ℕ × String))
      → IsKept c s
      → IsKept c (fetched company s r)
  fetched-IsKept company s (err e) h = h
  fetched-IsKept company s (ok found) h = h

  landed-IsFlown :
      (cfg : VaultConfig) (now : ℤ) (s : VaultRun) (left : List InFlight) (o : Option InFlight)
      → IsFlown s.flight
      → IsFlown left
      → IsFlown (landed cfg now s left o).flight
  unfolding end_load
  landed-IsFlown cfg now s left none h k = h
  landed-IsFlown cfg now s left (some (company, (bytes, version))) h k = k

  landed-IsKept :
      (cfg : VaultConfig) (now : ℤ) (s : VaultRun) (left : List InFlight) (o : Option InFlight)
      → ((x : InFlight) → o ≡ some x → Opens c (x.0) (x.1.0))
      → IsKept c s
      → IsKept c (landed cfg now s left o)
  landed-IsKept cfg now s left none p h = h
  landed-IsKept cfg now s left (some (company, (bytes, version))) p h =
      load_ended-IsKept c cfg (record s { flight = left }) company now (ok (bytes, version))
        (λ b v q.
          subst (Opens c company) (ap (λ x. x.0) (ok_eq (bytes, version) (b, v) q))
            (p (company, (bytes, version)) refl))
        h

  hand_out-flight :
      (company : String) (s : VaultRun) (r : Vault × Option ℕ)
      → (hand_out company s r).flight ≡ s.flight
  hand_out-flight company s (v, none) = refl
  hand_out-flight company s (v, some k) = refl

  joined-flight : (s : VaultRun) (o : Option (String × ℕ)) → (joined s o).flight ≡ s.flight
  joined-flight s none = refl
  joined-flight s (some (company, key)) = hand_out-flight company s (join_load key s.vault)

  wiped-flight : (s : VaultRun) (o : Option (String × ℕ)) → (wiped s o).flight ≡ s.flight
  wiped-flight s none = refl
  wiped-flight s (some x) = refl

  perform-IsFlown :
      (cfg : VaultConfig) (a : VaultAct) (s : VaultRun)
      → IsFlown s.flight
      → IsFlown (perform cfg c a s).flight
  unfolding perform
  perform-IsFlown cfg (looks_up company now) s h = h
  perform-IsFlown cfg (marks cached now) s h = h
  perform-IsFlown cfg (copies company cached) s h =
      rw (hand_out-flight company s (copy_if_current company cached s.vault)) h
  perform-IsFlown cfg (rotates company cached) s h = h
  perform-IsFlown cfg (begins company now) s h =
      rw (hand_out-flight company s (begin_load company now s.vault)) h
  perform-IsFlown cfg (fetches company secret) s h =
      fetched-IsFlown company s (fetch_key c company secret) (fetch_key-Opens c company secret) h
  perform-IsFlown cfg (lands n now) s h =
      landed-IsFlown cfg now s (without_nth n s.flight) (nth n s.flight) h
        (without_nth-IsFlown n s.flight h)
  perform-IsFlown cfg (joins n) s h = rw (joined-flight s (nth n s.loads)) h
  perform-IsFlown cfg (invalidates company) s h = h
  perform-IsFlown cfg (sweeps now) s h = h
  perform-IsFlown cfg closes s h = h
  perform-IsFlown cfg (wipes n) s h = rw (wiped-flight s (nth n s.handed)) h

  pub perform-IsKept :
      (cfg : VaultConfig) (a : VaultAct) (s : VaultRun)
      → IsFlown s.flight
      → IsKept c s
      → IsKept c (perform cfg c a s)
  unfolding perform invalidate sweep close_vault
  perform-IsKept cfg (looks_up company now) s f h = look_up-IsKept c s company now h
  perform-IsKept cfg (marks cached now) s f h =
      mark_checked-Custody c s.vault s.loads s.handed cached now h
  perform-IsKept cfg (copies company cached) s f h = copy_if_current-IsKept c s company cached h
  perform-IsKept cfg (rotates company cached) s f h = evict_rotated-IsKept c s company cached h
  perform-IsKept cfg (begins company now) s f h = begin_load-IsKept c s company now h
  perform-IsKept cfg (fetches company secret) s f h =
      fetched-IsKept company s (fetch_key c company secret) h
  perform-IsKept cfg (lands n now) s f h =
      landed-IsKept cfg now s (without_nth n s.flight) (nth n s.flight)
        (λ x p. nth-All c (λ y. Opens c (y.0) (y.1.0)) n s.flight x p f) h
  perform-IsKept cfg (joins n) s f h =
      joined-IsKept c s (nth n s.loads)
        (λ x p.
          (nth-All c (λ y. (y.1 < s.vault.heap.next) × Holds c s.vault.heap (y.0) (y.1)) n s.loads x
            p h.loaded).1)
        h
  perform-IsKept cfg (invalidates company) s f h =
      evict-Custody c s.vault s.loads s.handed company h
  perform-IsKept cfg (sweeps now) s f h =
      evict_all-Custody c (is_expired now) s.vault.entries s.vault s.loads s.handed h
  perform-IsKept cfg closes s f h =
      evict_all-Custody c (λ e. true) s.vault.entries s.vault s.loads s.handed h
  perform-IsKept cfg (wipes n) s f h =
      wiped-IsKept c s (nth n s.handed)
        (λ x p. nth-All c (λ y. Apart (y.1) s.vault.entries) n s.handed x p h.private) h

  pub perform_all-IsKept :
      (cfg : VaultConfig) (acts : List VaultAct) (s : VaultRun)
      → IsFlown s.flight
      → IsKept c s
      → IsKept c (perform_all cfg c acts s)
  unfolding perform_all
  perform_all-IsKept cfg [] s f h = h
  perform_all-IsKept cfg (a ∷ acts) s f h =
      perform_all-IsKept cfg acts (perform cfg c a s) (perform-IsFlown cfg a s f)
        (perform-IsKept cfg a s f h)

  pub perform_all-IsFlown :
      (cfg : VaultConfig) (acts : List VaultAct) (s : VaultRun)
      → IsFlown s.flight
      → IsFlown (perform_all cfg c acts s).flight
  unfolding perform_all
  perform_all-IsFlown cfg [] s f = f
  perform_all-IsFlown cfg (a ∷ acts) s f =
      perform_all-IsFlown cfg acts (perform cfg c a s) (perform-IsFlown cfg a s f)
