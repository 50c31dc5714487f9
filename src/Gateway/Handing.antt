-- ===== src/Gateway/Handing.antt =====
-- Copies of keys handed out, wiped, and cached: what they leave of the custody of keys.
use ta_platform.Prelude.{
  ℕ, ◌+◌, ◌≡◌, refl, sym, ◌∙◌, ◌≢◌, ◌⊎◌, inl, inr, String, some, List, [], ◌∷◌, Bool-cases, ◌==◌,
  ==_refl, ==_iff, arith, All, All-map,
}
use ta_platform.Prelude.Membership.{In}
use ta_platform.Gateway.{Crypto, CachedKey, KeyHeap, zero_key, new_key, Vault}
use ta_platform.Gateway.Entries.{Apart, Elsewhere, keys_of}
use ta_platform.Gateway.Custody.{
  Opens, Holds, Live, Kept, refs_of, Custody, Live-frame, Kept-frame, Live-Apart, zero_key_cases,
  Live-zero_key, Kept-zero_key,
}

new_key_other :
    (h : KeyHeap) (b : List ℕ) (k : ℕ) → k ≢ h.next → (new_key b h).0.secret k ≡ h.secret k
unfolding new_key
new_key_other h b k n = ground arith

pub new_key_self : (h : KeyHeap) (b : List ℕ) → (new_key b h).0.secret (h.next) ≡ b
unfolding new_key
new_key_self h b = rw (==_refl h.next) refl

new_key_next : (h : KeyHeap) (b : List ℕ) → (new_key b h).0.next ≡ h.next + 1
unfolding new_key
new_key_next h b = refl

equal_cases : (a b : ℕ) → (a ≡ b) ⊎ (a ≢ b)
equal_cases a b = elim (Bool-cases (a == b)) [
  | inl e ↦ inl ((==_iff a b).0 e)
  | inr e ↦ inr (λ p. absurd (ground arith))
]

module _ (c : Crypto) where
  pub Live-new_key :
      (h : KeyHeap) (b : List ℕ) (es : List (String × CachedKey))
      → Live c h es
      → Live c (new_key b h).0 es
  Live-new_key h b es l =
      Live-frame c h (new_key b h).0 es (rw (new_key_next h b) (omega arith))
        (All-map (λ x p q. new_key_other h b (x.1.key) (omega (arith, q))) es l) l

  pub Kept-new_key :
      (h : KeyHeap) (b : List ℕ) (rs : List (String × ℕ)) → Kept c h rs → Kept c (new_key b h).0 rs
  Kept-new_key h b rs l =
      Kept-frame c h (new_key b h).0 rs (rw (new_key_next h b) (omega arith))
        (λ k p. inr (new_key_other h b k (omega (arith, p)))) l

  -- A new copy, wiped already or of a key of the company, is handed out.
  pub new_key-Custody :
      (v : Vault) (loads handed : List (String × ℕ)) (company : String) (b : List ℕ)
      → (b ≡ []) ⊎ Opens c company b
      → Custody c v loads handed
      → Custody c (record v { heap = (new_key b v.heap).0 }) loads ((company, v.heap.next) ∷ handed)
  new_key-Custody v loads handed company b p s = record {
    unique = s.unique;
    live = Live-new_key v.heap b v.entries s.live;
    loaded = Kept-new_key v.heap b loads s.loaded;
    owned = (
      (rw (new_key_next v.heap b) (omega arith), Holds-self),
      Kept-new_key v.heap b handed s.owned,
    );
    private = (Live-Apart c v.heap v.entries v.heap.next (omega arith) s.live, s.private);
    covered = λ k. cover k (equal_cases k v.heap.next) (s.covered k);
  }
    where
      Holds-self : Holds c (new_key b v.heap).0 company (v.heap.next)
      Holds-self = rw (new_key_self v.heap b) p

      cover :
          (k : ℕ)
          → (k ≡ v.heap.next) ⊎ (k ≢ v.heap.next)
          → (v.heap.secret k ≡ []) ⊎ (In k (keys_of v.entries) ⊎ In k (refs_of handed))
          → ((new_key b v.heap).0.secret k ≡ [])
            ⊎ (In k (keys_of v.entries) ⊎ In k (v.heap.next ∷ refs_of handed))
      cover k (inl e) h = inr (inr (inl e))
      cover k (inr n) (inl z) = inl (new_key_other v.heap b k n ∙ z)
      cover k (inr n) (inr (inl m)) = inr (inl m)
      cover k (inr n) (inr (inr m)) = inr (inr (inr m))

  -- A copy that is empty need not be handed to anyone.
  pub new_key_empty-Custody :
      (v : Vault) (loads handed : List (String × ℕ))
      → Custody c v loads handed
      → Custody c (record v { heap = (new_key [] v.heap).0 }) loads handed
  new_key_empty-Custody v loads handed s = record {
    unique = s.unique;
    live = Live-new_key v.heap [] v.entries s.live;
    loaded = Kept-new_key v.heap [] loads s.loaded;
    owned = Kept-new_key v.heap [] handed s.owned;
    private = s.private;
    covered = λ k. cover k (equal_cases k v.heap.next) (s.covered k);
  }
    where
      cover :
          (k : ℕ)
          → (k ≡ v.heap.next) ⊎ (k ≢ v.heap.next)
          → (v.heap.secret k ≡ []) ⊎ (In k (keys_of v.entries) ⊎ In k (refs_of handed))
          → ((new_key [] v.heap).0.secret k ≡ [])
            ⊎ (In k (keys_of v.entries) ⊎ In k (refs_of handed))
      cover k (inl e) h = inl (rw e (new_key_self v.heap []))
      cover k (inr n) (inl z) = inl (new_key_other v.heap [] k n ∙ z)
      cover k (inr n) (inr m) = inr m

  -- The holder of a copy wipes it.
  pub wipe-Custody :
      (v : Vault) (loads handed : List (String × ℕ)) (k : ℕ)
      → Apart k v.entries
      → Custody c v loads handed
      → Custody c (record v { heap = zero_key (some k) v.heap }) loads handed
  wipe-Custody v loads handed k a s = record {
    unique = s.unique;
    live = Live-zero_key c v.heap k v.entries a s.live;
    loaded = Kept-zero_key c v.heap k loads s.loaded;
    owned = Kept-zero_key c v.heap k handed s.owned;
    private = s.private;
    covered = λ r. cover r (zero_key_cases v.heap k r) (s.covered r);
  }
    where
      cover :
          (r : ℕ)
          → ((zero_key (some k) v.heap).secret r ≡ [])
            ⊎ ((zero_key (some k) v.heap).secret r ≡ v.heap.secret r)
          → (v.heap.secret r ≡ []) ⊎ (In r (keys_of v.entries) ⊎ In r (refs_of handed))
          → ((zero_key (some k) v.heap).secret r ≡ [])
            ⊎ (In r (keys_of v.entries) ⊎ In r (refs_of handed))
      cover r (inl z) h = inl z
      cover r (inr q) (inl z) = inl (q ∙ z)
      cover r (inr q) (inr m) = inr m

  -- A key that only its loader knows is put in the cache, for a company that has none there.
  pub put-Custody :
      (v : Vault) (loads handed : List (String × ℕ)) (company : String) (e : CachedKey)
      → Elsewhere company v.entries
      → Opens c company (v.heap.secret (e.key))
      → All (λ x. (e.key) ≢ (x.1)) handed
      → Custody c v loads ((company, e.key) ∷ handed)
      → Custody c
          (record v { entries = (company, e) ∷ v.entries })
          ((company, e.key) ∷ loads)
          handed
  put-Custody v loads handed company e w o n s = record {
    unique = (w, s.private.0, s.unique);
    live = ((s.owned.0.0, o), s.live);
    loaded = ((s.owned.0.0, inr o), s.loaded);
    owned = s.owned.1;
    private = both handed n s.private.1;
    covered = λ k. elim (s.covered k) [
      | inl z ↦ inl z
      | inr (inl m) ↦ inr (inl (inr m))
      | inr (inr (inl p)) ↦ inr (inl (inl p))
      | inr (inr (inr m)) ↦ inr (inr m)
    ];
  }
    where
      both :
          (rs : List (String × ℕ))
          → All (λ x. (e.key) ≢ (x.1)) rs
          → All (λ x. Apart (x.1) v.entries) rs
          → All (λ x. Apart (x.1) ((company, e) ∷ v.entries)) rs
      both [] a b = tt
      both (x ∷ rs) a b = ((λ p. a.0 (sym p), b.0), both rs a.1 b.1)
