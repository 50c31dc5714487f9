-- ===== src/Housekeeper/Retries.antt =====
-- What a purge that fails leaves for the next.
use ta_platform.Prelude.Results.{Result, ok, err, err_not_ok}
use ta_platform.Prelude.{
  ℕ, ◌≡◌, refl, sym, ◌∙◌, ap, ◌≢◌, inl, inr, String, Bool, true, false, ◌||◌, Option, none, some,
  List, [], ◌∷◌, ℤ, Bool-cases,
}
use ta_platform.Housekeeper.{
  Belonging, PurgeReason, Estate, delete_of, count_of, lock_eligible, PurgeWorld, PurgeError,
  click_house_tables, has_table, delete_from, delete_analytics, analysed, delete_external,
  statement_fails, purged_with, purge_locked, purge,
}
use ta_platform.Housekeeper.Others.{delete_external-records}

-- Nothing fails.
pub record IsCalm (w : PurgeWorld) : Type 0 where
  pub search_refused : w.search_refused ≡ false
  pub search_lost : w.search_lost ≡ false
  pub check_fails : (name : String) → w.check_fails name ≡ false
  pub delete_fails : (name : String) → w.delete_fails name ≡ false
  pub fails_at : (n : ℕ) → w.fails_at n ≡ false

module _ (company interview : ℕ) where
  delete_analytics_calm :
      (w : PurgeWorld) (names : List String) (ts : List (String × List Belonging))
      → IsCalm w
      → (delete_analytics w company interview names ts).1 ≡ true
  unfolding delete_analytics
  delete_analytics_calm w [] ts c = refl
  delete_analytics_calm w (n ∷ names) ts c = elim (Bool-cases (has_table n ts)) [
    | inl q ↦
        rw (c.check_fails n, q, c.delete_fails n)
          (delete_analytics_calm w names (delete_from n company interview ts) c)
    | inr q ↦ rw (c.check_fails n, q) (delete_analytics_calm w names ts c)
  ]

  analysed_ok :
      (e : Estate) (n : ℕ) (r : List (String × List Belonging) × Bool)
      → r.1 ≡ true
      → (analysed e n r).1 ≡ ok n
  analysed_ok e n (ts, true) h = refl
  analysed_ok e n (ts, false) h = cc

  delete_external_calm :
      (w : PurgeWorld) (e : Estate)
      → IsCalm w
      → (deleted : ℕ) × ((delete_external w company interview e).1 ≡ ok deleted)
  unfolding delete_external
  delete_external_calm w e c =
      let n = count_of company interview e.documents in
      (
        n,
        rw (c.search_refused, c.search_lost)
            (analysed_ok (record e { documents = delete_of company interview e.documents }) n
              (delete_analytics w company interview click_house_tables e.analytics)
              (delete_analytics_calm w click_house_tables e.analytics c)),
      )

  purged_with_calm :
      (w : PurgeWorld) (reason : PurgeReason) (x : Estate × Result PurgeError ℕ) (deleted : ℕ)
      → IsCalm w
      → x.1 ≡ ok deleted
      → (purged_with w company interview reason x).1 ≡ ok true
  purged_with_calm w reason (e, err y) deleted c h = absurd (err_not_ok y deleted h)
  purged_with_calm w reason (e, ok n) deleted c h =
      rw
        (
          c.fails_at 2,
          c.fails_at 3,
          c.fails_at 4,
          c.fails_at 5,
          c.fails_at 6,
          c.fails_at 7,
          c.fails_at 8,
        )
        refl

  purge_locked_calm :
      (w : PurgeWorld) (o : Option PurgeReason) (reason : PurgeReason) (e : Estate)
      → IsCalm w
      → o ≡ some reason
      → (purge_locked w company interview o e).1 ≡ ok true
  purge_locked_calm w none reason e c h = absurd (none_some h)
    where
      none_some : none ≢ some reason
      none_some h = cc
  purge_locked_calm w (some r) reason e c h =
      let (deleted, q) = delete_external_calm w e c in
      purged_with_calm w r (delete_external w company interview e) deleted c q

  purged_with-records :
      (w : PurgeWorld) (reason : PurgeReason) (x : Estate × Result PurgeError ℕ) (y : PurgeError)
      → (purged_with w company interview reason x).1 ≡ err y
      → (purged_with w company interview reason x).0.records ≡ x.0.records
  purged_with-records w reason (e, err z) y h = refl
  purged_with-records w reason (e, ok n) y h = elim (Bool-cases (statement_fails w)) [
    | inl p ↦ rw p refl
    | inr p ↦ absurd (err_not_ok y true (sym (rw p at h)))
  ]

  purge_locked-records :
      (w : PurgeWorld) (o : Option PurgeReason) (e : Estate) (y : PurgeError)
      → (purge_locked w company interview o e).1 ≡ err y
      → (purge_locked w company interview o e).0.records ≡ e.records
  purge_locked-records w none e y h = refl
  purge_locked-records w (some reason) e y h =
      purged_with-records w reason (delete_external w company interview e) y h
      ∙ delete_external-records company interview w e

-- A purge that fails, at whatever step, leaves Postgres as it was, so that the interview stays eligible;
-- and the next purge of it in which nothing fails succeeds, whatever the first one had deleted.
pub purge-err :
    (company interview : ℕ) (w next : PurgeWorld) (cutoff : ℤ) (e : Estate) (y : PurgeError)
    (reason : PurgeReason)
    → lock_eligible company interview cutoff e.records.interviews ≡ some reason
    → (purge w cutoff company interview e).1 ≡ err y
    → IsCalm next
    → let after = (purge w cutoff company interview e).0 in
      (after.records ≡ e.records) × ((purge next cutoff company interview after).1 ≡ ok true)
unfolding purge
purge-err company interview w next cutoff e y reason l h c =
    let after = (purge w cutoff company interview e).0 in
    let kept : after.records ≡ e.records = elim (Bool-cases (w.fails_at 0 || w.fails_at 1)) [
      | inl p ↦ rw p refl
      | inr p ↦ rw p (
          purge_locked-records company interview w
            (lock_eligible company interview cutoff e.records.interviews) e y (rw p at h))
    ] in
    (
      kept,
      rw (c.fails_at 0, c.fails_at 1)
          (purge_locked_calm company interview next
            (lock_eligible company interview cutoff after.records.interviews) reason after c
            (ap (λ r. lock_eligible company interview cutoff r.interviews) kept ∙ l)),
    )
