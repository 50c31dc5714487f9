-- ===== src/Housekeeper/Protected.antt =====
-- What a run of the housekeeper leaves alone.
use ta_platform.Prelude.Results.{Result, ok, err}
use ta_platform.Prelude.{
  ℕ, suc, ◌≡◌, refl, ◌∙◌, ap, inl, inr, String, Bool, true, false, ◌&&◌, ◌||◌, Option, none, some,
  List, [], ◌∷◌, ◌==◌, ℤ, ◌-ℤ◌, length, Bool-cases, arith,
}
use ta_platform.Housekeeper.{
  Belonging, PurgeReason, Estate, PurgeCandidate, delete_of, lock_eligible, PurgeWorld, PurgeError,
  click_house_tables, delete_analytics, analysed, delete_external, count_of, purge_entry,
  purge_records, statement_fails, purged_with, purge_locked, purge, purge_all, list_candidates,
  run_housekeeper,
}
use ta_platform.Housekeeper.Others.{
  delete_external-records, keep_interviews-skeletonize, keep_log-log_purge, keep_of-delete_of,
  keep_tables, keep_tables-delete_analytics, lock_eligible-skeletonize, of_interview,
}

module _ (company interview other_company other : ℕ)
    (d : (other_company == company && other == interview) ≡ false) where
  analysed-kept :
      (e : Estate) (deleted : ℕ) (r : List (String × List Belonging) × Bool)
      → keep_tables company interview (r.0) ≡ keep_tables company interview e.analytics
      → of_interview company interview
          (analysed
            (record e { documents = delete_of other_company other e.documents })
            deleted
            r).0
        ≡ of_interview company interview e
  unfolding of_interview
  analysed-kept e deleted (ts, true) h =
      rw (h, keep_of-delete_of company interview other_company other d e.documents) refl
  analysed-kept e deleted (ts, false) h =
      rw (h, keep_of-delete_of company interview other_company other d e.documents) refl

  delete_external-kept :
      (w : PurgeWorld) (e : Estate)
      → of_interview company interview (delete_external w other_company other e).0
        ≡ of_interview company interview e
  unfolding delete_external of_interview
  delete_external-kept w e = elim (Bool-cases w.search_refused) [
    | inl p ↦ rw p refl
    | inr p ↦ elim (Bool-cases w.search_lost) [
      | inl q ↦
          rw (p, q, keep_of-delete_of company interview other_company other d e.documents) refl
      | inr q ↦
          rw (p, q)
            (analysed-kept e (count_of other_company other e.documents)
              (delete_analytics w other_company other click_house_tables e.analytics)
              (keep_tables-delete_analytics company interview other_company other d w
                click_house_tables e.analytics))
    ]
  ]

  purge_records-kept :
      (w : PurgeWorld) (reason : PurgeReason) (deleted : ℕ) (e : Estate)
      → of_interview company interview
          (record e { records = purge_records w other_company other reason deleted e.records })
        ≡ of_interview company interview e
  unfolding of_interview purge_records
  purge_records-kept w reason deleted e =
      rw
        (
          keep_interviews-skeletonize company interview other_company other d w.now
              e.records.interviews,
          keep_of-delete_of company interview other_company other d e.records.scores,
          keep_of-delete_of company interview other_company other d e.records.interview_scores,
          keep_of-delete_of company interview other_company other d e.records.sessions,
          keep_of-delete_of company interview other_company other d e.records.invites,
          keep_log-log_purge company interview other_company other d
              (purge_entry w other_company other reason deleted) e.records.purge_log refl refl,
        )
        refl

  purged_with-kept :
      (w : PurgeWorld) (reason : PurgeReason) (r : Estate × Result PurgeError ℕ)
      → of_interview company interview (purged_with w other_company other reason r).0
        ≡ of_interview company interview (r.0)
  purged_with-kept w reason (e, err x) = refl
  purged_with-kept w reason (e, ok deleted) = elim (Bool-cases (statement_fails w)) [
    | inl p ↦ rw p refl
    | inr p ↦ rw p (purge_records-kept w reason deleted e)
  ]

  purged_with-lock :
      (w : PurgeWorld) (reason : PurgeReason) (cutoff : ℤ) (r : Estate × Result PurgeError ℕ)
      → lock_eligible company interview cutoff
          (purged_with w other_company other reason r).0.records.interviews
        ≡ lock_eligible company interview cutoff r.0.records.interviews
  unfolding purge_records
  purged_with-lock w reason cutoff (e, err x) = refl
  purged_with-lock w reason cutoff (e, ok deleted) = elim (Bool-cases (statement_fails w)) [
    | inl p ↦ rw p refl
    | inr p ↦ rw p (
        lock_eligible-skeletonize company interview other_company other d cutoff w.now
          e.records.interviews)
  ]

  -- The purge of another interview.
  purge_locked-kept :
      (w : PurgeWorld) (cutoff : ℤ) (o : Option PurgeReason) (e : Estate)
      → (of_interview company interview (purge_locked w other_company other o e).0
          ≡ of_interview company interview e)
        × (lock_eligible company interview cutoff
              (purge_locked w other_company other o e).0.records.interviews
            ≡ lock_eligible company interview cutoff e.records.interviews)
  purge_locked-kept w cutoff none e = (refl, refl)
  purge_locked-kept w cutoff (some reason) e =
      let x = delete_external w other_company other e in
      (
        purged_with-kept w reason x ∙ delete_external-kept w e,
        purged_with-lock w reason cutoff x
            ∙ ap (λ r. lock_eligible company interview cutoff r.interviews)
                (delete_external-records other_company other w e),
      )

-- One purge, of this interview or of another, when this one may not be purged.
module _ (company interview : ℕ) (cutoff : ℤ) where
  Kept : Estate → Estate → Type 0
  Kept e after =
      (of_interview company interview after ≡ of_interview company interview e)
      × (lock_eligible company interview cutoff after.records.interviews ≡ none)

  purge-Kept :
      (w : PurgeWorld) (other_company other : ℕ) (e : Estate)
      → lock_eligible company interview cutoff e.records.interviews ≡ none
      → Kept e (purge w cutoff other_company other e).0
  unfolding purge Kept
  purge-Kept w other_company other e h = elim (Bool-cases (w.fails_at 0 || w.fails_at 1)) [
    | inl p ↦ rw p (refl, h)
    | inr p ↦ elim (Bool-cases (other_company == company && other == interview)) [
      | inl q ↦
          let a : other_company ≡ company = ground arith in
          let b : other ≡ interview = ground arith in rw (p, a, b, h) (refl, h)
      | inr q ↦
          let (x, y) =
            purge_locked-kept company interview other_company other q w cutoff
              (lock_eligible other_company other cutoff e.records.interviews) e in
          rw p (x, y ∙ h)
    ]
  ]

  purge_all-kept :
      (world : ℕ → PurgeWorld) (done : ℕ → Bool) (n i : ℕ) (cs : List PurgeCandidate) (e : Estate)
      → lock_eligible company interview cutoff e.records.interviews ≡ none
      → of_interview company interview (purge_all world done cutoff n i cs e).0
        ≡ of_interview company interview e
  unfolding purge_all Kept
  purge_all-kept world done n i [] e h = refl
  purge_all-kept world done n i (c ∷ cs) e h = elim (Bool-cases (done i)) [
    | inl p ↦ rw p refl
    | inr p ↦
        let (kept, still) = purge-Kept (world i) c.company_id c.interview_id e h in
        rw p (
          purge_all-kept world done n (suc i) cs
            (purge (world i) cutoff c.company_id c.interview_id e).0 still
          ∙ kept)
  ]

-- A run of the housekeeper changes nothing of an interview that may not be purged: one under legal hold,
-- already purged, or neither asked to be erased nor past its retention. Its row, scores, sessions,
-- invites, log entry, indexed documents and analytics rows are what they were, whatever else the run
-- purges and whatever fails.
pub run_housekeeper-lock_eligible :
    (company interview : ℕ) (retention : ℤ) (batch_size : ℕ) (now : ℤ) (list_fails : Bool)
    (world : ℕ → PurgeWorld) (done : ℕ → Bool) (e : Estate)
    → lock_eligible company interview (now -ℤ retention) e.records.interviews ≡ none
    → of_interview company interview
        (run_housekeeper retention batch_size now list_fails world done e).0
      ≡ of_interview company interview e
unfolding run_housekeeper
run_housekeeper-lock_eligible company interview retention batch_size now list_fails world done e h =
    let cs = list_candidates (now -ℤ retention) batch_size e in
    elim (Bool-cases list_fails) [
      | inl p ↦ rw p refl
      | inr p ↦
          rw p (purge_all-kept company interview (now -ℤ retention) world done (length cs) 0 cs e h)
    ]
