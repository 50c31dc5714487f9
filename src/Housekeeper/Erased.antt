-- ===== src/Housekeeper/Erased.antt =====
-- What a purge that succeeds has erased.
use ta_platform.Prelude.Results.{Result, ok, err, err_not_ok}
use ta_platform.Prelude.{
  ℕ, ◌≡◌, refl, ◌≢◌, inl, inr, Bool, true, false, ◌||◌, Option, none, some, List, [], ◌∷◌, ==_refl,
  if◌then◌else◌, ℤ, All, Bool-cases,
}
use ta_platform.Housekeeper.{
  Interviewed, PurgeReason, PurgeEntry, Estate, is_interview, lock_eligible, skeleton, skeletonize,
  is_logged, log_purge, erased_placeholder, PurgeWorld, PurgeError, click_house_tables,
  delete_external, purge_entry, purge_records, statement_fails, purged_with, purge_locked, purge,
  database_error,
}
use ta_platform.Housekeeper.Others.{keep_of}
use ta_platform.Housekeeper.Cleared.{Cleared, External, delete_external-External, keep_of-deleted}

module _ (company interview : ℕ) where
  log_purge-is_logged :
      (e : PurgeEntry) (es : List PurgeEntry)
      → is_logged e.company_id e.interview_id (log_purge e es) ≡ true
  unfolding log_purge is_logged
  log_purge-is_logged e es = elim (Bool-cases (is_logged e.company_id e.interview_id es)) [
    | inl p ↦ rw p p
    | inr p ↦ rw (p, ==_refl e.company_id, ==_refl e.interview_id) refl
  ]

  -- A row of the interview that has been made a skeleton.
  abbrev IsSkeleton : Interviewed → Type 0
  IsSkeleton i =
      is_interview company interview i ≡ true
      → (i.candidate_name ≡ erased_placeholder)
        × (i.candidate_email ≡ erased_placeholder)
        × (i.purged_at ≢ none)

  some_time : (t : ℤ) → some t ≢ none
  some_time t h = cc

  skeletonize-IsSkeleton :
      (now : ℤ) (is : List Interviewed) → All IsSkeleton (skeletonize company interview now is)
  unfolding skeletonize
  skeletonize-IsSkeleton now [] = tt
  skeletonize-IsSkeleton now (i ∷ is) = (head, skeletonize-IsSkeleton now is)
    where
      no :
          (i : Interviewed)
          → is_interview company interview i ≡ false
          → is_interview company interview i ≡ true
          → ⊥
      no i p q = cc

      head : IsSkeleton (if is_interview company interview i then skeleton now i else i)
      head = elim (Bool-cases (is_interview company interview i)) [
        | inl p ↦ rw p (λ h. (refl, refl, some_time now))
        | inr p ↦ rw p (λ h. absurd (no i p h))
      ]

  -- Nothing of the interview but its skeleton and its log entry.
  pub record IsErased (e : Estate) : Type 0 where
    pub documents : keep_of company interview e.documents ≡ []
    pub analytics : All (Cleared company interview e.analytics) click_house_tables
    pub scores : keep_of company interview e.records.scores ≡ []
    pub interview_scores : keep_of company interview e.records.interview_scores ≡ []
    pub sessions : keep_of company interview e.records.sessions ≡ []
    pub invites : keep_of company interview e.records.invites ≡ []
    pub skeletons : All IsSkeleton e.records.interviews
    pub logged : is_logged company interview e.records.purge_log ≡ true

  purged_with-IsErased :
      (w : PurgeWorld) (reason : PurgeReason) (x : Estate × Result PurgeError ℕ)
      → ((deleted : ℕ) → x.1 ≡ ok deleted → External company interview (x.0))
      → (purged_with w company interview reason x).1 ≡ ok true
      → IsErased (purged_with w company interview reason x).0
  unfolding purge_records
  purged_with-IsErased w reason (e, err y) f h = absurd (err_not_ok y true h)
  purged_with-IsErased w reason (e, ok deleted) f h = elim (Bool-cases (statement_fails w)) [
    | inl p ↦ absurd (err_not_ok database_error true (rw p at h))
    | inr p ↦
        let (documents, analytics) = f deleted refl in
        rw p (record {
          documents = documents;
          analytics = analytics;
          scores = keep_of-deleted company interview e.records.scores;
          interview_scores = keep_of-deleted company interview e.records.interview_scores;
          sessions = keep_of-deleted company interview e.records.sessions;
          invites = keep_of-deleted company interview e.records.invites;
          skeletons = skeletonize-IsSkeleton w.now e.records.interviews;
          logged =
              log_purge-is_logged (purge_entry w company interview reason deleted)
                e.records.purge_log;
        })
  ]

  purge_locked-IsErased :
      (w : PurgeWorld) (o : Option PurgeReason) (e : Estate)
      → (purge_locked w company interview o e).1 ≡ ok true
      → IsErased (purge_locked w company interview o e).0
  purge_locked-IsErased w none e h = absurd (not_true h)
    where
      not_true : ◌≢◌ {A = Result PurgeError Bool} (ok false) (ok true)
      not_true h = cc
  purge_locked-IsErased w (some reason) e h =
      purged_with-IsErased w reason (delete_external w company interview e)
        (delete_external-External company interview w e) h

-- When Purge reports an interview as purged, nothing is left of it but its skeleton and its entry in
-- purge_log: no document in Typesense, no row in any of the per-interview tables of ClickHouse that
-- exist, no score, interview score, session or invite; its row has placeholders for the candidate's name
-- and email, and is marked as purged.
pub purge-IsErased :
    (company interview : ℕ) (w : PurgeWorld) (cutoff : ℤ) (e : Estate)
    → (purge w cutoff company interview e).1 ≡ ok true
    → IsErased company interview (purge w cutoff company interview e).0
unfolding purge
purge-IsErased company interview w cutoff e h = elim (Bool-cases (w.fails_at 0 || w.fails_at 1)) [
  | inl p ↦ absurd (err_not_ok database_error true (rw p at h))
  | inr p ↦ rw p (
      purge_locked-IsErased company interview w
        (lock_eligible company interview cutoff e.records.interviews) e (rw p at h))
]
