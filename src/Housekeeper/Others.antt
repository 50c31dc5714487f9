-- ===== src/Housekeeper/Others.antt =====
-- Deleting what belongs to one interview, seen from another.
use ta_platform.Prelude.{
  ℕ, ◌≡◌, refl, ◌∙◌, inl, inr, String, Bool, true, false, ◌&&◌, List, [], ◌∷◌, ◌==◌, str_eq,
  if◌then◌else◌, ℤ, Bool-cases, arith,
}
use ta_platform.Housekeeper.{
  Interviewed, Belonging, PurgeEntry, Estate, is_of, delete_of, is_interview, lock_eligible,
  skeletonize, is_logged, log_purge, PurgeWorld, click_house_tables, has_table, delete_from,
  delete_analytics, analysed, delete_external, count_of,
}

-- What a store holds of one interview.
unfoldable pub keep_of : ℕ → ℕ → List Belonging → List Belonging
keep_of company interview [] = []
keep_of company interview (r ∷ rs) =
    let rest = keep_of company interview rs in if is_of company interview r then r ∷ rest else rest

unfoldable pub keep_tables : ℕ → ℕ → List (String × List Belonging) → List (String × List Belonging)
unfolding keep_of
keep_tables company interview [] = []
keep_tables company interview ((t, rows) ∷ ts) =
    (t, keep_of company interview rows) ∷ keep_tables company interview ts

unfoldable pub keep_interviews : ℕ → ℕ → List Interviewed → List Interviewed
keep_interviews company interview [] = []
keep_interviews company interview (i ∷ is) =
    let rest = keep_interviews company interview is in
    if is_interview company interview i then i ∷ rest else rest

unfoldable pub keep_log : ℕ → ℕ → List PurgeEntry → List PurgeEntry
keep_log company interview [] = []
keep_log company interview (e ∷ es) =
    let rest = keep_log company interview es in
    if e.company_id == company && e.interview_id == interview then e ∷ rest else rest

unfoldable pub of_interview : ℕ → ℕ → Estate → Estate
unfolding keep_of keep_tables keep_interviews keep_log
of_interview company interview e = record {
  documents = keep_of company interview e.documents;
  analytics = keep_tables company interview e.analytics;
  records = record {
    interviews = keep_interviews company interview e.records.interviews;
    scores = keep_of company interview e.records.scores;
    interview_scores = keep_of company interview e.records.interview_scores;
    sessions = keep_of company interview e.records.sessions;
    invites = keep_of company interview e.records.invites;
    purge_log = keep_log company interview e.records.purge_log;
  };
}

-- The external deletes do not touch Postgres.
pub delete_external-records :
    (other_company other : ℕ) (w : PurgeWorld) (e : Estate)
    → (delete_external w other_company other e).0.records ≡ e.records
unfolding delete_external
delete_external-records other_company other w e = elim (Bool-cases w.search_refused) [
  | inl p ↦ rw p refl
  | inr p ↦ elim (Bool-cases w.search_lost) [
    | inl q ↦ rw (p, q) refl
    | inr q ↦
        rw (p, q)
          (analysed-records (delete_analytics w other_company other click_house_tables e.analytics))
  ]
]
  where
    analysed-records :
        (r : List (String × List Belonging) × Bool)
        → (analysed
            (record e { documents = delete_of other_company other e.documents })
            (count_of other_company other e.documents)
            r).0.records
          ≡ e.records
    analysed-records (ts, true) = refl
    analysed-records (ts, false) = refl

module _ (company interview other_company other : ℕ)
    (d : (other_company == company && other == interview) ≡ false) where
  pub apart :
      (r : Belonging) → is_of other_company other r ≡ true → is_of company interview r ≡ false
  apart r h = ground arith

  pub keep_of-delete_of :
      (rs : List Belonging)
      → keep_of company interview (delete_of other_company other rs) ≡ keep_of company interview rs
  unfolding keep_of delete_of
  keep_of-delete_of [] = refl
  keep_of-delete_of (r ∷ rs) = elim (Bool-cases (is_of other_company other r)) [
    | inl p ↦ rw (p, apart r p, keep_of-delete_of rs) refl
    | inr p ↦ rw (p, keep_of-delete_of rs) refl
  ]

  pub keep_tables-delete_from :
      (name : String) (ts : List (String × List Belonging))
      → keep_tables company interview (delete_from name other_company other ts)
        ≡ keep_tables company interview ts
  unfolding keep_tables delete_from
  keep_tables-delete_from name [] = refl
  keep_tables-delete_from name ((t, rows) ∷ ts) = elim (Bool-cases (str_eq name t)) [
    | inl p ↦ rw (p, keep_of-delete_of rows, keep_tables-delete_from name ts) refl
    | inr p ↦ rw (p, keep_tables-delete_from name ts) refl
  ]

  pub keep_tables-delete_analytics :
      (w : PurgeWorld) (names : List String) (ts : List (String × List Belonging))
      → keep_tables company interview (delete_analytics w other_company other names ts).0
        ≡ keep_tables company interview ts
  unfolding delete_analytics
  keep_tables-delete_analytics w [] ts = refl
  keep_tables-delete_analytics w (name ∷ names) ts = elim (Bool-cases (w.check_fails name)) [
    | inl p ↦ rw p refl
    | inr p ↦ elim (Bool-cases (has_table name ts)) [
      | inr q ↦ rw (p, q) (keep_tables-delete_analytics w names ts)
      | inl q ↦ elim (Bool-cases (w.delete_fails name)) [
        | inl f ↦ rw (p, q, f) refl
        | inr f ↦
            rw (p, q, f)
              (keep_tables-delete_analytics w names (delete_from name other_company other ts)
                ∙ keep_tables-delete_from name ts)
      ]
    ]
  ]

  pub apart_interview :
      (i : Interviewed)
      → is_interview other_company other i ≡ true
      → is_interview company interview i ≡ false
  apart_interview i h = ground arith

  pub keep_interviews-skeletonize :
      (now : ℤ) (is : List Interviewed)
      → keep_interviews company interview (skeletonize other_company other now is)
        ≡ keep_interviews company interview is
  unfolding keep_interviews skeletonize
  keep_interviews-skeletonize now [] = refl
  keep_interviews-skeletonize now (i ∷ is) =
      elim (Bool-cases (is_interview other_company other i)) [
        | inl p ↦ rw (p, apart_interview i p, keep_interviews-skeletonize now is) refl
        | inr p ↦ rw (p, keep_interviews-skeletonize now is) refl
      ]

  pub lock_eligible-skeletonize :
      (cutoff now : ℤ) (is : List Interviewed)
      → lock_eligible company interview cutoff (skeletonize other_company other now is)
        ≡ lock_eligible company interview cutoff is
  unfolding lock_eligible skeletonize
  lock_eligible-skeletonize cutoff now [] = refl
  lock_eligible-skeletonize cutoff now (i ∷ is) =
      elim (Bool-cases (is_interview other_company other i)) [
        | inl p ↦ rw (p, apart_interview i p, lock_eligible-skeletonize cutoff now is) refl
        | inr p ↦ rw (p, lock_eligible-skeletonize cutoff now is) refl
      ]

  pub keep_log-log_purge :
      (e : PurgeEntry) (es : List PurgeEntry)
      → e.company_id ≡ other_company
      → e.interview_id ≡ other
      → keep_log company interview (log_purge e es) ≡ keep_log company interview es
  unfolding keep_log log_purge
  keep_log-log_purge e es p q = elim (Bool-cases (is_logged e.company_id e.interview_id es)) [
    | inl l ↦ rw l refl
    | inr l ↦ rw (l, p, q, d) refl
  ]
