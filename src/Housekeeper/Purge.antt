-- ===== src/Housekeeper/Purge.antt =====
-- internal/housekeeper/housekeeper.go: Run and deleteExternal; stores.go: the deletes on Typesense and
-- ClickHouse; internal/store/postgres/housekeeper.go: Candidates and Purge. What fails is an argument.
use ta_platform.Prelude.Results.{Result, ok, err}
use ta_platform.Prelude.{
  ℕ, zero, suc, String, Bool, true, false, not, ◌&&◌, ◌||◌, Option, none, some, List, [], ◌∷◌, ◌==◌,
  ltb, str_eq, if◌then◌else◌, ℤ, pos, ltb_ℤ, eqb_ℤ, ◌-ℤ◌, length, sort_stable,
}
use ta_platform.Housekeeper.Stores.{
  Interviewed, Belonging, PurgeReason, PurgeEntry, Records, Estate, PurgeCandidate, delete_of,
  count_of, is_eligible, reason_of, lock_eligible, skeletonize, log_purge,
}

-- What a purge of one interview meets: whether Typesense refuses the delete, or its answer is lost after
-- it; for each table of ClickHouse whether the check for it or the delete fails; which statement of the
-- transaction fails, by its place (0 is Begin, 1 the lock, 2 to 6 the statements, 7 the log, 8 the
-- commit); the database's clock.
pub record PurgeWorld : Type 0 where
  pub search_refused : Bool
  pub search_lost : Bool
  pub check_fails : String → Bool
  pub delete_fails : String → Bool
  pub fails_at : ℕ → Bool
  pub now : ℤ

-- The step that failed.
pub data PurgeError : Type 0 where
  search_error analytics_error database_error : PurgeError

-- ClickHouseTables
abbrev pub click_house_tables : List String
click_house_tables = "events" ∷ "session_metric_rows" ∷ "interview_activity" ∷ []

unfoldable pub has_table : String → List (String × List Belonging) → Bool
has_table name [] = false
has_table name ((t, rows) ∷ ts) = str_eq name t || has_table name ts

unfoldable pub delete_from :
    String → ℕ → ℕ → List (String × List Belonging) → List (String × List Belonging)
unfolding delete_of
delete_from name company interview [] = []
delete_from name company interview ((t, rows) ∷ ts) =
    (t, if str_eq name t then delete_of company interview rows else rows)
    ∷ delete_from name company interview ts

-- ClickHouseAnalytics.DeleteInterview: the tables after it, and whether it succeeded.
unfoldable pub delete_analytics :
    PurgeWorld
    → ℕ
    → ℕ
    → List String
    → List (String × List Belonging)
    → List (String × List Belonging) × Bool
unfolding has_table delete_from
delete_analytics w company interview [] tables = (tables, true)
delete_analytics w company interview (name ∷ names) tables =
    let skipped = delete_analytics w company interview names tables in
    let deleted =
      delete_analytics w company interview names (delete_from name company interview tables) in
    if w.check_fails name
    then (tables, false)
    else if not (has_table name tables)
    then skipped
    else if w.delete_fails name
    then (tables, false)
    else deleted

abbrev pub analysed :
    Estate → ℕ → List (String × List Belonging) × Bool → Estate × Result PurgeError ℕ
analysed e deleted (tables, true) = (record e { analytics = tables }, ok deleted)
analysed e deleted (tables, false) = (record e { analytics = tables }, err analytics_error)

-- deleteExternal: the number of documents deleted.
unfoldable pub delete_external : PurgeWorld → ℕ → ℕ → Estate → Estate × Result PurgeError ℕ
unfolding delete_of count_of delete_analytics
delete_external w company interview e =
    let without = record e { documents = delete_of company interview e.documents } in
    let deleted = count_of company interview e.documents in
    if w.search_refused
    then (e, err search_error)
    else if w.search_lost
    then (without, err search_error)
    else analysed without deleted
        (delete_analytics w company interview click_house_tables e.analytics)

abbrev pub purge_entry : PurgeWorld → ℕ → ℕ → PurgeReason → ℕ → PurgeEntry
purge_entry w company interview reason deleted = record {
  company_id = company;
  interview_id = interview;
  reason = reason;
  search_documents_deleted = deleted;
  purged_at = w.now;
}

-- The statements of the transaction.
unfoldable pub purge_records : PurgeWorld → ℕ → ℕ → PurgeReason → ℕ → Records → Records
unfolding skeletonize delete_of log_purge
purge_records w company interview reason deleted r = record {
  interviews = skeletonize company interview w.now r.interviews;
  scores = delete_of company interview r.scores;
  interview_scores = delete_of company interview r.interview_scores;
  sessions = delete_of company interview r.sessions;
  invites = delete_of company interview r.invites;
  purge_log = log_purge (purge_entry w company interview reason deleted) r.purge_log;
}

-- One of the steps from the first statement to the commit fails.
abbrev pub statement_fails : PurgeWorld → Bool
statement_fails w =
    w.fails_at 2
    || (w.fails_at 3
        || (w.fails_at 4 || (w.fails_at 5 || (w.fails_at 6 || (w.fails_at 7 || w.fails_at 8)))))

abbrev pub purged_with :
    PurgeWorld
    → ℕ
    → ℕ
    → PurgeReason
    → Estate × Result PurgeError ℕ
    → Estate × Result PurgeError Bool
purged_with w company interview reason (e, err x) = (e, err x)
purged_with w company interview reason (e, ok deleted) =
    if statement_fails w then (e, err database_error) else (
      record e { records = purge_records w company interview reason deleted e.records },
      ok true,
    )

abbrev pub purge_locked :
    PurgeWorld → ℕ → ℕ → Option PurgeReason → Estate → Estate × Result PurgeError Bool
purge_locked w company interview none e = (e, ok false)
purge_locked w company interview (some reason) e =
    purged_with w company interview reason (delete_external w company interview e)

-- Purge
unfoldable pub purge : PurgeWorld → ℤ → ℕ → ℕ → Estate → Estate × Result PurgeError Bool
unfolding lock_eligible delete_external purge_records
purge w cutoff company interview e =
    if w.fails_at 0 || w.fails_at 1
    then (e, err database_error)
    else purge_locked w company interview
        (lock_eligible company interview cutoff e.records.interviews) e

-- The ORDER BY of Candidates.
abbrev listed_at : Interviewed → ℤ
listed_at i = elim i.erase_requested_at [
  | some t ↦ t
  | none ↦ elim i.terminal_at [ some t ↦ t | none ↦ pos 0 ]
]

abbrev listed_before : Interviewed → Interviewed → Bool
listed_before a b =
    ltb_ℤ (listed_at a) (listed_at b)
    || (eqb_ℤ (listed_at a) (listed_at b)
        && (ltb a.company_id b.company_id || (a.company_id == b.company_id && ltb a.id b.id)))

unfoldable pub eligible_of : ℤ → List Interviewed → List Interviewed
unfolding is_eligible
eligible_of cutoff [] = []
eligible_of cutoff (i ∷ is) =
    let rest = eligible_of cutoff is in if is_eligible cutoff i then i ∷ rest else rest

unfoldable pub first_candidates : ℕ → List Interviewed → List PurgeCandidate
first_candidates zero is = []
first_candidates (suc n) [] = []
first_candidates (suc n) (i ∷ is) =
    (record { company_id = i.company_id; interview_id = i.id; reason = reason_of i })
    ∷ first_candidates n is

unfoldable pub list_candidates : ℤ → ℕ → Estate → List PurgeCandidate
unfolding eligible_of first_candidates
list_candidates cutoff limit e =
    first_candidates limit (sort_stable listed_before (eligible_of cutoff e.records.interviews))

-- Report
pub record PurgeReport : Type 0 where
  pub candidates : ℕ
  pub purged : List PurgeCandidate
  pub skipped : List PurgeCandidate
  pub failures : List (PurgeCandidate × PurgeError)

abbrev pub reported : PurgeCandidate → Result PurgeError Bool → PurgeReport → PurgeReport
reported c (err x) r = record r { failures = (c, x) ∷ r.failures }
reported c (ok true) r = record r { purged = c ∷ r.purged }
reported c (ok false) r = record r { skipped = c ∷ r.skipped }

abbrev pub with_report :
    PurgeCandidate → Result PurgeError Bool → Estate × PurgeReport → Estate × PurgeReport
with_report c result (e, r) = (e, reported c result r)

abbrev pub no_report : ℕ → PurgeReport
no_report n = record { candidates = n; purged = []; skipped = []; failures = [] }

-- The loop of Run; `done` says before which candidate the context is done, `world` what each purge meets.
unfoldable pub purge_all :
    (ℕ → PurgeWorld) → (ℕ → Bool) → ℤ → ℕ → ℕ → List PurgeCandidate → Estate → Estate × PurgeReport
unfolding purge
purge_all world done cutoff n i [] e = (e, no_report n)
purge_all world done cutoff n i (c ∷ cs) e =
    let (after, result) = purge (world i) cutoff c.company_id c.interview_id e in
    let rest = purge_all world done cutoff n (suc i) cs after in
    if done i then (e, no_report n) else with_report c result rest

-- Run, with its clock; `none` when the candidates cannot be listed.
unfoldable pub run_housekeeper :
    ℤ → ℕ → ℤ → Bool → (ℕ → PurgeWorld) → (ℕ → Bool) → Estate → Estate × Option PurgeReport
unfolding list_candidates purge_all
run_housekeeper retention batch_size now list_fails world done e =
    let cutoff = now -ℤ retention in
    let cs = list_candidates cutoff batch_size e in
    let (after, report) = purge_all world done cutoff (length cs) 0 cs e in
    if list_fails then (e, none) else (after, some report)
