-- ===== src/Housekeeper/Stores.antt =====
-- internal/store/postgres/housekeeper.go and internal/housekeeper: the stores that hold an interview's
-- data, and the deletes on them. Rows that the purge deletes whole are their keys and an id.
use ta_platform.Prelude.{
  ℕ, suc, String, Bool, true, false, not, ◌&&◌, ◌||◌, Option, none, some, List, [], ◌∷◌, ◌==◌,
  if◌then◌else◌, ℤ, ltb_ℤ,
}

pub record Interviewed : Type 0 where
  pub company_id : ℕ
  pub id : ℕ
  pub status : String
  pub candidate_name : String
  pub candidate_email : String
  pub terminal_at : Option ℤ
  pub legal_hold : Bool
  pub erase_requested_at : Option ℤ
  pub purged_at : Option ℤ

-- A row of a table that has the columns company_id and interview_id.
pub record Belonging : Type 0 where
  pub company_id : ℕ
  pub interview_id : ℕ
  pub row_id : ℕ

pub data PurgeReason : Type 0 where
  retention erasure : PurgeReason

pub record PurgeEntry : Type 0 where
  pub company_id : ℕ
  pub interview_id : ℕ
  pub reason : PurgeReason
  pub search_documents_deleted : ℕ
  pub purged_at : ℤ

-- The tables of Postgres.
pub record Records : Type 0 where
  pub interviews : List Interviewed
  pub scores : List Belonging
  pub interview_scores : List Belonging
  pub sessions : List Belonging
  pub invites : List Belonging
  pub purge_log : List PurgeEntry

-- The documents of Typesense, the tables of ClickHouse with their names, and Postgres.
pub record Estate : Type 0 where
  pub documents : List Belonging
  pub analytics : List (String × List Belonging)
  pub records : Records

pub record PurgeCandidate : Type 0 where
  pub company_id : ℕ
  pub interview_id : ℕ
  pub reason : PurgeReason

abbrev pub is_of : ℕ → ℕ → Belonging → Bool
is_of company interview r = r.company_id == company && r.interview_id == interview

-- DELETE ... WHERE company_id = $1 AND interview_id = $2
unfoldable pub delete_of : ℕ → ℕ → List Belonging → List Belonging
delete_of company interview [] = []
delete_of company interview (r ∷ rs) =
    let rest = delete_of company interview rs in
    if is_of company interview r then rest else r ∷ rest

-- The number of rows that the delete removes.
unfoldable pub count_of : ℕ → ℕ → List Belonging → ℕ
count_of company interview [] = 0
count_of company interview (r ∷ rs) =
    let rest = count_of company interview rs in if is_of company interview r then suc rest else rest

abbrev is_set : Option ℤ → Bool
is_set none = false
is_set (some t) = true

-- NULL < $1 is not true.
abbrev is_before : ℤ → Option ℤ → Bool
is_before cutoff none = false
is_before cutoff (some t) = ltb_ℤ t cutoff

-- purgeEligible
unfoldable pub is_eligible : ℤ → Interviewed → Bool
is_eligible cutoff i =
    not (is_set i.purged_at)
    && (not i.legal_hold && (is_set i.erase_requested_at || is_before cutoff i.terminal_at))

abbrev pub reason_of : Interviewed → PurgeReason
reason_of i = if is_set i.erase_requested_at then erasure else retention

abbrev pub is_interview : ℕ → ℕ → Interviewed → Bool
is_interview company interview i = i.company_id == company && i.id == interview

-- The SELECT ... FOR UPDATE of Purge.
unfoldable pub lock_eligible : ℕ → ℕ → ℤ → List Interviewed → Option PurgeReason
unfolding is_eligible
lock_eligible company interview cutoff [] = none
lock_eligible company interview cutoff (i ∷ is) =
    let rest = lock_eligible company interview cutoff is in
    if is_interview company interview i && is_eligible cutoff i then some (reason_of i) else rest

abbrev pub erased_placeholder : String
erased_placeholder = "[erased]"

abbrev or_time : Option ℤ → ℤ → Option ℤ
or_time none now = some now
or_time (some t) now = some t

abbrev pub skeleton : ℤ → Interviewed → Interviewed
skeleton now i = record i {
  candidate_name = erased_placeholder;
  candidate_email = erased_placeholder;
  terminal_at = or_time i.terminal_at now;
  purged_at = some now;
}

-- "skeletonize interview"
unfoldable pub skeletonize : ℕ → ℕ → ℤ → List Interviewed → List Interviewed
skeletonize company interview now [] = []
skeletonize company interview now (i ∷ is) =
    (if is_interview company interview i then skeleton now i else i)
    ∷ skeletonize company interview now is

unfoldable pub is_logged : ℕ → ℕ → List PurgeEntry → Bool
is_logged company interview [] = false
is_logged company interview (e ∷ es) =
    (e.company_id == company && e.interview_id == interview) || is_logged company interview es

-- The INSERT into purge_log, with its ON CONFLICT DO NOTHING.
unfoldable pub log_purge : PurgeEntry → List PurgeEntry → List PurgeEntry
unfolding is_logged
log_purge e es = if is_logged e.company_id e.interview_id es then es else e ∷ es
