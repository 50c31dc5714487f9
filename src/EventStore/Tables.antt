-- ===== src/EventStore/Tables.antt =====
-- internal/store/postgres and its migrations: the tables that the event transactions write, and
-- the rows of internal/outbox/outbox.go. Generated identifiers and tokens are numbers. The
-- columns that a CHECK keeps from being negative are natural numbers.
use ta_platform.Prelude.{ℕ, String, Bool, not, ◌&&◌, Option, List, ◌==◌, ℤ}
use ta_platform.Events.{EventType}
use ta_platform.Metrics.{Metrics}

-- outbox.Message without its ID, which the table assigns.
pub record Message : Type 0 where
  pub company_id : ℕ
  pub topic : String
  pub key : String
  pub event_type : EventType
  pub envelope : String

-- a row of event_outbox
pub record Row : Type 0 where
  pub id : ℕ
  pub message : Message

-- `purged` is `purged_at IS NOT NULL`.
pub record Interview : Type 0 where
  pub company_id : ℕ
  pub id : ℕ
  pub last_sequence_number : ℕ
  pub purged : Bool

pub data SessionState : Type 0 where
  active completed expired revoked : SessionState

-- domain.Session without its times of creation and last use, with the column of the last diff;
-- `revoked` is `revoked_at IS NOT NULL`.
pub record Session : Type 0 where
  pub company_id : ℕ
  pub id : ℕ
  pub user_id : Option ℕ
  pub interview_id : Option ℕ
  pub state : SessionState
  pub token_hash : String
  pub expires_at : ℤ
  pub revoked : Bool
  pub last_diff_sequence : ℤ

-- `accepted` is `accepted_at IS NOT NULL`.
pub record Invite : Type 0 where
  pub id : ℕ
  pub company_id : ℕ
  pub interview_id : Option ℕ
  pub token_hash : String
  pub accepted : Bool
  pub expires_at : ℤ

-- scoring.Score; of a recommendation only the decision and the rationale are kept, not the
-- floating confidence.
pub record Recommendation : Type 0 where
  pub decision : String
  pub rationale : String

pub record Score : Type 0 where
  pub company_id : ℕ
  pub interview_id : ℕ
  pub session_id : ℕ
  pub trigger : EventType
  pub metrics : Metrics
  pub metrics_complete : Bool
  pub recommendation : Option Recommendation
  pub recommendation_model : String
  pub recommendation_error : String
  pub computed_at : ℤ

-- `next_id` is the next value of the identity column of event_outbox.
pub record Db : Type 0 where
  pub interviews : List Interview
  pub sessions : List Session
  pub invites : List Invite
  pub scores : List Score
  pub outbox : List Row
  pub next_id : ℕ

-- The errors that the transactions return; `database` stands for any failure of a statement.
pub data StoreError : Type 0 where
  database bad_count interview_not_found build_failed : StoreError
  diff_out_of_order invalid_invite interview_gone : StoreError

-- WHERE company_id = $1 AND id = $2 AND purged_at IS NULL
abbrev pub is_open : ℕ → ℕ → Interview → Bool
is_open company interview v = company == v.company_id && (interview == v.id && not v.purged)
