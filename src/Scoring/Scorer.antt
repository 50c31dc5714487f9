-- ===== src/Scoring/Scorer.antt =====
-- internal/scoring/service.go: ParseTrigger, CaughtUp and Service.Score, over the tables of the
-- event store. The event log, the recommender and the building of the message are arguments.
use ta_platform.Prelude.Results.{Result, ok, err}
use ta_platform.Prelude.{
  ℕ, String, Bool, true, false, not, ◌&&◌, Option, none, some, List, if◌then◌else◌, ℤ, pos, leb_ℤ,
  ltb_ℤ,
}
use ta_platform.Events.{EventType, session_submitted, session_expired, Envelope, Decoders}
use ta_platform.Metrics.{Metrics, compute, Event}
use ta_platform.EventStore.{
  Message, Score, Recommendation, Db, StoreError, interview_gone, score_exists, save_score,
}

pub record Trigger : Type 0 where
  pub event_type : EventType
  pub company_id : ℕ
  pub interview_id : ℕ
  pub session_id : ℕ
  pub sequence_number : ℤ

-- The results of ParseTrigger: an error, another type of event, or a trigger.
pub data Parsed : Type 0 where
  invalid skipped : Parsed
  triggered : Trigger → Parsed

-- uuid.Parse, and json.Unmarshal of the session and interview ids of a payload.
pub record Parsers : Type 0 where
  pub uuid : String → Option ℕ
  pub ids : String → Option (String × String)

abbrev pub ends_session : EventType → Bool
ends_session session_submitted = true
ends_session session_expired = true
ends_session _ = false

-- The three fields of the loop, in its order, and the check of the sequence number.
abbrev parsed_fields : Envelope → Option ℕ → Option ℕ → Option ℕ → Parsed
parsed_fields e (some company) (some interview) (some session) =
    if ltb_ℤ e.sequence_number (pos 1)
    then invalid
    else triggered (record {
      event_type = e.event_type;
      company_id = company;
      interview_id = interview;
      session_id = session;
      sequence_number = e.sequence_number;
    })
parsed_fields e _ _ _ = invalid

abbrev parsed_ids : Parsers → Envelope → Option (String × String) → Parsed
parsed_ids p e none = invalid
parsed_ids p e (some (session, interview)) =
    parsed_fields e (p.uuid e.company_id) (p.uuid interview) (p.uuid session)

unfoldable pub parse_trigger : Parsers → Envelope → Parsed
parse_trigger p e = if ends_session e.event_type then parsed_ids p e (p.ids e.payload) else skipped

pub record Progress : Type 0 where
  pub max_sequence : ℤ
  pub present : ℤ

unfoldable pub caught_up : Progress → ℤ → Bool
caught_up p sequence = leb_ℤ sequence p.max_sequence && leb_ℤ sequence p.present

-- EventLog; `none` is an error.
pub record Log : Type 0 where
  pub progress : Trigger → Option Progress
  pub timeline : Trigger → Option (List Event)

-- What Recommend returns: the model with the recommendation or with the stable code of its error.
pub data Answer : Type 0 where
  recommended : String → Recommendation → Answer
  not_recommended : String → String → Answer

pub data Outcome : Type 0 where
  scored already_scored : Outcome

-- ErrBehind, a PermanentError, and any other error.
pub data ScoreError : Type 0 where
  behind permanent transient : ScoreError

-- What the service was made with, and the moment. `decoders` are those of metrics.Compute.
pub record Service : Type 0 where
  pub recommender : Option (Metrics → Answer)
  pub decoders : Decoders
  pub message : Score → ℕ → Option Message
  pub now : ℤ

abbrev pub unrecommended : Trigger → Metrics → Bool → ℤ → Score
unrecommended t m complete now = record {
  company_id = t.company_id;
  interview_id = t.interview_id;
  session_id = t.session_id;
  trigger = t.event_type;
  metrics = m;
  metrics_complete = complete;
  recommendation = none;
  recommendation_model = "";
  recommendation_error = "";
  computed_at = now;
}

abbrev pub answered : Score → Answer → Score
answered s (recommended model r) = record s {
  recommendation_model = model;
  recommendation = some r;
}
answered s (not_recommended model code) = record s {
  recommendation_model = model;
  recommendation_error = code;
}

unfoldable pub recommend : Option (Metrics → Answer) → Score → Score
recommend none s = record s { recommendation_error = "disabled" }
recommend (some ask) s = answered s (ask s.metrics)

-- The end of Score: what SaveScore returned.
abbrev pub saved : Result StoreError Bool → Result ScoreError Outcome
saved (err interview_gone) = err permanent
saved (err e) = err transient
saved (ok false) = ok already_scored
saved (ok true) = ok scored

-- The save of a score; `fault` says that the transaction fails.
abbrev pub score_saved : Service → Bool → Score → Db → Db × Result ScoreError Outcome
score_saved v fault s db = let (after, r) = save_score s fault (v.message s) db in (after, saved r)

abbrev pub score_computed :
    Service → Bool → Trigger → Bool → Db → Option Metrics → Db × Result ScoreError Outcome
score_computed v fault t complete db none = (db, err permanent)
score_computed v fault t complete db (some m) =
    score_saved v fault (recommend v.recommender (unrecommended t m complete v.now)) db

abbrev pub score_timeline :
    Service → Bool → Trigger → Bool → Db → Option (List Event) → Db × Result ScoreError Outcome
score_timeline v fault t complete db none = (db, err transient)
score_timeline v fault t complete db (some timeline) =
    score_computed v fault t complete db (compute v.decoders timeline)

abbrev pub score_progress :
    Service → Log → Bool → Trigger → Bool → Db → Option Progress → Db × Result ScoreError Outcome
score_progress v log fault t last db none = (db, err transient)
score_progress v log fault t last db (some p) =
    let complete = caught_up p t.sequence_number in
    if not complete && not last
    then (db, err behind)
    else score_timeline v fault t complete db (log.timeline t)

-- `unread` says that the query of ScoreExists fails, `fault` that the transaction of SaveScore
-- does; `last` is the argument `final`.
unfoldable pub score :
    Service → Log → Bool → Bool → Trigger → Bool → Db → Db × Result ScoreError Outcome
unfolding caught_up recommend save_score score_exists
score v log unread fault t last db =
    if unread
    then (db, err transient)
    else if score_exists t.company_id t.session_id db.scores
    then (db, ok already_scored)
    else score_progress v log fault t last db (log.progress t)
