-- ===== src/Examples/Scoring.antt =====
-- Runs of the scoring service and its consumer.
use ta_platform.Prelude.Results.{ok}
use ta_platform.Prelude.{
  ◌⊎◌, ℕ, ◌≡◌, refl, arith, sort_stable, ◌+◌, true, false, none, some, List, [], ◌∷◌, ◌++◌, pos,
}
use ta_platform.Events.{session_submitted, prompt_submitted, Envelope, Decoders}
use ta_platform.Metrics.{Metrics, Event, compute}
use ta_platform.Scoring.{
  Fetched, Trigger, Parsers, Log, Progress, Service, Attempt, scored, already_scored, score, handle,
}
use ta_platform.Scoring.Idempotence.{score-score}
use ta_platform.Scoring.Contents.{score_lem, HasAll, IsScore}
use ta_platform.Scoring.Retries.{IsWithin, handle-IsWithin}
use ta_platform.EventStore.{Score}
use ta_platform.Examples.EventStore.{db, build}

abbrev decoders : Decoders
decoders = record { ai_response = λ s. none; execution = λ s. none; diff = λ s. none }

abbrev service : Service
service = record { recommender = none; decoders = decoders; message = λ s n. build n; now = pos 9 }

abbrev trigger : Trigger
trigger = record {
  event_type = session_submitted;
  company_id = 1;
  interview_id = 10;
  session_id = 20;
  sequence_number = pos 4;
}

abbrev timeline : List Event
timeline =
    record {
      sequence_number = pos 2;
      event_type = prompt_submitted;
      occurred_at = pos 5;
      payload = "";
    }
    ∷ []

abbrev log_at : ℕ → Log
log_at n = record {
  progress = λ t. some (record { max_sequence = pos 4; present = pos n });
  timeline = λ t. some timeline;
}

score_ok : (score service (log_at 4) false false trigger false db).1 ≡ ok scored
unfolding score compute sort_stable
score_ok = refl

score-score_example :
    score service
      (log_at 3)
      false
      true
      trigger
      true
      (score service (log_at 4) false false trigger false db).0
    ≡ ((score service (log_at 4) false false trigger false db).0, ok already_scored)
score-score_example =
    score-score service service (log_at 4) (log_at 3) false false true trigger trigger false true db
      scored score_ok refl refl

score_lem_example :
    (p : Progress) × (es : List Event) × (m : Metrics) × (s : Score) × ((log_at 4).progress trigger
      ≡ some p)
    × (HasAll p trigger ⊎ (false ≡ true))
    × ((log_at 4).timeline trigger ≡ some es)
    × (compute service.decoders es ≡ some m)
    × IsScore service trigger p m s
    × ((score service (log_at 4) false false trigger false db).0.scores ≡ db.scores ++ (s ∷ []))
score_lem_example = score_lem service (log_at 4) false false trigger false db score_ok

abbrev parsers : Parsers
parsers = record { uuid = λ s. some 1; ids = λ s. some (s, s) }

abbrev envelope : Envelope
envelope = record {
  event_id = "e";
  event_type = session_submitted;
  schema_version = pos 1;
  company_id = "c";
  occurred_at = pos 5;
  sequence_number = pos 4;
  payload = "p";
}

-- the log catches up at the third attempt
abbrev world : ℕ → Attempt
world n = record { log = log_at (n + 1); unread = false; fault = false; cut_short = false }

handle-IsWithin_example : IsWithin 5 (handle 5 parsers service world 5 (some envelope) db).1
handle-IsWithin_example = handle-IsWithin parsers service world 5 (some envelope) db (omega arith)

abbrev fetched : List Fetched
fetched =
    record { value = some envelope; world = world; commit_fails = false }
    ∷ record { value = none; world = world; commit_fails = false }
    ∷ []
