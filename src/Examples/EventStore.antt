-- ===== src/Examples/EventStore.antt =====
-- Runs of the event store: two interviews, an invite, and a relay.
use ta_platform.Prelude.Results.{ok, err}
use ta_platform.Prelude.{
  ℕ, ◌≡◌, refl, arith, true, false, Option, none, some, List, [], ◌∷◌, ◌++◌, pos, drop, length,
  ◌&&◌,
}
use ta_platform.Events.{session_started, session_submitted}
use ta_platform.Metrics.{no_metrics}
use ta_platform.EventStore.{
  Message, active, Score, Db, StartParams, Started, invalid_invite, drain, selected, start_session,
  save_score,
}
use ta_platform.EventStore.Trace.{
  Op, events_op, diff_op, start_op, score_op, relay_op, run_all, given_in,
}
use ta_platform.EventStore.Allocation.{IsNext}
use ta_platform.EventStore.Numbering.{run_all-IsNext}
use ta_platform.EventStore.Relay.{IsOrdered, drain_lem}
use ta_platform.EventStore.Delivery.{delivered_in, added_in, run_all-delivery}
use ta_platform.EventStore.Invites.{start_session-start_session}

abbrev pub message : Message
message = record {
  company_id = 1;
  topic = "session-events";
  key = "s";
  event_type = session_started;
  envelope = "{}";
}

abbrev pub build : ℕ → Option Message
build n = some message

abbrev build_two : ℕ → Option (List Message)
build_two n = some (message ∷ message ∷ [])

abbrev build_started : Started → Option Message
build_started s = some message

abbrev pub db : Db
db = record {
  interviews =
      record { company_id = 1; id = 10; last_sequence_number = 4; purged = false }
      ∷ record { company_id = 1; id = 11; last_sequence_number = 0; purged = true }
      ∷ [];
  sessions =
      record {
        company_id = 1;
        id = 20;
        user_id = none;
        interview_id = some 10;
        state = active;
        token_hash = "t0";
        expires_at = pos 100;
        revoked = false;
        last_diff_sequence = pos 3;
      }
      ∷ [];
  invites =
      record {
        id = 30;
        company_id = 1;
        interview_id = some 10;
        token_hash = "inv";
        accepted = false;
        expires_at = pos 50;
      }
      ∷ [];
  scores = [];
  outbox = record { id = 7; message = message } ∷ [];
  next_id = 8;
}

abbrev params : StartParams
params = record { session_id = 21; token_hash = "t1"; expires_at = pos 200 }

abbrev pub score_row : Score
score_row = record {
  company_id = 1;
  interview_id = 10;
  session_id = 20;
  trigger = session_submitted;
  metrics = no_metrics;
  metrics_complete = true;
  recommendation = none;
  recommendation_model = "";
  recommendation_error = "disabled";
  computed_at = pos 9;
}

abbrev trace : List Op
trace =
    events_op 1 10 (pos 2) false build_two
    ∷ events_op 1 11 (pos 1) false build_two
    ∷ relay_op 2 true true true
    ∷ diff_op 1 20 10 (pos 4) false build
    ∷ diff_op 1 20 10 (pos 4) false build
    ∷ start_op "inv" (pos 20) params false build_started
    ∷ relay_op 5 true true false
    ∷ score_op score_row false build
    ∷ relay_op 3 true true true
    ∷ []

run_all-IsNext_example : IsNext 1 10 (given_in 1 10 trace db) db (run_all trace db)
run_all-IsNext_example = run_all-IsNext 1 10 trace db

db-IsOrdered : IsOrdered db
db-IsOrdered = (tt, (omega arith, tt))

drain_lem_example :
    (selected 3 db ++ drop 3 db.outbox ≡ db.outbox)
    × (drain 3 true true true db
        ≡ (record db { outbox = drop 3 db.outbox }, ok (length (selected 3 db))))
    × (true && false ≡ false → (drain 3 true true false db).0 ≡ db)
drain_lem_example = drain_lem 3 true false db db-IsOrdered

run_all-delivery_example :
    (delivered_in trace db ++ (run_all trace db).outbox ≡ db.outbox ++ added_in trace db)
    × IsOrdered (run_all trace db)
run_all-delivery_example = run_all-delivery trace db db-IsOrdered

score_saved : (save_score score_row false build db).1 ≡ ok true
unfolding save_score
score_saved = refl

abbrev opened : Started
opened = record {
  session = record {
    company_id = 1;
    id = 21;
    user_id = none;
    interview_id = some 10;
    state = active;
    token_hash = "t1";
    expires_at = pos 200;
    revoked = false;
    last_diff_sequence = pos 0;
  };
  invite_id = 30;
  sequence_number = 5;
}

session_opened : (start_session "inv" (pos 20) params false build_started db).1 ≡ ok opened
unfolding start_session
session_opened = refl

start_session-start_session_example :
    start_session "inv"
      (pos 30)
      params
      false
      build_started
      (start_session "inv" (pos 20) params false build_started db).0
    ≡ ((start_session "inv" (pos 20) params false build_started db).0, err invalid_invite)
start_session-start_session_example =
    start_session-start_session "inv" (pos 20) (pos 30) params params build_started build_started db
      opened (omega arith) session_opened
