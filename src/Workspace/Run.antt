-- ===== src/Workspace/Run.antt =====
-- internal/candidateworkspace/run.go: RunService.Run and capOutput. What the lock, the snapshot
-- store, the sandbox and the database do are arguments, as is the validation of the request by the
-- sandbox's rules; the events are recorded by RecordEvents of the event store. Logging is left out.
use ta_platform.Prelude.Results.{Result, ok, err}
use ta_platform.Prelude.{
  ℕ, zero, suc, String, Bool, true, false, not, ◌&&◌, Option, none, some, List, [], ◌∷◌, ltb, leb,
  ◌==◌, if◌then◌else◌, ℤ, pos, negsuc, length,
}
use ta_platform.EventStore.{Message, Db, StoreError, Session, record_events}
use ta_platform.Workspace.Unidiff.{Bytes}

abbrev pub event_output_bytes : ℕ
event_output_bytes = 65536

-- output[cut], past the end a byte that starts no rune
abbrev pub byte_at : ℕ → Bytes → ℕ
byte_at n [] = 128
byte_at zero (b ∷ bs) = b
byte_at (suc n) (b ∷ bs) = byte_at n bs

-- utf8.RuneStart: not 10xxxxxx.
abbrev pub rune_start : ℕ → Bool
rune_start b = not (leb 128 b && ltb b 192)

-- The loop of capOutput.
unfoldable pub cut_back : ℕ → Bytes → ℕ
cut_back zero output = 0
cut_back (suc n) output =
    let rest = cut_back n output in if rune_start (byte_at (suc n) output) then suc n else rest

abbrev pub take_bytes : ℕ → Bytes → Bytes
take_bytes zero bs = []
take_bytes (suc n) [] = []
take_bytes (suc n) (b ∷ bs) = b ∷ take_bytes n bs

-- capOutput with its limit as an argument.
unfoldable pub cap_to : ℕ → Bytes → Bool → Bytes × Bool
unfolding cut_back
cap_to limit output truncated =
    if leb (length output) limit
    then (output, truncated)
    else (take_bytes (cut_back limit output) output, true)

unfoldable pub cap_output : Bytes → Bool → Bytes × Bool
unfolding cap_to
cap_output output truncated = cap_to event_output_bytes output truncated

-- sandbox.ExecuteResponse, and RunResult without the id of the execution.
pub record Execution : Type 0 where
  pub status : String
  pub exit_code : ℤ
  pub stdout : Bytes
  pub stderr : Bytes
  pub stdout_truncated : Bool
  pub stderr_truncated : Bool
  pub duration_ms : ℤ

-- The payloads of execution.requested and execution.completed.
pub data RunEvent : Type 0 where
  requested : RunEvent
  completed_with : Execution → String → RunEvent

abbrev pub sandbox_failed : Execution
sandbox_failed = record {
  status = "error";
  exit_code = negsuc 0;
  stdout = [];
  stderr = [];
  stdout_truncated = false;
  stderr_truncated = false;
  duration_ms = pos 0;
}

abbrev pub for_log : Execution → Execution
for_log x =
    let (out, out_cut) = cap_output x.stdout x.stdout_truncated in
    let (errors, errors_cut) = cap_output x.stderr x.stderr_truncated in
    record x {
      stdout = out;
      stdout_truncated = out_cut;
      stderr = errors;
      stderr_truncated = errors_cut;
    }

-- The result for the candidate and the payload for the log, from what Execute returned.
abbrev pub run_result : Option Execution → Execution
run_result none = sandbox_failed
run_result (some x) = x

unfoldable pub run_completed : Option Execution → RunEvent
unfolding cap_output
run_completed none = completed_with sandbox_failed "sandbox_unavailable"
run_completed (some x) = completed_with (for_log x) ""

pub data RunError : Type 0 where
  no_interview invalid_run run_in_progress lock_failed snapshot_failed requested_failed : RunError
  completed_failed : Execution → RunError

-- The sessions whose lock is held, and the tables.
pub record Runs : Type 0 where
  pub locks : List ℕ
  pub db : Db

pub record RunWorld : Type 0 where
  pub is_valid : Bool
  pub lock_error : Bool
  pub put_fails : Bool
  pub executed : Option Execution
  pub message : RunEvent → ℕ → Option Message
  pub requested_fault : Bool
  pub completed_fault : Bool
  pub release_fails : Bool

unfoldable pub is_held : ℕ → List ℕ → Bool
is_held id [] = false
is_held id (l ∷ ls) = if id == l then true else is_held id ls

unfoldable pub release : ℕ → List ℕ → List ℕ
release id [] = []
release id (l ∷ ls) = let rest = release id ls in if id == l then ls else l ∷ rest

-- The one message of an event, as the list that the build of RecordEvents returns.
abbrev pub one_message : Option Message → Option (List Message)
one_message none = none
one_message (some m) = some (m ∷ [])

abbrev pub record_one : Session → ℕ → Bool → (ℕ → Option Message) → Db → Db × Result StoreError ℕ
record_one s interview fault build db =
    record_events s.company_id interview (pos 1) fault (λ n. one_message (build n)) db

-- After the second event.
abbrev pub run_recorded : Execution → Db × Result StoreError ℕ → Db × Result RunError Execution
run_recorded x (db, err e) = (db, err (completed_failed x))
run_recorded x (db, ok n) = (db, ok x)

-- After the first event.
abbrev pub run_requested :
    RunWorld → Session → ℕ → Db × Result StoreError ℕ → Db × Result RunError Execution
run_requested w s interview (db, err e) = (db, err requested_failed)
run_requested w s interview (db, ok n) =
    run_recorded (run_result w.executed)
      (record_one s interview w.completed_fault (w.message (run_completed w.executed)) db)

-- With the lock held.
abbrev pub run_locked : RunWorld → Session → ℕ → Db → Db × Result RunError Execution
run_locked w s interview db =
    if w.put_fails
    then (db, err snapshot_failed)
    else run_requested w s interview
        (record_one s interview w.requested_fault (w.message requested) db)

-- The deferred release; one that fails leaves the lock to its expiry.
abbrev pub released :
    RunWorld → ℕ → List ℕ → Db × Result RunError Execution → Runs × Result RunError Execution
released w id locks (db, r) =
    (record { locks = if w.release_fails then locks else release id locks; db = db }, r)

abbrev pub run_bound : RunWorld → Session → Runs → Option ℕ → Runs × Result RunError Execution
run_bound w s rs none = (rs, err no_interview)
run_bound w s rs (some interview) =
    if not w.is_valid
    then (rs, err invalid_run)
    else if w.lock_error
    then (rs, err lock_failed)
    else if is_held s.id rs.locks
    then (rs, err run_in_progress)
    else released w s.id (s.id ∷ rs.locks) (run_locked w s interview rs.db)

unfoldable pub run_session : RunWorld → Session → Runs → Runs × Result RunError Execution
unfolding is_held release record_events run_completed
run_session w s rs = run_bound w s rs s.interview_id
