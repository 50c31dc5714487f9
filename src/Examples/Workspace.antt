-- ===== src/Examples/Workspace.antt =====
-- Runs of the candidate workspace.
use ta_platform.Prelude.Results.{ok}
use ta_platform.Prelude.{ℕ, ◌+◌, ◌≡◌, refl, true, false, none, some, [], ◌∷◌, pos}
use ta_platform.EventStore.{Message, Session, active, record_events}
use ta_platform.Workspace.{
  Bytes, trim_newline, split_lines, count_unified_diff, Execution, run_result, Runs, RunWorld,
  is_held, run_session,
}
use ta_platform.Prelude.{arith, Option}
use ta_platform.Workspace.{DiffRules, DiffRequest, accepted, out_of_order, submit, validate_diff}
use ta_platform.Workspace.Ordering.{submit-submit}
use ta_platform.Workspace.Counts.{
  hunk_part, beginning, declared_old, declared_new, count_unified_diff_lem,
}
use ta_platform.Workspace.Recorded.{run_session-locks, run_session-events, IsRecorded, IsRecorded}
use ta_platform.Examples.EventStore.{db, message}

-- "@@ -1 +1,2 @@\n-a\n+b\n+c\n"
abbrev patch : Bytes
patch =
    64 ∷ 64 ∷ 32 ∷ 45 ∷ 49 ∷ 32 ∷ 43 ∷ 49 ∷ 44 ∷ 50 ∷ 32 ∷ 64 ∷ 64 ∷ 10 ∷ 45 ∷ 97 ∷ 10 ∷ 43 ∷ 98
    ∷ 10 ∷ 43 ∷ 99 ∷ 10 ∷ []

patch_counted : count_unified_diff patch ≡ some (2, 1)
unfolding count_unified_diff
patch_counted = refl

count_unified_diff_lem_example :
    (2 ≡ beginning 43 (hunk_part (split_lines (trim_newline patch))))
    × (1 ≡ beginning 45 (hunk_part (split_lines (trim_newline patch))))
    × (declared_new (hunk_part (split_lines (trim_newline patch))) + 1
        ≡ declared_old (hunk_part (split_lines (trim_newline patch))) + 2)
count_unified_diff_lem_example = count_unified_diff_lem patch 2 1 patch_counted

abbrev execution : Execution
execution = record {
  status = "succeeded";
  exit_code = pos 0;
  stdout = 104 ∷ 105 ∷ [];
  stderr = [];
  stdout_truncated = false;
  stderr_truncated = false;
  duration_ms = pos 12;
}

abbrev world : RunWorld
world = record {
  is_valid = true;
  lock_error = false;
  put_fails = false;
  executed = some execution;
  message = λ e n. some message;
  requested_fault = false;
  completed_fault = false;
  release_fails = false;
}

abbrev candidate : Session
candidate = record {
  company_id = 1;
  id = 20;
  user_id = none;
  interview_id = some 10;
  state = active;
  token_hash = "t0";
  expires_at = pos 100;
  revoked = false;
  last_diff_sequence = pos 3;
}

abbrev runs : Runs
runs = record { locks = 7 ∷ []; db = db }

run_session-locks_example :
    ((run_session world candidate runs).0.locks ≡ 7 ∷ [])
    × (is_held 20 (7 ∷ []) ≡ true → (run_session world candidate runs).0 ≡ runs)
run_session-locks_example = run_session-locks world candidate runs refl

run_ok : (run_session world candidate runs).1 ≡ ok execution
unfolding run_session record_events
run_ok = refl

run_session-events_example :
    (i : ℕ) × (candidate.interview_id ≡ some i)
    × (is_held 20 (7 ∷ []) ≡ false)
    × (execution ≡ run_result world.executed)
    × IsRecorded world candidate i db (run_session world candidate runs).0.db
run_session-events_example = run_session-events world candidate runs execution run_ok

abbrev rules : DiffRules
rules = record { is_uuid = λ s. true; is_path = λ s. true; is_utf8 = λ bs. true }

abbrev request : DiffRequest
request = record {
  client_sequence = pos 4;
  origin = "manual";
  prompt_id = "";
  path = "main.go";
  patch = patch;
}

abbrev build_one : ℕ → Option Message
build_one n = some message

request_accepted : (submit rules candidate request false build_one db).1 ≡ ok (accepted 5 2 1)
unfolding submit
request_accepted = refl

request_valid : validate_diff rules request ≡ some (2, 1)
unfolding validate_diff
request_valid = refl

submit-submit_example :
    submit rules candidate request false build_one
      (submit rules candidate request false build_one db).0
    ≡ ((submit rules candidate request false build_one db).0, ok (out_of_order 2 1))
submit-submit_example =
    submit-submit rules candidate request request false build_one build_one db 10 5 2 1 2 1 refl
      (omega arith) request_accepted request_valid (omega arith)
