-- ===== src/Examples/Sandbox.antt =====
-- Snapshots: a path in a directory, and a program with no limits given.
use ta_platform.Prelude.{negsuc, some, none, false, true, ◌⊎◌, ℕ, ◌≡◌, refl, List, [], ◌∷◌, pos}
use ta_platform.Prelude.Results.{ok}
use ta_platform.Sandbox.{
  normalize, Engine, LimitedBuffer, ExecutionResult, timed_out, run_container, Limits,
  ExecutionSpec, default_limits, max_limits, max_files, max_snapshot_bytes, normalize_with,
}
use ta_platform.Sandbox.Runnable.{IsRunnable, default_limits-IsBelow, normalize_with-IsRunnable}
use ta_platform.Sandbox.Contained.{IsCleaned, run_container-IsCleaned}
use ta_platform.Sandbox.Reported.{IsReported, run_container-IsReported}

-- a/b.py
abbrev nested : List ℕ
nested = 97 ∷ 47 ∷ 98 ∷ 46 ∷ 112 ∷ 121 ∷ []

abbrev no_limits : Limits
no_limits = record {
  wall_clock = pos 0;
  cpus = pos 0;
  memory_bytes = pos 536870912;
  pids = pos 0;
  output_bytes = pos 0;
  tmp_bytes = pos 0;
}

abbrev submitted : ExecutionSpec
submitted = record {
  execution_id = 101 ∷ 45 ∷ 49 ∷ [];
  language = "python";
  entrypoint = nested;
  files = (nested, 112 ∷ 97 ∷ 115 ∷ 115 ∷ []) ∷ [];
  stdin = [];
  limits = no_limits;
}

abbrev accepted : ExecutionSpec
accepted = record submitted { limits = record default_limits { memory_bytes = pos 536870912 } }

submitted-accepted :
    normalize_with default_limits max_limits max_files max_snapshot_bytes submitted ≡ ok accepted
unfolding normalize_with
submitted-accepted = refl

normalize_with-IsRunnable_example :
    IsRunnable max_limits max_files max_snapshot_bytes accepted
    × (record submitted { limits = accepted.limits } ≡ accepted)
normalize_with-IsRunnable_example =
    normalize_with-IsRunnable default_limits max_limits max_files max_snapshot_bytes submitted
      accepted default_limits-IsBelow submitted-accepted

-- The program writes seven bytes and does not end in time.
abbrev slow : Engine
slow = record {
  snapshot = λ s. some "/tmp/ta-sbx-e-1-1";
  create_fails = false;
  stdout = (1 ∷ 2 ∷ 3 ∷ 4 ∷ []) ∷ (5 ∷ 6 ∷ 7 ∷ []) ∷ [];
  stderr = [];
  run_ended = true;
  request_ended = false;
  kill_fails = false;
  inspected = none;
}

abbrev small_output : Limits
small_output = record no_limits { output_bytes = pos 5 }

abbrev small : ExecutionSpec
small = record submitted { limits = small_output }

abbrev five : LimitedBuffer
five = record { buf = 1 ∷ 2 ∷ 3 ∷ 4 ∷ 5 ∷ []; limit = pos 5; truncated = true }

abbrev cut : ExecutionResult
cut = record {
  status = timed_out;
  exit_code = negsuc 0;
  stdout = five;
  stderr = record { buf = []; limit = pos 5; truncated = false };
}

run_container-IsReported_example : IsReported slow small cut
unfolding run_container normalize
run_container-IsReported_example = run_container-IsReported slow small cut refl

run_container-IsCleaned_example :
    ((run_container slow small).0 ≡ []) ⊎ IsCleaned slow (run_container slow small).0
run_container-IsCleaned_example = run_container-IsCleaned slow small
