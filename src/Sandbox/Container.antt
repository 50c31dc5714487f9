-- ===== src/Sandbox/Container.antt =====
-- internal/sandbox/container.go: ContainerRunner.Run and limitedBuffer. What the engine and the file
-- system do at each call is an argument; a result that is returned beside an error is left out.
use ta_platform.Prelude.Results.{Result, ok, err}
use ta_platform.Prelude.{
  ℕ, ◌-◌, String, Bool, true, false, not, Option, none, some, List, [], ◌∷◌, ◌++◌, ltb, length,
  take, if◌then◌else◌, ℤ, pos, negsuc, pos_part, eqb_ℤ,
}
use ta_platform.Sandbox.Spec.{ExecutionSpec, SpecError, normalize}

pub record LimitedBuffer : Type 0 where
  pub buf : List ℕ
  pub limit : ℤ
  pub truncated : Bool

-- limitedBuffer.Write; a limit below 0 leaves no room.
unfoldable pub write_limited : List ℕ → LimitedBuffer → LimitedBuffer
write_limited p b =
    let room = pos_part b.limit - length b.buf in
    if ltb 0 room
    then (if ltb room (length p)
        then record b { buf = b.buf ++ take room p; truncated = true }
        else record b { buf = b.buf ++ p })
    else if ltb 0 (length p)
    then record b { truncated = true }
    else b

unfoldable pub write_all : List (List ℕ) → LimitedBuffer → LimitedBuffer
unfolding write_limited
write_all [] b = b
write_all (p ∷ ps) b = write_all ps (write_limited p b)

-- A new buffer after the writes of the container.
abbrev pub captured : ℤ → List (List ℕ) → LimitedBuffer
captured limit ps = write_all ps (record { buf = []; limit = limit; truncated = false })

pub data ExecutionStatus : Type 0 where
  succeeded failed timed_out oom_killed : ExecutionStatus

pub record ContainerState : Type 0 where
  pub is_running : Bool
  pub is_oom_killed : Bool
  pub exit_code : ℤ

-- The buffers are the outputs with their marks; the duration is left out.
pub record ExecutionResult : Type 0 where
  pub status : ExecutionStatus
  pub exit_code : ℤ
  pub stdout : LimitedBuffer
  pub stderr : LimitedBuffer

pub data RunError : Type 0 where
  invalid_spec : SpecError → RunError
  snapshot_failed create_failed cancelled kill_failed inspect_failed still_running : RunError

-- What the calls of a run do: the directory of the snapshot, the pieces that the program writes, whether
-- its clock or the request has ended, and what inspect gives; none is an error.
pub record Engine : Type 0 where
  pub snapshot : ExecutionSpec → Option String
  pub create_fails : Bool
  pub stdout : List (List ℕ)
  pub stderr : List (List ℕ)
  pub run_ended : Bool
  pub request_ended : Bool
  pub kill_fails : Bool
  pub inspected : Option ContainerState

-- The calls, by the container's name or the snapshot's directory.
pub data Command : Type 0 where
  create : List ℕ → String → ExecutionSpec → Command
  start kill inspect remove : List ℕ → Command
  remove_all : String → Command

abbrev pub Run : Type 0
Run = List Command × Result RunError ExecutionResult

abbrev pub stopped : Option ContainerState → Bool
stopped none = true
stopped (some state) = not state.is_running

abbrev pub status_of_state : ContainerState → ExecutionStatus
status_of_state state =
    if state.is_oom_killed
    then oom_killed
    else if eqb_ℤ state.exit_code (pos 0)
    then succeeded
    else failed

abbrev pub result_of : ExecutionSpec → Engine → ExecutionStatus → ℤ → ExecutionResult
result_of spec e status code = record {
  status = status;
  exit_code = code;
  stdout = captured spec.limits.output_bytes e.stdout;
  stderr = captured spec.limits.output_bytes e.stderr;
}

abbrev pub timed : ExecutionSpec → Engine → Result RunError ExecutionResult
timed spec e = ok (result_of spec e timed_out (negsuc 0))

-- The program was stopped by its clock, or the request has ended.
unfoldable pub killed : List ℕ → ExecutionSpec → Engine → Run
unfolding write_all
killed name spec e =
    if e.request_ended
    then (kill name ∷ [], err cancelled)
    else if e.kill_fails
    then (
      kill name ∷ inspect name ∷ [],
      if stopped e.inspected then timed spec e else err kill_failed,
    )
    else (kill name ∷ [], timed spec e)

unfoldable pub ended :
    ExecutionSpec → Engine → Option ContainerState → Result RunError ExecutionResult
unfolding write_all
ended spec e none = err inspect_failed
ended spec e (some state) =
    if state.is_running
    then err still_running
    else ok (result_of spec e (status_of_state state) state.exit_code)

-- Run, between the snapshot and the deferred calls.
unfoldable pub started : List ℕ → String → ExecutionSpec → Engine → Run
unfolding killed ended
started name dir spec e =
    if e.create_fails
    then (create name dir spec ∷ [], err create_failed)
    else let (calls, result) =
        if e.run_ended then killed name spec e else (inspect name ∷ [], ended spec e e.inspected) in
      (create name dir spec ∷ start name ∷ calls, result)

-- "ta-sbx-" and the id.
abbrev pub container_name : List ℕ → List ℕ
container_name id = (116 ∷ 97 ∷ 45 ∷ 115 ∷ 98 ∷ 120 ∷ 45 ∷ []) ++ id

unfoldable pub with_snapshot : ExecutionSpec → Engine → Option String → Run
unfolding started
with_snapshot spec e none = ([], err snapshot_failed)
with_snapshot spec e (some dir) =
    let name = container_name spec.execution_id in
    let (calls, result) = started name dir spec e in
    (calls ++ (remove name ∷ remove_all dir ∷ []), result)

unfoldable pub with_spec : Engine → Result SpecError ExecutionSpec → Run
unfolding with_snapshot
with_spec e (err bad) = ([], err (invalid_spec bad))
with_spec e (ok spec) = with_snapshot spec e (e.snapshot spec)

-- ContainerRunner.Run
unfoldable pub run_container : Engine → ExecutionSpec → Run
unfolding with_spec
run_container e s = with_spec e (normalize s)
