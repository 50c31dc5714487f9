-- ===== src/Sandbox/Reported.antt =====
-- The results of runs.
use mathlib.Core.Path.{subst}
use ta_platform.Prelude.Results.{Result, ok, err, ok_eq, err_not_ok}
use ta_platform.Prelude.{
  ℕ, ◌≡◌, refl, ◌∙◌, ◌⊎◌, inl, inr, true, false, Option, none, some, List, Bool-cases, negsuc,
  String,
}
use ta_platform.Sandbox.{
  ExecutionSpec, SpecError, normalize, default_limits, max_limits, max_files, max_snapshot_bytes,
  captured, timed_out, ContainerState, ExecutionResult, invalid_spec, snapshot_failed,
  create_failed, cancelled, kill_failed, inspect_failed, still_running, Engine, stopped,
  status_of_state, result_of, timed, killed, ended, started, container_name, with_snapshot,
  with_spec, run_container,
}
use ta_platform.Sandbox.Output.{kept, written, captured-kept}
use ta_platform.Sandbox.Runnable.{IsRunnable, normalize_with-IsRunnable, default_limits-IsBelow}

-- The program's clock ended, and its container does not run any more.
pub record IsTimedOut (e : Engine) (out : ExecutionResult) : Type 0 where
  pub clock : e.run_ended ≡ true
  pub request : e.request_ended ≡ false
  pub halted : (e.kill_fails ≡ false) ⊎ (stopped e.inspected ≡ true)
  pub status : out.status ≡ timed_out
  pub exit_code : out.exit_code ≡ negsuc 0

-- The program exited within its time, and the result says how.
pub record IsExited (e : Engine) (out : ExecutionResult) : Type 0 where
  pub clock : e.run_ended ≡ false
  pub state : ContainerState
  pub seen : e.inspected ≡ some state
  pub halted : state.is_running ≡ false
  pub status : out.status ≡ status_of_state state
  pub exit_code : out.exit_code ≡ state.exit_code

-- A result of a specification that may run: it has the first bytes of each output, up to the limit.
pub record IsReported (e : Engine) (s : ExecutionSpec) (out : ExecutionResult) : Type 0 where
  pub spec : ExecutionSpec
  pub allowed : IsRunnable max_limits max_files max_snapshot_bytes spec
  pub same : record s { limits = spec.limits } ≡ spec
  pub stdout : out.stdout ≡ kept spec.limits.output_bytes (written e.stdout)
  pub stderr : out.stderr ≡ kept spec.limits.output_bytes (written e.stderr)
  pub outcome : IsTimedOut e out ⊎ IsExited e out

-- What a result of a specification has to do with the engine.
abbrev Tells : ExecutionSpec → Engine → ExecutionResult → Type 0
Tells spec e out =
    (out.stdout ≡ captured spec.limits.output_bytes e.stdout)
    × (out.stderr ≡ captured spec.limits.output_bytes e.stderr)
    × (IsTimedOut e out ⊎ IsExited e out)

timed-Tells :
    (spec : ExecutionSpec) (e : Engine) (out : ExecutionResult)
    → e.run_ended ≡ true
    → e.request_ended ≡ false
    → (e.kill_fails ≡ false) ⊎ (stopped e.inspected ≡ true)
    → timed spec e ≡ ok out
    → Tells spec e out
timed-Tells spec e out clock request halted h =
    let made : ExecutionResult = result_of spec e timed_out (negsuc 0) in
    let outcome : IsTimedOut e made = record {
      clock = clock;
      request = request;
      halted = halted;
      status = refl;
      exit_code = refl;
    } in
    subst (Tells spec e) (ok_eq made out h) (refl, refl, inl outcome)

killed-Tells :
    (name : List ℕ) (spec : ExecutionSpec) (e : Engine) (out : ExecutionResult)
    → e.run_ended ≡ true
    → (killed name spec e).1 ≡ ok out
    → Tells spec e out
unfolding killed
killed-Tells name spec e out clock h = elim (Bool-cases e.request_ended) [
  | inl p ↦ absurd (err_not_ok cancelled out (rw p at h))
  | inr p ↦ elim (Bool-cases e.kill_fails) [
    | inr q ↦ timed-Tells spec e out clock p (inl q) (rw (p, q) at h)
    | inl q ↦ elim (Bool-cases (stopped e.inspected)) [
      | inl r ↦ timed-Tells spec e out clock p (inr r) (rw (p, q, r) at h)
      | inr r ↦ absurd (err_not_ok kill_failed out (rw (p, q, r) at h))
    ]
  ]
]

ended-Tells :
    (spec : ExecutionSpec) (e : Engine) (out : ExecutionResult)
    → e.run_ended ≡ false
    → (i : Option ContainerState) → e.inspected ≡ i
    → ended spec e i ≡ ok out
    → Tells spec e out
unfolding ended
ended-Tells spec e out clock none seen h = absurd (err_not_ok inspect_failed out h)
ended-Tells spec e out clock (some state) seen h = elim (Bool-cases state.is_running) [
  | inl p ↦ absurd (err_not_ok still_running out (rw p at h))
  | inr p ↦
      let made : ExecutionResult = result_of spec e (status_of_state state) state.exit_code in
      let outcome : IsExited e made = record {
        clock = clock;
        state = state;
        seen = seen;
        halted = p;
        status = refl;
        exit_code = refl;
      } in
      subst (Tells spec e) (ok_eq made out (rw p at h)) (refl, refl, inr outcome)
]

started-Tells :
    (name : List ℕ) (dir : String) (spec : ExecutionSpec) (e : Engine) (out : ExecutionResult)
    → (started name dir spec e).1 ≡ ok out
    → Tells spec e out
unfolding started
started-Tells name dir spec e out h = elim (Bool-cases e.create_fails) [
  | inl p ↦ absurd (err_not_ok create_failed out (rw p at h))
  | inr p ↦ elim (Bool-cases e.run_ended) [
    | inl q ↦ killed-Tells name spec e out q (rw (p, q) at h)
    | inr q ↦ ended-Tells spec e out q e.inspected refl (rw (p, q) at h)
  ]
]

with_snapshot-Tells :
    (spec : ExecutionSpec) (e : Engine) (d : Option String) (out : ExecutionResult)
    → (with_snapshot spec e d).1 ≡ ok out
    → Tells spec e out
unfolding with_snapshot
with_snapshot-Tells spec e none out h = absurd (err_not_ok snapshot_failed out h)
with_snapshot-Tells spec e (some dir) out h =
    started-Tells (container_name spec.execution_id) dir spec e out h

-- A run that gives a result had a specification that may run. The result has the first bytes that the
-- program wrote, up to the limit, and says whether there were more. It is "timed out" exactly if the clock
-- ended and the container is killed or stopped, and else tells the exit of a container that has ended.
pub run_container-IsReported :
    (e : Engine) (s : ExecutionSpec) (out : ExecutionResult)
    → (run_container e s).1 ≡ ok out
    → IsReported e s out
unfolding run_container with_spec normalize
run_container-IsReported e s out h = of_spec (normalize s) refl h
  where
    of_spec :
        (r : Result SpecError ExecutionSpec)
        → normalize s ≡ r
        → (with_spec e r).1 ≡ ok out
        → IsReported e s out
    of_spec (err bad) n k = absurd (err_not_ok (invalid_spec bad) out k)
    of_spec (ok spec) n k =
        let (allowed, same) =
          normalize_with-IsRunnable default_limits max_limits max_files max_snapshot_bytes s spec
            default_limits-IsBelow n in
        let (stdout, stderr, outcome) = with_snapshot-Tells spec e (e.snapshot spec) out k in
        record {
          spec = spec;
          allowed = allowed;
          same = same;
          stdout = stdout ∙ captured-kept spec.limits.output_bytes e.stdout;
          stderr = stderr ∙ captured-kept spec.limits.output_bytes e.stderr;
          outcome = outcome;
        }
