-- ===== src/Sandbox/Runnable.antt =====
-- What normalize accepts.
use mathlib.Core.Path.{subst}
use ta_platform.Prelude.Results.{Result, ok, err, ok_eq, err_not_ok}
use ta_platform.Prelude.{
  ℕ, ◌≤◌, ◌≡◌, refl, ◌≢◌, inl, inr, Bool, true, false, not, if◌then◌else◌, ◌||◌, List, [], ◌∷◌,
  ◌==◌, ltb, Option-cases, arith, All, length, ℤ, pos, ◌≤ℤ◌, ltb_ℤ,
}
use ta_platform.Sandbox.{
  default_limits, elements, valid_path, Limits, ExecutionSpec, SpecError, bad_execution_id,
  unsupported_language, bad_file_count, bad_path, snapshot_too_large, no_entrypoint, above_limits,
  is_execution_id, is_language, has_bad_path, total_bytes, has_file, or_default, with_defaults,
  are_within, limited, normalize_with,
}
use ta_platform.Sandbox.Elements.{IsNormal}
use ta_platform.Sandbox.Inside.{valid_path-IsNormal, split_or, not-false}

-- Compares two settings of limits, field by field.
pub record IsBelow (l max : Limits) : Type 0 where
  pub wall_clock : l.wall_clock ≤ℤ max.wall_clock
  pub cpus : l.cpus ≤ℤ max.cpus
  pub memory_bytes : l.memory_bytes ≤ℤ max.memory_bytes
  pub pids : l.pids ≤ℤ max.pids
  pub output_bytes : l.output_bytes ≤ℤ max.output_bytes
  pub tmp_bytes : l.tmp_bytes ≤ℤ max.tmp_bytes

-- Every limit is at least 1.
abbrev pub one_limits : Limits
one_limits = record {
  wall_clock = pos 1;
  cpus = pos 1;
  memory_bytes = pos 1;
  pids = pos 1;
  output_bytes = pos 1;
  tmp_bytes = pos 1;
}

-- A specification that may run.
pub record IsRunnable (max : Limits) (files bytes : ℕ) (s : ExecutionSpec) : Type 0 where
  pub id : is_execution_id s.execution_id ≡ true
  pub language : is_language s.language ≡ true
  pub file_count : (1 ≤ length s.files) × (length s.files ≤ files)
  pub paths : All (λ f. All IsNormal (elements (f.0))) s.files
  pub size : total_bytes s.files ≤ bytes
  pub entrypoint : has_file s.entrypoint s.files ≡ true
  pub lowest : IsBelow one_limits s.limits
  pub highest : IsBelow s.limits max

pub default_limits-IsBelow : IsBelow one_limits default_limits
default_limits-IsBelow = record {
  wall_clock = omega arith;
  cpus = omega arith;
  memory_bytes = omega arith;
  pids = omega arith;
  output_bytes = omega arith;
  tmp_bytes = omega arith;
}

or_default-min : (value default : ℤ) → pos 1 ≤ℤ default → pos 1 ≤ℤ or_default value default
or_default-min value default h = ground arith

ltb_ℤ-false : (a b : ℤ) → ltb_ℤ a b ≡ false → b ≤ℤ a
ltb_ℤ-false a b h = ground arith

with_defaults-IsBelow :
    (d l : Limits) → IsBelow one_limits d → IsBelow one_limits (with_defaults d l)
unfolding with_defaults
with_defaults-IsBelow d l h = record {
  wall_clock = or_default-min l.wall_clock d.wall_clock h.wall_clock;
  cpus = or_default-min l.cpus d.cpus h.cpus;
  memory_bytes = or_default-min l.memory_bytes d.memory_bytes h.memory_bytes;
  pids = or_default-min l.pids d.pids h.pids;
  output_bytes = or_default-min l.output_bytes d.output_bytes h.output_bytes;
  tmp_bytes = or_default-min l.tmp_bytes d.tmp_bytes h.tmp_bytes;
}

are_within-IsBelow : (max l : Limits) → not (are_within max l) ≡ false → IsBelow l max
unfolding are_within
are_within-IsBelow max l h =
    let within = not-false (are_within max l) h in
    let (a, rest_a) = split_or _ _ (not_true _ within) in
    let (b, rest_b) = split_or _ _ rest_a in
    let (c, rest_c) = split_or _ _ rest_b in
    let (d, rest_d) = split_or _ _ rest_c in
    let (e, f) = split_or _ _ rest_d in
    record {
      wall_clock = ltb_ℤ-false max.wall_clock l.wall_clock a;
      cpus = ltb_ℤ-false max.cpus l.cpus b;
      memory_bytes = ltb_ℤ-false max.memory_bytes l.memory_bytes c;
      pids = ltb_ℤ-false max.pids l.pids d;
      output_bytes = ltb_ℤ-false max.output_bytes l.output_bytes e;
      tmp_bytes = ltb_ℤ-false max.tmp_bytes l.tmp_bytes f;
    }
  where
    not_true : (x : Bool) → not x ≡ true → x ≡ false
    not_true true k = cc
    not_true false k = refl

has_bad_path-Normal :
    (fs : List (List ℕ × List ℕ))
    → has_bad_path fs ≡ false
    → All (λ f. All IsNormal (elements (f.0))) fs
unfolding has_bad_path
has_bad_path-Normal [] h = tt
has_bad_path-Normal ((name, content) ∷ fs) h = elim (Option-cases (valid_path name)) [
  | inl p ↦ (valid_path-IsNormal name p, has_bad_path-Normal fs (rw p at h))
  | inr (e, p) ↦ absurd (clash (rw p at h))
]
  where
    clash : true ≢ false
    clash h = cc

passed :
    {A : Type 0}
    → (failed : Bool) (e : SpecError) (rest : Result SpecError A) (out : A)
    → (if failed then err e else rest) ≡ ok out
    → (failed ≡ false) × (rest ≡ ok out)
passed true e rest out h = absurd (err_not_ok e out h)
passed false e rest out h = (refl, h)

in_range : (n high : ℕ) → ((n == 0) || ltb high n) ≡ false → (1 ≤ n) × (n ≤ high)
in_range n high h = (ground arith, ground arith)

ltb-false : (high n : ℕ) → ltb high n ≡ false → n ≤ high
ltb-false high n h = ground arith

-- What normalize accepts may run: its id, language, files, paths, entrypoint and limits are allowed, if
-- the defaults of the limits are positive. It is the specification given, but for its limits.
pub normalize_with-IsRunnable :
    (defaults max : Limits) (files bytes : ℕ) (s out : ExecutionSpec)
    → IsBelow one_limits defaults
    → normalize_with defaults max files bytes s ≡ ok out
    → IsRunnable max files bytes out × (record s { limits = out.limits } ≡ out)
unfolding normalize_with limited
normalize_with-IsRunnable defaults max files bytes s out low h =
    let (id, a) = passed _ bad_execution_id _ _ h in
    let (language, b) = passed _ unsupported_language _ _ a in
    let (count, c) = passed _ bad_file_count _ _ b in
    let (path, d) = passed _ bad_path _ _ c in
    let (size, e) = passed _ snapshot_too_large _ _ d in
    let (entrypoint, f) = passed _ no_entrypoint _ _ e in
    let (within, g) = passed _ above_limits _ _ f in
    let allowed : ExecutionSpec = record s { limits = with_defaults defaults s.limits } in
    let same : allowed ≡ out = ok_eq allowed out g in
    let runnable : IsRunnable max files bytes allowed = record {
      id = not-false _ id;
      language = not-false _ language;
      file_count = in_range _ _ count;
      paths = has_bad_path-Normal s.files path;
      size = ltb-false _ _ size;
      entrypoint = not-false _ entrypoint;
      lowest = with_defaults-IsBelow defaults s.limits low;
      highest = are_within-IsBelow max (with_defaults defaults s.limits) within;
    } in
    (
      subst (IsRunnable max files bytes) same runnable,
      subst (λ o. record s { limits = o.limits } ≡ o) same refl,
    )
