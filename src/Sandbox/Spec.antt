-- ===== src/Sandbox/Spec.antt =====
-- internal/sandbox/sandbox.go: normalize, withDefaults and within. A text is the list of its bytes.
use ta_platform.Prelude.Results.{Result, ok, err}
use ta_platform.Prelude.{
  ℕ, ◌+◌, String, Bool, true, false, not, ◌&&◌, ◌||◌, Option, none, some, List, [], ◌∷◌, ◌==◌, ltb,
  leb, length, str_eq, if◌then◌else◌, ℤ, pos, leb_ℤ, ltb_ℤ,
}
use ta_platform.Sandbox.Paths.{valid_path, same_path}

-- Durations are nanoseconds. CPUs, a float64 that is not NaN, is the integer of its bits, negative with
-- the sign bit: the order of these integers is that of the numbers, and 0 is 0.
pub record Limits : Type 0 where
  pub wall_clock : ℤ
  pub cpus : ℤ
  pub memory_bytes : ℤ
  pub pids : ℤ
  pub output_bytes : ℤ
  pub tmp_bytes : ℤ

abbrev pub default_limits : Limits
default_limits = record {
  wall_clock = pos 10000000000;
  cpus = pos 4607182418800017408;
  memory_bytes = pos 268435456;
  pids = pos 64;
  output_bytes = pos 1048576;
  tmp_bytes = pos 67108864;
}

abbrev pub max_limits : Limits
max_limits = record {
  wall_clock = pos 60000000000;
  cpus = pos 4611686018427387904;
  memory_bytes = pos 1073741824;
  pids = pos 256;
  output_bytes = pos 4194304;
  tmp_bytes = pos 268435456;
}

pub record ExecutionSpec : Type 0 where
  pub execution_id : List ℕ
  pub language : String
  pub entrypoint : List ℕ
  pub files : List (List ℕ × List ℕ)
  pub stdin : List ℕ
  pub limits : Limits

-- The reasons for ErrInvalidSpec.
pub data SpecError : Type 0 where
  bad_execution_id unsupported_language bad_file_count bad_path snapshot_too_large : SpecError
  no_entrypoint above_limits : SpecError

abbrev pub max_files : ℕ
max_files = 200

abbrev pub max_snapshot_bytes : ℕ
max_snapshot_bytes = 8388608

abbrev is_alphanumeric : ℕ → Bool
is_alphanumeric b = (leb 48 b && leb b 57) || ((leb 65 b && leb b 90) || (leb 97 b && leb b 122))

unfoldable pub are_id_bytes : List ℕ → Bool
are_id_bytes [] = true
are_id_bytes (b ∷ bs) = (is_alphanumeric b || (b == 95 || (b == 46 || b == 45))) && are_id_bytes bs

-- executionIDPattern
unfoldable pub is_execution_id : List ℕ → Bool
unfolding are_id_bytes
is_execution_id [] = false
is_execution_id (b ∷ bs) = is_alphanumeric b && (are_id_bytes bs && leb (length bs) 62)

-- The keys of Languages.
abbrev pub is_language : String → Bool
is_language l = str_eq l "python" || (str_eq l "javascript" || str_eq l "shell")

abbrev is_bad : {A : Type 0} → Option A → Bool
is_bad none = false
is_bad (some e) = true

unfoldable pub has_bad_path : List (List ℕ × List ℕ) → Bool
unfolding valid_path
has_bad_path [] = false
has_bad_path ((name, content) ∷ fs) = is_bad (valid_path name) || has_bad_path fs

unfoldable pub total_bytes : List (List ℕ × List ℕ) → ℕ
total_bytes [] = 0
total_bytes ((name, content) ∷ fs) = length content + total_bytes fs

unfoldable pub has_file : List ℕ → List (List ℕ × List ℕ) → Bool
unfolding same_path
has_file name [] = false
has_file name ((n, content) ∷ fs) = same_path name n || has_file name fs

abbrev pub or_default : ℤ → ℤ → ℤ
or_default value default = if leb_ℤ value (pos 0) then default else value

unfoldable pub with_defaults : Limits → Limits → Limits
with_defaults d l = record {
  wall_clock = or_default l.wall_clock d.wall_clock;
  cpus = or_default l.cpus d.cpus;
  memory_bytes = or_default l.memory_bytes d.memory_bytes;
  pids = or_default l.pids d.pids;
  output_bytes = or_default l.output_bytes d.output_bytes;
  tmp_bytes = or_default l.tmp_bytes d.tmp_bytes;
}

unfoldable pub are_within : Limits → Limits → Bool
are_within max l = not (
    ltb_ℤ max.wall_clock l.wall_clock
    || (ltb_ℤ max.cpus l.cpus
        || (ltb_ℤ max.memory_bytes l.memory_bytes
            || (ltb_ℤ max.pids l.pids
                || (ltb_ℤ max.output_bytes l.output_bytes || ltb_ℤ max.tmp_bytes l.tmp_bytes)))))

-- The end of normalize, with MaxLimits as an argument.
unfoldable pub limited : Limits → ExecutionSpec → Result SpecError ExecutionSpec
unfolding are_within
limited max s = if not (are_within max s.limits) then err above_limits else ok s

-- normalize, with DefaultLimits, MaxLimits and the two bounds on a snapshot as arguments.
unfoldable pub normalize_with :
    Limits → Limits → ℕ → ℕ → ExecutionSpec → Result SpecError ExecutionSpec
unfolding is_execution_id has_bad_path total_bytes has_file with_defaults limited
normalize_with defaults max files bytes s =
    if not (is_execution_id s.execution_id)
    then err bad_execution_id
    else if not (is_language s.language)
    then err unsupported_language
    else if length s.files == 0 || ltb files (length s.files)
    then err bad_file_count
    else if has_bad_path s.files
    then err bad_path
    else if ltb bytes (total_bytes s.files)
    then err snapshot_too_large
    else if not (has_file s.entrypoint s.files)
    then err no_entrypoint
    else limited max (record s { limits = with_defaults defaults s.limits })

unfoldable pub normalize : ExecutionSpec → Result SpecError ExecutionSpec
unfolding normalize_with
normalize s = normalize_with default_limits max_limits max_files max_snapshot_bytes s
