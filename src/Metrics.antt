-- ===== src/Metrics.antt =====
-- internal/scoring/metrics/metrics.go: the scoring metrics of a session timeline. The floating
-- ratios of RunSuccessRate and AILineShare are not modelled. Counts of timeline entries are
-- numbers, since the length of a slice fits an int64; sums of payload fields wrap as int64 do.
pub mod Canonical
pub mod Bounds
use ta_platform.Prelude.{
  ℕ, ◌+◌, String, Bool, true, false, Option, none, some, List, [], ◌∷◌, str_eq, if◌then◌else◌, not,
  ◌||◌, ℤ, pos, negsuc, ltb_ℤ, eqb_ℤ, add64, sort_stable,
}
use ta_platform.Events.{
  EventType, session_started, ai_response_completed, prompt_submitted, execution_requested,
  execution_completed, code_diff, session_submitted, session_expired, AiResponseCompleted,
  ExecutionCompleted, CodeDiff, Decoders, Time, zero_time, is_zero, before, after, time_sub,
  milliseconds,
}

pub record Event : Type 0 where
  pub sequence_number : ℤ
  pub event_type : EventType
  pub occurred_at : Time
  pub payload : String

pub record Metrics : Type 0 where
  pub prompt_count : ℕ
  pub ai_response_count : ℕ
  pub ai_error_count : ℕ
  pub ai_input_tokens : ℤ
  pub ai_output_tokens : ℤ
  pub run_count : ℕ
  pub run_succeeded_count : ℕ
  pub last_run_status : String
  pub diff_count : ℕ
  pub ai_diff_count : ℕ
  pub lines_added : ℤ
  pub lines_removed : ℤ
  pub ai_lines_added : ℤ
  pub active_duration_ms : ℤ
  pub time_to_first_run_ms : Option ℤ

abbrev pub no_metrics : Metrics
no_metrics = record {
  prompt_count = 0;
  ai_response_count = 0;
  ai_error_count = 0;
  ai_input_tokens = pos 0;
  ai_output_tokens = pos 0;
  run_count = 0;
  run_succeeded_count = 0;
  last_run_status = "";
  diff_count = 0;
  ai_diff_count = 0;
  lines_added = pos 0;
  lines_removed = pos 0;
  ai_lines_added = pos 0;
  active_duration_ms = pos 0;
  time_to_first_run_ms = none;
}

abbrev pub is_activity : EventType → Bool
is_activity session_started = true
is_activity prompt_submitted = true
is_activity ai_response_completed = true
is_activity execution_requested = true
is_activity execution_completed = true
is_activity code_diff = true
is_activity session_submitted = true
is_activity session_expired = true
is_activity _ = false

-- The order of the sort in Dedupe.
abbrev pub seq_less : Event → Event → Bool
seq_less a b = ltb_ℤ a.sequence_number b.sequence_number

-- The second loop of Dedupe; `last` is the sequence number at the end of `result`, if any.
abbrev pub repeats : Option ℤ → Event → Bool
repeats none e = false
repeats (some n) e = eqb_ℤ n e.sequence_number

unfoldable pub drop_repeats : Option ℤ → List Event → List Event
drop_repeats last [] = []
drop_repeats last (e ∷ es) =
    let skipped = drop_repeats last es in
    let kept = drop_repeats (some e.sequence_number) es in
    if repeats last e then skipped else e ∷ kept

unfoldable pub dedupe : List Event → List Event
unfolding drop_repeats
dedupe timeline = drop_repeats none (sort_stable seq_less timeline)

-- The variables of the loop of Compute.
pub record Loop : Type 0 where
  pub m : Metrics
  pub first : Time
  pub last : Time
  pub first_run : Time
  pub last_run_sequence : ℤ

abbrev pub start : Loop
start = record {
  m = no_metrics;
  first = zero_time;
  last = zero_time;
  first_run = zero_time;
  last_run_sequence = negsuc 0;
}

-- The updates of `first` and `last`.
abbrev pub seen_at : Time → Loop → Loop
seen_at at s = record s {
  first = if is_zero s.first || before at s.first then at else s.first;
  last = if after at s.last then at else s.last;
}

-- The cases of the switch.
abbrev count_response : AiResponseCompleted → Metrics → Metrics
count_response p m = record m {
  ai_response_count = m.ai_response_count + 1;
  ai_error_count = if str_eq p.status "error" then m.ai_error_count + 1 else m.ai_error_count;
  ai_input_tokens = add64 m.ai_input_tokens p.input_tokens;
  ai_output_tokens = add64 m.ai_output_tokens p.output_tokens;
}

abbrev count_run : ℤ → ExecutionCompleted → Loop → Loop
count_run seq p s =
    let newer = ltb_ℤ s.last_run_sequence seq in
    record s {
      m = record (s.m) {
        run_count = s.m.run_count + 1;
        run_succeeded_count =
            if str_eq p.status "succeeded"
            then s.m.run_succeeded_count + 1
            else s.m.run_succeeded_count;
        last_run_status = if newer then p.status else s.m.last_run_status;
      };
      last_run_sequence = if newer then seq else s.last_run_sequence;
    }

abbrev count_diff : CodeDiff → Metrics → Metrics
count_diff p m =
    let by_ai = str_eq p.origin "ai_applied" in
    record m {
      diff_count = m.diff_count + 1;
      lines_added = add64 m.lines_added p.lines_added;
      lines_removed = add64 m.lines_removed p.lines_removed;
      ai_diff_count = if by_ai then m.ai_diff_count + 1 else m.ai_diff_count;
      ai_lines_added = if by_ai then add64 m.ai_lines_added p.lines_added else m.ai_lines_added;
    }

abbrev with_response : Loop → Option AiResponseCompleted → Option Loop
with_response s none = none
with_response s (some p) = some (record s { m = count_response p s.m })

abbrev with_run : ℤ → Loop → Option ExecutionCompleted → Option Loop
with_run seq s none = none
with_run seq s (some p) = some (count_run seq p s)

abbrev with_diff : Loop → Option CodeDiff → Option Loop
with_diff s none = none
with_diff s (some p) = some (record s { m = count_diff p s.m })

-- The switch on the event type.
unfoldable pub count : Decoders → EventType → Event → Loop → Option Loop
count d prompt_submitted e s =
    some (record s { m = record (s.m) { prompt_count = s.m.prompt_count + 1 } })
count d ai_response_completed e s = with_response s (d.ai_response e.payload)
count d execution_requested e s = some (record s {
  first_run =
      if is_zero s.first_run || before e.occurred_at s.first_run
      then e.occurred_at
      else s.first_run;
})
count d execution_completed e s = with_run e.sequence_number s (d.execution e.payload)
count d code_diff e s = with_diff s (d.diff e.payload)
count d _ e s = some s

-- One round of the loop.
unfoldable pub step : Decoders → Event → Loop → Option Loop
unfolding count
step d e s =
    if not (is_activity e.event_type)
    then some s
    else count d e.event_type e (seen_at e.occurred_at s)

-- `none` is a decode error.
unfoldable pub loop : Decoders → List Event → Option Loop → Option Loop
unfolding step
loop d es none = none
loop d [] (some s) = some s
loop d (e ∷ es) (some s) = loop d es (step d e s)

-- What follows the loop.
unfoldable pub finish : Loop → Metrics
finish s = record (s.m) {
  active_duration_ms =
      if not (is_zero s.first)
      then milliseconds (time_sub s.last s.first)
      else s.m.active_duration_ms;
  time_to_first_run_ms =
      if not (is_zero s.first_run)
      then some (milliseconds (time_sub s.first_run s.first))
      else s.m.time_to_first_run_ms;
}

abbrev pub finished : Option Loop → Option Metrics
finished none = none
finished (some s) = some (finish s)

unfoldable pub compute : Decoders → List Event → Option Metrics
unfolding loop dedupe finish
compute d timeline = finished (loop d (dedupe timeline) (some start))
