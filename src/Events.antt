-- ===== src/Events.antt =====
-- internal/events: the event types of the catalog, the envelope and the payloads that the modelled
-- services read. JSON decoding of a payload is an argument of the code that decodes, so the
-- theorems hold for whatever it returns; `none` is its error. A time is a count of nanoseconds
-- since Go's zero time.
use ta_platform.Prelude.{
  String, Bool, Option, ℤ, pos, negsuc, ◌-ℤ◌, ◌+◌, ◌/◌, ◌^◌, ◌-◌, ltb_ℤ, eqb_ℤ, if◌then◌else◌,
}

-- `other` is a type that is not in the catalog.
pub data EventType : Type 0 where
  job_posted job_closed candidate_applied candidate_stage_changed candidate_rejected : EventType
  candidate_hired interview_scheduled interview_completed session_started : EventType
  ai_response_completed prompt_submitted execution_requested execution_completed : EventType
  code_diff session_submitted session_expired score_computed : EventType
  other : String → EventType

-- the fields of AIResponseCompleted, ExecutionCompleted and CodeDiff that the readers use
pub record AiResponseCompleted : Type 0 where
  pub session_id : String
  pub interview_id : String
  pub prompt_id : String
  pub status : String
  pub response_text : String
  pub input_tokens : ℤ
  pub output_tokens : ℤ

pub record ExecutionCompleted : Type 0 where
  pub session_id : String
  pub interview_id : String
  pub execution_id : String
  pub status : String

pub record CodeDiff : Type 0 where
  pub session_id : String
  pub interview_id : String
  pub prompt_id : String
  pub origin : String
  pub path : String
  pub patch : String
  pub lines_added : ℤ
  pub lines_removed : ℤ

-- json.Unmarshal of a payload into each of them.
pub record Decoders : Type 0 where
  pub ai_response : String → Option AiResponseCompleted
  pub execution : String → Option ExecutionCompleted
  pub diff : String → Option CodeDiff

abbrev pub Time : Type 0
Time = ℤ

abbrev pub zero_time : Time
zero_time = pos 0

-- Time.IsZero, Before, After
abbrev pub is_zero : Time → Bool
is_zero t = eqb_ℤ t zero_time

abbrev pub before : Time → Time → Bool
before a b = ltb_ℤ a b

abbrev pub after : Time → Time → Bool
after a b = ltb_ℤ b a

-- Time.Sub: a Duration is an int64, and saturates.
unfoldable pub time_sub : Time → Time → ℤ
time_sub a b =
    let d = a -ℤ b in
    if ltb_ℤ (pos (2 ^ 63 - 1)) d
    then pos (2 ^ 63 - 1)
    else if ltb_ℤ d (negsuc (2 ^ 63 - 1))
    then negsuc (2 ^ 63 - 1)
    else d

-- Duration.Milliseconds divides towards zero.
unfoldable pub milliseconds : ℤ → ℤ
milliseconds (pos n) = pos (n / 1000000)
milliseconds (negsuc n) = pos 0 -ℤ pos ((n + 1) / 1000000)

-- The envelope that every event travels in. Identifiers are text until they are parsed.
pub record Envelope : Type 0 where
  pub event_id : String
  pub event_type : EventType
  pub schema_version : ℤ
  pub company_id : String
  pub occurred_at : Time
  pub sequence_number : ℤ
  pub payload : String
