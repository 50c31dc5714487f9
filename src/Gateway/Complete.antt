-- ===== src/Gateway/Complete.antt =====
-- internal/aigateway/gateway.go: Gateway.Complete and resolveKey; provider.go: errorCode; emitter.go
-- gives the emitter's failure. The resolver of the companies' keys has a state `S` beside the heap of
-- keys; no resolver at all is `none`.
use ta_platform.Prelude.Results.{Result, ok, err}
use ta_platform.Prelude.{
  ℕ, ◌/◌, ◌^◌, String, Bool, true, false, Option, none, some, List, [], ◌∷◌, ◌++◌, str_eq,
  if◌then◌else◌, ℤ, pos, ◌||◌,
}
use ta_platform.Gateway.Keys.{KeyHeap, zero_key}
use ta_platform.Gateway.Request.{CompleteRequest, mode_byok}
use ta_platform.Gateway.Anthropic.{
  ProviderRequest, Provider, Streamed, StreamError, context_done, client_gone, provider_error,
  FinishReason, finish_length, finish_refusal, TokenUsage, no_result,
}

pub record CompletionOutcome : Type 0 where
  pub status : String
  pub stop_reason : String
  pub error_code : String
  pub model : String
  pub usage : TokenUsage

-- The envelope that events.New makes of an AIResponseCompleted, with the fields of both.
pub record Completion : Type 0 where
  pub key : String
  pub company_id : String
  pub sequence_number : ℤ
  pub session_id : String
  pub interview_id : String
  pub prompt_id : String
  pub mode : String
  pub provider : String
  pub outcome : CompletionOutcome
  pub response_text : List ℕ
  pub latency_ms : ℤ

-- KeyResolver: the state and the heap after the call, and the key or an error.
abbrev pub KeyResolver : Type 0 → Type 0
KeyResolver S = String → S × KeyHeap → (S × KeyHeap) × Option ℕ

-- The world a completion meets: whether the context is done when the key is resolved and when the
-- stream has ended, what the client does with each fragment, the time from start to end in
-- nanoseconds, whether the event cannot be built, and whether it cannot be written.
pub record CompleteWorld : Type 0 where
  pub done_early : Bool
  pub done_late : Bool
  pub on_delta : ℕ → Option StreamError
  pub elapsed : ℕ
  pub new_fails : Bool
  pub emit_fails : Bool

-- The error that Complete returns.
pub data CompleteError : Type 0 where
  not_built not_emitted : CompleteError

-- What Complete leaves: the state and the heap, the events written, the outcome and the error.
pub record Completed (S : Type 0) : Type 0 where
  pub state : S
  pub heap : KeyHeap
  pub events : List Completion
  pub outcome : CompletionOutcome
  pub error : Option CompleteError

unfoldable pub error_code : StreamError → String
error_code (provider_error code) = if str_eq code "" then "provider_error" else code
error_code _ = "provider_error"

abbrev pub is_cancelled : StreamError → Bool
is_cancelled context_done = true
is_cancelled client_gone = true
is_cancelled _ = false

abbrev status_of_finish : FinishReason → String
status_of_finish finish_length = "truncated"
status_of_finish finish_refusal = "refused"
status_of_finish _ = "completed"

-- The switch: the status and the error code.
unfoldable pub status_of : Bool → FinishReason → Option StreamError → String × String
unfolding error_code
status_of done reason none = (status_of_finish reason, "")
status_of done reason (some e) =
    if done || is_cancelled e then ("cancelled", "cancelled") else ("error", error_code e)

abbrev pub resolved :
    {S : Type 0} → Bool → (S × KeyHeap) × Option ℕ → (S × KeyHeap) × Result StreamError ℕ
resolved done (s, some k) = (s, ok k)
resolved done (s, none) =
    (s, err (if done then context_done else provider_error "byok_key_unavailable"))

unfoldable pub resolve_gateway_key :
    {S : Type 0}
    → Option (KeyResolver S)
    → Bool
    → String
    → S × KeyHeap
    → (S × KeyHeap) × Result StreamError ℕ
resolve_gateway_key none done company s = (s, err (provider_error "byok_unavailable"))
resolve_gateway_key (some keys) done company s = resolved done (keys company s)

-- The key of the request: none in managed mode.
abbrev pub to_option :
    {S : Type 0}
    → (S × KeyHeap) × Result StreamError ℕ
    → (S × KeyHeap) × Result StreamError (Option ℕ)
to_option (s, ok k) = (s, ok (some k))
to_option (s, err e) = (s, err e)

unfoldable pub request_key :
    {S : Type 0}
    → Option (KeyResolver S)
    → Bool
    → CompleteRequest
    → S × KeyHeap
    → (S × KeyHeap) × Result StreamError (Option ℕ)
unfolding resolve_gateway_key
request_key keys done r s =
    if str_eq r.mode mode_byok
    then to_option (resolve_gateway_key keys done r.company_id s)
    else (s, ok none)

unfoldable pub texts : List (List ℕ) → List ℕ
texts [] = []
texts (d ∷ ds) = d ++ texts ds

abbrev pub provider_request : CompleteRequest → Option ℕ → ProviderRequest
provider_request r key = record {
  model = r.model;
  system = r.system;
  messages = r.messages;
  max_tokens = r.max_tokens;
  api_key = key;
}

-- Without a key there is no stream: the zero ProviderResult, and the resolver's error.
abbrev pub streamed :
    Provider → CompleteWorld → CompleteRequest → KeyHeap → Result StreamError (Option ℕ) → Streamed
streamed p w r h (err e) = record { deltas = []; result = no_result ""; error = some e }
streamed p w r h (ok key) = p.stream h (provider_request r key) w.on_delta

abbrev pub key_of : Result StreamError (Option ℕ) → Option ℕ
key_of (err e) = none
key_of (ok key) = key

unfoldable pub outcome_of : CompleteWorld → CompleteRequest → Streamed → CompletionOutcome
unfolding status_of
outcome_of w r s =
    let (status, code) = status_of w.done_late s.result.finish_reason s.error in
    record {
      status = status;
      stop_reason = s.result.stop_reason;
      error_code = code;
      model = if str_eq s.result.model "" then r.model else s.result.model;
      usage = s.result.usage;
    }

unfoldable pub completion :
    Provider → CompleteWorld → CompleteRequest → Streamed → CompletionOutcome → Completion
unfolding texts
completion p w r s o = record {
  key = r.session_id;
  company_id = r.company_id;
  sequence_number = r.sequence_number;
  session_id = r.session_id;
  interview_id = r.interview_id;
  prompt_id = r.prompt_id;
  mode = r.mode;
  provider = p.name;
  outcome = o;
  response_text = texts s.deltas;
  latency_ms = pos (w.elapsed / 10 ^ 6);
}

-- The events written and the error.
abbrev pub emitted : CompleteWorld → Completion → List Completion × Option CompleteError
emitted w c =
    if w.new_fails
    then ([], some not_built)
    else if w.emit_fails
    then ([], some not_emitted)
    else (c ∷ [], none)

-- After the key is resolved.
unfoldable pub completed :
    {S : Type 0}
    → Provider
    → CompleteWorld
    → CompleteRequest
    → (S × KeyHeap) × Result StreamError (Option ℕ)
    → Completed S
unfolding outcome_of completion zero_key
completed p w r ((state, heap), key) =
    let run = streamed p w r heap key in
    let outcome = outcome_of w r run in
    let (events, error) = emitted w (completion p w r run outcome) in
    record {
      state = state;
      heap = zero_key (key_of key) heap;
      events = events;
      outcome = outcome;
      error = error;
    }

unfoldable pub complete :
    {S : Type 0}
    → Provider
    → Option (KeyResolver S)
    → CompleteWorld
    → CompleteRequest
    → S × KeyHeap
    → Completed S
unfolding request_key completed
complete p keys w r s = completed p w r (request_key keys w.done_early r s)
