-- ===== src/Gateway/Anthropic.antt =====
-- internal/aigateway/anthropic.go: AnthropicProvider.Stream; provider.go: the provider's contract. The
-- SDK is an argument: the events of the stream for the parameters and the API key it is called with,
-- and the error that ends it.
use ta_platform.Prelude.{
  ℕ, ◌+◌, String, Bool, not, ◌||◌, Option, none, some, List, [], ◌∷◌, map, str_eq, if◌then◌else◌, ℤ,
  pos, ltb_ℤ, leb, ◌==◌,
}
use ta_platform.Gateway.Keys.{KeyHeap, reveal}
use ta_platform.Gateway.Request.{ChatMessage, role_assistant}

pub record ProviderRequest : Type 0 where
  pub model : String
  pub system : List ℕ
  pub messages : List ChatMessage
  pub max_tokens : ℤ
  pub api_key : Option ℕ

pub record TokenUsage : Type 0 where
  pub input_tokens : ℤ
  pub output_tokens : ℤ

-- `unset` is the zero value.
pub data FinishReason : Type 0 where
  unset finish_stop finish_length finish_refusal : FinishReason

pub record ProviderResult : Type 0 where
  pub model : String
  pub finish_reason : FinishReason
  pub stop_reason : String
  pub usage : TokenUsage

-- The errors that a stream, a callback or a context returns: the context's error, errClientGone, a
-- ProviderError with its code, any other.
pub data StreamError : Type 0 where
  context_done client_gone other_error : StreamError
  provider_error : String → StreamError

-- What a stream did: the fragments it called onDelta with, its result and its error.
pub record Streamed : Type 0 where
  pub deltas : List (List ℕ)
  pub result : ProviderResult
  pub error : Option StreamError

-- Provider; the callback is given the index of the fragment.
pub record Provider : Type 0 where
  pub name : String
  pub stream : KeyHeap → ProviderRequest → (ℕ → Option StreamError) → Streamed

-- The events of the SDK's stream; `text_delta` with a text that is not empty.
pub data SdkEvent : Type 0 where
  message_start : String → ℤ → SdkEvent
  text_delta : List ℕ → SdkEvent
  message_delta : String → ℤ → ℤ → SdkEvent
  ignored_event : SdkEvent

-- The error of the SDK: the context's, a status, or another.
pub data SdkError : Type 0 where
  sdk_context sdk_other : SdkError
  sdk_status : ℕ → SdkError

pub record MessageParams : Type 0 where
  pub model : String
  pub max_tokens : ℤ
  pub system : Option (List ℕ)
  pub messages : List (Bool × List ℕ)

pub record SdkStream : Type 0 where
  pub events : List SdkEvent
  pub error : Option SdkError

-- The role of a message is the user's unless it is the assistant's.
abbrev message_param : ChatMessage → Bool × List ℕ
message_param m = (not (str_eq m.role role_assistant), m.content)

abbrev system_param : List ℕ → Option (List ℕ)
system_param [] = none
system_param (c ∷ cs) = some (c ∷ cs)

unfoldable pub message_params : ProviderRequest → MessageParams
message_params r = record {
  model = r.model;
  max_tokens = r.max_tokens;
  system = system_param r.system;
  messages = map message_param r.messages;
}

-- The API key of the call: the platform's own, unless the request brings one.
unfoldable pub credential : KeyHeap → Option (List ℕ) → Option ℕ → Option (List ℕ)
unfolding reveal
credential h managed none = managed
credential h managed (some k) = some (reveal h (some k))

unfoldable pub finish_reason : String → FinishReason
finish_reason stop =
    if str_eq stop "max_tokens" || str_eq stop "model_context_window_exceeded"
    then finish_length
    else if str_eq stop "refusal"
    then finish_refusal
    else finish_stop

unfoldable pub classify : SdkError → StreamError
classify sdk_context = context_done
classify sdk_other = provider_error "provider_unavailable"
classify (sdk_status s) = provider_error (
    if s == 401 || s == 403
    then "provider_auth"
    else if s == 429
    then "provider_rate_limited"
    else if s == 400 || s == 404
    then "provider_invalid_request"
    else if leb 500 s
    then "provider_unavailable"
    else "provider_error")

abbrev delta_to : List ℕ → Streamed → Streamed
delta_to text s = record s { deltas = text ∷ s.deltas }

abbrev pub stopped_by : List ℕ → ProviderResult → Option StreamError → Streamed → Streamed
stopped_by text result none rest = delta_to text rest
stopped_by text result (some e) rest = record {
  deltas = text ∷ [];
  result = result;
  error = some e;
}

abbrev pub start_result : String → ℤ → ProviderResult → ProviderResult
start_result model input r = record r {
  model = if str_eq model "" then r.model else model;
  usage = record (r.usage) { input_tokens = input };
}

abbrev pub stop_result : String → ℤ → ℤ → ProviderResult → ProviderResult
stop_result stop input output r = record r {
  stop_reason = stop;
  usage = record {
    input_tokens = if ltb_ℤ (pos 0) input then input else r.usage.input_tokens;
    output_tokens = output;
  };
}

-- After the loop.
abbrev pub end_stream : ProviderResult → Option SdkError → Streamed
end_stream r (some e) = record { deltas = []; result = r; error = some (classify e) }
end_stream r none =
    if str_eq r.stop_reason ""
    then record { deltas = []; result = r; error = some (provider_error "incomplete_stream") }
    else record {
      deltas = [];
      result = record r { finish_reason = finish_reason r.stop_reason };
      error = none;
    }

-- The loop over the events; `i` counts the calls of onDelta.
unfoldable pub relay_events :
    (ℕ → Option StreamError) → ℕ → ProviderResult → Option SdkError → List SdkEvent → Streamed
unfolding finish_reason classify
relay_events on_delta i r e [] = end_stream r e
relay_events on_delta i r e (message_start model input ∷ events) =
    relay_events on_delta i (start_result model input r) e events
relay_events on_delta i r e (text_delta text ∷ events) =
    stopped_by text r (on_delta i) (relay_events on_delta (i + 1) r e events)
relay_events on_delta i r e (message_delta stop input output ∷ events) =
    relay_events on_delta i (stop_result stop input output r) e events
relay_events on_delta i r e (ignored_event ∷ events) = relay_events on_delta i r e events

abbrev no_usage : TokenUsage
no_usage = record { input_tokens = pos 0; output_tokens = pos 0 }

abbrev pub no_result : String → ProviderResult
no_result model = record {
  model = model;
  finish_reason = unset;
  stop_reason = "";
  usage = no_usage;
}

unfoldable pub anthropic_stream :
    (MessageParams → Option (List ℕ) → SdkStream)
    → Option (List ℕ)
    → KeyHeap
    → ProviderRequest
    → (ℕ → Option StreamError)
    → Streamed
unfolding message_params credential relay_events
anthropic_stream sdk managed h r on_delta =
    let s = sdk (message_params r) (credential h managed r.api_key) in
    relay_events on_delta 0 (no_result r.model) s.error s.events

unfoldable pub anthropic :
    (MessageParams → Option (List ℕ) → SdkStream) → Option (List ℕ) → Provider
unfolding anthropic_stream
anthropic sdk managed = record { name = "anthropic"; stream = anthropic_stream sdk managed }
