-- ===== src/Gateway/Recorded.antt =====
-- The event that a completion records, and the text of it.
use ta_platform.Prelude.Results.{Result, ok, err}
use ta_platform.Prelude.{
  ℕ, ◌+◌, ◌≡◌, refl, sym, ◌∙◌, ap, ◌⊎◌, inl, inr, ◌≢◌, String, Bool, true, false, Option, none,
  some, List, [], ◌∷◌, ◌++◌, ◌||◌, Bool-cases, Option-cases, str_eq, eq_iff,
}
use ta_platform.Gateway.{
  KeyHeap, Provider, ProviderResult, FinishReason, is_cancelled, StreamError, context_done,
  client_gone, other_error, provider_error, SdkEvent, message_start, text_delta, message_delta,
  ignored_event, SdkError, MessageParams, SdkStream, message_params, anthropic_stream, anthropic,
  relay_events, start_result, stop_result, no_result, CompletionOutcome, Completion, KeyResolver,
  CompleteWorld, CompleteRequest, error_code, status_of, texts, streamed, outcome_of, completion,
  emitted, completed, complete, request_key, CompleteError, not_built, not_emitted, credential,
  provider_request,
}

-- The text of the stream.
unfoldable pub sdk_texts : List SdkEvent → List ℕ
sdk_texts [] = []
sdk_texts (text_delta text ∷ events) = text ++ sdk_texts events
sdk_texts (message_start _ _ ∷ events) = sdk_texts events
sdk_texts (message_delta _ _ _ ∷ events) = sdk_texts events
sdk_texts (ignored_event ∷ events) = sdk_texts events

some_error_neq : (e : StreamError) → some e ≢ none
some_error_neq e h = cc

-- A stream that ends without an error has passed on all of its text.
relay_events-texts :
    (on_delta : ℕ → Option StreamError) (i : ℕ) (r : ProviderResult) (e : Option SdkError)
    (events : List SdkEvent)
    → (relay_events on_delta i r e events).error ≡ none
    → texts (relay_events on_delta i r e events).deltas ≡ sdk_texts events
unfolding relay_events texts sdk_texts
relay_events-texts on_delta i r (some e) [] h = absurd (some_error_neq _ h)
relay_events-texts on_delta i r none [] h = elim (Bool-cases (str_eq r.stop_reason "")) [
  | inl p ↦ rw p refl
  | inr p ↦ rw p refl
]
relay_events-texts on_delta i r e (message_start model input ∷ events) h =
    relay_events-texts on_delta i (start_result model input r) e events h
relay_events-texts on_delta i r e (message_delta stop input output ∷ events) h =
    relay_events-texts on_delta i (stop_result stop input output r) e events h
relay_events-texts on_delta i r e (ignored_event ∷ events) h =
    relay_events-texts on_delta i r e events h
relay_events-texts on_delta i r e (text_delta text ∷ events) h = elim (Option-cases (on_delta i)) [
  | inl p ↦ rw p (ap (λ t. text ++ t) (relay_events-texts on_delta (i + 1) r e events (rw p at h)))
  | inr (x, p) ↦ absurd (some_error_neq x (rw p at h))
]

not_empty : (a : String) → str_eq a "" ≡ false → a ≢ ""
not_empty a h p = true_not_false (sym ((eq_iff a "").1 p) ∙ h)
  where
    true_not_false : true ≢ false
    true_not_false q = cc

error_code_not_empty : (e : StreamError) → error_code e ≢ ""
unfolding error_code
error_code_not_empty context_done = not_empty "provider_error" refl
error_code_not_empty client_gone = not_empty "provider_error" refl
error_code_not_empty other_error = not_empty "provider_error" refl
error_code_not_empty (provider_error code) = elim (Bool-cases (str_eq code "")) [
  | inl p ↦ rw p (not_empty "provider_error" refl)
  | inr p ↦ rw p (not_empty code p)
]

-- No code means no error.
status_of-error :
    (done : Bool) (reason : FinishReason) (e : Option StreamError)
    → (status_of done reason e).1 ≡ ""
    → e ≡ none
unfolding status_of
status_of-error done reason none h = refl
status_of-error done reason (some e) h = elim (Bool-cases (done || is_cancelled e)) [
  | inl p ↦ absurd (not_empty "cancelled" refl (rw p at h))
  | inr p ↦ absurd (error_code_not_empty e (rw p at h))
]

-- The event of a completion carries the identifiers of its request, and the outcome.
abbrev pub RecordOf : Provider → CompleteRequest → CompletionOutcome → Completion → Type 0
RecordOf p r o e =
    (e.key ≡ r.session_id)
    × (e.company_id ≡ r.company_id)
    × (e.sequence_number ≡ r.sequence_number)
    × (e.interview_id ≡ r.interview_id)
    × (e.prompt_id ≡ r.prompt_id)
    × (e.mode ≡ r.mode)
    × (e.provider ≡ p.name)
    × (e.outcome ≡ o)

some_error : (e : CompleteError) → some e ≢ none
some_error e h = cc

emitted-cases :
    (w : CompleteWorld) (e : Completion)
    → (((emitted w e).0 ≡ e ∷ []) × ((emitted w e).1 ≡ none))
      ⊎ (((w.new_fails || w.emit_fails) ≡ true) × ((emitted w e).0 ≡ []) × ((emitted w e).1 ≢ none))
emitted-cases w e = elim (Bool-cases w.new_fails) [
  | inl p ↦ inr (rw p refl, rw p refl, rw p (some_error not_built))
  | inr p ↦ elim (Bool-cases w.emit_fails) [
    | inl q ↦ inr (rw (p, q) refl, rw (p, q) refl, rw (p, q) (some_error not_emitted))
    | inr q ↦ inl (rw (p, q) refl, rw (p, q) refl)
  ]
]

streamed-texts :
    (sdk : MessageParams → Option (List ℕ) → SdkStream) (managed : Option (List ℕ))
    (w : CompleteWorld) (r : CompleteRequest) (heap : KeyHeap) (key : Result StreamError (Option ℕ))
    → (streamed (anthropic sdk managed) w r heap key).error ≡ none
    → (params : MessageParams) × (used : Option (List ℕ)) × (texts
          (streamed (anthropic sdk managed) w r heap key).deltas
        ≡ sdk_texts (sdk params used).events)
unfolding anthropic anthropic_stream
streamed-texts sdk managed w r heap (err e) h = absurd (some_error_neq e h)
streamed-texts sdk managed w r heap (ok key) h =
    let q = provider_request r key in
    let found = sdk (message_params q) (credential heap managed q.api_key) in
    (
      message_params q,
      credential heap managed q.api_key,
      relay_events-texts w.on_delta 0 (no_result q.model) found.error found.events h,
    )

one_event : (a b : Completion) → a ∷ [] ≡ b ∷ [] → a ≡ b
one_event a b h = cc

no_event : (e : Completion) → ◌≢◌ {A = List Completion} [] (e ∷ [])
no_event e h = cc

-- With the Anthropic provider: when the event of a completion has no error code (it was completed,
-- truncated or refused), its text is the whole text that the API streamed.
pub complete-sdk_texts :
    {S : Type 0} (sdk : MessageParams → Option (List ℕ) → SdkStream) (managed : Option (List ℕ))
    (keys : Option (KeyResolver S)) (w : CompleteWorld) (r : CompleteRequest) (s : S × KeyHeap)
    (e : Completion)
    → (complete (anthropic sdk managed) keys w r s).events ≡ e ∷ []
    → e.outcome.error_code ≡ ""
    → (params : MessageParams) × (credential : Option (List ℕ)) × (e.response_text
        ≡ sdk_texts (sdk params credential).events)
unfolding anthropic complete completed completion outcome_of
complete-sdk_texts sdk managed keys w r s e f h =
    let ((state, heap), key) = request_key keys w.done_early r s in
    let p = anthropic sdk managed in
    let run = streamed p w r heap key in
    let made = completion p w r run (outcome_of w r run) in
    elim (emitted-cases w made) [
      | inl (events, error) ↦
          let same : made ≡ e = one_event made e (sym events ∙ f) in
          let code : made.outcome.error_code ≡ "" = ap (λ x. x.outcome.error_code) same ∙ h in
          let (params, used, q) =
            streamed-texts sdk managed w r heap key
              (status_of-error w.done_late run.result.finish_reason run.error code) in
          (params, used, ap (λ x. x.response_text) (sym same) ∙ q)
      | inr (fails, events, error) ↦ absurd (no_event e (sym events ∙ f))
    ]
