-- ===== src/Examples/Pipeline.antt =====
-- Runs of the event log writer and of the indexer.
use ta_platform.Prelude.{
  ◌≡◌, refl, ◌≢◌, String, true, false, Option, none, some, List, [], ◌∷◌, ◌++◌, pos, All, arith,
}
use ta_platform.Events.{Envelope, prompt_submitted}
use ta_platform.Pipeline.{
  Fetch, message, deadline, cancelled, RowDecoders, Promoted, DocumentDecoders, run_indexer,
  index_batch,
}
use ta_platform.Pipeline.Runs.{messages_of}
use ta_platform.Pipeline.Redelivered.{find_document, index_batch-index_batch}
use ta_platform.Pipeline.Indexed.{IsIndexed, run_indexer-IsIndexed}

-- A message is the number of its event; 0 does not decode.
abbrev envelope : String → Envelope
envelope id = record {
  event_id = id;
  event_type = prompt_submitted;
  schema_version = pos 1;
  company_id = "acme";
  occurred_at = pos 1000;
  sequence_number = pos 1;
  payload = "{}";
}

abbrev read_envelope : Option String → Option Envelope
read_envelope none = none
read_envelope (some id) = some (envelope id)

abbrev promoted : Promoted
promoted = record {
  interview_id = "i";
  candidate_id = none;
  job_id = none;
  application_id = none;
  session_id = none;
  user_id = none;
  outcome = none;
}

abbrev rows : RowDecoders (Option String)
rows = record { envelope = read_envelope; is_json = λ p. true; promoted = λ p. some promoted }

abbrev documents : DocumentDecoders (Option String)
documents = record {
  envelope = read_envelope;
  prompt =
      λ p. some (record { session_id = "s"; interview_id = "i"; prompt_id = "p"; prompt = "hi" });
  ai_response = λ p. none;
  diff = λ p. none;
}

abbrev fetches : List (Fetch (Option String))
fetches = message (some "a") ∷ message none ∷ deadline ∷ message (some "b") ∷ cancelled ∷ []

run_indexer-IsIndexed_example :
    let r = run_indexer documents 9 2 (λ d. false) (λ i. false) (λ i. false) fetches [] in
    (r.error ≢ none)
    × ((left : List (Option String)) × (messages_of fetches ≡ r.committed ++ (r.pending ++ left)))
    × All (IsIndexed (λ d. false) documents r.store) r.committed
run_indexer-IsIndexed_example =
    run_indexer-IsIndexed documents 9 2 (λ d. false) (λ i. false) (λ i. false) fetches []
      (omega arith)

index_batch-index_batch_example :
    let once = (index_batch documents (λ d. false) (λ i. false) 0 (some "a" ∷ none ∷ []) []).0 in
    find_document "a"
      (index_batch documents (λ d. false) (λ i. false) 1 (some "a" ∷ none ∷ []) once).0
    ≡ find_document "a" once
index_batch-index_batch_example =
    index_batch-index_batch documents (λ d. false) (λ i. false) 0 1 (some "a" ∷ none ∷ []) [] "a"
      refl
