-- ===== src/Pipeline/Indexer.antt =====
-- internal/eventindexer/indexer.go: Decode, index and Run. Decoding JSON is an argument. The collection
-- is a list of documents, which an upsert replaces by id.
use ta_platform.Prelude.{
  ℕ, ◌*◌, ◌/◌, String, Bool, true, false, not, ◌||◌, Option, none, some, List, [], ◌∷◌, str_eq,
  if◌then◌else◌, ℤ, pos, negsuc, ◌-ℤ◌,
}
use ta_platform.Events.{
  Envelope, EventType, prompt_submitted, ai_response_completed, code_diff, Time, is_zero,
  AiResponseCompleted, CodeDiff,
}
use ta_platform.Pipeline.Batches.{Fetch, Ran, run_batches}
use ta_platform.Pipeline.LogWriter.{is_untyped}

pub record IndexedDocument : Type 0 where
  pub id : String
  pub company_id : String
  pub interview_id : String
  pub session_id : String
  pub event_type : EventType
  pub sequence_number : ℤ
  pub occurred_at : ℤ
  pub text : String
  pub prompt_id : String
  pub path : String
  pub origin : String

pub record PromptSubmitted : Type 0 where
  pub session_id : String
  pub interview_id : String
  pub prompt_id : String
  pub prompt : String

-- json.Unmarshal of a message and of each payload.
pub record DocumentDecoders (M : Type 0) : Type 0 where
  pub envelope : M → Option Envelope
  pub prompt : String → Option PromptSubmitted
  pub ai_response : String → Option AiResponseCompleted
  pub diff : String → Option CodeDiff

-- The result of Decode: an error, an event without text, or a document.
pub data DecodedDocument : Type 0 where
  undecoded unindexed : DecodedDocument
  indexed : IndexedDocument → DecodedDocument

-- The seconds from Go's zero time to 1970.
abbrev unix_offset : ℕ
unix_offset = 62135596800

-- Time.UnixMilli
unfoldable pub unix_milli : Time → ℤ
unix_milli (pos n) = pos (n / 1000000) -ℤ pos (unix_offset * 1000)
unix_milli (negsuc n) = negsuc (n / 1000000) -ℤ pos (unix_offset * 1000)

-- The document of an event, with the fields of its payload.
abbrev document_of :
    Envelope → String → String → String → String → String → String → IndexedDocument
unfolding unix_milli
document_of e session interview prompt text path origin = record {
  id = e.event_id;
  company_id = e.company_id;
  interview_id = interview;
  session_id = session;
  event_type = e.event_type;
  sequence_number = e.sequence_number;
  occurred_at = unix_milli e.occurred_at;
  text = text;
  prompt_id = prompt;
  path = path;
  origin = origin;
}

-- The checks after the switch.
abbrev checked_document : IndexedDocument → DecodedDocument
checked_document d =
    if str_eq d.interview_id ""
    then undecoded
    else if str_eq d.text ""
    then unindexed
    else indexed d

abbrev of_prompt : Envelope → Option PromptSubmitted → DecodedDocument
unfolding document_of
of_prompt e none = undecoded
of_prompt e (some p) =
    checked_document (document_of e p.session_id p.interview_id p.prompt_id p.prompt "" "")

abbrev of_response : Envelope → Option AiResponseCompleted → DecodedDocument
unfolding document_of
of_response e none = undecoded
of_response e (some p) =
    checked_document (document_of e p.session_id p.interview_id p.prompt_id p.response_text "" "")

abbrev of_diff : Envelope → Option CodeDiff → DecodedDocument
unfolding document_of
of_diff e none = undecoded
of_diff e (some p) =
    checked_document (document_of e p.session_id p.interview_id p.prompt_id p.patch p.path p.origin)

abbrev payload_document : {M : Type 0} → DocumentDecoders M → Envelope → EventType → DecodedDocument
unfolding of_prompt of_response of_diff
payload_document d e prompt_submitted = of_prompt e (d.prompt e.payload)
payload_document d e ai_response_completed = of_response e (d.ai_response e.payload)
payload_document d e code_diff = of_diff e (d.diff e.payload)
payload_document d e _ = unindexed

abbrev is_document_envelope : Envelope → Bool
is_document_envelope e = not (
    str_eq e.event_id ""
    || (str_eq e.company_id "" || (is_untyped e.event_type || is_zero e.occurred_at)))

abbrev enveloped_document : {M : Type 0} → DocumentDecoders M → Option Envelope → DecodedDocument
unfolding payload_document
enveloped_document d none = undecoded
enveloped_document d (some e) =
    if not (is_document_envelope e) then undecoded else payload_document d e e.event_type

-- Decode
unfoldable pub decode_document : {M : Type 0} → DocumentDecoders M → M → DecodedDocument
unfolding enveloped_document
decode_document d m = enveloped_document d (d.envelope m)

abbrev pub also_document : DecodedDocument → List IndexedDocument → List IndexedDocument
also_document undecoded docs = docs
also_document unindexed docs = docs
also_document (indexed d) docs = d ∷ docs

unfoldable pub decode_documents : {M : Type 0} → DocumentDecoders M → List M → List IndexedDocument
unfolding decode_document
decode_documents d [] = []
decode_documents d (m ∷ ms) = also_document (decode_document d m) (decode_documents d ms)

unfoldable pub upsert : IndexedDocument → List IndexedDocument → List IndexedDocument
upsert d [] = d ∷ []
upsert d (c ∷ cs) = let rest = upsert d cs in if str_eq d.id c.id then d ∷ cs else c ∷ rest

-- The documents that Typesense accepts, one after the other.
unfoldable pub upsert_all :
    (IndexedDocument → Bool) → List IndexedDocument → List IndexedDocument → List IndexedDocument
unfolding upsert
upsert_all rejects [] docs = docs
upsert_all rejects (d ∷ ds) docs =
    let kept = upsert_all rejects ds (upsert d docs) in
    let dropped = upsert_all rejects ds docs in if rejects d then dropped else kept

-- index: a document that Typesense rejects is reported and is no failure of the batch; `fails` says that
-- the request as a whole failed.
unfoldable pub index_batch :
    {M : Type 0}
    → DocumentDecoders M
    → (IndexedDocument → Bool)
    → (ℕ → Bool)
    → ℕ
    → List M
    → List IndexedDocument
    → List IndexedDocument × Bool
unfolding decode_documents upsert_all
index_batch d rejects fails i ms docs =
    if fails i then (docs, false) else (upsert_all rejects (decode_documents d ms) docs, true)

-- Run
unfoldable pub run_indexer :
    {M : Type 0}
    → DocumentDecoders M
    → ℕ
    → ℕ
    → (IndexedDocument → Bool)
    → (ℕ → Bool)
    → (ℕ → Bool)
    → List (Fetch M)
    → List IndexedDocument
    → Ran (List IndexedDocument) M
unfolding run_batches index_batch
run_indexer d fuel batch_size rejects fails commit_fails fs docs =
    run_batches fuel batch_size (index_batch d rejects fails) commit_fails 0 fs docs
