-- ===== src/Pipeline/LogWriter.antt =====
-- internal/eventlogwriter/writer.go: Decode and Run; store.go: Insert and the engine of SchemaDDL. Decoding
-- JSON is an argument. The table of events is what a query with FINAL sees: a ReplacingMergeTree keeps, of the
-- rows with the same key, the one with the latest ingested_at, and of several the last inserted. The precision
-- of the columns for times is left out.
use ta_platform.Prelude.{
  ℕ, suc, String, Bool, true, false, not, ◌||◌, ◌&&◌, ◌+◌, ◌-◌, ◌%◌, ◌^◌, pos_part, neg_part, eqb_ℤ,
  Option, none, some, List, [], ◌∷◌, str_eq, if◌then◌else◌, ℤ, pos, ltb_ℤ,
}
use ta_platform.Events.{Envelope, EventType, other, Time, is_zero}
use ta_platform.Pipeline.Batches.{Fetch, Ran, run_batches}

pub record Promoted : Type 0 where
  pub interview_id : String
  pub candidate_id : Option String
  pub job_id : Option String
  pub application_id : Option String
  pub session_id : Option String
  pub user_id : Option String
  pub outcome : Option String

pub record EventRow : Type 0 where
  pub event_id : String
  pub company_id : String
  pub interview_id : String
  pub sequence_number : ℤ
  pub event_type : EventType
  pub schema_version : ℤ
  pub occurred_at : Time
  pub payload : String
  pub promoted : Promoted
  pub ingested_at : Time

-- json.Unmarshal of a message, json.Valid of a payload, and its promoted fields.
pub record RowDecoders (M : Type 0) : Type 0 where
  pub envelope : M → Option Envelope
  pub is_json : String → Bool
  pub promoted : String → Option Promoted

abbrev pub is_untyped : EventType → Bool
is_untyped (other t) = str_eq t ""
is_untyped _ = false

abbrev is_row_envelope : Envelope → Bool
is_row_envelope e = not (
    str_eq e.event_id ""
    || (str_eq e.company_id ""
        || (is_untyped e.event_type || (ltb_ℤ e.sequence_number (pos 0) || is_zero e.occurred_at))))

abbrev promoted_row : Envelope → Time → Option Promoted → Option EventRow
promoted_row e now none = none
promoted_row e now (some p) =
    if str_eq p.interview_id ""
    then none
    else some (record {
      event_id = e.event_id;
      company_id = e.company_id;
      interview_id = p.interview_id;
      sequence_number = e.sequence_number;
      event_type = e.event_type;
      schema_version = e.schema_version;
      occurred_at = e.occurred_at;
      payload = e.payload;
      promoted = p;
      ingested_at = now;
    })

abbrev enveloped_row : {M : Type 0} → RowDecoders M → Time → Option Envelope → Option EventRow
enveloped_row d now none = none
enveloped_row d now (some e) =
    if not (is_row_envelope e)
    then none
    else if not (d.is_json e.payload)
    then none
    else promoted_row e now (d.promoted e.payload)

-- Decode; `none` is an error.
unfoldable pub decode_row : {M : Type 0} → RowDecoders M → Time → M → Option EventRow
decode_row d now m = enveloped_row d now (d.envelope m)

abbrev pub also_row : Option EventRow → List EventRow → List EventRow
also_row none rows = rows
also_row (some r) rows = r ∷ rows

-- The rows of a batch, with the clock at each message.
unfoldable pub decode_rows : {M : Type 0} → RowDecoders M → (ℕ → Time) → ℕ → List M → List EventRow
unfolding decode_row
decode_rows d clock i [] = []
decode_rows d clock i (m ∷ ms) =
    also_row (decode_row d (clock i) m) (decode_rows d clock (suc i) ms)

-- What ClickHouse does with a batch: it refuses it, or stores it, or stores it and the answer is lost.
pub data Inserted : Type 0 where
  insert_refused insert_stored insert_lost : Inserted

-- uint16(row.SchemaVersion)
abbrev pub uint16 : ℤ → ℤ
uint16 n = pos ((pos_part n + (2 ^ 16 - neg_part n % 2 ^ 16)) % 2 ^ 16)

-- The values of a row that Append is given.
abbrev pub appended : EventRow → EventRow
appended r = record r { schema_version = uint16 r.schema_version }

-- ORDER BY (company_id, interview_id, sequence_number)
abbrev pub is_same_key : EventRow → EventRow → Bool
is_same_key a b =
    str_eq a.company_id b.company_id
    && (str_eq a.interview_id b.interview_id && eqb_ℤ a.sequence_number b.sequence_number)

-- A row is inserted: it replaces the one at its key, unless that one was ingested later.
unfoldable pub merge_row : EventRow → List EventRow → List EventRow
merge_row r [] = r ∷ []
merge_row r (q ∷ table) =
    let rest = merge_row r table in
    if is_same_key r q
    then (if ltb_ℤ r.ingested_at q.ingested_at then q ∷ table else r ∷ table)
    else q ∷ rest

unfoldable pub merge_rows : List EventRow → List EventRow → List EventRow
unfolding merge_row
merge_rows [] table = table
merge_rows (r ∷ rs) table = merge_rows rs (merge_row (appended r) table)

-- Insert: the table, and whether it succeeded; no rows are no call.
unfoldable pub insert_rows : Inserted → List EventRow → List EventRow → List EventRow × Bool
unfolding merge_rows
insert_rows answer [] table = (table, true)
insert_rows insert_refused (r ∷ rs) table = (table, false)
insert_rows insert_stored (r ∷ rs) table = (merge_rows (r ∷ rs) table, true)
insert_rows insert_lost (r ∷ rs) table = (merge_rows (r ∷ rs) table, false)

unfoldable pub write_rows :
    {M : Type 0}
    → RowDecoders M
    → (ℕ → ℕ → Time)
    → (ℕ → Inserted)
    → ℕ
    → List M
    → List EventRow
    → List EventRow × Bool
unfolding decode_rows insert_rows
write_rows d clock answer i ms table = insert_rows (answer i) (decode_rows d (clock i) 0 ms) table

-- Run
unfoldable pub run_writer :
    {M : Type 0}
    → RowDecoders M
    → ℕ
    → ℕ
    → (ℕ → ℕ → Time)
    → (ℕ → Inserted)
    → (ℕ → Bool)
    → List (Fetch M)
    → List EventRow
    → Ran (List EventRow) M
unfolding run_batches write_rows
run_writer d fuel batch_size clock answer commit_fails fs table =
    run_batches fuel batch_size (write_rows d clock answer) commit_fails 0 fs table
