-- ===== src/Pipeline/Delivered.antt =====
-- At-least-once delivery to the event log and to the search index.
use ta_platform.Prelude.{◌≤ℤ◌, ◌≡◌, ◌⊎◌, none, some, List}
use ta_platform.Prelude.Membership.{In}
use ta_platform.Events.{Time}
use ta_platform.Pipeline.{EventRow, RowDecoders, decode_row, appended}

-- A row `q` of a table stands for a row that was inserted: it is that row, or one with its key that was
-- ingested no earlier and has replaced it.
pub record StandsFor (r q : EventRow) : Type 0 where
  pub company : q.company_id ≡ r.company_id
  pub interview : q.interview_id ≡ r.interview_id
  pub number : q.sequence_number ≡ r.sequence_number
  pub same_or_later : (q ≡ appended r) ⊎ (r.ingested_at ≤ℤ q.ingested_at)

unfoldable pub IsStored : List EventRow → EventRow → Type 0
IsStored table r = (q : EventRow) × In q table × StandsFor r q

module _ {M : Type 0} (d : RowDecoders M) where
  -- A message that cannot be decoded, at whatever time, or one whose row, decoded at some time, the table
  -- has, or has replaced by a later one.
  abbrev pub IsLogged : List EventRow → M → Type 0
  IsLogged table m =
      (now : Time) × ((decode_row d now m ≡ none)
        ⊎ ((row : EventRow) × (decode_row d now m ≡ some row) × IsStored table row))

  -- Each message of a batch is undecodable, or its row is among the rows of the batch.
  abbrev IsRow : List EventRow → M → Type 0
  IsRow rows m =
      (now : Time) × ((decode_row d now m ≡ none)
        ⊎ ((row : EventRow) × (decode_row d now m ≡ some row) × In row rows))
