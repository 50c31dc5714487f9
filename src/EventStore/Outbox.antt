-- ===== src/EventStore/Outbox.antt =====
-- internal/store/postgres/outbox.go, NewMessage and publish of internal/outbox/outbox.go: the rows that
-- wait for the broker.
use ta_platform.Prelude.Results.{Result, ok, err}
use ta_platform.Prelude.{
  ℕ, zero, suc, ◌+◌, String, Option, none, some, Bool, true, false, not, List, [], ◌∷◌, ◌++◌, map,
  ltb, ◌==◌, if◌then◌else◌, sort_stable, length, str_eq, ◌||◌,
}
use ta_platform.Events.{EventType}
use ta_platform.EventStore.Tables.{Message, Row, Db, StoreError, database}

unfoldable pub insert_outbox : Message → Db → Db
insert_outbox m db = record db {
  outbox = db.outbox ++ (record { id = db.next_id; message = m } ∷ []);
  next_id = db.next_id + 1;
}

unfoldable pub insert_all : List Message → Db → Db
unfolding insert_outbox
insert_all [] db = db
insert_all (m ∷ ms) db = insert_all ms (insert_outbox m db)

-- ORDER BY id
abbrev pub id_less : Row → Row → Bool
id_less a b = ltb a.id b.id

-- LIMIT
unfoldable pub limited : ℕ → List Row → List Row
limited n [] = []
limited zero (r ∷ rs) = []
limited (suc n) (r ∷ rs) = r ∷ limited n rs

abbrev pub selected : ℕ → Db → List Row
selected limit db = limited limit (sort_stable id_less db.outbox)

-- id = ANY($1)
unfoldable pub any_id : ℕ → List Row → Bool
any_id id [] = false
any_id id (r ∷ rs) = if id == r.id then true else any_id id rs

-- The rows that DELETE leaves.
unfoldable pub without : List Row → List Row → List Row
unfolding any_id
without gone [] = []
without gone (r ∷ rs) = let rest = without gone rs in if any_id r.id gone then rest else r ∷ rest

-- What the broker sees of one turn of the relay: the messages handed to it, in order.
abbrev pub handed : List Row → List Message
handed rows = map (λ (r : Row). r.message) rows

-- `locked` says whether the advisory lock was free, `published` whether the broker took the
-- batch, `committed` whether the statements after it and the commit succeeded.
unfoldable pub drain_rows : Bool → Bool → List Row → Db → Db × Result StoreError ℕ
unfolding without
drain_rows published committed [] db = (db, ok 0)
drain_rows published committed (r ∷ rs) db =
    if not published
    then (db, err database)
    else if not committed
    then (db, err database)
    else (record db { outbox = without (r ∷ rs) db.outbox }, ok (length (r ∷ rs)))

unfoldable pub drain : ℕ → Bool → Bool → Bool → Db → Db × Result StoreError ℕ
unfolding drain_rows limited
drain limit locked published committed db =
    if not locked then (db, ok 0) else drain_rows published committed (selected limit db) db

-- outbox.NewMessage, on an envelope's company, its type and its JSON, each `none` if it cannot be
-- parsed or written.
abbrev pub addressed : String → String → EventType → Option ℕ → Option String → Option Message
addressed topic key event_type (some company) (some body) = some (record {
  company_id = company;
  topic = topic;
  key = key;
  event_type = event_type;
  envelope = body;
})
addressed topic key event_type _ _ = none

unfoldable pub new_message : String → String → EventType → Option ℕ → Option String → Option Message
new_message topic key event_type company body =
    if str_eq topic "" || str_eq key "" then none else addressed topic key event_type company body
