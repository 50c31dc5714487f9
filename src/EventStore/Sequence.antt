-- ===== src/EventStore/Sequence.antt =====
-- internal/store/postgres/events.go and diffs.go: allocateSequence, RecordEvents and RecordDiff.
-- A transaction that returns an error leaves the tables as they were; `fault` says that one of its
-- statements, or the commit, fails. A bigint that would overflow is such a failure.
use ta_platform.Prelude.Results.{Result, ok, err}
use ta_platform.Prelude.{
  ℕ, ◌+◌, ◌-◌, ◌^◌, Bool, false, ◌&&◌, Option, none, some, List, [], ◌∷◌, ltb, ◌==◌, if◌then◌else◌,
  ℤ, pos, pos_part, ltb_ℤ,
}
use ta_platform.EventStore.Tables.{
  Message, Interview, Session, Db, StoreError, database, bad_count, interview_not_found,
  build_failed, diff_out_of_order, is_open,
}
use ta_platform.EventStore.Outbox.{insert_outbox, insert_all}

-- UPDATE interviews ... RETURNING last_sequence_number; `none` is no row.
abbrev pub behind : Interview → Option (ℕ × List Interview) → Option (ℕ × List Interview)
behind v none = none
behind v (some (last, vs)) = some (last, v ∷ vs)

unfoldable pub advance : ℕ → ℕ → ℕ → List Interview → Option (ℕ × List Interview)
advance company interview n [] = none
advance company interview n (v ∷ vs) =
    let rest = advance company interview n vs in
    if is_open company interview v
    then some (
      v.last_sequence_number + n,
      record v { last_sequence_number = v.last_sequence_number + n } ∷ vs,
    )
    else behind v rest

-- The first number and the table, from the row that UPDATE returned.
abbrev pub allocated : ℕ → Option (ℕ × List Interview) → Result StoreError (ℕ × List Interview)
allocated n none = err interview_not_found
allocated n (some (last, vs)) = if ltb last (2 ^ 63) then ok ((last - n) + 1, vs) else err database

unfoldable pub allocate_sequence :
    ℕ → ℕ → ℤ → List Interview → Result StoreError (ℕ × List Interview)
unfolding advance
allocate_sequence company interview count vs =
    if ltb_ℤ count (pos 1)
    then err bad_count
    else allocated (pos_part count) (advance company interview (pos_part count) vs)

-- After `build`.
abbrev pub record_built : ℕ → Db → Db → Option (List Message) → Db × Result StoreError ℕ
record_built first db before none = (before, err build_failed)
record_built first db before (some ms) = (insert_all ms db, ok first)

-- After the allocation.
abbrev pub record_allocated :
    (ℕ → Option (List Message))
    → Db
    → Result StoreError (ℕ × List Interview)
    → Db × Result StoreError ℕ
record_allocated build db (err e) = (db, err e)
record_allocated build db (ok (first, vs)) =
    record_built first (record db { interviews = vs }) db (build first)

unfoldable pub record_events :
    ℕ → ℕ → ℤ → Bool → (ℕ → Option (List Message)) → Db → Db × Result StoreError ℕ
unfolding allocate_sequence insert_all
record_events company interview count fault build db =
    if fault
    then (db, err database)
    else record_allocated build db (allocate_sequence company interview count db.interviews)

-- WHERE company_id = $1 AND id = $2 AND interview_id = $4
abbrev pub is_bound : ℕ → Option ℕ → Bool
is_bound interview none = false
is_bound interview (some i) = interview == i

abbrev pub is_session_of : ℕ → ℕ → ℕ → Session → Bool
is_session_of company session interview s =
    company == s.company_id && (session == s.id && is_bound interview s.interview_id)

abbrev pub after_session : Session → Option (List Session) → Option (List Session)
after_session s none = none
after_session s (some ss) = some (s ∷ ss)

-- UPDATE sessions ... AND last_diff_sequence < $3; `none` is no row.
unfoldable pub advance_diff : ℕ → ℕ → ℕ → ℤ → List Session → Option (List Session)
advance_diff company session interview client [] = none
advance_diff company session interview client (s ∷ ss) =
    let rest = advance_diff company session interview client ss in
    if is_session_of company session interview s && ltb_ℤ s.last_diff_sequence client
    then some (record s { last_diff_sequence = client } ∷ ss)
    else after_session s rest

abbrev pub diff_built : ℕ → Db → Db → Option Message → Db × Result StoreError ℕ
diff_built sequence db before none = (before, err build_failed)
diff_built sequence db before (some m) = (insert_outbox m db, ok sequence)

abbrev pub diff_allocated :
    (ℕ → Option Message)
    → Db
    → Db
    → Result StoreError (ℕ × List Interview)
    → Db × Result StoreError ℕ
diff_allocated build db before (err e) = (before, err e)
diff_allocated build db before (ok (sequence, vs)) =
    diff_built sequence (record db { interviews = vs }) before (build sequence)

abbrev pub diff_advanced :
    ℕ → ℕ → (ℕ → Option Message) → Db → Option (List Session) → Db × Result StoreError ℕ
diff_advanced company interview build db none = (db, err diff_out_of_order)
diff_advanced company interview build db (some ss) =
    diff_allocated build (record db { sessions = ss }) db
      (allocate_sequence company interview (pos 1) db.interviews)

unfoldable pub record_diff :
    ℕ → ℕ → ℕ → ℤ → Bool → (ℕ → Option Message) → Db → Db × Result StoreError ℕ
unfolding allocate_sequence advance_diff insert_outbox
record_diff company session interview client fault build db =
    if fault
    then (db, err database)
    else diff_advanced company interview build db
        (advance_diff company session interview client db.sessions)
