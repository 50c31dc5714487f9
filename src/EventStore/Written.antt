-- ===== src/EventStore/Written.antt =====
-- What RecordEvents of internal/store/postgres/events.go writes for one event.
use ta_platform.Prelude.Results.{Result, ok, err, ok_eq, err_not_ok}
use ta_platform.Prelude.{
  ℕ, ◌+◌, ◌≡◌, refl, Bool, true, false, Option, some, List, [], ◌∷◌, ◌++◌, pos, Option-cases, inl,
  inr,
}
use ta_platform.EventStore.{
  Message, Interview, Db, StoreError, database, build_failed, allocate_sequence, record_events,
  record_allocated, insert_all,
}

-- The outbox of one store is that of another with a message added at its end.
abbrev pub Adds : Message → Db → Db → Type 0
Adds m db after =
    (after.outbox ≡ db.outbox ++ (record { id = db.next_id; message = m } ∷ []))
    × (after.next_id ≡ db.next_id + 1)

record_allocated-Adds :
    (build : ℕ → Option (List Message)) (db : Db) (n : ℕ) (m : Message)
    (r : Result StoreError (ℕ × List Interview))
    → build n ≡ some (m ∷ [])
    → (record_allocated build db r).1 ≡ ok n
    → Adds m db (record_allocated build db r).0
unfolding insert_all
record_allocated-Adds build db n m (err e) b h = absurd (err_not_ok e n h)
record_allocated-Adds build db n m (ok (first, vs)) b h = elim (Option-cases (build first)) [
  | inl p ↦ absurd (err_not_ok build_failed n (rw p at h))
  | inr (ms, p) ↦
      let same : first ≡ n = ok_eq first n (rw p at h) in
      let one : build first ≡ some (m ∷ []) = rw same b in rw one (refl, refl)
]

-- A recorded event that `build` makes the message `m` of is that message at the end of the outbox.
pub record_events-Adds :
    (co iv n : ℕ) (fault : Bool) (build : ℕ → Option (List Message)) (db : Db) (m : Message)
    → build n ≡ some (m ∷ [])
    → (record_events co iv (pos 1) fault build db).1 ≡ ok n
    → Adds m db (record_events co iv (pos 1) fault build db).0
unfolding record_events
record_events-Adds co iv n true build db m b h = absurd (err_not_ok database n h)
record_events-Adds co iv n false build db m b h =
    record_allocated-Adds build db n m (allocate_sequence co iv (pos 1) db.interviews) b h

record_allocated-built :
    (build : ℕ → Option (List Message)) (db : Db) (n : ℕ)
    (r : Result StoreError (ℕ × List Interview))
    → (record_allocated build db r).1 ≡ ok n
    → (ms : List Message) × (build n ≡ some ms)
record_allocated-built build db n (err e) h = absurd (err_not_ok e n h)
record_allocated-built build db n (ok (first, vs)) h = elim (Option-cases (build first)) [
  | inl p ↦ absurd (err_not_ok build_failed n (rw p at h))
  | inr (ms, p) ↦ (ms, rw (ok_eq first n (rw p at h)) at p)
]

-- An event is only recorded if its message could be built.
pub record_events-built :
    (co iv n : ℕ) (fault : Bool) (build : ℕ → Option (List Message)) (db : Db)
    → (record_events co iv (pos 1) fault build db).1 ≡ ok n
    → (ms : List Message) × (build n ≡ some ms)
unfolding record_events
record_events-built co iv n true build db h = absurd (err_not_ok database n h)
record_events-built co iv n false build db h =
    record_allocated-built build db n (allocate_sequence co iv (pos 1) db.interviews) h
