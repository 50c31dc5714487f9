-- ===== src/EventStore/Delivery.antt =====
-- internal/store/postgres/outbox.go and its writers: what is delivered to the broker over a
-- sequence of transactions and turns of the relay.
use ta_platform.Prelude.Results.{Result}
use ta_platform.Prelude.{
  ℕ, ◌+◌, ◌<◌, ◌≡◌, refl, sym, ◌∙◌, ap, Bool, true, false, ◌&&◌, List, [], ◌∷◌, ◌++◌, if◌then◌else◌,
  All, All-append, drop, length, arith, append-nil,
}
use mathlib.Core.Path.{subst}
use ta_platform.EventStore.{
  Row, Message, Db, StoreError, insert_outbox, insert_all, selected, drain, record_events,
  record_diff, start_session, save_numbered,
}
use ta_platform.EventStore.Trace.{
  Op, events_op, diff_op, start_op, score_op, relay_op, run, run_all,
}
use ta_platform.EventStore.Relay.{IsQueue, IsOrdered, drain_lem, IsQueue-drop}
use ta_platform.EventStore.Transactions.{
  record_events-writes, record_diff-writes, save_numbered-writes, start_session-writes,
}

-- The rows that a turn of the relay delivers and deletes.
abbrev pub delivered : Op → Db → List Row
delivered (relay_op limit locked published committed) db =
    if locked && (published && committed) then selected limit db else []
delivered op db = []

-- The rows that a transaction adds to the outbox.
abbrev pub added : Op → Db → List Row
added (relay_op limit locked published committed) db = []
added op db = drop (length db.outbox) (run op db).outbox

abbrev pub delivered_in : List Op → Db → List Row
delivered_in [] db = []
delivered_in (op ∷ ops) db = delivered op db ++ delivered_in ops (run op db)

abbrev pub added_in : List Op → Db → List Row
added_in [] db = []
added_in (op ∷ ops) db = added op db ++ added_in ops (run op db)

append_assoc : {A : Type 0} (xs ys zs : List A) → (xs ++ ys) ++ zs ≡ xs ++ (ys ++ zs)
append_assoc [] ys zs = refl
append_assoc (x ∷ xs) ys zs = ap (λ l. x ∷ l) (append_assoc xs ys zs)

drop-append : {A : Type 0} (xs ys : List A) → drop (length xs) (xs ++ ys) ≡ ys
drop-append [] ys = refl
drop-append (x ∷ xs) ys = drop-append xs ys

IsQueue-weaken : (n : ℕ) (rs : List Row) → IsQueue n rs → IsQueue (n + 1) rs
IsQueue-weaken n [] h = tt
IsQueue-weaken n (r ∷ rs) h = (h.0, (omega (arith, h.1.0), IsQueue-weaken n rs h.1.1))

All-below : (n : ℕ) (rs : List Row) → IsQueue n rs → All (λ (s : Row). s.id < n) rs
All-below n [] h = tt
All-below n (r ∷ rs) h = (h.1.0, All-below n rs h.1.1)

IsQueue-append :
    (n : ℕ) (m : Message) (rs : List Row)
    → IsQueue n rs
    → IsQueue (n + 1) (rs ++ (record { id = n; message = m } ∷ []))
IsQueue-append n m [] h = (tt, (omega arith, tt))
IsQueue-append n m (r ∷ rs) h = (
  All-append (λ (s : Row). r.id < s.id) rs (record { id = n; message = m } ∷ []) h.0 (h.1.0, tt),
  (omega (arith, h.1.0), IsQueue-append n m rs h.1.1),
)

-- Rows were added at the end, and an ordered outbox stayed ordered.
abbrev IsWrite : Db → Db → Type 0
IsWrite db after =
    (w : List Row) × (after.outbox ≡ db.outbox ++ w) × (IsOrdered db → IsOrdered after)

IsWrite-none :
    (db after : Db) → after.outbox ≡ db.outbox → after.next_id ≡ db.next_id → IsWrite db after
IsWrite-none db after o n = ([], o ∙ sym (append-nil db.outbox), λ h. rw (o, n) h)

IsWrite-trans : (a b d : Db) → IsWrite a b → IsWrite b d → IsWrite a d
IsWrite-trans a b d (v, e, h) (w, f, k) =
    (v ++ w, f ∙ (ap (λ l. l ++ w) e ∙ append_assoc a.outbox v w), λ o. k (h o))

insert_outbox-IsWrite : (m : Message) (db : Db) → IsWrite db (insert_outbox m db)
unfolding insert_outbox
insert_outbox-IsWrite m db = (
  record { id = db.next_id; message = m } ∷ [],
  refl,
  λ h. IsQueue-append db.next_id m db.outbox h,
)

insert_all-IsWrite :
    (ms : List Message) (db mid : Db)
    → mid.outbox ≡ db.outbox
    → mid.next_id ≡ db.next_id
    → IsWrite db (insert_all ms mid)
unfolding insert_all
insert_all-IsWrite [] db mid o n = IsWrite-none db mid o n
insert_all-IsWrite (m ∷ ms) db mid o n =
    IsWrite-trans db mid (insert_all ms (insert_outbox m mid)) (IsWrite-none db mid o n) (
      IsWrite-trans mid (insert_outbox m mid) (insert_all ms (insert_outbox m mid))
        (insert_outbox-IsWrite m mid)
        (insert_all-IsWrite ms (insert_outbox m mid) (insert_outbox m mid) refl refl))

-- One step: what it delivers and leaves is what was there and what it adds.
abbrev IsDelivery : Op → Db → Type 0
IsDelivery op db =
    (delivered op db ++ (run op db).outbox ≡ db.outbox ++ added op db) × IsOrdered (run op db)

write-added :
    (db after : Db)
    → IsOrdered db
    → IsWrite db after
    → (after.outbox ≡ db.outbox ++ drop (length db.outbox) after.outbox) × IsOrdered after
write-added db after h (w, e, k) =
    (rw e (ap (λ l. db.outbox ++ l) (sym (drop-append db.outbox w))), k h)

relay_idle :
    (limit : ℕ) (published committed : Bool) (db : Db)
    → IsOrdered db
    → IsDelivery (relay_op limit false published committed) db
unfolding run drain
relay_idle limit published committed db h = (sym (append-nil db.outbox), h)

relay_turn :
    (limit : ℕ) (published committed : Bool) (db : Db)
    → IsOrdered db
    → IsDelivery (relay_op limit true published committed) db
unfolding run
relay_turn limit true true db h =
    let (split, gone, same) = drain_lem limit true true db h in
    subst
      (λ (r : Db × Result StoreError ℕ).
        (selected limit db ++ r.0.outbox ≡ db.outbox ++ []) × IsOrdered r.0)
      (sym gone) (split ∙ sym (append-nil db.outbox), IsQueue-drop db.next_id limit db.outbox h)
relay_turn limit false committed db h =
    let (split, gone, same) = drain_lem limit false committed db h in
    subst (λ (after : Db). (after.outbox ≡ db.outbox ++ []) × IsOrdered after) (sym (same refl))
      (sym (append-nil db.outbox), h)
relay_turn limit true false db h =
    let (split, gone, same) = drain_lem limit true false db h in
    subst (λ (after : Db). (after.outbox ≡ db.outbox ++ []) × IsOrdered after) (sym (same refl))
      (sym (append-nil db.outbox), h)

run-IsDelivery : (op : Op) (db : Db) → IsOrdered db → IsDelivery op db
unfolding run
run-IsDelivery (events_op co iv count fault build) db h =
    write-added db (record_events co iv count fault build db).0 h (
      record_events-writes (IsWrite db) db (IsWrite-none db db refl refl)
        (λ ms mid o n. insert_all-IsWrite ms db mid o n) co iv count fault build)
run-IsDelivery (diff_op co s iv client fault build) db h =
    write-added db (record_diff co s iv client fault build db).0 h (
      record_diff-writes (IsWrite db) db (IsWrite-none db db refl refl)
        (λ ms mid o n. insert_all-IsWrite ms db mid o n) co s iv client fault build)
run-IsDelivery (start_op hash now p fault build) db h =
    write-added db (start_session hash now p fault build db).0 h (
      start_session-writes (IsWrite db) db (IsWrite-none db db refl refl)
        (λ ms mid o n. insert_all-IsWrite ms db mid o n) hash now p fault build)
run-IsDelivery (score_op s fault build) db h = write-added db (save_numbered s fault build db).0 h (
    save_numbered-writes (IsWrite db) db (IsWrite-none db db refl refl)
      (λ ms mid o n. insert_all-IsWrite ms db mid o n) s fault build)
run-IsDelivery (relay_op limit false published committed) db h =
    relay_idle limit published committed db h
run-IsDelivery (relay_op limit true published committed) db h =
    relay_turn limit published committed db h

-- Over any sequence of the transactions and turns of the relay, failed ones included, from an
-- ordered outbox: the rows delivered, in the order of their delivery, followed by those that wait
-- are the rows that waited at first followed by those added, in the order in which they were
-- added. The outbox stays ordered.
pub run_all-delivery :
    (ops : List Op) (db : Db)
    → IsOrdered db
    → (delivered_in ops db ++ (run_all ops db).outbox ≡ db.outbox ++ added_in ops db)
      × IsOrdered (run_all ops db)
unfolding run_all
run_all-delivery [] db h = (sym (append-nil db.outbox), h)
run_all-delivery (op ∷ ops) db h =
    let (now, ordered) = run-IsDelivery op db h in
    let (later, end) = run_all-delivery ops (run op db) ordered in
    (
      append_assoc (delivered op db) (delivered_in ops (run op db)) (run_all ops (run op db)).outbox
          ∙ (ap (λ l. delivered op db ++ l) later
              ∙ (sym (append_assoc (delivered op db) (run op db).outbox (added_in ops (run op db)))
                  ∙ (ap (λ l. l ++ added_in ops (run op db)) now
                      ∙ append_assoc db.outbox (added op db) (added_in ops (run op db))))),
      end,
    )
