-- ===== src/EventStore/Numbering.antt =====
-- The callers of allocateSequence in internal/store/postgres: the numbers that an interview's
-- events get.
use ta_platform.EventStore.Allocation.{IsNext, IsNext-none, IsNext-append}
use ta_platform.Prelude.Results.{ok}
use ta_platform.Prelude.{
  ℕ, ◌+◌, ◌≡◌, refl, sym, ◌∙◌, ap, Bool, ◌&&◌, Option, List, [], ◌∷◌, ◌==◌, ==_refl, pos, length,
}
use ta_platform.EventStore.Trace.{
  Op, events_op, diff_op, start_op, score_op, relay_op, run, run_all, range, given, given_by,
  given_in, last_number,
}
use ta_platform.EventStore.{Message, Db, record_events}
use ta_platform.EventStore.Numbers.{
  record_events-IsNext, record_diff-IsNext, save_numbered-IsNext, drain-interviews,
  start_session-IsNext,
}

run-IsNext : (c i : ℕ) (op : Op) (db : Db) → IsNext c i (given_by c i op db) db (run op db)
unfolding run given_by
run-IsNext c i (events_op co iv count fault build) db =
    record_events-IsNext c i co iv count fault build db
run-IsNext c i (diff_op co s iv client fault build) db =
    record_diff-IsNext c i co s iv client fault build db
run-IsNext c i (start_op hash now p fault build) db =
    start_session-IsNext c i hash now p fault build db
run-IsNext c i (score_op s fault build) db = save_numbered-IsNext c i s fault build db
run-IsNext c i (relay_op limit locked published committed) db =
    IsNext-none c i db (run (relay_op limit locked published committed) db)
      (drain-interviews limit locked published committed db)

-- Over any sequence of the transactions, failed ones and other interviews' included, the numbers
-- that an interview is given are, in order, those after its last one, without a gap or a repeat,
-- and its last one after them is the last number given.
pub run_all-IsNext :
    (c i : ℕ) (ops : List Op) (db : Db) → IsNext c i (given_in c i ops db) db (run_all ops db)
unfolding run_all given_in
run_all-IsNext c i [] db = IsNext-none c i db db refl
run_all-IsNext c i (op ∷ ops) db =
    IsNext-append c i (given_by c i op db) (given_in c i ops (run op db)) db (run op db)
      (run_all ops (run op db)) (run-IsNext c i op db) (run_all-IsNext c i ops (run op db))

-- One recorded event gets the number after the last one of the interview, and becomes the last.
pub record_events-last_number :
    (co iv n : ℕ) (fault : Bool) (build : ℕ → Option (List Message)) (db : Db)
    → (record_events co iv (pos 1) fault build db).1 ≡ ok n
    → (n ≡ last_number co iv db.interviews + 1)
      × (last_number co iv (record_events co iv (pos 1) fault build db).0.interviews
          ≡ last_number co iv db.interviews + 1)
unfolding range
record_events-last_number co iv n fault build db h =
    let next = record_events-IsNext co iv co iv (pos 1) fault build db in
    let one : given (co == co && iv == iv) 1 (record_events co iv (pos 1) fault build db).1
        ≡ range n 1 =
      rw (h, ==_refl co, ==_refl iv) refl in
    (
      heads n (last_number co iv db.interviews + 1) (
          sym one
          ∙ (next.0 ∙ ap (λ l. range (last_number co iv db.interviews + 1) (length l)) one)),
      next.1 ∙ ap (λ l. last_number co iv db.interviews + length l) one,
    )
  where
    heads : (a b : ℕ) → a ∷ [] ≡ b ∷ [] → a ≡ b
    heads a b h = cc
