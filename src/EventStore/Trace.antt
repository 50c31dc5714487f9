-- ===== src/EventStore/Trace.antt =====
-- Sequences of the transactions of internal/store/postgres that allocate numbers or relay rows,
-- in the order in which the row locks let them run, failed ones included.
use ta_platform.Prelude.Results.{Result, ok, err}
use ta_platform.Prelude.{
  ℕ, zero, suc, ◌+◌, String, Bool, ◌&&◌, Option, none, some, List, [], ◌∷◌, ◌++◌, ◌==◌,
  if◌then◌else◌, ℤ, pos_part,
}
use ta_platform.EventStore.{
  Message, Interview, Score, Db, StoreError, StartParams, Started, is_open, is_bound, record_events,
  record_diff, start_session, save_numbered, drain,
}

pub data Op : Type 0 where
  events_op : ℕ → ℕ → ℤ → Bool → (ℕ → Option (List Message)) → Op
  diff_op : ℕ → ℕ → ℕ → ℤ → Bool → (ℕ → Option Message) → Op
  start_op : String → ℤ → StartParams → Bool → (Started → Option Message) → Op
  score_op : Score → Bool → (ℕ → Option Message) → Op
  relay_op : ℕ → Bool → Bool → Bool → Op

unfoldable pub run : Op → Db → Db
unfolding record_events record_diff start_session save_numbered drain
run (events_op c i count fault build) db = (record_events c i count fault build db).0
run (diff_op c s i client fault build) db = (record_diff c s i client fault build db).0
run (start_op hash now p fault build) db = (start_session hash now p fault build db).0
run (score_op s fault build) db = (save_numbered s fault build db).0
run (relay_op limit locked published committed) db = (drain limit locked published committed db).0

unfoldable pub run_all : List Op → Db → Db
unfolding run
run_all [] db = db
run_all (op ∷ ops) db = run_all ops (run op db)

-- `n` numbers from `first` on.
unfoldable pub range : ℕ → ℕ → List ℕ
range first zero = []
range first (suc n) = first ∷ range (first + 1) n

-- The numbers that a result hands out to an interview of a company.
abbrev pub given : Bool → ℕ → Result StoreError ℕ → List ℕ
given same n (err e) = []
given same n (ok first) = if same then range first n else []

abbrev pub given_start : ℕ → ℕ → Result StoreError Started → List ℕ
given_start c i (err e) = []
given_start c i (ok s) =
    if c == s.session.company_id && is_bound i s.session.interview_id
    then range s.sequence_number 1
    else []

abbrev pub given_score : Bool → Result StoreError (Option ℕ) → List ℕ
given_score same (err e) = []
given_score same (ok none) = []
given_score same (ok (some n)) = if same then range n 1 else []

unfoldable pub given_by : ℕ → ℕ → Op → Db → List ℕ
unfolding range record_events record_diff start_session save_numbered
given_by c i (events_op c' i' count fault build) db =
    given (c == c' && i == i') (pos_part count) (record_events c' i' count fault build db).1
given_by c i (diff_op c' s i' client fault build) db =
    given (c == c' && i == i') 1 (record_diff c' s i' client fault build db).1
given_by c i (start_op hash now p fault build) db =
    given_start c i (start_session hash now p fault build db).1
given_by c i (score_op s fault build) db =
    given_score (c == s.company_id && i == s.interview_id) (save_numbered s fault build db).1
given_by c i (relay_op limit locked published committed) db = []

-- All numbers that a sequence of transactions hands out to an interview, in order.
unfoldable pub given_in : ℕ → ℕ → List Op → Db → List ℕ
unfolding given_by run
given_in c i [] db = []
given_in c i (op ∷ ops) db = given_by c i op db ++ given_in c i ops (run op db)

-- The last number of an open interview, 0 if there is none.
unfoldable pub last_number : ℕ → ℕ → List Interview → ℕ
last_number c i [] = 0
last_number c i (v ∷ vs) =
    let rest = last_number c i vs in if is_open c i v then v.last_sequence_number else rest
