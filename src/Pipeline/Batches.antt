-- ===== src/Pipeline/Batches.antt =====
-- internal/eventindexer/indexer.go and internal/eventlogwriter/writer.go: the batches that both fetch,
-- and their loops. A broker is the list of what its successive fetches give.
use ta_platform.Prelude.{
  ℕ, zero, suc, ◌-◌, Bool, true, false, Option, none, some, List, [], ◌∷◌, ◌++◌, if◌then◌else◌,
}

-- A fetch gives a message, runs into the deadline of the batch, fails, or is cancelled.
pub data Fetch (M : Type 0) : Type 0 where
  message : M → Fetch M
  deadline fetch_failed cancelled : Fetch M

-- The errors that end a run; `stopped` is the context's.
pub data RunEnd : Type 0 where
  stopped fetch_error fill_error write_error commit_error : RunEnd

-- A batch or the error, and the fetches that are left. At the end of the list the context is done.
pub record Batch (M : Type 0) : Type 0 where
  pub messages : List M
  pub error : Option RunEnd
  pub rest : List (Fetch M)

abbrev with_message : {M : Type 0} → M → Batch M → Batch M
with_message m b = record b { messages = m ∷ b.messages }

-- The loop that fills a batch with up to `room` more messages.
unfoldable pub fill_batch : {M : Type 0} → ℕ → List (Fetch M) → Batch M
fill_batch zero fs = record { messages = []; error = none; rest = fs }
fill_batch (suc room) [] = record { messages = []; error = some stopped; rest = [] }
fill_batch (suc room) (message m ∷ fs) = with_message m (fill_batch room fs)
fill_batch (suc room) (deadline ∷ fs) = record { messages = []; error = none; rest = fs }
fill_batch (suc room) (fetch_failed ∷ fs) = record {
  messages = [];
  error = some fill_error;
  rest = fs;
}
fill_batch (suc room) (cancelled ∷ fs) = record { messages = []; error = some stopped; rest = fs }

-- fetchBatch; the first fetch has no deadline.
unfoldable pub fetch_batch : {M : Type 0} → ℕ → List (Fetch M) → Batch M
unfolding fill_batch
fetch_batch size [] = record { messages = []; error = some stopped; rest = [] }
fetch_batch size (message m ∷ fs) = with_message m (fill_batch (size - 1) fs)
fetch_batch size (deadline ∷ fs) = record { messages = []; error = some fetch_error; rest = fs }
fetch_batch size (fetch_failed ∷ fs) = record { messages = []; error = some fetch_error; rest = fs }
fetch_batch size (cancelled ∷ fs) = record { messages = []; error = some stopped; rest = fs }

-- What a run has done: the store, the messages whose offsets it committed, those it was left with in a
-- batch that did not commit, and the error that ended it; `none` is out of fuel.
pub record Ran (S M : Type 0) : Type 0 where
  pub store : S
  pub committed : List M
  pub pending : List M
  pub error : Option RunEnd

abbrev pub also_committed : {S M : Type 0} → List M → Ran S M → Ran S M
also_committed ms r = record r { committed = ms ++ r.committed }

abbrev pub ran : {S M : Type 0} → S → List M → RunEnd → Ran S M
ran s ms e = record { store = s; committed = []; pending = ms; error = some e }

-- The i-th batch: the write of its messages, which may fail, then the commit.
abbrev pub written_batch : {S M : Type 0} → List M → Bool → S × Bool → (S → Ran S M) → Ran S M
written_batch ms commit_fails (s, false) again = ran s ms write_error
written_batch ms commit_fails (s, true) again =
    let rest = again s in if commit_fails then ran s ms commit_error else also_committed ms rest

-- After a fetch: its error ends the run.
abbrev pub fetched_batch :
    {S M : Type 0}
    → Option RunEnd
    → List M
    → S
    → (List M → S → S × Bool)
    → Bool
    → (S → Ran S M)
    → Ran S M
fetched_batch (some e) ms s write commit_fails again = ran s ms e
fetched_batch none ms s write commit_fails again = written_batch ms commit_fails (write ms s) again

-- Run, with fuel for its batches; `write i` is the write of the i-th batch.
unfoldable pub run_batches :
    {S M : Type 0}
    → ℕ
    → ℕ
    → (ℕ → List M → S → S × Bool)
    → (ℕ → Bool)
    → ℕ
    → List (Fetch M)
    → S
    → Ran S M
unfolding fetch_batch
run_batches zero size write commit_fails i fs s = record {
  store = s;
  committed = [];
  pending = [];
  error = none;
}
run_batches (suc fuel) size write commit_fails i fs s =
    let b = fetch_batch size fs in
    fetched_batch b.error b.messages s (write i) (commit_fails i)
      (λ after. run_batches fuel size write commit_fails (suc i) b.rest after)
