-- ===== src/Scoring/Consumer.antt =====
-- internal/scoring/consumer.go: Consumer.handle with its retries, Run and Backoff. What the world does
-- at each attempt (the state of the log, the failures of the database, an interrupted sleep) is an
-- argument. Callbacks are the results of the model.
use ta_platform.Prelude.Results.{Result, ok, err}
use ta_platform.Prelude.{
  ℕ, zero, suc, ◌+◌, ◌-◌, Bool, true, false, not, ◌||◌, List, [], ◌∷◌, leb_ℤ, Option, none, some,
  leb, if◌then◌else◌, ℤ, pos, ltb_ℤ, min_ℤ, mul64,
}
use ta_platform.Events.{Envelope}
use ta_platform.EventStore.{Db}
use ta_platform.Scoring.Scorer.{
  Trigger, Parsed, triggered, invalid, skipped, Parsers, parse_trigger, Log, Outcome, ScoreError,
  behind, permanent, transient, Service, score,
}

-- One attempt: what Score finds, and whether the sleep after it is cut short.
pub record Attempt : Type 0 where
  pub log : Log
  pub unread : Bool
  pub fault : Bool
  pub cut_short : Bool

-- How a message is left: skipped, reported invalid, scored at some attempt (these three are
-- committed), or an error that ends Run. `unfinished` is the model's, for a loop out of fuel.
pub data Handled : Type 0 where
  ignored reported failed unfinished : Handled
  finished : Trigger → Outcome → ℕ → Handled

-- The switch on the error of Score.
abbrev pub attempted :
    Trigger → ℕ → Bool → Db × Result ScoreError Outcome → Db × Handled → Db × Handled
attempted t attempt cut_short (after, ok o) again = (after, finished t o attempt)
attempted t attempt cut_short (after, err behind) again =
    if cut_short then (after, failed) else again
attempted t attempt cut_short (after, err permanent) again = (after, reported)
attempted t attempt cut_short (after, err transient) again = (after, failed)

-- The loop on attempts, with fuel.
unfoldable pub attempts : ℕ → Service → (ℕ → Attempt) → ℕ → Trigger → ℕ → Db → Db × Handled
unfolding score
attempts zero v world max_attempts t attempt db = (db, unfinished)
attempts (suc fuel) v world max_attempts t attempt db =
    let a = world attempt in
    let (after, r) = score v a.log a.unread a.fault t (leb max_attempts attempt) db in
    let again = attempts fuel v world max_attempts t (attempt + 1) after in
    attempted t attempt a.cut_short (after, r) again

abbrev pub handle_parsed : ℕ → Service → (ℕ → Attempt) → ℕ → Parsed → Db → Db × Handled
handle_parsed fuel v world max_attempts invalid db = (db, reported)
handle_parsed fuel v world max_attempts skipped db = (db, ignored)
handle_parsed fuel v world max_attempts (triggered t) db = attempts fuel v world max_attempts t 1 db

-- `none` is an envelope that does not decode.
unfoldable pub handle :
    ℕ → Parsers → Service → (ℕ → Attempt) → ℕ → Option Envelope → Db → Db × Handled
unfolding parse_trigger attempts
handle fuel p v world max_attempts none db = (db, reported)
handle fuel p v world max_attempts (some e) db =
    handle_parsed fuel v world max_attempts (parse_trigger p e) db

-- The loop of Backoff, which makes at most `n` rounds.
unfoldable pub doubled : ℕ → ℤ → ℤ → ℤ
doubled zero wait max_backoff = wait
doubled (suc n) wait max_backoff =
    let more = doubled n (mul64 wait (pos 2)) max_backoff in
    if ltb_ℤ wait max_backoff then more else wait

unfoldable pub backoff : ℤ → ℤ → ℕ → ℤ
unfolding doubled
backoff base_backoff max_backoff attempt =
    min_ℤ (doubled (attempt - 1) base_backoff max_backoff) max_backoff

-- A message that FetchMessage returns, what happens at the attempts for it, and whether its commit
-- fails.
pub record Fetched : Type 0 where
  pub value : Option Envelope
  pub world : ℕ → Attempt
  pub commit_fails : Bool

-- The results of handle that are errors.
abbrev pub ends_run : Handled → Bool
ends_run failed = true
ends_run unfinished = true
ends_run _ = false

abbrev pub committed : Handled → Db × List Handled → Db × List Handled
committed h (db, hs) = (db, h ∷ hs)

-- Run over the messages fetched until the context is done or a fetch fails: the tables, and how the
-- committed messages were left.
unfoldable pub run_consumer : Parsers → Service → ℕ → List Fetched → Db → Db × List Handled
unfolding handle
run_consumer p v max_attempts [] db = (db, [])
run_consumer p v max_attempts (m ∷ ms) db =
    let (after, h) = handle max_attempts p v m.world max_attempts m.value db in
    let rest = run_consumer p v max_attempts ms after in
    if ends_run h || m.commit_fails then (after, []) else committed h rest

-- NewConsumer: the configurations it takes.
unfoldable pub is_config : ℤ → ℤ → ℤ → Bool
is_config max_attempts base_backoff max_backoff =
    not
      (ltb_ℤ max_attempts (pos 1) || (leb_ℤ base_backoff (pos 0) || ltb_ℤ max_backoff base_backoff))
