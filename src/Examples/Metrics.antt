-- ===== src/Examples/Metrics.antt =====
-- internal/scoring/metrics at a short session.
use ta_platform.Prelude.{
  ◌≡◌, refl, none, some, List, [], ◌∷◌, arith, pos, inl, inr, wrap64, ◌+ℤ◌, ◌-ℤ◌, sort_stable,
}
use ta_platform.Prelude.Membership.{SameMembers}
use ta_platform.Events.{
  prompt_submitted, execution_requested, execution_completed, Decoders, time_sub, milliseconds,
}
use ta_platform.Metrics.{Event, Metrics, no_metrics, compute}
use ta_platform.Metrics.Canonical.{IsConsistent, compute-SameMembers}
use ta_platform.Metrics.Bounds.{IsPlausible, compute-IsPlausible}

-- Decoders that read a run as succeeded and know no other payload.
abbrev decoders : Decoders
decoders = record {
  ai_response = λ text. none;
  execution = λ text.
      some
        (record { session_id = "s"; interview_id = "i"; execution_id = "x"; status = "succeeded" });
  diff = λ text. none;
}

abbrev prompt : Event
prompt = record {
  sequence_number = pos 1;
  event_type = prompt_submitted;
  occurred_at = pos 1000000000;
  payload = "{}";
}

abbrev requested : Event
requested = record {
  sequence_number = pos 2;
  event_type = execution_requested;
  occurred_at = pos 3000000000;
  payload = "{}";
}

abbrev completed : Event
completed = record {
  sequence_number = pos 3;
  event_type = execution_completed;
  occurred_at = pos 4000000000;
  payload = "{}";
}

abbrev in_order : List Event
in_order = prompt ∷ requested ∷ completed ∷ []

abbrev shuffled : List Event
shuffled = completed ∷ prompt ∷ completed ∷ requested ∷ prompt ∷ []

abbrev expected : Metrics
expected = record no_metrics {
  prompt_count = 1;
  run_count = 1;
  run_succeeded_count = 1;
  last_run_status = "succeeded";
  active_duration_ms = pos 3000;
  time_to_first_run_ms = some (pos 2000);
}

shuffled_metrics : compute decoders shuffled ≡ some expected
unfolding compute sort_stable wrap64 ◌+ℤ◌ ◌-ℤ◌ milliseconds time_sub
shuffled_metrics = refl

in_order-IsConsistent : IsConsistent in_order
in_order-IsConsistent a b m n e = ground arith

same_events : SameMembers in_order shuffled
same_events a = (
  elim [
    | inl p ↦ inr (inl p)
    | inr (inl q) ↦ inr (inr (inr (inl q)))
    | inr (inr (inl r)) ↦ inl r
    | inr (inr (inr none_left)) ↦ absurd none_left
  ],
  elim [
    | inl r ↦ inr (inr (inl r))
    | inr (inl p) ↦ inl p
    | inr (inr (inl r)) ↦ inr (inr (inl r))
    | inr (inr (inr (inl q))) ↦ inr (inl q)
    | inr (inr (inr (inr (inl p)))) ↦ inl p
    | inr (inr (inr (inr (inr none_left)))) ↦ absurd none_left
  ],
)

compute-SameMembers_example : compute decoders in_order ≡ compute decoders shuffled
compute-SameMembers_example =
    compute-SameMembers decoders in_order shuffled in_order-IsConsistent same_events

compute-IsPlausible_example : IsPlausible expected
compute-IsPlausible_example =
    compute-IsPlausible decoders shuffled expected (omega arith) shuffled_metrics
