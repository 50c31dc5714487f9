-- ===== src/Metrics/Bounds.antt =====
-- What the metrics of internal/scoring/metrics/metrics.go satisfy, on every timeline.
use mathlib.Core.Path.{subst}
use ta_platform.Prelude.{
  some_eq, ◌-ℤ◌, ◌≤◌, ◌≡◌, refl, true, false, Option, none, some, List, [], ◌∷◌, arith, Bool-cases,
  inl, inr, ℤ, pos, ◌<ℤ◌, ◌≤ℤ◌, All,
}
use ta_platform.Events.{
  EventType, Decoders, time_sub, milliseconds, is_zero, prompt_submitted, ai_response_completed,
  execution_requested, execution_completed, code_diff,
}
use ta_platform.Metrics.Canonical.{dedupe-In}
use ta_platform.Prelude.Membership.{In-All, All-In}
use ta_platform.Metrics.{
  finished, Event, Metrics, Loop, start, step, count, loop, finish, dedupe, compute, is_activity,
  seen_at,
}

-- The counters agree with one another, and the moments are in order.
pub record IsSound (s : Loop) : Type 0 where
  pub errors : s.m.ai_error_count ≤ s.m.ai_response_count
  pub succeeded : s.m.run_succeeded_count ≤ s.m.run_count
  pub by_ai : s.m.ai_diff_count ≤ s.m.diff_count
  pub first_nonneg : pos 0 ≤ℤ s.first
  pub ordered : s.first ≤ℤ s.last
  pub run_started : is_zero s.first ≡ true → is_zero s.first_run ≡ true
  pub run_first : is_zero s.first_run ≡ false → s.first ≤ℤ s.first_run
  pub run_last : s.first_run ≤ℤ s.last

start-IsSound : IsSound start
start-IsSound = ground arith

-- A timeline after Go's zero time.
abbrev pub IsTimed : Event → Type 0
IsTimed e = pos 0 <ℤ e.occurred_at

-- The sound states after an event was seen: its moment lies between the first and the last.
record IsSeen (t : ℤ) (s : Loop) : Type 0 where
  sound : IsSound s
  started : is_zero s.first ≡ false
  low : s.first ≤ℤ t
  high : t ≤ℤ s.last

seen_at-IsSeen :
    (e : Event) (s : Loop) → IsTimed e → IsSound s → IsSeen e.occurred_at (seen_at e.occurred_at s)
seen_at-IsSeen e s t h = ground arith

count-IsSound :
    (d : Decoders) (k : EventType) (e : Event) (s s' : Loop)
    → IsSeen e.occurred_at s
    → count d k e s ≡ some s'
    → IsSound s'
unfolding count
count-IsSound d prompt_submitted e s s' h c = ground arith
count-IsSound d ai_response_completed e s s' h c = ground arith
count-IsSound d execution_requested e s s' h c = ground arith
count-IsSound d execution_completed e s s' h c = ground arith
count-IsSound d code_diff e s s' h c = ground arith
count-IsSound d _ e s s' h c = ground arith

step-IsSound :
    (d : Decoders) (e : Event) (s s' : Loop)
    → IsTimed e
    → IsSound s
    → step d e s ≡ some s'
    → IsSound s'
unfolding step
step-IsSound d e s s' t h c = elim (Bool-cases (is_activity e.event_type)) [
  | inl a ↦
      count-IsSound d e.event_type e (seen_at e.occurred_at s) s' (seen_at-IsSeen e s t h)
        (rw a at c)
  | inr n ↦ subst IsSound (some_eq s s' (rw n at c)) h
]

loop_from :
    (d : Decoders) (es : List Event) (r : Option Loop) (s' : Loop)
    → All IsTimed es
    → ((s : Loop) → r ≡ some s → IsSound s)
    → loop d es r ≡ some s'
    → IsSound s'
unfolding loop
loop_from d es none s' t h c = absurd (cc)
loop_from d [] (some s) s' t h c = subst IsSound (some_eq s s' c) (h s refl)
loop_from d (e ∷ es) (some s) s' t h c =
    loop_from d es (step d e s) s' t.1 (λ u eq. step-IsSound d e s u t.0 (h s refl) eq) c

-- A duration between two moments in order.
milliseconds-nonneg : (a b : ℤ) → b ≤ℤ a → pos 0 ≤ℤ milliseconds (time_sub a b)
unfolding milliseconds time_sub ◌-ℤ◌
milliseconds-nonneg a b h = ground arith

milliseconds-mono :
    (a b c : ℤ) → c ≤ℤ a → a ≤ℤ b → milliseconds (time_sub a c) ≤ℤ milliseconds (time_sub b c)
unfolding milliseconds time_sub ◌-ℤ◌
milliseconds-mono a b c h k = ground arith

-- The metrics that a sound state ends in.
pub record IsPlausible (m : Metrics) : Type 0 where
  pub errors : m.ai_error_count ≤ m.ai_response_count
  pub succeeded : m.run_succeeded_count ≤ m.run_count
  pub by_ai : m.ai_diff_count ≤ m.diff_count
  pub active : pos 0 ≤ℤ m.active_duration_ms
  pub first_run :
      (t : ℤ) → m.time_to_first_run_ms ≡ some t → (pos 0 ≤ℤ t) × (t ≤ℤ m.active_duration_ms)

-- What the loop does not touch.
abbrev IsUnset : Metrics → Type 0
IsUnset m = (m.active_duration_ms ≡ pos 0) × (m.time_to_first_run_ms ≡ none)

count-IsUnset :
    (d : Decoders) (k : EventType) (e : Event) (s s' : Loop)
    → IsUnset s.m
    → count d k e s ≡ some s'
    → IsUnset s'.m
unfolding count
count-IsUnset d prompt_submitted e s s' h c = ground arith
count-IsUnset d ai_response_completed e s s' h c = ground arith
count-IsUnset d execution_requested e s s' h c = ground arith
count-IsUnset d execution_completed e s s' h c = ground arith
count-IsUnset d code_diff e s s' h c = ground arith
count-IsUnset d _ e s s' h c = ground arith

step-IsUnset :
    (d : Decoders) (e : Event) (s s' : Loop) → IsUnset s.m → step d e s ≡ some s' → IsUnset s'.m
unfolding step
step-IsUnset d e s s' h c = elim (Bool-cases (is_activity e.event_type)) [
  | inl a ↦ count-IsUnset d e.event_type e (seen_at e.occurred_at s) s' h (rw a at c)
  | inr n ↦ subst (λ (u : Loop). IsUnset u.m) (some_eq s s' (rw n at c)) h
]

loop-IsUnset :
    (d : Decoders) (es : List Event) (r : Option Loop) (s' : Loop)
    → ((s : Loop) → r ≡ some s → IsUnset s.m)
    → loop d es r ≡ some s'
    → IsUnset s'.m
unfolding loop
loop-IsUnset d es none s' h c = absurd (cc)
loop-IsUnset d [] (some s) s' h c = subst (λ (u : Loop). IsUnset u.m) (some_eq s s' c) (h s refl)
loop-IsUnset d (e ∷ es) (some s) s' h c =
    loop-IsUnset d es (step d e s) s' (λ u eq. step-IsUnset d e s u (h s refl) eq) c

finish-IsPlausible : (s : Loop) → IsSound s → IsUnset s.m → IsPlausible (finish s)
unfolding finish
finish-IsPlausible s h u = record {
  errors = h.errors;
  succeeded = h.succeeded;
  by_ai = h.by_ai;
  active = ground (arith, milliseconds-nonneg s.last s.first);
  first_run = λ t e. ground (
    arith,
    milliseconds-nonneg s.first_run s.first,
    milliseconds-mono s.first_run s.last s.first,
  );
}

finished-IsPlausible :
    (r : Option Loop) (m : Metrics)
    → ((s : Loop) → r ≡ some s → IsSound s × IsUnset s.m)
    → finished r ≡ some m
    → IsPlausible m
finished-IsPlausible none m h c = absurd (cc)
finished-IsPlausible (some s) m h c =
    subst IsPlausible (some_eq (finish s) m c) (finish-IsPlausible s (h s refl).0 (h s refl).1)

-- The metrics of a timeline, whatever its order and its payloads, where every event happened
-- after Go's zero time: the AI errors are among the responses, the successful runs among the
-- runs and the AI diffs among the diffs; the active time is not negative, and the time to the
-- first run, where there is one, lies between zero and the active time.
pub compute-IsPlausible :
    (d : Decoders) (es : List Event) (m : Metrics)
    → All IsTimed es
    → compute d es ≡ some m
    → IsPlausible m
unfolding compute
compute-IsPlausible d es m t c =
    finished-IsPlausible (loop d (dedupe es) (some start)) m
      (λ s e. (
        loop_from d (dedupe es) (some start) s
            (In-All IsTimed (dedupe es) (λ a k. All-In IsTimed es t (dedupe-In es a k)))
            (λ u eq. subst IsSound (some_eq start u eq) start-IsSound) e,
        loop-IsUnset d (dedupe es) (some start) s
            (λ u eq. subst (λ (v : Loop). IsUnset v.m) (some_eq start u eq) (refl, refl)) e,
      ))
      c
