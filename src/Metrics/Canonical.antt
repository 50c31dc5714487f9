-- ===== src/Metrics/Canonical.antt =====
-- Dedupe of internal/scoring/metrics/metrics.go forgets the order and the copies of a timeline.
use mathlib.Core.Path.{subst}
use ta_platform.Prelude.{
  ◌≡◌, refl, sym, ap, true, false, Option, none, some, List, [], ◌∷◌, arith, ◌⊎◌, inl, inr,
  Bool-cases, ℤ, ◌<ℤ◌, ◌≤ℤ◌, eqb_ℤ→eq, All, All-map, IsWeakOrder, IsSorted, sort_stable,
  sort_stable-IsSorted,
}
use ta_platform.Prelude.Membership.{
  In, SameMembers, sort_stable-SameMembers, IsStrict, IsStrict-ext,
}
use ta_platform.Events.{Decoders}
use ta_platform.Metrics.{
  Event, seq_less, repeats, drop_repeats, dedupe, start, loop, finished, compute,
}

-- Events that share a sequence number are copies of one event.
abbrev pub IsConsistent : List Event → Type 0
IsConsistent es = (a b : Event) → In a es → In b es → a.sequence_number ≡ b.sequence_number → a ≡ b

seq_less-IsWeakOrder : IsWeakOrder seq_less
seq_less-IsWeakOrder = record {
  asym = λ x y h. ground arith;
  neg_trans = λ x y z h k. ground arith;
}

-- All sequence numbers are at or above the last one kept.
abbrev IsFrom : Option ℤ → List Event → Type 0
IsFrom none es = Unit
IsFrom (some n) es = All (λ (e : Event). n ≤ℤ e.sequence_number) es

abbrev IsAbove : Option ℤ → Event → Type 0
IsAbove none e = Unit
IsAbove (some n) e = n <ℤ e.sequence_number

IsFrom-sorted :
    (e : Event) (es : List Event) → IsSorted seq_less (e ∷ es) → IsFrom (some e.sequence_number) es
IsFrom-sorted e es h = All-map (λ x p. ground arith) es h.0

IsFrom-tail :
    (last : Option ℤ) (e : Event) (es : List Event) → IsFrom last (e ∷ es) → IsFrom last es
IsFrom-tail none e es h = tt
IsFrom-tail (some n) e es h = h.1

head-IsAbove :
    (last : Option ℤ) (e : Event) (es : List Event)
    → IsFrom last (e ∷ es)
    → repeats last e ≡ false
    → IsAbove last e
head-IsAbove none e es f r = tt
head-IsAbove (some n) e es f r = ground (arith, f.0)

IsAbove-trans :
    (last : Option ℤ) (e x : Event)
    → IsAbove last e
    → IsAbove (some e.sequence_number) x
    → IsAbove last x
IsAbove-trans none e x h k = tt
IsAbove-trans (some n) e x h k = omega arith

drop_repeats-IsAbove :
    (last : Option ℤ) (es : List Event)
    → IsSorted seq_less es
    → IsFrom last es
    → All (IsAbove last) (drop_repeats last es)
unfolding drop_repeats
drop_repeats-IsAbove last [] h f = tt
drop_repeats-IsAbove last (e ∷ es) h f = elim (Bool-cases (repeats last e)) [
  | inl r ↦ rw r (drop_repeats-IsAbove last es h.1 (IsFrom-tail last e es f))
  | inr r ↦ rw r (
    head-IsAbove last e es f r,
    All-map (λ x. IsAbove-trans last e x (head-IsAbove last e es f r))
        (drop_repeats (some e.sequence_number) es)
        (drop_repeats-IsAbove (some e.sequence_number) es h.1 (IsFrom-sorted e es h)),
  )
]

drop_repeats-IsStrict :
    (last : Option ℤ) (es : List Event)
    → IsSorted seq_less es
    → IsFrom last es
    → IsStrict (λ (e : Event). e.sequence_number) (drop_repeats last es)
unfolding drop_repeats
drop_repeats-IsStrict last [] h f = tt
drop_repeats-IsStrict last (e ∷ es) h f = elim (Bool-cases (repeats last e)) [
  | inl r ↦ rw r (drop_repeats-IsStrict last es h.1 (IsFrom-tail last e es f))
  | inr r ↦ rw r (
    drop_repeats-IsAbove (some e.sequence_number) es h.1 (IsFrom-sorted e es h),
    drop_repeats-IsStrict (some e.sequence_number) es h.1 (IsFrom-sorted e es h),
  )
]

-- What is kept was there.
drop_repeats-In :
    (last : Option ℤ) (es : List Event) (a : Event) → In a (drop_repeats last es) → In a es
unfolding drop_repeats
drop_repeats-In last [] a m = m
drop_repeats-In last (e ∷ es) a m = elim (Bool-cases (repeats last e)) [
  | inl r ↦ inr (drop_repeats-In last es a (rw r at m))
  | inr r ↦
      let m' : In a (e ∷ drop_repeats (some e.sequence_number) es) = rw r at m in
      elim m' [ inl p ↦ inl p | inr q ↦ inr (drop_repeats-In (some e.sequence_number) es a q) ]
]

-- The sequence number is the last one that was kept.
abbrev IsLast : Option ℤ → Event → Type 0
IsLast none a = ⊥
IsLast (some n) a = n ≡ a.sequence_number

repeats-IsLast : (last : Option ℤ) (e : Event) → repeats last e ≡ true → IsLast last e
repeats-IsLast none e r = cc
repeats-IsLast (some n) e r = eqb_ℤ→eq n e.sequence_number r

IsConsistent-tail : (e : Event) (es : List Event) → IsConsistent (e ∷ es) → IsConsistent es
IsConsistent-tail e es c a b m n = c a b (inr m) (inr n)

-- A member of a list whose head is a copy of the last event.
skipped :
    (last : Option ℤ) (e a : Event) (es ds : List Event)
    → (In a es → IsLast last a ⊎ In a ds)
    → IsLast last e
    → In a (e ∷ es)
    → IsLast last a ⊎ In a ds
skipped last e a es ds rest h (inl p) = inl (subst (IsLast last) (sym p) h)
skipped last e a es ds rest h (inr q) = rest q

-- A member of a list whose head is kept.
kept :
    (last : Option ℤ) (e a : Event) (es ds : List Event)
    → (In a es → IsLast (some e.sequence_number) a ⊎ In a ds)
    → IsConsistent (e ∷ es)
    → In a (e ∷ es)
    → IsLast last a ⊎ In a (e ∷ ds)
kept last e a es ds rest c (inl p) = inr (inl p)
kept last e a es ds rest c (inr q) = elim (rest q) [
  | inl same ↦ inr (inl (sym (c e a (inl refl) (inr q) same)))
  | inr k ↦ inr (inr k)
]

-- What was there is kept, up to the last sequence number before it.
In-drop_repeats :
    (last : Option ℤ) (es : List Event) (a : Event)
    → IsConsistent es
    → In a es
    → IsLast last a ⊎ In a (drop_repeats last es)
unfolding drop_repeats
In-drop_repeats last [] a c m = absurd m
In-drop_repeats last (e ∷ es) a c m = elim (Bool-cases (repeats last e)) [
  | inl r ↦ rw r (
      skipped last e a es (drop_repeats last es)
        (In-drop_repeats last es a (IsConsistent-tail e es c)) (repeats-IsLast last e r) m)
  | inr r ↦ rw r (
      kept last e a es (drop_repeats (some e.sequence_number) es)
        (In-drop_repeats (some e.sequence_number) es a (IsConsistent-tail e es c)) c m)
]

dedupe-IsStrict : (es : List Event) → IsStrict (λ (e : Event). e.sequence_number) (dedupe es)
unfolding dedupe
dedupe-IsStrict es =
    drop_repeats-IsStrict none (sort_stable seq_less es)
      (sort_stable-IsSorted seq_less seq_less-IsWeakOrder es) tt

sort-IsConsistent : (es : List Event) → IsConsistent es → IsConsistent (sort_stable seq_less es)
sort-IsConsistent es c a b m n =
    c a b ((sort_stable-SameMembers seq_less es a).0 m)
      ((sort_stable-SameMembers seq_less es b).0 n)

-- Nothing is made up.
pub dedupe-In : (es : List Event) (a : Event) → In a (dedupe es) → In a es
unfolding dedupe
dedupe-In es a m =
    (sort_stable-SameMembers seq_less es a).0 (drop_repeats-In none (sort_stable seq_less es) a m)

dedupe-SameMembers : (es : List Event) → IsConsistent es → SameMembers (dedupe es) es
unfolding dedupe
dedupe-SameMembers es c a = (
  dedupe-In es a,
  λ m.
      elim (In-drop_repeats none (sort_stable seq_less es) a (sort-IsConsistent es c)
        ((sort_stable-SameMembers seq_less es a).1 m)) [ inl no_last ↦ absurd no_last | inr k ↦ k ],
)

SameMembers-IsConsistent :
    (xs ys : List Event) → SameMembers xs ys → IsConsistent xs → IsConsistent ys
SameMembers-IsConsistent xs ys s c a b m n = c a b ((s a).1 m) ((s b).1 n)

-- Dedupe returns the timeline in strictly increasing order of sequence numbers, with the same
-- events, where events that share a sequence number are copies.
pub dedupe_lem :
    (es : List Event)
    → IsConsistent es
    → IsStrict (λ (e : Event). e.sequence_number) (dedupe es) × SameMembers (dedupe es) es
dedupe_lem es c = (dedupe-IsStrict es, dedupe-SameMembers es c)

-- The metrics, or the decode error, are a function of the set of events: two timelines with the
-- same events, in any order and with any copies of them, have the same, where events that share a
-- sequence number are copies of one event.
pub compute-SameMembers :
    (d : Decoders) (xs ys : List Event)
    → IsConsistent xs
    → SameMembers xs ys
    → compute d xs ≡ compute d ys
unfolding compute
compute-SameMembers d xs ys c s =
    ap (λ es. finished (loop d es (some start)))
      (IsStrict-ext (λ (e : Event). e.sequence_number) (dedupe xs) (dedupe ys) (dedupe-IsStrict xs)
        (dedupe-IsStrict ys)
        (λ a.
          let (down, up) = dedupe-SameMembers xs c a in
          let (down', up') = dedupe-SameMembers ys (SameMembers-IsConsistent xs ys s c) a in
          (λ m. up' ((s a).0 (down m)), λ m. up ((s a).1 (down' m)))))
