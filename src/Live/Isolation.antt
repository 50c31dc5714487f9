-- ===== src/Live/Isolation.antt =====
-- internal/livemonitor/bus.go: streams are kept apart over any sequence of the bus's methods.
use ta_platform.Prelude.{
  ℕ, ◌≤◌, ◌≡◌, true, false, ◌&&◌, List, [], ◌∷◌, ◌++◌, ◌==◌, if◌then◌else◌, ltb, length,
  length-append, All, All-append, All-sort_stable, sort_stable, arith, inl, inr, Bool-cases,
}
use mathlib.Core.Path.{subst}
use ta_platform.Live.{
  LiveEvent, Stream, Subscription, MemoryBus, new_memory_bus, same_stream, event_less, holds, trim,
  send, fan_out, publish, subscribe, without_sub, close_sub,
}
use ta_platform.Live.Rings.{IsRing, publish-IsRing, All-trim}

pub data BusOp : Type 0 where
  publish_op : Stream → LiveEvent → BusOp
  subscribe_op : Stream → BusOp
  close_op : ℕ → BusOp

abbrev pub run_op : BusOp → MemoryBus → MemoryBus
run_op (publish_op stream e) b = (publish stream e b).0
run_op (subscribe_op stream) b = (subscribe stream b).0
run_op (close_op id) b = close_sub id b

abbrev pub run_ops : List BusOp → MemoryBus → MemoryBus
run_ops [] b = b
run_ops (op ∷ ops) b = run_ops ops (run_op op b)

module _ (P : ℕ → ℕ → LiveEvent → Type 0) where
  -- What is published to a stream has the property for that stream.
  abbrev pub IsAdmitted : BusOp → Type 0
  IsAdmitted (publish_op stream e) = P stream.company_id stream.interview_id e
  IsAdmitted _ = Unit

  abbrev pub IsChannel : Subscription → Type 0
  IsChannel s = (length s.ch ≤ 256) × All (P s.stream.company_id s.stream.interview_id) s.ch

  -- Rings in order and within the capacity, channels within their buffer, and in both only events
  -- with the property for their stream.
  abbrev pub IsBus : MemoryBus → Type 0
  IsBus b =
      ((c i : ℕ) → IsRing b.capacity (b.rings c i) × All (P c i) (b.rings c i))
      × All IsChannel b.subs

  send-IsChannel :
      (e : LiveEvent) (s : Subscription)
      → P s.stream.company_id s.stream.interview_id e
      → IsChannel s
      → IsChannel (send e s)
  unfolding send
  send-IsChannel e s p h = elim (Bool-cases (ltb (length s.ch) 256)) [
    | inl room ↦
        let grown = length-append s.ch (e ∷ []) in
        rw room (
          ground (arith, grown),
          All-append (P s.stream.company_id s.stream.interview_id) s.ch (e ∷ []) h.1 (p, tt),
        )
    | inr full ↦ rw full h
  ]

  parts : (c d i j : ℕ) → c == d && i == j ≡ true → (c ≡ d) × (i ≡ j)
  parts c d i j h = ground arith

  same_key : (c d i j : ℕ) (e : LiveEvent) → c == d && i == j ≡ true → P c i e → P d j e
  same_key c d i j e h p =
      let (company, interview) = parts c d i j h in
      subst (λ x. P x j e) company (subst (λ x. P c x e) interview p)

  fan_out-IsChannel :
      (stream : Stream) (e : LiveEvent) (ss : List Subscription)
      → P stream.company_id stream.interview_id e
      → All IsChannel ss
      → All IsChannel (fan_out stream e ss)
  unfolding fan_out
  fan_out-IsChannel stream e [] p h = tt
  fan_out-IsChannel stream e (s ∷ ss) p h = elim (Bool-cases (same_stream stream s.stream)) [
    | inl same ↦ rw same (
      send-IsChannel e s
          (same_key stream.company_id s.stream.company_id stream.interview_id s.stream.interview_id
            e same p)
          h.0,
      fan_out-IsChannel stream e ss p h.1,
    )
    | inr other ↦ rw other (h.0, fan_out-IsChannel stream e ss p h.1)
  ]

  -- The ring of a stream after an event is published to `stream`.
  published-IsRing :
      (stream : Stream) (e : LiveEvent) (capacity : ℕ) (ring old : List LiveEvent) (c i : ℕ)
      → P stream.company_id stream.interview_id e
      → IsRing capacity ring × All (P stream.company_id stream.interview_id) ring
      → holds e.sequence_number ring ≡ false
      → IsRing capacity old × All (P c i) old
      → let new =
          if c == stream.company_id && i == stream.interview_id
          then trim capacity (sort_stable event_less (ring ++ (e ∷ [])))
          else old in
        IsRing capacity new × All (P c i) new
  published-IsRing stream e capacity ring old c i p h free k =
      elim (Bool-cases (c == stream.company_id && i == stream.interview_id)) [
        | inl same ↦
            let here = parts c stream.company_id i stream.interview_id same in
            rw same (
              publish-IsRing capacity ring e h.0 free,
              rw (here.0, here.1)
                  (All-trim (P stream.company_id stream.interview_id) capacity _ (
                    All-sort_stable event_less (P stream.company_id stream.interview_id)
                      (ring ++ (e ∷ []))
                      (All-append (P stream.company_id stream.interview_id) ring (e ∷ []) h.1
                        (p, tt)))),
            )
        | inr other ↦ rw other k
      ]

  publish-IsBus :
      (stream : Stream) (e : LiveEvent) (b : MemoryBus)
      → P stream.company_id stream.interview_id e
      → IsBus b
      → IsBus (publish stream e b).0
  unfolding publish
  publish-IsBus stream e b p h =
      let ring = b.rings stream.company_id stream.interview_id in
      elim (Bool-cases (holds e.sequence_number ring)) [
        | inl repeated ↦ rw repeated h
        | inr free ↦ rw free (
          λ c i.
              published-IsRing stream e b.capacity ring (b.rings c i) c i p
                (h.0 stream.company_id stream.interview_id) free (h.0 c i),
          fan_out-IsChannel stream e b.subs p h.1,
        )
      ]

  without_sub-IsChannel :
      (id : ℕ) (ss : List Subscription) → All IsChannel ss → All IsChannel (without_sub id ss)
  unfolding without_sub
  without_sub-IsChannel id [] h = tt
  without_sub-IsChannel id (s ∷ ss) h = elim (Bool-cases (id == s.id)) [
    | inl gone ↦ rw gone (without_sub-IsChannel id ss h.1)
    | inr kept ↦ rw kept (h.0, without_sub-IsChannel id ss h.1)
  ]

  run_op-IsBus : (op : BusOp) (b : MemoryBus) → IsAdmitted op → IsBus b → IsBus (run_op op b)
  unfolding subscribe close_sub
  run_op-IsBus (publish_op stream e) b p h = publish-IsBus stream e b p h
  run_op-IsBus (subscribe_op stream) b p h =
      (h.0, All-append IsChannel b.subs _ h.1 ((omega arith, tt), tt))
  run_op-IsBus (close_op id) b p h = (h.0, without_sub-IsChannel id b.subs h.1)

  run_ops-IsBus :
      (ops : List BusOp) (b : MemoryBus) → All IsAdmitted ops → IsBus b → IsBus (run_ops ops b)
  run_ops-IsBus [] b a h = h
  run_ops-IsBus (op ∷ ops) b a h = run_ops-IsBus ops (run_op op b) a.1 (run_op-IsBus op b a.0 h)

-- From a new bus, after any sequence of its methods: each ring is in strict order and within the
-- capacity, each open subscription's channel is within its buffer, and every event in the ring of
-- a stream or in a channel subscribed to it has whatever property all events published to that
-- stream have.
pub run_ops-isolation :
    (P : ℕ → ℕ → LiveEvent → Type 0) (capacity : ℕ) (ops : List BusOp)
    → All (IsAdmitted P) ops
    → IsBus P (run_ops ops (new_memory_bus capacity))
run_ops-isolation P capacity ops a =
    run_ops-IsBus P ops (new_memory_bus capacity) a (λ c i. ((tt, omega arith), tt), tt)
