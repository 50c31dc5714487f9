-- ===== src/Examples/Live.antt =====
-- Runs of the in-memory bus.
use ta_platform.Prelude.Membership.{In}
use ta_platform.Prelude.{
  ℕ, ◌≡◌, refl, arith, ◌⊎◌, true, false, List, [], ◌∷◌, ◌++◌, pos, length, All, ◌<ℤ◌,
}
use ta_platform.Live.{LiveEvent, Stream, MemoryBus, new_memory_bus, holds, publish}
use ta_platform.Live.Rings.{number, IsRing, publish-newest}
use ta_platform.Live.Isolation.{
  BusOp, publish_op, subscribe_op, close_op, run_ops, IsBus, run_ops-isolation,
}

abbrev stream : Stream
stream = record { company_id = 1; interview_id = 10 }

abbrev event : ℕ → LiveEvent
event n = record {
  event_id = "e";
  company_id = "c";
  interview_id = "i";
  sequence_number = pos n;
  event_type = "code.diff";
  occurred_at = pos 5;
  payload = "{}";
}

abbrev bus : MemoryBus
bus = record (new_memory_bus 2) { rings = λ c i. event 3 ∷ event 5 ∷ [] }

bus-IsRing : IsRing 2 (bus.rings 1 10)
bus-IsRing = (((omega arith, tt), (tt, tt)), omega arith)

not_held : holds (pos 4) (bus.rings 1 10) ≡ false
unfolding holds
not_held = refl

publish-newest_example :
    ((publish stream (event 4) bus).1 ≡ true)
    × IsRing (publish stream (event 4) bus).0.capacity ((publish stream (event 4) bus).0.rings 1 10)
    × ((a : LiveEvent)
        → In a ((publish stream (event 4) bus).0.rings 1 10)
        → In a (bus.rings 1 10 ++ (event 4 ∷ [])))
    × ((a : LiveEvent)
        → In a (bus.rings 1 10 ++ (event 4 ∷ []))
        → In a ((publish stream (event 4) bus).0.rings 1 10)
          ⊎ ((length ((publish stream (event 4) bus).0.rings 1 10) ≡ 2)
              × All (λ k. number a <ℤ number k) ((publish stream (event 4) bus).0.rings 1 10)))
publish-newest_example = publish-newest stream (event 4) bus bus-IsRing not_held

abbrev ops : List BusOp
ops =
    subscribe_op stream
    ∷ publish_op stream (event 2)
    ∷ publish_op stream (event 1)
    ∷ publish_op stream (event 2)
    ∷ close_op 0
    ∷ []

-- events that say which company and interview they are of
abbrev IsOf : ℕ → ℕ → LiveEvent → Type 0
IsOf c i e = e.company_id ≡ "c"

run_ops-isolation_example : IsBus IsOf (run_ops ops (new_memory_bus 2))
run_ops-isolation_example = run_ops-isolation IsOf 2 ops (tt, (refl, (refl, (refl, (tt, tt)))))
