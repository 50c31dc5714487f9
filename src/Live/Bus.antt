-- ===== src/Live/Bus.antt =====
-- internal/livemonitor/bus.go: MemoryBus. The lock makes each method one step. The rings are a
-- function of the two parts of a Stream; a subscription is known by a number, and its channel is
-- the list of the events that wait in it. Map order does not matter to Publish, since each
-- channel is sent to by itself.
use ta_platform.Prelude.{
  ℕ, ◌+◌, ◌-◌, String, Bool, true, false, ◌&&◌, List, [], ◌∷◌, ◌++◌, ltb, ◌==◌, if◌then◌else◌, ℤ,
  pos, ltb_ℤ, eqb_ℤ, sort_stable, length, drop,
}
use ta_platform.Events.{Time}

-- replay.Event
pub record LiveEvent : Type 0 where
  pub event_id : String
  pub company_id : String
  pub interview_id : String
  pub sequence_number : ℤ
  pub event_type : String
  pub occurred_at : Time
  pub payload : String

pub record Stream : Type 0 where
  pub company_id : ℕ
  pub interview_id : ℕ

pub record Subscription : Type 0 where
  pub id : ℕ
  pub stream : Stream
  pub ch : List LiveEvent

-- `subs` holds the open subscriptions; `next_sub` names the next one.
pub record MemoryBus : Type 0 where
  pub capacity : ℕ
  pub rings : ℕ → ℕ → List LiveEvent
  pub subs : List Subscription
  pub next_sub : ℕ

abbrev pub new_memory_bus : ℕ → MemoryBus
new_memory_bus capacity = record { capacity = capacity; rings = λ c i. []; subs = []; next_sub = 0 }

abbrev pub subscription_buffer : ℕ
subscription_buffer = 256

abbrev pub same_stream : Stream → Stream → Bool
same_stream a b = a.company_id == b.company_id && a.interview_id == b.interview_id

abbrev pub event_less : LiveEvent → LiveEvent → Bool
event_less a b = ltb_ℤ a.sequence_number b.sequence_number

-- The first loop of Publish.
unfoldable pub holds : ℤ → List LiveEvent → Bool
holds n [] = false
holds n (e ∷ es) = let rest = holds n es in if eqb_ℤ e.sequence_number n then true else rest

-- ring[len(ring)-b.capacity:] of a ring that is too long
unfoldable pub trim : ℕ → List LiveEvent → List LiveEvent
trim capacity ring = if ltb capacity (length ring) then drop (length ring - capacity) ring else ring

-- The select: a full channel drops the event.
unfoldable pub send : LiveEvent → Subscription → Subscription
send e s = if ltb (length s.ch) subscription_buffer then record s { ch = s.ch ++ (e ∷ []) } else s

unfoldable pub fan_out : Stream → LiveEvent → List Subscription → List Subscription
unfolding send
fan_out stream e [] = []
fan_out stream e (s ∷ ss) =
    (if same_stream stream s.stream then send e s else s) ∷ fan_out stream e ss

unfoldable pub publish : Stream → LiveEvent → MemoryBus → MemoryBus × Bool
unfolding holds trim fan_out
publish stream e b =
    let ring = b.rings stream.company_id stream.interview_id in
    if holds e.sequence_number ring then (b, false) else (
      record b {
        rings = λ c i.
            if c == stream.company_id && i == stream.interview_id
            then trim b.capacity (sort_stable event_less (ring ++ (e ∷ [])))
            else b.rings c i;
        subs = fan_out stream e b.subs;
      },
      true,
    )

-- The loop of Recent.
unfoldable pub above : ℤ → List LiveEvent → List LiveEvent
above n [] = []
above n (e ∷ es) = let rest = above n es in if ltb_ℤ n e.sequence_number then e ∷ rest else rest

abbrev pub oldest : List LiveEvent → ℤ
oldest [] = pos 0
oldest (e ∷ es) = e.sequence_number

unfoldable pub recent : Stream → ℤ → MemoryBus → List LiveEvent × ℤ
unfolding above
recent stream after b =
    let ring = b.rings stream.company_id stream.interview_id in (above after ring, oldest ring)

unfoldable pub subscribe : Stream → MemoryBus → MemoryBus × ℕ
subscribe stream b = (
  record b {
    subs = b.subs ++ (record { id = b.next_sub; stream = stream; ch = [] } ∷ []);
    next_sub = b.next_sub + 1;
  },
  b.next_sub,
)

unfoldable pub without_sub : ℕ → List Subscription → List Subscription
without_sub id [] = []
without_sub id (s ∷ ss) = let rest = without_sub id ss in if id == s.id then rest else s ∷ rest

-- Close; the Once makes a second call do nothing, as removing an absent subscription does.
unfoldable pub close_sub : ℕ → MemoryBus → MemoryBus
unfolding without_sub
close_sub id b = record b { subs = without_sub id b.subs }
