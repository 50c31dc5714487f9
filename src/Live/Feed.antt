-- ===== src/Live/Feed.antt =====
-- internal/livemonitor/http.go: Live after its checks, catchUp, send and LastEventID. The text of a UUID,
-- the durable history, and what the channels give are arguments.
use ta_platform.Prelude.{
  ℕ, String, Bool, true, false, not, ◌&&◌, ◌||◌, Option, none, some, List, [], ◌∷◌, ◌++◌, length,
  str_eq, if◌then◌else◌, ℤ, pos, add64, ltb_ℤ, leb_ℤ, eqb_ℤ,
}
use ta_platform.Live.Bus.{LiveEvent, Stream}

-- What a viewer is sent: an event under its number, the end of the catch-up, a comment.
pub data Frame : Type 0 where
  live_event : LiveEvent → Frame
  caught_up_at : ℤ → Frame
  ping : Frame

-- session, with what it has written, in order.
pub record Viewer : Type 0 where
  pub stream : Stream
  pub last_sent : ℤ
  pub frames : List Frame

-- The text of a UUID, and which writes fail, by the number of frames before.
pub record Connection : Type 0 where
  pub uuid_text : ℕ → String
  pub fails : ℕ → Bool

abbrev pub is_of_stream : Connection → Stream → LiveEvent → Bool
is_of_stream c s e =
    str_eq e.company_id (c.uuid_text s.company_id)
    && str_eq e.interview_id (c.uuid_text s.interview_id)

-- A write: the viewer, and whether it succeeded.
abbrev pub write_frame : Connection → Frame → Viewer → Viewer × Bool
write_frame c f v =
    if c.fails (length v.frames)
    then (v, false)
    else (record v { frames = v.frames ++ (f ∷ []) }, true)

abbrev pub moved : ℤ → Viewer × Bool → Viewer × Bool
moved n (v, true) = (record v { last_sent = n }, true)
moved n (v, false) = (v, false)

-- session.send
unfoldable pub send_event : Connection → LiveEvent → Viewer → Viewer × Bool
send_event c e v =
    if leb_ℤ e.sequence_number v.last_sent || not (is_of_stream c v.stream e)
    then (v, true)
    else moved e.sequence_number (write_frame c (live_event e) v)

abbrev pub and_send : Viewer × Bool → (Viewer → Viewer × Bool) → Viewer × Bool
and_send (v, false) next = (v, false)
and_send (v, true) next = next v

unfoldable pub send_events : Connection → List LiveEvent → Viewer → Viewer × Bool
unfolding send_event
send_events c [] v = (v, true)
send_events c (e ∷ es) v = and_send (send_event c e v) (send_events c es)

-- The loop over the history breaks at the first event that the ring still holds.
unfoldable pub before_ring : ℤ → List LiveEvent → List LiveEvent
before_ring oldest [] = []
before_ring oldest (e ∷ es) =
    let rest = before_ring oldest es in
    if not (eqb_ℤ oldest (pos 0)) && leb_ℤ oldest e.sequence_number then [] else e ∷ rest

-- What Recent gives (none is its error), the durable history, if there is one, and what it gives after a
-- number, even beside an error.
pub record Past : Type 0 where
  pub ring : Option (List LiveEvent × ℤ)
  pub has_history : Bool
  pub timeline : ℤ → List LiveEvent

abbrev pub reads_history : Bool → Past → ℤ → Viewer → Bool
reads_history deep p oldest v =
    deep && (p.has_history && (eqb_ℤ oldest (pos 0) || ltb_ℤ (add64 v.last_sent (pos 1)) oldest))

-- The events of a catch-up, in the order in which they are sent.
abbrev pub past_events : Bool → Past → Viewer → List LiveEvent × ℤ → List LiveEvent
past_events deep p v (ring, oldest) =
    if reads_history deep p oldest v
    then before_ring oldest (p.timeline v.last_sent) ++ ring
    else ring

abbrev pub caught : Connection → Bool → Past → Viewer → Option (List LiveEvent × ℤ) → Viewer × Bool
caught c deep p v none = (v, false)
caught c deep p v (some r) = send_events c (past_events deep p v r) v

-- session.catchUp
unfoldable pub catch_up : Connection → Bool → Past → Viewer → Viewer × Bool
unfolding send_events before_ring
catch_up c deep p v = caught c deep p v p.ring

-- What the select of the loop finds: the request has ended, a heartbeat, an event with the ring at that
-- moment, or the end of the subscription.
pub data Select : Type 0 where
  request_done heartbeat subscription_ended : Select
  received : LiveEvent → Past → Select

-- A received event; a gap is first repaired from the ring.
unfoldable pub receive : Connection → LiveEvent → Past → Viewer → Viewer × Bool
unfolding catch_up send_event
receive c e p v =
    if ltb_ℤ (add64 v.last_sent (pos 1)) e.sequence_number
    then and_send (catch_up c false p v) (send_event c e)
    else send_event c e v

-- The loop of Live: the viewer when it ends.
unfoldable pub watch : Connection → List Select → Viewer → Viewer
unfolding receive
watch c [] v = v
watch c (request_done ∷ xs) v = v
watch c (subscription_ended ∷ xs) v = v
watch c (heartbeat ∷ xs) v =
    let (after, sent) = write_frame c ping v in
    let rest = watch c xs after in if sent then rest else after
watch c (received e p ∷ xs) v =
    let (after, sent) = receive c e p v in
    let rest = watch c xs after in if sent then rest else after

-- Live, from the first catch-up.
unfoldable pub live : Connection → Stream → ℤ → Past → List Select → Viewer
unfolding catch_up watch
live c stream last p xs =
    let (after, sent) =
      catch_up c true p (record { stream = stream; last_sent = last; frames = [] }) in
    let (told, written) = write_frame c (caught_up_at after.last_sent) after in
    let rest = watch c xs told in if sent then if written then rest else told else after

-- LastEventID: the header, else the query; `parse` is strconv.ParseInt.
unfoldable pub last_event_id : (String → Option ℤ) → String → String → Option ℤ
last_event_id parse header query =
    let raw = if str_eq header "" then query else header in
    if str_eq raw ""
    then some (pos 0)
    else elim (parse raw) [ none ↦ none | some n ↦ if ltb_ℤ n (pos 0) then none else some n ]
