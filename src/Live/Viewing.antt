-- ===== src/Live/Viewing.antt =====
-- What a viewer of an interview is sent.
use ta_platform.Prelude.{
  ◌≡◌, refl, inl, inr, Bool, true, false, Option, none, some, List, [], ◌∷◌, ◌++◌, length,
  Bool-cases, arith, ℤ, pos, ◌<ℤ◌, add64, leb_ℤ, ltb_ℤ, if◌then◌else◌,
}
use ta_platform.Live.{
  LiveEvent, Stream, Frame, live_event, caught_up_at, ping, Viewer, Connection, is_of_stream,
  write_frame, send_event, and_send, send_events, Past, past_events, caught, catch_up, Select,
  request_done, heartbeat, subscription_ended, received, receive, watch, live,
}

-- The frames are in order from the number `n`, and end at `last`: each event is of the stream, and has a
-- number above all events before it; a caught_up has the number reached.
unfoldable pub IsOrdered : Connection → Stream → ℤ → List Frame → ℤ → Type 0
IsOrdered c s n [] last = n ≡ last
IsOrdered c s n (live_event e ∷ fs) last =
    (n <ℤ e.sequence_number) × (is_of_stream c s e ≡ true) × IsOrdered c s e.sequence_number fs last
IsOrdered c s n (caught_up_at m ∷ fs) last = (m ≡ n) × IsOrdered c s n fs last
IsOrdered c s n (ping ∷ fs) last = IsOrdered c s n fs last

module _ (c : Connection) (s : Stream) where
  IsOrdered-append :
      (n m last : ℤ) (fs gs : List Frame)
      → IsOrdered c s n fs m
      → IsOrdered c s m gs last
      → IsOrdered c s n (fs ++ gs) last
  unfolding IsOrdered
  IsOrdered-append n m last [] gs h k = rw h k
  IsOrdered-append n m last (live_event e ∷ fs) gs h k =
      (h.0, h.1, IsOrdered-append e.sequence_number m last fs gs h.2 k)
  IsOrdered-append n m last (caught_up_at x ∷ fs) gs h k =
      (h.0, IsOrdered-append n m last fs gs h.1 k)
  IsOrdered-append n m last (ping ∷ fs) gs h k = IsOrdered-append n m last fs gs h k

  -- A viewer of the stream whose frames are in order from `n`.
  abbrev Follows : ℤ → Viewer → Type 0
  Follows n v = (v.stream ≡ s) × IsOrdered c s n v.frames v.last_sent

  write_frame-Follows :
      (n : ℤ) (f : Frame) (v : Viewer)
      → IsOrdered c s v.last_sent (f ∷ []) v.last_sent
      → Follows n v
      → Follows n (write_frame c f v).0
  write_frame-Follows n f v k h = elim (Bool-cases (c.fails (length v.frames))) [
    | inl p ↦ rw p h
    | inr p ↦ rw p (h.0, IsOrdered-append n v.last_sent v.last_sent v.frames (f ∷ []) h.1 k)
  ]

  send_event-Follows :
      (n : ℤ) (e : LiveEvent) (v : Viewer) → Follows n v → Follows n (send_event c e v).0
  unfolding send_event IsOrdered
  send_event-Follows n e v h = elim (Bool-cases (leb_ℤ e.sequence_number v.last_sent)) [
    | inl p ↦ rw p h
    | inr p ↦ elim (Bool-cases (is_of_stream c v.stream e)) [
      | inr q ↦ rw (p, q) h
      | inl q ↦ elim (Bool-cases (c.fails (length v.frames))) [
        | inl f ↦ rw (p, q, f) h
        | inr f ↦
            let a : v.last_sent <ℤ e.sequence_number = ground arith in
            let b : is_of_stream c s e ≡ true = rw h.0 at q in
            rw (p, q, f)
              (
                h.0,
                IsOrdered-append n v.last_sent e.sequence_number v.frames (live_event e ∷ []) h.1
                    (a, b, refl),
              )
      ]
    ]
  ]

  and_send-Follows :
      (n : ℤ) (x : Viewer × Bool) (next : Viewer → Viewer × Bool)
      → ((v : Viewer) → Follows n v → Follows n (next v).0)
      → Follows n (x.0)
      → Follows n (and_send x next).0
  and_send-Follows n (v, false) next f h = h
  and_send-Follows n (v, true) next f h = f v h

  send_events-Follows :
      (n : ℤ) (es : List LiveEvent) (v : Viewer) → Follows n v → Follows n (send_events c es v).0
  unfolding send_events
  send_events-Follows n [] v h = h
  send_events-Follows n (e ∷ es) v h =
      and_send-Follows n (send_event c e v) (send_events c es) (λ u k. send_events-Follows n es u k)
        (send_event-Follows n e v h)

  caught-Follows :
      (n : ℤ) (deep : Bool) (p : Past) (v : Viewer) (o : Option (List LiveEvent × ℤ))
      → Follows n v
      → Follows n (caught c deep p v o).0
  caught-Follows n deep p v none h = h
  caught-Follows n deep p v (some r) h = send_events-Follows n (past_events deep p v r) v h

  catch_up-Follows :
      (n : ℤ) (deep : Bool) (p : Past) (v : Viewer)
      → Follows n v
      → Follows n (catch_up c deep p v).0
  unfolding catch_up
  catch_up-Follows n deep p v h = caught-Follows n deep p v p.ring h

  receive-Follows :
      (n : ℤ) (e : LiveEvent) (p : Past) (v : Viewer) → Follows n v → Follows n (receive c e p v).0
  unfolding receive
  receive-Follows n e p v h =
      elim (Bool-cases (ltb_ℤ (add64 v.last_sent (pos 1)) e.sequence_number)) [
        | inl q ↦ rw q (
            and_send-Follows n (catch_up c false p v) (send_event c e)
              (λ u k. send_event-Follows n e u k) (catch_up-Follows n false p v h))
        | inr q ↦ rw q (send_event-Follows n e v h)
      ]

  -- The rest of the loop, where a write succeeded.
  continued :
      (n : ℤ) (b : Bool) (rest after : Viewer)
      → Follows n rest
      → Follows n after
      → Follows n (if b then rest else after)
  continued n true rest after h k = h
  continued n false rest after h k = k

  watch-Follows : (n : ℤ) (xs : List Select) (v : Viewer) → Follows n v → Follows n (watch c xs v)
  unfolding watch IsOrdered
  watch-Follows n [] v h = h
  watch-Follows n (request_done ∷ xs) v h = h
  watch-Follows n (subscription_ended ∷ xs) v h = h
  watch-Follows n (heartbeat ∷ xs) v h =
      let k = write_frame-Follows n ping v refl h in
      continued n (write_frame c ping v).1 (watch c xs (write_frame c ping v).0)
        (write_frame c ping v).0 (watch-Follows n xs (write_frame c ping v).0 k) k
  watch-Follows n (received e p ∷ xs) v h =
      let k = receive-Follows n e p v h in
      continued n (receive c e p v).1 (watch c xs (receive c e p v).0) (receive c e p v).0
        (watch-Follows n xs (receive c e p v).0 k) k

-- A viewer that resumes after a number is sent events of its own interview only, in strictly increasing
-- order from that number, so none twice and none that it had; and a caught_up frame has the number
-- reached when it is sent. This holds whatever the ring, the history, the subscription and the writes do.
pub live-IsOrdered :
    (c : Connection) (s : Stream) (last : ℤ) (p : Past) (xs : List Select)
    → let v = live c s last p xs in IsOrdered c s last v.frames v.last_sent
unfolding live IsOrdered
live-IsOrdered c s last p xs =
    let start : Viewer = record { stream = s; last_sent = last; frames = [] } in
    let k = catch_up-Follows c s last true p start (refl, refl) in
    let after = (catch_up c true p start).0 in
    let t = write_frame-Follows c s last (caught_up_at after.last_sent) after (refl, refl) k in
    let told = (write_frame c (caught_up_at after.last_sent) after).0 in
    let w = watch-Follows c s last xs told t in
    (continued c s last (catch_up c true p start).1
      (if (write_frame c (caught_up_at after.last_sent) after).1 then watch c xs told else told)
      after
      (continued c s last (write_frame c (caught_up_at after.last_sent) after).1 (watch c xs told)
        told w t)
      k).1
