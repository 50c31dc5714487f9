-- ===== src/Examples/Viewing.antt =====
-- A viewer that resumes after event 1: the history has events 1 to 3, the ring 3 and 4.
use ta_platform.Prelude.{
  inl, wrap64, ℕ, ◌≡◌, refl, true, false, some, List, [], ◌∷◌, ◌++◌, map, pos, ℤ, arith, ◌+ℤ◌,
}
use ta_platform.Live.{
  LiveEvent, Stream, above, Connection, live_event, Viewer, Past, catch_up, received, heartbeat,
  live,
}
use ta_platform.Live.Viewing.{IsOrdered, live-IsOrdered}
use ta_platform.Live.CatchUp.{catch_up-above}

abbrev stream : Stream
stream = record { company_id = 1; interview_id = 10 }

abbrev event : ℕ → LiveEvent
event n = record {
  event_id = "e";
  company_id = "u";
  interview_id = "u";
  sequence_number = pos n;
  event_type = "code.diff";
  occurred_at = pos 5;
  payload = "{}";
}

abbrev connection : Connection
connection = record { uuid_text = λ n. "u"; fails = λ n. false }

abbrev ring : List LiveEvent
ring = event 3 ∷ event 4 ∷ []

abbrev viewer : Viewer
viewer = record { stream = stream; last_sent = pos 1; frames = [] }

abbrev history : ℤ → List LiveEvent
history n = event 2 ∷ event 3 ∷ event 4 ∷ []

abbrev past : Past
past = record { ring = some (ring, pos 3); has_history = true; timeline = history }

live-IsOrdered_example :
    let v =
      live connection stream
        (pos 1)
        past
        (received (event 5) past ∷ heartbeat ∷ received (event 4) past ∷ []) in
    IsOrdered connection stream (pos 1) v.frames v.last_sent
live-IsOrdered_example =
    live-IsOrdered connection stream (pos 1) past
      (received (event 5) past ∷ heartbeat ∷ received (event 4) past ∷ [])

-- The events 2 to 4, of which the ring holds the last two.
catch_up-above_example :
    (catch_up connection true past viewer).0.frames
    ≡ [] ++ map live_event (above (pos 1) ((event 2 ∷ []) ++ ring))
unfolding above catch_up wrap64 ◌+ℤ◌
catch_up-above_example =
    catch_up-above connection true past viewer (event 2 ∷ []) ring refl refl
      ((omega arith, (omega arith, tt)), ((omega arith, tt), (tt, tt)))
      (omega arith, (omega arith, tt)) (refl, (refl, (refl, tt))) (omega arith) (omega arith)
      (inl (refl, refl)) refl
