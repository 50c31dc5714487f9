-- ===== src/Live/Sending.antt =====
-- What is sent of events in strict order.
use ta_platform.Prelude.{
  append_assoc, ◌≡◌, refl, sym, ◌∙◌, ap, ◌≢◌, inl, inr, Bool, true, false, List, [], ◌∷◌, ◌++◌, map,
  length, Bool-cases, arith, All, All-map, ℤ, ◌<ℤ◌, leb_ℤ, ltb_ℤ, append-nil,
}
use ta_platform.Prelude.Membership.{IsStrict}
use ta_platform.Live.{
  LiveEvent, above, live_event, Viewer, Connection, is_of_stream, send_event, and_send, send_events,
}
use ta_platform.Live.Rings.{number}

-- All of the events are above the number.
pub above-All : (n : ℤ) (es : List LiveEvent) → All (λ e. n <ℤ number e) es → above n es ≡ es
unfolding above
above-All n [] h = refl
above-All n (e ∷ es) h = elim (Bool-cases (ltb_ℤ n e.sequence_number)) [
  | inl p ↦ rw (p, above-All n es h.1) refl
  | inr p ↦ absurd (ground arith)
]

below : (a b d : ℤ) → leb_ℤ b a ≡ false → b <ℤ d → a <ℤ d
below a b d h k = ground arith

module _ (c : Connection) where
  -- The event after those that a viewer has.
  send_event-new :
      (e : LiveEvent) (v : Viewer)
      → leb_ℤ e.sequence_number v.last_sent ≡ false
      → is_of_stream c v.stream e ≡ true
      → (send_event c e v).1 ≡ true
      → (send_event c e v).0
        ≡ record v { last_sent = e.sequence_number; frames = v.frames ++ (live_event e ∷ []) }
  unfolding send_event
  send_event-new e v p q h = elim (Bool-cases (c.fails (length v.frames))) [
    | inl f ↦ absurd (clash (rw (p, q, f) at h))
    | inr f ↦ rw (p, q, f) refl
  ]
    where
      clash : false ≢ true
      clash h = cc

  send_event-old :
      (e : LiveEvent) (v : Viewer)
      → leb_ℤ e.sequence_number v.last_sent ≡ true
      → send_event c e v ≡ (v, true)
  unfolding send_event
  send_event-old e v p = rw p refl

  and_send-true :
      (x : Viewer × Bool) (next : Viewer → Viewer × Bool)
      → (and_send x next).1 ≡ true
      → (x.1 ≡ true) × (and_send x next ≡ next (x.0))
  and_send-true (v, true) next h = (refl, refl)
  and_send-true (v, false) next h = cc

  -- Events in strict order: exactly those above the viewer's number are sent.
  pub send_events-above :
      (es : List LiveEvent) (v : Viewer)
      → IsStrict number es
      → All (λ e. is_of_stream c v.stream e ≡ true) es
      → (send_events c es v).1 ≡ true
      → (send_events c es v).0.frames ≡ v.frames ++ map live_event (above v.last_sent es)
  unfolding send_events above
  send_events-above [] v s o h = sym (append-nil v.frames)
  send_events-above (e ∷ es) v s o h =
      let (sent, rest) = and_send-true (send_event c e v) (send_events c es) h in
      elim (Bool-cases (leb_ℤ e.sequence_number v.last_sent)) [
        | inl p ↦
            let q : ltb_ℤ v.last_sent e.sequence_number ≡ false = ground arith in
            let same = send_event-old e v p in
            let ih =
              send_events-above es v s.1 o.1
                (ap (λ x. (send_events c es (x.0)).1) (sym same) ∙ ap (λ x. x.1) (sym rest) ∙ h) in
            rw (q, rest, same) ih
        | inr p ↦
            let q : ltb_ℤ v.last_sent e.sequence_number ≡ true = ground arith in
            let same = send_event-new e v p o.0 sent in
            let u : Viewer = record v {
              last_sent = e.sequence_number;
              frames = v.frames ++ (live_event e ∷ []);
            } in
            let ih =
              send_events-above es u s.1 o.1
                (ap (λ x. (send_events c es x).1) (sym same) ∙ ap (λ x. x.1) (sym rest) ∙ h) in
            let all = above-All e.sequence_number es s.0 in
            let both =
              above-All v.last_sent es (
                All-map (λ y k. below v.last_sent e.sequence_number y.sequence_number p k) es
                  s.0) in
            rw (q, rest, same, both)
              (ih
                ∙ ap (λ l. u.frames ++ map live_event l) all
                ∙ append_assoc v.frames (live_event e ∷ []) (map live_event es))
      ]

-- The ring's part of a catch-up is in order and not below the oldest.
pub above-part :
    (P : LiveEvent → Type 0) (n : ℤ) (es : List LiveEvent) → All P es → All P (above n es)
unfolding above
above-part P n [] h = tt
above-part P n (e ∷ es) h = elim (Bool-cases (ltb_ℤ n e.sequence_number)) [
  | inl p ↦ rw p (h.0, above-part P n es h.1)
  | inr p ↦ rw p (above-part P n es h.1)
]

pub above-IsStrict :
    (n : ℤ) (es : List LiveEvent) → IsStrict number es → IsStrict number (above n es)
unfolding above
above-IsStrict n [] h = tt
above-IsStrict n (e ∷ es) h = elim (Bool-cases (ltb_ℤ n e.sequence_number)) [
  | inl p ↦ rw p (above-part (λ y. number e <ℤ number y) n es h.0, above-IsStrict n es h.1)
  | inr p ↦ rw p (above-IsStrict n es h.1)
]
