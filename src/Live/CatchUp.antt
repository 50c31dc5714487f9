-- ===== src/Live/CatchUp.antt =====
-- What a catch-up sends: everything after the number, in order.
use ta_platform.Prelude.{
  ◌≡◌, refl, sym, ◌∙◌, ap, ◌≢◌, ◌⊎◌, inl, inr, Bool, true, false, ◌||◌, ◌^◌, ◌-◌, add64, wrap64_id,
  ◌+ℤ◌, +ℤ_parts, some, List, [], ◌∷◌, ◌++◌, map, Bool-cases, arith, All, All-map, ℤ, pos, ◌<ℤ◌,
  ◌≤ℤ◌, leb_ℤ, ltb_ℤ, eqb_ℤ, append-nil,
}
use ta_platform.Prelude.Membership.{IsStrict}
use ta_platform.Live.{
  LiveEvent, oldest, above, live_event, Viewer, Connection, is_of_stream, send_events, Past,
  before_ring, reads_history, past_events, catch_up,
}
use ta_platform.Live.Rings.{number}
use ta_platform.Live.Sending.{above-All, above-part, above-IsStrict, send_events-above}

-- A part of a list from an end, and what is above a number in two lists.
above-append : (n : ℤ) (xs ys : List LiveEvent) → above n (xs ++ ys) ≡ above n xs ++ above n ys
unfolding above
above-append n [] ys = refl
above-append n (x ∷ xs) ys = elim (Bool-cases (ltb_ℤ n x.sequence_number)) [
  | inl p ↦ rw (p, above-append n xs ys) refl
  | inr p ↦ rw (p, above-append n xs ys) refl
]

above-none : (n : ℤ) (es : List LiveEvent) → All (λ e. number e ≤ℤ n) es → above n es ≡ []
unfolding above
above-none n [] h = refl
above-none n (e ∷ es) h = elim (Bool-cases (ltb_ℤ n e.sequence_number)) [
  | inl p ↦ absurd (ground arith)
  | inr p ↦ rw (p, above-none n es h.1) refl
]

IsStrict-prefix : (xs ys : List LiveEvent) → IsStrict number (xs ++ ys) → IsStrict number xs
IsStrict-prefix [] ys h = tt
IsStrict-prefix (x ∷ xs) ys h =
    (All-prefix (λ y. number x <ℤ number y) xs ys h.0, IsStrict-prefix xs ys h.1)
  where
    All-prefix : (P : LiveEvent → Type 0) (es fs : List LiveEvent) → All P (es ++ fs) → All P es
    All-prefix P [] fs k = tt
    All-prefix P (e ∷ es) fs k = (k.0, All-prefix P es fs k.1)

All-suffix : (P : LiveEvent → Type 0) (xs ys : List LiveEvent) → All P (xs ++ ys) → All P ys
All-suffix P [] ys h = h
All-suffix P (x ∷ xs) ys h = All-suffix P xs ys h.1

-- What stands before the ring has smaller numbers than its oldest event.
before-oldest :
    (old : List LiveEvent) (r : LiveEvent) (rs : List LiveEvent)
    → IsStrict number (old ++ (r ∷ rs))
    → All (λ e. number e <ℤ number r) old
before-oldest [] r rs h = tt
before-oldest (e ∷ old) r rs h =
    ((All-suffix (λ y. number e <ℤ number y) old (r ∷ rs) h.0).0, before-oldest old r rs h.1)

-- The loop over the history takes it up to the ring.
before_ring-split :
    (last : ℤ) (old : List LiveEvent) (r : LiveEvent) (rs : List LiveEvent)
    → eqb_ℤ (number r) (pos 0) ≡ false
    → IsStrict number (old ++ (r ∷ rs))
    → before_ring (number r) (above last (old ++ (r ∷ rs))) ≡ above last old
unfolding before_ring above
before_ring-split last [] r rs z h = elim (Bool-cases (ltb_ℤ last (number r))) [
  | inl p ↦ let q : leb_ℤ (number r) (number r) ≡ true = ground arith in rw (p, z, q) refl
  | inr p ↦ rw p (stop (above last rs) (above-part (λ y. number r <ℤ number y) last rs h.0))
]
  where
    stop :
        (es : List LiveEvent) → All (λ y. number r <ℤ number y) es → before_ring (number r) es ≡ []
    stop [] k = refl
    stop (e ∷ es) k =
        let q : leb_ℤ (number r) e.sequence_number ≡ true = ground arith in rw (z, q) refl
before_ring-split last (e ∷ old) r rs z h =
    let low : number e <ℤ number r = (All-suffix (λ y. number e <ℤ number y) old (r ∷ rs) h.0).0 in
    elim (Bool-cases (ltb_ℤ last (number e))) [
      | inl p ↦
          let q : leb_ℤ (number r) (number e) ≡ false = ground arith in
          rw (p, z, q, before_ring-split last old r rs z h.1) refl
      | inr p ↦ rw (p, before_ring-split last old r rs z h.1) refl
    ]

before_ring-zero : (es : List LiveEvent) → before_ring (pos 0) es ≡ es
unfolding before_ring
before_ring-zero [] = refl
before_ring-zero (e ∷ es) = ap (λ l. e ∷ l) (before_ring-zero es)

-- A catch-up can get at all that comes after the viewer's number: it may read the durable history, or the
-- ring begins no later than with the next number.
abbrev pub IsReached : Bool → Past → ℤ → List LiveEvent → Type 0
IsReached deep p last ring =
    ((deep ≡ true) × (p.has_history ≡ true)) ⊎ ((ring ≢ []) × (oldest ring ≤ℤ last +ℤ pos 1))

next_number : (n : ℤ) → pos 0 ≤ℤ n → n <ℤ pos (2 ^ 63 - 1) → add64 n (pos 1) ≡ n +ℤ pos 1
unfolding ◌+ℤ◌
next_number n h k = wrap64_id (n +ℤ pos 1) (ground arith, ground arith)

-- Where the history is not read, nothing after the viewer's number is before the ring.
unread-none :
    (deep : Bool) (p : Past) (v : Viewer) (old ring : List LiveEvent)
    → IsStrict number (old ++ ring)
    → add64 v.last_sent (pos 1) ≡ v.last_sent +ℤ pos 1
    → IsReached deep p v.last_sent ring
    → reads_history deep p (oldest ring) v ≡ false
    → above v.last_sent old ≡ []
unread-none deep p v old [] s n (inr h) q = absurd (h.0 refl)
unread-none deep p v old [] s n (inl h) q = absurd (clash (rw (h.0, h.1) at q))
  where
    clash : true ≢ false
    clash h = cc
unread-none deep p v old (r ∷ rs) s n reach q = above-none v.last_sent old (
    All-map (λ e k. below_next (number e) (number r) v.last_sent k near) old
      (before-oldest old r rs s))
  where
    below_next : (a b d : ℤ) → a <ℤ b → b ≤ℤ d +ℤ pos 1 → a ≤ℤ d
    below_next a b d h k = omega (arith, +ℤ_parts)

    not_after : (x : Bool) (a b : ℤ) → (x || ltb_ℤ a b) ≡ false → b ≤ℤ a
    not_after true a b h = cc
    not_after false a b h = ground arith

    near : number r ≤ℤ v.last_sent +ℤ pos 1
    near = elim reach [
      | inr h ↦ h.1
      | inl h ↦
          not_after (eqb_ℤ (number r) (pos 0)) (v.last_sent +ℤ pos 1) (number r)
            (rw (h.0, h.1, n) at q)
    ]

past_events-above :
    (deep : Bool) (p : Past) (v : Viewer) (old ring : List LiveEvent)
    → p.timeline v.last_sent ≡ above v.last_sent (old ++ ring)
    → IsStrict number (old ++ ring)
    → All (λ e. pos 0 <ℤ number e) ring
    → add64 v.last_sent (pos 1) ≡ v.last_sent +ℤ pos 1
    → IsReached deep p v.last_sent ring
    → past_events deep p v (above v.last_sent ring, oldest ring) ≡ above v.last_sent (old ++ ring)
unfolding above
past_events-above deep p v old ring t s q n reach =
    elim (Bool-cases (reads_history deep p (oldest ring) v)) [
      | inr r ↦
          rw (r, above-append v.last_sent old ring, unread-none deep p v old ring s n reach r) refl
      | inl r ↦ rw (r, t) (joined old ring s q)
    ]
  where
    not_zero : (n : ℤ) → pos 0 <ℤ n → eqb_ℤ n (pos 0) ≡ false
    not_zero n h = ground arith

    joined :
        (old ring : List LiveEvent)
        → IsStrict number (old ++ ring)
        → All (λ e. pos 0 <ℤ number e) ring
        → before_ring (oldest ring) (above v.last_sent (old ++ ring)) ++ above v.last_sent ring
          ≡ above v.last_sent (old ++ ring)
    joined old [] s q =
        append-nil (before_ring (pos 0) (above v.last_sent (old ++ [])))
        ∙ before_ring-zero (above v.last_sent (old ++ []))
    joined old (r ∷ rs) s q =
        rw
          (
            before_ring-split v.last_sent old r rs (not_zero (number r) q.0) s,
            above-append v.last_sent old (r ∷ rs),
          )
          refl

above-above : (n : ℤ) (es : List LiveEvent) → above n (above n es) ≡ above n es
unfolding above
above-above n es = above-All n (above n es) (kept es)
  where
    kept : (es : List LiveEvent) → All (λ e. n <ℤ number e) (above n es)
    kept [] = tt
    kept (e ∷ es) = elim (Bool-cases (ltb_ℤ n (number e))) [
      | inl p ↦ rw p (ground arith, kept es)
      | inr p ↦ rw p (kept es)
    ]

-- The events of an interview, in strict order, are those of a list `old` and then those in the ring. A
-- catch-up that succeeds sends exactly the events of the interview after the viewer's number, in order, if it
-- may read the durable history, which has all of them, or the ring begins no later than with the number after
-- the viewer's. The viewer's number is not negative and below the greatest int64; those of the ring are
-- positive.
pub catch_up-above :
    (c : Connection) (deep : Bool) (p : Past) (v : Viewer) (old ring : List LiveEvent)
    → p.ring ≡ some (above v.last_sent ring, oldest ring)
    → p.timeline v.last_sent ≡ above v.last_sent (old ++ ring)
    → IsStrict number (old ++ ring)
    → All (λ e. pos 0 <ℤ number e) ring
    → All (λ e. is_of_stream c v.stream e ≡ true) (old ++ ring)
    → pos 0 ≤ℤ v.last_sent
    → v.last_sent <ℤ pos (2 ^ 63 - 1)
    → IsReached deep p v.last_sent ring
    → (catch_up c deep p v).1 ≡ true
    → (catch_up c deep p v).0.frames ≡ v.frames ++ map live_event (above v.last_sent (old ++ ring))
unfolding catch_up
catch_up-above c deep p v old ring r t s q o low high reach h =
    let es = above v.last_sent (old ++ ring) in
    let missed =
      past_events-above deep p v old ring t s q (next_number v.last_sent low high) reach in
    let same : catch_up c deep p v ≡ send_events c es v = rw (r, missed) refl in
    ap (λ x. x.0.frames) same
    ∙ send_events-above c es v (above-IsStrict v.last_sent (old ++ ring) s)
        (above-part (λ e. is_of_stream c v.stream e ≡ true) v.last_sent (old ++ ring) o)
        (ap (λ x. x.1) (sym same) ∙ h)
    ∙ ap (λ l. v.frames ++ map live_event l) (above-above v.last_sent (old ++ ring))
