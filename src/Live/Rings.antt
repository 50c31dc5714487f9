-- ===== src/Live/Rings.antt =====
-- internal/livemonitor/bus.go: the ring of a stream.
use ta_platform.Prelude.Membership.{In, IsStrict, sort_stable-SameMembers}
use ta_platform.Prelude.{
  ℕ, ◌-◌, ◌≤◌, ◌<◌, ◌≡◌, refl, true, false, ◌⊎◌, ◌↔◌, List, [], ◌∷◌, ◌++◌, ltb, ℤ, ltb_ℤ, eqb_ℤ,
  ◌<ℤ◌, ◌≤ℤ◌, sort_stable, insert_sorted, length, length-drop, drop, All, All-drop, All-if, All-map,
  All-append, arith, inl, inr, Bool-cases, ==_refl, ltb→lt, All-insert_sorted, All-sort_stable,
  zero, suc,
}
use ta_platform.Live.{
  LiveEvent, Stream, MemoryBus, event_less, holds, trim, publish, above, oldest, recent,
}

abbrev pub number : LiveEvent → ℤ
number e = e.sequence_number

-- No event of the list has the number `n`.
abbrev IsFree : ℤ → LiveEvent → Type 0
IsFree n e = eqb_ℤ e.sequence_number n ≡ false

holds-IsFree : (n : ℤ) (es : List LiveEvent) → holds n es ≡ false → All (IsFree n) es
unfolding holds
holds-IsFree n [] h = tt
holds-IsFree n (e ∷ es) h = elim (Bool-cases (eqb_ℤ e.sequence_number n)) [
  | inl same ↦ absurd (true_not_false (rw same at h))
  | inr other ↦ (other, holds-IsFree n es (rw other at h))
]
  where
    true_not_false : true ≡ false → ⊥
    true_not_false h = cc

insert_sorted-IsStrict :
    (x : LiveEvent) (ys : List LiveEvent)
    → IsStrict number ys
    → All (IsFree x.sequence_number) ys
    → IsStrict number (insert_sorted event_less x ys)
unfolding insert_sorted
insert_sorted-IsStrict x [] h f = (tt, tt)
insert_sorted-IsStrict x (y ∷ ys) h f = elim (Bool-cases (event_less y x)) [
  | inl before ↦ rw before (
    All-insert_sorted event_less (λ z. number y <ℤ number z) x ys (ground arith) h.0,
    insert_sorted-IsStrict x ys h.1 f.1,
  )
  | inr after ↦
      let low : number x <ℤ number y = ground (arith, f.0) in
      rw after ((low, All-map (λ z l. omega (arith, l)) ys h.0), h)
]

sorted-IsStrict :
    (es : List LiveEvent) (e : LiveEvent)
    → IsStrict number es
    → All (IsFree e.sequence_number) es
    → IsStrict number (sort_stable event_less (es ++ (e ∷ [])))
unfolding sort_stable insert_sorted
sorted-IsStrict [] e h f = (tt, tt)
sorted-IsStrict (x ∷ xs) e h f =
    insert_sorted-IsStrict x (sort_stable event_less (xs ++ (e ∷ [])))
      (sorted-IsStrict xs e h.1 f.1)
      (All-sort_stable event_less (IsFree x.sequence_number) (xs ++ (e ∷ [])) (
        All-append (IsFree x.sequence_number) xs (e ∷ [])
          (All-map (λ z l. ground (arith, l)) xs h.0) (ground (arith, f.0), tt)))

IsStrict-drop : (k : ℕ) (es : List LiveEvent) → IsStrict number es → IsStrict number (drop k es)
IsStrict-drop zero es h = h
IsStrict-drop (suc k) [] h = h
IsStrict-drop (suc k) (e ∷ es) h = IsStrict-drop k es h.1

In-drop : (k : ℕ) (es : List LiveEvent) (a : LiveEvent) → In a (drop k es) → In a es
In-drop zero es a m = m
In-drop (suc k) [] a m = m
In-drop (suc k) (e ∷ es) a m = inr (In-drop k es a m)

-- What is dropped from the front of an ordered list is below all that is kept.
drop-newest :
    (k : ℕ) (es : List LiveEvent) (a : LiveEvent)
    → IsStrict number es
    → In a es
    → In a (drop k es) ⊎ All (λ e. number a <ℤ number e) (drop k es)
drop-newest zero es a h m = inl m
drop-newest (suc k) [] a h m = inl m
drop-newest (suc k) (e ∷ es) a h (inl p) = inr (All-drop _ k es (rw p h.0))
drop-newest (suc k) (e ∷ es) a h (inr m) = drop-newest k es a h.1 m

-- A ring: in strict order, and no longer than the capacity.
abbrev pub IsRing : ℕ → List LiveEvent → Type 0
IsRing capacity es = IsStrict number es × (length es ≤ capacity)

trim-IsRing :
    (capacity : ℕ) (es : List LiveEvent) → IsStrict number es → IsRing capacity (trim capacity es)
unfolding trim
trim-IsRing capacity es h = elim (Bool-cases (ltb capacity (length es))) [
  | inl long ↦ rw long (
    IsStrict-drop (length es - capacity) es h,
    omega (arith, length-drop (length es - capacity) es),
  )
  | inr short ↦ rw short (h, ground arith)
]

pub publish-IsRing :
    (capacity : ℕ) (ring : List LiveEvent) (e : LiveEvent)
    → IsRing capacity ring
    → holds e.sequence_number ring ≡ false
    → IsRing capacity (trim capacity (sort_stable event_less (ring ++ (e ∷ []))))
publish-IsRing capacity ring e h free =
    trim-IsRing capacity (sort_stable event_less (ring ++ (e ∷ [])))
      (sorted-IsStrict ring e h.0 (holds-IsFree e.sequence_number ring free))

pub All-trim :
    (P : LiveEvent → Type 0) (capacity : ℕ) (es : List LiveEvent)
    → All P es
    → All P (trim capacity es)
unfolding trim
All-trim P capacity es h = All-if P (ltb capacity (length es)) _ _ (λ l. All-drop P _ es h) (λ l. h)

trim-In : (capacity : ℕ) (es : List LiveEvent) (a : LiveEvent) → In a (trim capacity es) → In a es
unfolding trim
trim-In capacity es a m = elim (Bool-cases (ltb capacity (length es))) [
  | inl long ↦ In-drop (length es - capacity) es a (rw long at m)
  | inr short ↦ rw short at m
]

trim-newest :
    (capacity : ℕ) (es : List LiveEvent) (a : LiveEvent)
    → IsStrict number es
    → In a es
    → In a (trim capacity es)
      ⊎ ((length (trim capacity es) ≡ capacity)
          × All (λ e. number a <ℤ number e) (trim capacity es))
unfolding trim
trim-newest capacity es a h m = elim (Bool-cases (ltb capacity (length es))) [
  | inl long ↦ elim (drop-newest (length es - capacity) es a h m) [
    | inl kept ↦ rw long (inl kept)
    | inr older ↦ rw long (
        inr (
          full (length es) capacity (length-drop (length es - capacity) es)
              (ltb→lt capacity (length es) long),
          older,
        ))
  ]
  | inr short ↦ rw short (inl m)
]
  where
    full : {l : ℕ} (n c : ℕ) → l ≡ n - (n - c) → c < n → l ≡ c
    full n c h k = omega arith

-- Publish, where the ring of the stream is in order and short enough and does not hold the number
-- of the event: it reports true, and the new ring is in order and short enough. It holds only
-- events of the old ring and the new one, and each of these that it does not hold is older than
-- all it holds, and then it is full.
pub publish-newest :
    (stream : Stream) (e : LiveEvent) (b : MemoryBus)
    → IsRing b.capacity (b.rings stream.company_id stream.interview_id)
    → holds e.sequence_number (b.rings stream.company_id stream.interview_id) ≡ false
    → let ring = b.rings stream.company_id stream.interview_id in
      let (after, fresh) = publish stream e b in
      let ring' = after.rings stream.company_id stream.interview_id in
      (fresh ≡ true)
      × IsRing after.capacity ring'
      × ((a : LiveEvent) → In a ring' → In a (ring ++ (e ∷ [])))
      × ((a : LiveEvent)
          → In a (ring ++ (e ∷ []))
          → In a ring' ⊎ ((length ring' ≡ b.capacity) × All (λ k. number a <ℤ number k) ring'))
unfolding publish
publish-newest stream e b h free =
    let ring = b.rings stream.company_id stream.interview_id in
    let sorted = sort_stable event_less (ring ++ (e ∷ [])) in
    let strict = sorted-IsStrict ring e h.0 (holds-IsFree e.sequence_number ring free) in
    rw (free, ==_refl stream.company_id, ==_refl stream.interview_id)
      (
        refl,
        publish-IsRing b.capacity ring e h free,
        λ a m.
            (sort_stable-SameMembers event_less (ring ++ (e ∷ [])) a).0
              (trim-In b.capacity sorted a m),
        λ a m.
            trim-newest b.capacity sorted a strict
              ((sort_stable-SameMembers event_less (ring ++ (e ∷ [])) a).1 m),
      )

All-above : (P : LiveEvent → Type 0) (n : ℤ) (es : List LiveEvent) → All P es → All P (above n es)
unfolding above
All-above P n [] h = tt
All-above P n (e ∷ es) h = elim (Bool-cases (ltb_ℤ n e.sequence_number)) [
  | inl later ↦ rw later (h.0, All-above P n es h.1)
  | inr seen ↦ rw seen (All-above P n es h.1)
]

above-IsStrict : (n : ℤ) (es : List LiveEvent) → IsStrict number es → IsStrict number (above n es)
unfolding above
above-IsStrict n [] h = tt
above-IsStrict n (e ∷ es) h = elim (Bool-cases (ltb_ℤ n e.sequence_number)) [
  | inl later ↦ rw later (All-above (λ f. number e <ℤ number f) n es h.0, above-IsStrict n es h.1)
  | inr seen ↦ rw seen (above-IsStrict n es h.1)
]

In-above :
    (n : ℤ) (es : List LiveEvent) (a : LiveEvent) → In a (above n es) ↔ (In a es × (n <ℤ number a))
unfolding above
In-above n [] a = (λ m. absurd m, λ m. m.0)
In-above n (e ∷ es) a =
    let (down, up) = In-above n es a in
    elim (Bool-cases (ltb_ℤ n e.sequence_number)) [
      | inl later ↦ rw later (
        λ m. elim m [ inl p ↦ (inl p, rw p (ground arith)) | inr q ↦ (inr (down q).0, (down q).1) ],
        λ m. elim m.0 [ inl p ↦ inl p | inr q ↦ inr (up (q, m.1)) ],
      )
      | inr seen ↦ rw seen (
        λ m. (inr (down m).0, (down m).1),
        λ m. elim m.0 [ inl p ↦ absurd (early e a seen p m.1) | inr q ↦ up (q, m.1) ],
      )
    ]
  where
    early : (e a : LiveEvent) → ltb_ℤ n e.sequence_number ≡ false → a ≡ e → n <ℤ number a → ⊥
    early e a seen p l = not_above (rw p at l)
      where
        not_above : n <ℤ number e → ⊥
        not_above l = ground arith

-- Recent of a ring that is in order: exactly the buffered events above the given number, in
-- strictly increasing order, and a number that no buffered event is below.
pub recent_lem :
    (stream : Stream) (after : ℤ) (b : MemoryBus)
    → IsStrict number (b.rings stream.company_id stream.interview_id)
    → let ring = b.rings stream.company_id stream.interview_id in
      let (es, low) = recent stream after b in
      IsStrict number es
      × ((a : LiveEvent) → In a es ↔ (In a ring × (after <ℤ number a)))
      × All (λ e. low ≤ℤ number e) ring
unfolding recent
recent_lem stream after b h =
    let ring = b.rings stream.company_id stream.interview_id in
    (above-IsStrict after ring h, In-above after ring, oldest-low ring h)
  where
    oldest-low : (es : List LiveEvent) → IsStrict number es → All (λ e. oldest es ≤ℤ number e) es
    oldest-low [] h = tt
    oldest-low (e ∷ es) h = (omega arith, All-map (λ f l. omega (arith, l)) es h.0)
