-- ===== src/EventStore/Allocation.antt =====
-- allocateSequence in internal/store/postgres/events.go: the numbers that one allocation hands out.
use ta_platform.Prelude.Results.{ok, ok_eq, err_not_ok}
use mathlib.Core.Path.{ap₂}
use ta_platform.Prelude.{
  ℕ, zero, suc, ◌+◌, ◌-◌, ◌^◌, ltb, ltb_ℤ, ◌≡◌, refl, sym, ◌∙◌, ap, Bool, true, false, ◌&&◌, Option,
  none, some, List, [], ◌∷◌, ◌++◌, ◌==◌, if◌then◌else◌, ℤ, pos, pos_part, length, length-append,
  arith, inl, inr, Bool-cases,
}
use ta_platform.EventStore.Trace.{range, last_number}
use ta_platform.EventStore.{
  Message, Interview, Db, database, bad_count, is_open, behind, advance, allocated,
  allocate_sequence, insert_all, insert_outbox,
}

behind-some :
    (v : Interview) (r : Option (ℕ × List Interview)) (l : ℕ) (ws : List Interview)
    → behind v r ≡ some (l, ws)
    → (us : List Interview) × (r ≡ some (l, us)) × (ws ≡ v ∷ us)
behind-some v none l ws h = absurd (cc)
behind-some v (some (m, us)) l ws h =
    (us, ap (λ n. some (n, us)) (ap first_of h), sym (ap rest_of h))
  where
    first_of : Option (ℕ × List Interview) → ℕ
    first_of none = 0
    first_of (some p) = p.0

    rest_of : Option (ℕ × List Interview) → List Interview
    rest_of none = []
    rest_of (some p) = p.1

advance-last_number :
    (co iv n l : ℕ) (vs ws : List Interview) (c i : ℕ)
    → advance co iv n vs ≡ some (l, ws)
    → (l ≡ last_number co iv vs + n)
      × (last_number c i ws
          ≡ (if c == co && i == iv then last_number c i vs + n else last_number c i vs))
unfolding advance last_number
advance-last_number co iv n l [] ws c i h = absurd (cc)
advance-last_number co iv n l (v ∷ vs) ws c i h = elim (Bool-cases (is_open co iv v)) [
  | inl here ↦ ground arith
  | inr later ↦
      let (us, eq, shape) = behind-some v (advance co iv n vs) l ws (rw later at h) in
      let (first, rest) = advance-last_number co iv n l vs us c i eq in ground arith
]

allocated-last_number :
    (co iv n : ℕ) (vs : List Interview) (r : Option (ℕ × List Interview)) (ws : List Interview)
    (first c i : ℕ)
    → advance co iv n vs ≡ r
    → allocated n r ≡ ok (first, ws)
    → (first ≡ last_number co iv vs + 1)
      × (last_number c i ws
          ≡ (if c == co && i == iv then last_number c i vs + n else last_number c i vs))
allocated-last_number co iv n vs none ws first c i e h = absurd (cc)
allocated-last_number co iv n vs (some (last, us)) ws first c i e h =
    let (l, rest) = advance-last_number co iv n last vs us c i e in
    elim (Bool-cases (ltb last (2 ^ 63))) [
      | inl fits ↦
          let eq = ok_eq ((last - n) + 1, us) (first, ws) (rw fits at h) in
          let w : us ≡ ws = ap (λ p. p.1) eq in
          let f : (last - n) + 1 ≡ first = ap (λ p. p.0) eq in (omega arith, rw w at rest)
      | inr over ↦ absurd (err_not_ok database (first, ws) (rw over at h))
    ]

allocate_sequence-last_number :
    (co iv : ℕ) (count : ℤ) (vs ws : List Interview) (first c i : ℕ)
    → allocate_sequence co iv count vs ≡ ok (first, ws)
    → (first ≡ last_number co iv vs + 1)
      × (last_number c i ws ≡ (
          if c == co && i == iv then last_number c i vs + pos_part count else last_number c i vs))
unfolding allocate_sequence
allocate_sequence-last_number co iv count vs ws first c i h =
    elim (Bool-cases (ltb_ℤ count (pos 1))) [
      | inl none_asked ↦ absurd (err_not_ok bad_count (first, ws) (rw none_asked at h))
      | inr asked ↦
          allocated-last_number co iv (pos_part count) vs (advance co iv (pos_part count) vs) ws
            first c i refl (rw asked at h)
    ]

pub insert_all-interviews :
    (ms : List Message) (db : Db) → (insert_all ms db).interviews ≡ db.interviews
unfolding insert_all insert_outbox
insert_all-interviews [] db = refl
insert_all-interviews (m ∷ ms) db = insert_all-interviews ms (insert_outbox m db)

pub length-range : (first n : ℕ) → length (range first n) ≡ n
unfolding range
length-range first zero = refl
length-range first (suc n) = ap suc (length-range (first + 1) n)

pub range-append : (first m n : ℕ) → range first m ++ range (first + m) n ≡ range first (m + n)
unfolding range
range-append first zero n =
    let same : first + 0 ≡ first = omega arith in
    let count : 0 + n ≡ n = omega arith in rw (same, count) refl
range-append first (suc m) n =
    let shift : first + suc m ≡ (first + 1) + m = omega arith in
    let count : suc m + n ≡ suc (m + n) = omega arith in
    rw (shift, count) (ap (λ ns. first ∷ ns) (range-append (first + 1) m n))

-- The numbers `ns` are those after the last one of the interview, and they make up its new last one.
abbrev pub IsNext : ℕ → ℕ → List ℕ → Db → Db → Type 0
IsNext c i ns db after =
    (ns ≡ range (last_number c i db.interviews + 1) (length ns))
    × (last_number c i after.interviews ≡ last_number c i db.interviews + length ns)

pub IsNext-none :
    (c i : ℕ) (db after : Db) → after.interviews ≡ db.interviews → IsNext c i [] db after
unfolding range
IsNext-none c i db after e = (refl, rw e (omega arith))

pub IsNext-append :
    (c i : ℕ) (ms ns : List ℕ) (a b d : Db)
    → IsNext c i ms a b
    → IsNext c i ns b d
    → IsNext c i (ms ++ ns) a d
IsNext-append c i ms ns a b d (m, m_last) (n, n_last) =
    let from : last_number c i b.interviews + 1 ≡ (last_number c i a.interviews + 1) + length ms =
      omega arith in
    let all = length-append ms ns in
    (
      rw all (
          ap₂ (λ xs ys. xs ++ ys) m (rw from at n)
          ∙ range-append (last_number c i a.interviews + 1) (length ms) (length ns)),
      omega arith,
    )

IsNext-if :
    (same : Bool) (c i n first : ℕ) (db after : Db)
    → (same ≡ true → first ≡ last_number c i db.interviews + 1)
    → last_number c i after.interviews
      ≡ (if same then last_number c i db.interviews + n else last_number c i db.interviews)
    → IsNext c i (if same then range first n else []) db after
unfolding range
IsNext-if true c i n first db after f w =
    let len = length-range first n in (rw (len, f refl) refl, rw len w)
IsNext-if false c i n first db after f w = (refl, omega arith)

both_same : (c co i iv : ℕ) → c == co && i == iv ≡ true → (c ≡ co) × (i ≡ iv)
both_same c co i iv h = ground arith

last_number-same :
    (c co i iv : ℕ) (vs : List Interview)
    → c == co && i == iv ≡ true
    → last_number co iv vs ≡ last_number c i vs
last_number-same c co i iv vs h =
    let (same_company, same_interview) = both_same c co i iv h in
    rw (same_company, same_interview) refl

-- What an interview observes of a transaction that allocated `count` numbers for some interview.
pub IsNext-allocated :
    (c i co iv : ℕ) (count : ℤ) (first : ℕ) (db after : Db) (ws : List Interview)
    → allocate_sequence co iv count db.interviews ≡ ok (first, ws)
    → after.interviews ≡ ws
    → IsNext c i (if c == co && i == iv then range first (pos_part count) else []) db after
IsNext-allocated c i co iv count first db after ws h e =
    let (f, w) = allocate_sequence-last_number co iv count db.interviews ws first c i h in
    IsNext-if (c == co && i == iv) c i (pos_part count) first db after
      (λ same. rw (← last_number-same c co i iv db.interviews same) f) (rw e w)
