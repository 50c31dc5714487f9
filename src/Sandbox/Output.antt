-- ===== src/Sandbox/Output.antt =====
-- What a run of a container keeps of its output.
use ta_platform.Prelude.{
  ℕ, zero, suc, ◌+◌, ◌-◌, ◌≤◌, ◌≡◌, refl, ◌∙◌, ap, inl, inr, Bool, true, false, ◌||◌, List, [], ◌∷◌,
  ◌++◌, append-nil, append_assoc, ltb, length, length-append, take, Bool-cases, arith, ℤ, pos_part,
}
use ta_platform.Sandbox.{LimitedBuffer, write_limited, write_all, captured}

module _ {A : Type 0} where
  take-append : (n : ℕ) (xs ys : List A) → take n (xs ++ ys) ≡ take n xs ++ take (n - length xs) ys
  take-append zero [] ys = refl
  take-append zero (x ∷ xs) ys =
      let none_left : 0 - suc (length xs) ≡ 0 = omega arith in rw none_left refl
  take-append (suc n) [] ys = let whole : suc n - 0 ≡ suc n = omega arith in rw whole refl
  take-append (suc n) (x ∷ xs) ys =
      let less : suc n - suc (length xs) ≡ n - length xs = omega arith in
      rw (less, take-append n xs ys) refl

  take-room : (n : ℕ) (xs : List A) → n - length (take n xs) ≡ n - length xs
  take-room zero xs = omega arith
  take-room (suc n) [] = refl
  take-room (suc n) (x ∷ xs) = omega (arith, take-room n xs)

  take-all : (n : ℕ) (xs : List A) → length xs ≤ n → take n xs ≡ xs
  take-all zero [] h = refl
  take-all zero (x ∷ xs) h = absurd (omega arith)
  take-all (suc n) [] h = refl
  take-all (suc n) (x ∷ xs) h = ap (λ l. x ∷ l) (take-all n xs (omega arith))

write_limited-take :
    (p : List ℕ) (b : LimitedBuffer)
    → let room = pos_part b.limit - length b.buf in
      write_limited p b
      ≡ record b { buf = b.buf ++ take room p; truncated = b.truncated || ltb room (length p) }
unfolding write_limited
write_limited-take p b = elim (Bool-cases (ltb 0 room)) [
  | inl q ↦ elim (Bool-cases (ltb room (length p))) [
    | inl r ↦ rw (q, r, or_true b.truncated) refl
    | inr r ↦ rw (q, r, or_false b.truncated, take-all room p (short room (length p) r)) refl
  ]
  | inr q ↦ elim (Bool-cases (ltb 0 (length p))) [
    | inl r ↦ rw (room_zero room q, append-nil b.buf, r, or_true b.truncated) refl
    | inr r ↦ rw (room_zero room q, append-nil b.buf, r, or_false b.truncated) refl
  ]
]
  where
    room : ℕ
    room = pos_part b.limit - length b.buf

    or_true : (t : Bool) → (t || true) ≡ true
    or_true true = refl
    or_true false = refl

    or_false : (t : Bool) → (t || false) ≡ t
    or_false true = refl
    or_false false = refl

    short : (n m : ℕ) → ltb n m ≡ false → m ≤ n
    short n m h = ground arith

    room_zero : (n : ℕ) → ltb 0 n ≡ false → n ≡ 0
    room_zero n h = ground arith

-- The bytes of the pieces.
abbrev pub written : List (List ℕ) → List ℕ
written [] = []
written (p ∷ ps) = p ++ written ps

-- A buffer that kept what fits of the bytes `w`.
abbrev pub kept : ℤ → List ℕ → LimitedBuffer
kept limit w = record {
  buf = take (pos_part limit) w;
  limit = limit;
  truncated = ltb (pos_part limit) (length w);
}

write_limited-kept :
    (limit : ℤ) (w p : List ℕ) → write_limited p (kept limit w) ≡ kept limit (w ++ p)
write_limited-kept limit w p =
    write_limited-take p (kept limit w)
    ∙ rw
        (
          take-room (pos_part limit) w,
          take-append (pos_part limit) w p,
          length-append w p,
          more (pos_part limit) (length w) (length p),
        )
        refl
  where
    more : (n a b : ℕ) → (ltb n a || ltb (n - a) b) ≡ ltb n (a + b)
    more n a b = ground arith

write_all-kept :
    (limit : ℤ) (w : List ℕ) (ps : List (List ℕ))
    → write_all ps (kept limit w) ≡ kept limit (w ++ written ps)
unfolding write_all
write_all-kept limit w [] = rw (append-nil w) refl
write_all-kept limit w (p ∷ ps) =
    rw
      (
        write_limited-kept limit w p,
        write_all-kept limit (w ++ p) ps,
        append_assoc w p (written ps),
      )
      refl

pub captured-kept : (limit : ℤ) (ps : List (List ℕ)) → captured limit ps ≡ kept limit (written ps)
captured-kept limit ps =
    let fresh : record { buf = []; limit = limit; truncated = false } ≡ kept limit [] =
      rw (take-nil (pos_part limit), none_over (pos_part limit)) refl in
    rw fresh (write_all-kept limit [] ps)
  where
    take-nil : (n : ℕ) → take {A = ℕ} n [] ≡ []
    take-nil zero = refl
    take-nil (suc n) = refl

    none_over : (n : ℕ) → ltb n 0 ≡ false
    none_over n = ground arith
