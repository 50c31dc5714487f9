-- ===== src/EventStore/Once.antt =====
-- internal/store/postgres/scores.go: a session is scored once.
use ta_platform.Prelude.Results.{Result, ok, err, err_not_ok, ok_eq}
use ta_platform.Prelude.{
  ℕ, ◌≢◌, ◌⊎◌, ◌≡◌, refl, sym, Bool, true, false, Option, none, some, List, [], ◌∷◌, ◌++◌, ◌==◌,
  ==_refl, arith, inl, inr, Bool-cases, Option-cases, pos,
}
use ta_platform.EventStore.{
  Message, Interview, Score, Db, StoreError, interview_gone, database, score_exists, interview_open,
  session_exists, score_allocated, save_numbered, save_score, is_saved, allocate_sequence,
  insert_outbox,
}

score_exists-append :
    (c k : ℕ) (ss : List Score) (s : Score)
    → c == s.company_id ≡ true
    → k == s.session_id ≡ true
    → score_exists c k (ss ++ (s ∷ [])) ≡ true
unfolding score_exists
score_exists-append c k [] s h j = rw (h, j) refl
score_exists-append c k (t ∷ ts) s h j = ground (arith, score_exists-append c k ts s h j)

some_not_err :
    (e : StoreError) (n : ℕ) → ◌≡◌ {A = Result StoreError (Option ℕ)} (err e) (ok (some n)) → ⊥
some_not_err e n h = err_not_ok e (some n) h

none_not_some : (n : ℕ) → ◌≡◌ {A = Result StoreError (Option ℕ)} (ok none) (ok (some n)) → ⊥
none_not_some n h = cc

score_allocated-saved :
    (build : ℕ → Option Message) (mid before : Db) (r : Result StoreError (ℕ × List Interview))
    (n : ℕ)
    → (score_allocated build mid before r).1 ≡ ok (some n)
    → (score_allocated build mid before r).0.scores ≡ mid.scores
unfolding insert_outbox
score_allocated-saved build mid before (err e) n h = absurd (err_not_ok _ (some n) h)
score_allocated-saved build mid before (ok (first, vs)) n h = elim (Option-cases (build first)) [
  | inl none_built ↦ absurd (err_not_ok _ (some n) (rw none_built at h))
  | inr (m, built) ↦ rw built refl
]

save_numbered-appended :
    (s : Score) (build : ℕ → Option Message) (db : Db) (n : ℕ)
    → (save_numbered s false build db).1 ≡ ok (some n)
    → (save_numbered s false build db).0.scores ≡ db.scores ++ (s ∷ [])
unfolding save_numbered
save_numbered-appended s build db n h =
    elim (Bool-cases (interview_open s.company_id s.interview_id db.interviews)) [
      | inr closed ↦ elim (Bool-cases (score_exists s.company_id s.session_id db.scores)) [
        | inl exists ↦ absurd (none_not_some n (rw (closed, exists) at h))
        | inr new ↦ absurd (some_not_err interview_gone n (rw (closed, new) at h))
      ]
      | inl found ↦ elim (Bool-cases (score_exists s.company_id s.session_id db.scores)) [
        | inl exists ↦ absurd (none_not_some n (rw (found, exists) at h))
        | inr new ↦ elim (Bool-cases (session_exists s.company_id s.session_id db.sessions)) [
          | inr gone ↦ absurd (some_not_err interview_gone n (rw (found, new, gone) at h))
          | inl session ↦
              rw (found, new, session)
                (score_allocated-saved build (record db { scores = db.scores ++ (s ∷ []) }) db
                  (allocate_sequence s.company_id s.interview_id (pos 1) db.interviews) n
                  (rw (found, new, session) at h))
        ]
      ]
    ]

save_numbered-saved :
    (s : Score) (build : ℕ → Option Message) (db : Db) (n : ℕ)
    → (save_numbered s false build db).1 ≡ ok (some n)
    → score_exists s.company_id s.session_id (save_numbered s false build db).0.scores ≡ true
save_numbered-saved s build db n h =
    let appended = save_numbered-appended s build db n h in
    rw appended (
      score_exists-append s.company_id s.session_id db.scores s (==_refl s.company_id)
        (==_refl s.session_id))

is_saved-true :
    (r : Result StoreError (Option ℕ)) → is_saved r ≡ ok true → (n : ℕ) × (r ≡ ok (some n))
is_saved-true (err e) h = absurd (err_not_ok e true h)
is_saved-true (ok none) h = absurd (not_true (ok_eq false true h))
  where
    not_true : ◌≡◌ {A = Bool} false true → ⊥
    not_true h = cc
is_saved-true (ok (some n)) h = (n, refl)

save_score-exists :
    (s : Score) (build : ℕ → Option Message) (db : Db)
    → score_exists s.company_id s.session_id db.scores ≡ true
    → save_score s false build db ≡ (db, ok false)
unfolding save_score save_numbered
save_score-exists s build db h =
    elim (Bool-cases (interview_open s.company_id s.interview_id db.interviews)) [
      | inl found ↦ rw (found, h) refl
      | inr closed ↦ rw (closed, h) refl
    ]

pub save_score-appended :
    (s : Score) (fault : Bool) (build : ℕ → Option Message) (db : Db)
    → (save_score s fault build db).1 ≡ ok true
    → (save_score s fault build db).0.scores ≡ db.scores ++ (s ∷ [])
unfolding save_score save_numbered
save_score-appended s true build db h = absurd (err_not_ok database true h)
save_score-appended s false build db h =
    let (n, eq) = is_saved-true (save_numbered s false build db).1 h in
    save_numbered-appended s build db n eq

save_score-saved :
    (s : Score) (build : ℕ → Option Message) (db : Db)
    → (save_score s false build db).1 ≡ ok true
    → score_exists s.company_id s.session_id (save_score s false build db).0.scores ≡ true
unfolding save_score
save_score-saved s build db h =
    let (n, eq) = is_saved-true (save_numbered s false build db).1 h in
    save_numbered-saved s build db n eq

score_allocated-unsaved :
    (build : ℕ → Option Message) (mid before : Db) (r : Result StoreError (ℕ × List Interview))
    → (score_allocated build mid before r).1 ≢ ok none
score_allocated-unsaved build mid before (err e) h = err_not_ok _ none h
score_allocated-unsaved build mid before (ok (first, vs)) h = elim (Option-cases (build first)) [
  | inl none_built ↦ err_not_ok _ none (rw none_built at h)
  | inr (m, built) ↦ none_not_some first (sym (rw built at h))
]

save_numbered-kept :
    (s : Score) (build : ℕ → Option Message) (db : Db)
    → (save_numbered s false build db).1 ≡ ok none
    → score_exists s.company_id s.session_id (save_numbered s false build db).0.scores ≡ true
unfolding save_numbered
save_numbered-kept s build db h =
    elim (Bool-cases (interview_open s.company_id s.interview_id db.interviews)) [
      | inr closed ↦ elim (Bool-cases (score_exists s.company_id s.session_id db.scores)) [
        | inl exists ↦ rw (closed, exists) refl
        | inr new ↦ absurd (err_not_ok interview_gone none (rw (closed, new) at h))
      ]
      | inl found ↦ elim (Bool-cases (score_exists s.company_id s.session_id db.scores)) [
        | inl exists ↦ rw (found, exists) exists
        | inr new ↦ elim (Bool-cases (session_exists s.company_id s.session_id db.sessions)) [
          | inr gone ↦ absurd (err_not_ok interview_gone none (rw (found, new, gone) at h))
          | inl session ↦ absurd (
              score_allocated-unsaved build (record db { scores = db.scores ++ (s ∷ []) }) db
                (allocate_sequence s.company_id s.interview_id (pos 1) db.interviews)
                (rw (found, new, session) at h))
        ]
      ]
    ]

is_saved-ok :
    (r : Result StoreError (Option ℕ)) (b : Bool)
    → is_saved r ≡ ok b
    → (r ≡ ok none) ⊎ ((n : ℕ) × (r ≡ ok (some n)))
is_saved-ok (err e) b h = absurd (err_not_ok e b h)
is_saved-ok (ok none) b h = inl refl
is_saved-ok (ok (some n)) b h = inr (n, refl)

pub save_score-ok :
    (s : Score) (fault : Bool) (build : ℕ → Option Message) (db : Db) (b : Bool)
    → (save_score s fault build db).1 ≡ ok b
    → score_exists s.company_id s.session_id (save_score s fault build db).0.scores ≡ true
unfolding save_score save_numbered
save_score-ok s true build db b h = absurd (err_not_ok database b h)
save_score-ok s false build db b h = elim (is_saved-ok (save_numbered s false build db).1 b h) [
  | inl kept ↦ save_numbered-kept s build db kept
  | inr (n, new) ↦ save_numbered-saved s build db n new
]

-- After a score is saved, a save of any score for the same session reports that it saved nothing
-- and leaves the tables, the outbox included, as they are.
pub save_score-save_score :
    (s s' : Score) (build build' : ℕ → Option Message) (db : Db)
    → (save_score s false build db).1 ≡ ok true
    → s'.company_id ≡ s.company_id
    → s'.session_id ≡ s.session_id
    → save_score s' false build' (save_score s false build db).0
      ≡ ((save_score s false build db).0, ok false)
save_score-save_score s s' build build' db h c k =
    save_score-exists s' build' (save_score s false build db).0
      (rw (c, k) (save_score-saved s build db h))
