-- ===== src/EventStore/Invites.antt =====
-- internal/store/postgres/sessions.go: an invite opens one session.
use ta_platform.Prelude.Results.{Result, ok, err, err_not_ok}
use ta_platform.Prelude.{
  ℕ, ◌+◌, ◌≤◌, ◌≡◌, refl, sym, ap, String, true, false, not, ◌&&◌, Option, none, some, List, [],
  ◌∷◌, if◌then◌else◌, arith, inl, inr, Bool-cases, Option-cases, ℤ, some_eq, str_eq,
}
use ta_platform.EventStore.{
  Message, Interview, Db, StoreError, Invite, Started, StartParams, database, insert_outbox,
  is_consumable, after_invite, consume_invite, start_session, start_consumed, start_allocated,
  bound_advance, session_taken, new_session, invalid_invite, build_failed,
}

-- The invites with a token that are still to be used.
abbrev pub open_invites : String → List Invite → ℕ
open_invites hash [] = 0
open_invites hash (i ∷ is) =
    (if str_eq hash i.token_hash && not i.accepted then 1 else 0) + open_invites hash is

after_invite-some :
    (i v : Invite) (r : Option (Invite × List Invite)) (js : List Invite)
    → after_invite i r ≡ some (v, js)
    → (ks : List Invite) × (r ≡ some (v, ks)) × (js ≡ i ∷ ks)
after_invite-some i v none js h = absurd (cc)
after_invite-some i v (some (w, ks)) js h =
    let eq = some_eq (w, i ∷ ks) (v, js) h in
    (ks, ap (λ x. some (x, ks)) (ap (λ p. p.0) eq), sym (ap (λ p. p.1) eq))

consumable_parts :
    (hash : String) (now : ℤ) (i : Invite)
    → is_consumable hash now i ≡ true
    → (str_eq hash i.token_hash ≡ true) × (i.accepted ≡ false)
consumable_parts hash now i h = ground arith

consume_invite-open :
    (hash : String) (now : ℤ) (is js : List Invite) (v : Invite)
    → consume_invite hash now is ≡ some (v, js)
    → (open_invites hash js + 1 ≡ open_invites hash is) × (str_eq hash v.token_hash ≡ true)
unfolding consume_invite
consume_invite-open hash now [] js v h = absurd (cc)
consume_invite-open hash now (i ∷ is) js v h = elim (Bool-cases (is_consumable hash now i)) [
  | inl here ↦
      let eq = some_eq (i, record i { accepted = true } ∷ is) (v, js) (rw here at h) in
      let w : i ≡ v = ap (λ p. p.0) eq in
      let l : (record i { accepted = true } ∷ is) ≡ js = ap (λ p. p.1) eq in
      let (token, unused) = consumable_parts hash now i here in
      (rw (← l, token, unused) (omega arith), rw (← w) token)
  | inr later ↦
      let (ks, eq, shape) = after_invite-some i v (consume_invite hash now is) js (rw later at h) in
      let (count, token) = consume_invite-open hash now is ks v eq in
      (rw shape (omega arith), token)
]

consume_invite-none :
    (hash : String) (now : ℤ) (is : List Invite)
    → open_invites hash is ≡ 0
    → consume_invite hash now is ≡ none
unfolding consume_invite
consume_invite-none hash now [] h = refl
consume_invite-none hash now (i ∷ is) h = ground (arith, consume_invite-none hash now is)

start_allocated-invites :
    (build : Started → Option Message) (p : StartParams) (v : Invite) (is : List Invite) (db : Db)
    (r : Result StoreError (ℕ × List Interview)) (s : Started)
    → (start_allocated build p v is db r).1 ≡ ok s
    → (start_allocated build p v is db r).0.invites ≡ is
unfolding insert_outbox
start_allocated-invites build p v is db (err e) s h = absurd (err_not_ok e s h)
start_allocated-invites build p v is db (ok (first, vs)) s h =
    let started : Started = record {
      session = new_session v p;
      invite_id = v.id;
      sequence_number = first;
    } in
    elim (Bool-cases (session_taken v.company_id p.session_id p.token_hash db.sessions)) [
      | inl taken ↦ absurd (err_not_ok database s (rw taken at h))
      | inr free ↦ elim (Option-cases (build started)) [
        | inl none_built ↦ absurd (err_not_ok build_failed s (rw (free, none_built) at h))
        | inr (m, built) ↦ rw (free, built) refl
      ]
    ]

start_consumed-open :
    (hash : String) (now : ℤ) (build : Started → Option Message) (p : StartParams) (db : Db)
    (r : Option (Invite × List Invite)) (s : Started)
    → consume_invite hash now db.invites ≡ r
    → (start_consumed build p db r).1 ≡ ok s
    → open_invites hash (start_consumed build p db r).0.invites + 1 ≡ open_invites hash db.invites
start_consumed-open hash now build p db none s e h = absurd (err_not_ok invalid_invite s h)
start_consumed-open hash now build p db (some (v, is)) s e h =
    let r = bound_advance v.company_id v.interview_id db.interviews in
    let kept = start_allocated-invites build p v is db r s h in
    rw kept (consume_invite-open hash now db.invites is v e).0

start_session-open :
    (hash : String) (now : ℤ) (p : StartParams) (build : Started → Option Message) (db : Db)
    (s : Started)
    → (start_session hash now p false build db).1 ≡ ok s
    → open_invites hash (start_session hash now p false build db).0.invites + 1
      ≡ open_invites hash db.invites
unfolding start_session
start_session-open hash now p build db s h =
    start_consumed-open hash now build p db (consume_invite hash now db.invites) s refl h

start_session-none :
    (hash : String) (now : ℤ) (p : StartParams) (build : Started → Option Message) (db : Db)
    → open_invites hash db.invites ≡ 0
    → start_session hash now p false build db ≡ (db, err invalid_invite)
unfolding start_session
start_session-none hash now p build db h = rw (consume_invite-none hash now db.invites h) refl

-- Where at most one invite with the token is unused, as the unique index on tokens keeps it: once
-- it has opened a session, it never opens another, at any time and with any parameters, and the
-- attempt leaves the tables as they are.
pub start_session-start_session :
    (hash : String) (now later : ℤ) (p q : StartParams) (build build' : Started → Option Message)
    (db : Db) (s : Started)
    → open_invites hash db.invites ≤ 1
    → (start_session hash now p false build db).1 ≡ ok s
    → let after = (start_session hash now p false build db).0 in
      start_session hash later q false build' after ≡ (after, err invalid_invite)
start_session-start_session hash now later p q build build' db s one h =
    start_session-none hash later q build' (start_session hash now p false build db).0
      (omega (arith, start_session-open hash now p build db s h))
