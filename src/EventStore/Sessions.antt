-- ===== src/EventStore/Sessions.antt =====
-- internal/store/postgres/sessions.go: StartSession, the exchange of an invite for a session.
-- `now` is the database's now(). A session whose key or token is taken is refused, as its table's
-- unique keys do.
use ta_platform.Prelude.Results.{Result, ok, err}
use ta_platform.Prelude.{
  ℕ, String, Bool, true, false, not, ◌&&◌, ◌||◌, Option, none, some, List, [], ◌∷◌, ◌++◌, ◌==◌,
  str_eq, if◌then◌else◌, ℤ, pos, ltb_ℤ,
}
use ta_platform.EventStore.Tables.{
  Message, Interview, Session, active, Invite, Db, StoreError, database, invalid_invite,
  build_failed,
}
use ta_platform.EventStore.Outbox.{insert_outbox}
use ta_platform.EventStore.Sequence.{advance, allocated}

pub record StartParams : Type 0 where
  pub session_id : ℕ
  pub token_hash : String
  pub expires_at : ℤ

pub record Started : Type 0 where
  pub session : Session
  pub invite_id : ℕ
  pub sequence_number : ℕ

-- The WHERE clause of the update; the interview it is bound to.
abbrev is_set : Option ℕ → Bool
is_set none = false
is_set (some i) = true

abbrev pub is_consumable : String → ℤ → Invite → Bool
is_consumable hash now i =
    str_eq hash i.token_hash
    && (not i.accepted && (ltb_ℤ now i.expires_at && is_set i.interview_id))

abbrev pub after_invite : Invite → Option (Invite × List Invite) → Option (Invite × List Invite)
after_invite i none = none
after_invite i (some (found, is)) = some (found, i ∷ is)

-- UPDATE invites ... RETURNING; `none` is no row.
unfoldable pub consume_invite : String → ℤ → List Invite → Option (Invite × List Invite)
consume_invite hash now [] = none
consume_invite hash now (i ∷ is) =
    let rest = consume_invite hash now is in
    if is_consumable hash now i
    then some (i, record i { accepted = true } ∷ is)
    else after_invite i rest

unfoldable pub session_taken : ℕ → ℕ → String → List Session → Bool
session_taken company id hash [] = false
session_taken company id hash (s ∷ ss) =
    let rest = session_taken company id hash ss in
    if (company == s.company_id && id == s.id) || str_eq hash s.token_hash then true else rest

abbrev pub new_session : Invite → StartParams → Session
new_session i p = record {
  company_id = i.company_id;
  id = p.session_id;
  user_id = none;
  interview_id = i.interview_id;
  state = active;
  token_hash = p.token_hash;
  expires_at = p.expires_at;
  revoked = false;
  last_diff_sequence = pos 0;
}

abbrev pub start_built : Started → Db → Db → Option Message → Db × Result StoreError Started
start_built s db before none = (before, err build_failed)
start_built s db before (some m) = (insert_outbox m db, ok s)

-- After the allocation: the insert, `build` and the outbox.
abbrev pub start_allocated :
    (Started → Option Message)
    → StartParams
    → Invite
    → List Invite
    → Db
    → Result StoreError (ℕ × List Interview)
    → Db × Result StoreError Started
start_allocated build p i is db (err e) = (db, err e)
start_allocated build p i is db (ok (sequence, vs)) =
    let started : Started = record {
      session = new_session i p;
      invite_id = i.id;
      sequence_number = sequence;
    } in
    if session_taken i.company_id p.session_id p.token_hash db.sessions
    then (db, err database)
    else start_built started
        (record db {
          interviews = vs;
          invites = is;
          sessions = db.sessions ++ (new_session i p ∷ []);
        })
        db (build started)

-- The number that the increment returns; no open interview is an invalid invite.
abbrev pub start_number : Option (ℕ × List Interview) → Result StoreError (ℕ × List Interview)
start_number none = err invalid_invite
start_number (some r) = allocated 1 (some r)

abbrev pub bound_advance : ℕ → Option ℕ → List Interview → Result StoreError (ℕ × List Interview)
bound_advance company none vs = err invalid_invite
bound_advance company (some interview) vs = start_number (advance company interview 1 vs)

abbrev pub start_consumed :
    (Started → Option Message)
    → StartParams
    → Db
    → Option (Invite × List Invite)
    → Db × Result StoreError Started
start_consumed build p db none = (db, err invalid_invite)
start_consumed build p db (some (i, is)) =
    start_allocated build p i is db (bound_advance i.company_id i.interview_id db.interviews)

unfoldable pub start_session :
    String
    → ℤ
    → StartParams
    → Bool
    → (Started → Option Message)
    → Db
    → Db × Result StoreError Started
unfolding consume_invite advance session_taken insert_outbox
start_session hash now p fault build db =
    if fault
    then (db, err database)
    else start_consumed build p db (consume_invite hash now db.invites)
