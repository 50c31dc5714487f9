-- ===== src/Access/Resolver.antt =====
-- internal/rbac/rbac.go: Resolve, Middleware and Require; internal/store/postgres/sessions.go:
-- FindSessionByTokenHash; internal/domain/model.go: the states of a session. The hash of a token is
-- an argument, as is what the lookup of a role returns.
use ta_platform.Prelude.Results.{Result, ok, err}
use ta_platform.Prelude.{
  ℕ, String, Bool, true, false, not, ◌&&◌, ◌||◌, Option, none, some, List, [], ◌∷◌, str_eq,
  if◌then◌else◌, ℤ, ltb_ℤ,
}
use ta_platform.EventStore.{Session, SessionState, active, completed, expired, revoked}
use ta_platform.Access.Policy.{Role, Permission, valid, can}
use ta_platform.Access.Bearer.{bearer_token}

pub record Principal : Type 0 where
  pub company_id : ℕ
  pub user_id : ℕ
  pub role : Role

-- ErrUnauthenticated, and the errors that leave the identity unchecked.
pub data AccessError : Type 0 where
  unauthenticated unavailable : AccessError

abbrev pub is_active_state : SessionState → Bool
is_active_state active = true
is_active_state _ = false

abbrev is_present : Option ℕ → Bool
is_present none = false
is_present (some x) = true

abbrev pub is_candidate : Session → Bool
is_candidate s = is_present s.interview_id

unfoldable pub is_active : Session → ℤ → Bool
is_active s now = is_active_state s.state && (not s.revoked && ltb_ℤ now s.expires_at)

abbrev pub same_state : SessionState → SessionState → Bool
same_state active active = true
same_state completed completed = true
same_state expired expired = true
same_state revoked revoked = true
same_state _ _ = false

abbrev is_terminal : SessionState → Bool
is_terminal active = false
is_terminal _ = true

unfoldable pub can_transition_to : SessionState → SessionState → Bool
can_transition_to s next = if same_state s next then true else is_active_state s && is_terminal next

unfoldable pub find_session : String → List Session → Option Session
find_session hash [] = none
find_session hash (s ∷ ss) =
    let rest = find_session hash ss in if str_eq hash s.token_hash then some s else rest

-- UserRole: the role, no such user, or an error.
pub data RoleFound : Type 0 where
  role_is : Role → RoleFound
  user_not_found role_error : RoleFound

-- The world a request meets: the hash, the sessions (`unread` if the query fails), the roles, now.
pub record Identity : Type 0 where
  pub hash : List ℕ → String
  pub unread : Bool
  pub sessions : List Session
  pub user_role : ℕ → ℕ → RoleFound
  pub now : ℤ

abbrev pub with_role : ℕ → ℕ → RoleFound → Result AccessError Principal
with_role company user user_not_found = err unauthenticated
with_role company user role_error = err unavailable
with_role company user (role_is r) =
    if not (valid r)
    then err unauthenticated
    else ok (record { company_id = company; user_id = user; role = r })

abbrev pub with_user : Identity → Session → Option ℕ → Result AccessError Principal
with_user w s none = err unauthenticated
with_user w s (some user) =
    if is_candidate s || not (is_active s w.now)
    then err unauthenticated
    else with_role s.company_id user (w.user_role s.company_id user)

abbrev pub with_session : Identity → Option Session → Result AccessError Principal
with_session w none = err unauthenticated
with_session w (some s) = with_user w s s.user_id

abbrev pub with_token : Identity → Option (List ℕ) → Result AccessError Principal
with_token w none = err unauthenticated
with_token w (some token) =
    if w.unread then err unavailable else with_session w (find_session (w.hash token) w.sessions)

unfoldable pub resolve : Identity → List ℕ → Result AccessError Principal
unfolding bearer_token find_session is_active valid
resolve w header = with_token w (bearer_token header)

-- What the client gets: an answer of the middleware, or the handler's run for a principal.
pub data Reply : Type 0 where
  unauthorized forbidden identity_unavailable : Reply
  handled : Principal → Reply

-- Require, with the principal that the context carries.
unfoldable pub require : Permission → Option Principal → Reply
unfolding can
require p none = unauthorized
require p (some who) = if not (can who.role p) then forbidden else handled who

abbrev pub answer : Permission → Result AccessError Principal → Reply
answer p (err unauthenticated) = unauthorized
answer p (err unavailable) = identity_unavailable
answer p (ok who) = require p (some who)

-- Middleware in front of Require.
unfoldable pub serve : Identity → Permission → List ℕ → Reply
unfolding resolve require
serve w p header = answer p (resolve w header)
