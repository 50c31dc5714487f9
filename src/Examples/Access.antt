-- ===== src/Examples/Access.antt =====
-- Runs of the access control.
use ta_platform.Prelude.{ℕ, ◌≡◌, refl, ◌↔◌, false, none, some, List, [], ◌∷◌, pos}
use ta_platform.EventStore.{Session, active, completed}
use ta_platform.Access.{
  recruiter, interviews_write, can_transition_to, Identity, role_is, Principal, serve, handled,
}
use ta_platform.Access.Lifecycle.{Reaches, stay, move}
use ta_platform.Access.Guard.{IsGranted, serve-handled}

-- "bearer ab"
abbrev header : List ℕ
header = 98 ∷ 101 ∷ 97 ∷ 114 ∷ 101 ∷ 114 ∷ 32 ∷ 97 ∷ 98 ∷ []

abbrev member_session : Session
member_session = record {
  company_id = 1;
  id = 40;
  user_id = some 5;
  interview_id = none;
  state = active;
  token_hash = "h";
  expires_at = pos 100;
  revoked = false;
  last_diff_sequence = pos 0;
}

abbrev identity : Identity
identity = record {
  hash = λ token. "h";
  unread = false;
  sessions = member_session ∷ [];
  user_role = λ c u. role_is recruiter;
  now = pos 10;
}

abbrev who : Principal
who = record { company_id = 1; user_id = 5; role = recruiter }

serve-handled_example :
    serve identity interviews_write header ≡ handled who
    ↔ IsGranted identity interviews_write header who
serve-handled_example = serve-handled identity interviews_write header who

closing : Reaches active completed
unfolding can_transition_to
closing = move completed refl (move completed refl stay)
