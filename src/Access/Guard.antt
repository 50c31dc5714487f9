-- ===== src/Access/Guard.antt =====
-- internal/rbac/rbac.go: Middleware and Require in front of a handler.
use ta_platform.Prelude.Results.{Result, ok, err, err_not_ok, ok_eq}
use ta_platform.Prelude.{
  ℕ, ◌≡◌, refl, sym, ◌∙◌, ap, ◌↔◌, Bool, true, false, not, ◌||◌, Option, none, some, List, inl, inr,
  Bool-cases, Option-cases,
}
use ta_platform.EventStore.{Session}
use ta_platform.Access.{
  Permission, can, valid, Principal, AccessError, unauthenticated, unavailable, is_candidate,
  is_active, Identity, RoleFound, role_is, user_not_found, role_error, find_session, with_role,
  with_user, with_token, bearer_token, resolve, forbidden, handled, require, answer, serve,
}

-- Why a request may run a handler as `who`.
pub record IsGranted (w : Identity) (p : Permission) (header : List ℕ) (who : Principal)
    : Type 0 where
  pub token : List ℕ
  pub session : Session
  pub carried : bearer_token header ≡ some token
  pub read : w.unread ≡ false
  pub found : find_session (w.hash token) w.sessions ≡ some session
  pub member : session.user_id ≡ some who.user_id
  pub no_candidate : is_candidate session ≡ false
  pub in_use : is_active session w.now ≡ true
  pub company : who.company_id ≡ session.company_id
  pub stored : w.user_role session.company_id who.user_id ≡ role_is who.role
  pub known : valid who.role ≡ true
  pub allowed : can who.role p ≡ true

answer-handled :
    (p : Permission) (r : Result AccessError Principal) (who : Principal)
    → answer p r ≡ handled who
    → (r ≡ ok who) × (can who.role p ≡ true)
unfolding require
answer-handled p (err unauthenticated) who h = absurd (cc)
answer-handled p (err unavailable) who h = absurd (cc)
answer-handled p (ok x) who h = elim (Bool-cases (can x.role p)) [
  | inl may ↦ let same = handled_eq x who (rw may at h) in (ap (λ y. ok y) same, rw (← same) may)
  | inr may_not ↦ absurd (forbidden_handled (rw may_not at h))
]
  where
    handled_eq : (x y : Principal) → handled x ≡ handled y → x ≡ y
    handled_eq x y h = cc

    forbidden_handled : forbidden ≡ handled who → ⊥
    forbidden_handled h = cc

with_role-ok :
    (company user : ℕ) (f : RoleFound) (who : Principal)
    → with_role company user f ≡ ok who
    → (who.company_id ≡ company)
      × (who.user_id ≡ user)
      × (f ≡ role_is who.role)
      × (valid who.role ≡ true)
with_role-ok company user user_not_found who h = absurd (err_not_ok unauthenticated who h)
with_role-ok company user role_error who h = absurd (err_not_ok unavailable who h)
with_role-ok company user (role_is r) who h = elim (Bool-cases (valid r)) [
  | inr strange ↦ absurd (err_not_ok unauthenticated who (rw strange at h))
  | inl known ↦
      let made : Principal = record { company_id = company; user_id = user; role = r } in
      let same = ok_eq made who (rw known at h) in
      (
        sym (ap (λ (x : Principal). x.company_id) same),
        sym (ap (λ (x : Principal). x.user_id) same),
        ap (λ (x : Principal). role_is x.role) same,
        rw (← same) known,
      )
]

with_user-ok :
    (w : Identity) (s : Session) (u : Option ℕ) (who : Principal)
    → with_user w s u ≡ ok who
    → (u ≡ some who.user_id)
      × (is_candidate s ≡ false)
      × (is_active s w.now ≡ true)
      × (who.company_id ≡ s.company_id)
      × (w.user_role s.company_id who.user_id ≡ role_is who.role)
      × (valid who.role ≡ true)
with_user-ok w s none who h = absurd (err_not_ok unauthenticated who h)
with_user-ok w s (some user) who h = elim (Bool-cases (is_candidate s || not (is_active s w.now))) [
  | inl refused ↦ absurd (err_not_ok unauthenticated who (rw refused at h))
  | inr fine ↦
      let (company, same, stored, known) =
        with_role-ok s.company_id user (w.user_role s.company_id user) who (rw fine at h) in
      let (member, live) = parts (is_candidate s) (is_active s w.now) fine in
      (ap (λ x. some x) (sym same), member, live, company, rw same stored, known)
]
  where
    parts : (a b : Bool) → a || not b ≡ false → (a ≡ false) × (b ≡ true)
    parts false true h = (refl, refl)
    parts false false h = absurd (cc)
    parts true b h = absurd (cc)

resolve-IsGranted :
    (w : Identity) (p : Permission) (header : List ℕ) (who : Principal) (t : Option (List ℕ))
    → bearer_token header ≡ t
    → with_token w t ≡ ok who
    → can who.role p ≡ true
    → IsGranted w p header who
resolve-IsGranted w p header who none e h may = absurd (err_not_ok unauthenticated who h)
resolve-IsGranted w p header who (some token) e h may = elim (Bool-cases w.unread) [
  | inl unread ↦ absurd (err_not_ok unavailable who (rw unread at h))
  | inr read ↦ elim (Option-cases (find_session (w.hash token) w.sessions)) [
    | inl missing ↦ absurd (err_not_ok unauthenticated who (rw (read, missing) at h))
    | inr (s, found) ↦
        let (user, member, live, company, stored, known) =
          with_user-ok w s s.user_id who (rw (read, found) at h) in
        record {
          token = token;
          session = s;
          carried = e;
          read = read;
          found = found;
          member = user;
          no_candidate = member;
          in_use = live;
          company = company;
          stored = stored;
          known = known;
          allowed = may;
        }
  ]
]

IsGranted-user :
    (w : Identity) (s : Session) (who : Principal)
    → is_candidate s ≡ false
    → is_active s w.now ≡ true
    → who.company_id ≡ s.company_id
    → w.user_role s.company_id who.user_id ≡ role_is who.role
    → valid who.role ≡ true
    → with_user w s (some who.user_id) ≡ ok who
IsGranted-user w s who member live company stored known =
    rw (member, live, stored, known)
      (ap (λ c. ok (record { company_id = c; user_id = who.user_id; role = who.role }))
        (sym company))

IsGranted-resolve :
    (w : Identity) (p : Permission) (header : List ℕ) (who : Principal)
    → IsGranted w p header who
    → with_token w (bearer_token header) ≡ ok who
IsGranted-resolve w p header who g =
    rw (g.carried, g.read, g.found)
      (ap (λ u. with_user w g.session u) g.member
        ∙ IsGranted-user w g.session who g.no_candidate g.in_use g.company g.stored g.known)

-- A guarded handler runs for a principal exactly if the request carries a token of a session that
-- is in use and no candidate's, the session's user is the principal's in the session's company,
-- with the stored role, which is a known one and holds the permission.
pub serve-handled :
    (w : Identity) (p : Permission) (header : List ℕ) (who : Principal)
    → serve w p header ≡ handled who ↔ IsGranted w p header who
unfolding serve resolve require
serve-handled w p header who = (
  λ h.
      let (ok_who, may) = answer-handled p (with_token w (bearer_token header)) who h in
      resolve-IsGranted w p header who (bearer_token header) refl ok_who may,
  λ g. rw (IsGranted-resolve w p header who g, g.allowed) refl,
)
