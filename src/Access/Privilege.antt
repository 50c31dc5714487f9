-- ===== src/Access/Privilege.antt =====
-- internal/rbac/rbac.go: how the roles of the matrix stand to each other.
use ta_platform.Prelude.{◌≡◌, refl, true, List, []}
use ta_platform.Access.{
  Role, owner, admin, viewer, Permission, company_read, company_write, users_read, users_write,
  interviews_read, interviews_write, interviews_erase, interviews_live, tasks_read, tasks_write,
  invites_candidate, invites_member, scores_read, scores_approve, policies_read, policies_write,
  analytics_read, search_all, unknown_permission, everyone, admins, hiring, evaluators, staff,
  policy, among, valid, can,
}

record IsTiered (rs : List Role) : Type 0 where
  same_top : among admin rs ≡ among owner rs
  below_top : (r : Role) → among r rs ≡ true → among admin rs ≡ true
  above_viewer : (r : Role) → among viewer rs ≡ true → among r everyone ≡ true → among r rs ≡ true

everyone-IsTiered : IsTiered everyone
everyone-IsTiered = record { same_top = refl; below_top = λ r h. refl; above_viewer = λ r h v. v }

admins-IsTiered : IsTiered admins
admins-IsTiered = record {
  same_top = refl;
  below_top = λ r h. refl;
  above_viewer = λ r h v. absurd (cc);
}

hiring-IsTiered : IsTiered hiring
hiring-IsTiered = record {
  same_top = refl;
  below_top = λ r h. refl;
  above_viewer = λ r h v. absurd (cc);
}

evaluators-IsTiered : IsTiered evaluators
evaluators-IsTiered = record {
  same_top = refl;
  below_top = λ r h. refl;
  above_viewer = λ r h v. absurd (cc);
}

staff-IsTiered : IsTiered staff
staff-IsTiered = record {
  same_top = refl;
  below_top = λ r h. refl;
  above_viewer = λ r h v. absurd (cc);
}

nobody-IsTiered : IsTiered []
nobody-IsTiered = record {
  same_top = refl;
  below_top = λ r h. h;
  above_viewer = λ r h v. absurd (cc);
}

policy-IsTiered : (p : Permission) → IsTiered (policy p)
policy-IsTiered company_read = everyone-IsTiered
policy-IsTiered company_write = admins-IsTiered
policy-IsTiered users_read = everyone-IsTiered
policy-IsTiered users_write = admins-IsTiered
policy-IsTiered interviews_read = everyone-IsTiered
policy-IsTiered interviews_write = hiring-IsTiered
policy-IsTiered interviews_erase = admins-IsTiered
policy-IsTiered interviews_live = staff-IsTiered
policy-IsTiered tasks_read = everyone-IsTiered
policy-IsTiered tasks_write = staff-IsTiered
policy-IsTiered invites_candidate = hiring-IsTiered
policy-IsTiered invites_member = admins-IsTiered
policy-IsTiered scores_read = staff-IsTiered
policy-IsTiered scores_approve = evaluators-IsTiered
policy-IsTiered policies_read = everyone-IsTiered
policy-IsTiered policies_write = admins-IsTiered
policy-IsTiered analytics_read = everyone-IsTiered
policy-IsTiered search_all = everyone-IsTiered
policy-IsTiered (unknown_permission name) = nobody-IsTiered

-- For every role and permission, the ones that the program does not list included: owners and
-- admins may do the same, and whatever any role may do; a known role may do whatever viewers may.
pub can-tiers :
    (r : Role) (p : Permission)
    → (can admin p ≡ can owner p)
      × (can r p ≡ true → can admin p ≡ true)
      × (can viewer p ≡ true → valid r ≡ true → can r p ≡ true)
unfolding can valid
can-tiers r p = let t = policy-IsTiered p in (t.same_top, t.below_top r, t.above_viewer r)
