-- ===== src/Access/Policy.antt =====
-- internal/rbac/rbac.go: the roles, the permissions and the matrix between them.
use ta_platform.Prelude.{String, Bool, true, false, List, [], ◌∷◌, if◌then◌else◌}

-- `unknown` is a role or a permission that the program does not list.
pub data Role : Type 0 where
  owner admin recruiter interviewer viewer : Role
  unknown_role : String → Role

pub data Permission : Type 0 where
  company_read company_write users_read users_write : Permission
  interviews_read interviews_write interviews_erase interviews_live : Permission
  tasks_read tasks_write invites_candidate invites_member : Permission
  scores_read scores_approve policies_read policies_write analytics_read search_all : Permission
  unknown_permission : String → Permission

-- Equality with a listed role.
abbrev pub is_role : Role → Role → Bool
is_role owner owner = true
is_role admin admin = true
is_role recruiter recruiter = true
is_role interviewer interviewer = true
is_role viewer viewer = true
is_role _ _ = false

abbrev pub everyone : List Role
everyone = owner ∷ admin ∷ recruiter ∷ interviewer ∷ viewer ∷ []

abbrev pub admins : List Role
admins = owner ∷ admin ∷ []

abbrev pub hiring : List Role
hiring = owner ∷ admin ∷ recruiter ∷ []

abbrev pub evaluators : List Role
evaluators = owner ∷ admin ∷ interviewer ∷ []

abbrev pub staff : List Role
staff = owner ∷ admin ∷ recruiter ∷ interviewer ∷ []

abbrev pub policy : Permission → List Role
policy company_read = everyone
policy company_write = admins
policy users_read = everyone
policy users_write = admins
policy interviews_read = everyone
policy interviews_write = hiring
policy interviews_erase = admins
policy interviews_live = staff
policy tasks_read = everyone
policy tasks_write = staff
policy invites_candidate = hiring
policy invites_member = admins
policy scores_read = staff
policy scores_approve = evaluators
policy policies_read = everyone
policy policies_write = admins
policy analytics_read = everyone
policy search_all = everyone
policy (unknown_permission name) = []

-- The loops of Valid and Can.
abbrev pub among : Role → List Role → Bool
among r [] = false
among r (known ∷ rs) = let rest = among r rs in if is_role r known then true else rest

unfoldable pub valid : Role → Bool
valid r = among r everyone

unfoldable pub can : Role → Permission → Bool
can r p = among r (policy p)
