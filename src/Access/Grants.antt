-- ===== src/Access/Grants.antt =====
-- Which permissions each call gives and takes.
use blackstone.Prelude.{
  String, ◌≡◌, refl, Bool, false, ◌&&◌, ◌||◌, Option, none, some, List, [], ◌∷◌, arith,
  if◌then◌else◌, ap,
}
use blackstone.Map.{◌==◌, find, contains, string_key, find-insert, find-erase}
use blackstone.Access.{
  Permission, permission_key, Role, AccessController, add_permission, add_permissions, define_role,
  assign_role, revoke_role, revoke_found, remove_user, remove_found, has_permission, role_permits,
  permits, drop_user, Call, defines, assigns, revokes, removes, step,
}

abbrev pub listed : Permission → List Permission → Bool
listed p [] = false
listed p (q ∷ qs) = q == p || listed p qs

contains-add_permissions :
    (p : Permission) (perms : List Permission) (r : Role)
    → contains p (add_permissions perms r).permissions
      ≡ (contains p r.permissions || listed p perms)
unfolding add_permissions add_permission
contains-add_permissions p [] r = ground arith
contains-add_permissions p (q ∷ qs) r =
    ground
      (arith, contains-add_permissions p qs (add_permission q r), find-insert q p tt r.permissions)

abbrev pub role_is : String → Option String → Bool
role_is name none = false
role_is name (some role) = name == role

-- Whether a user has a permission after a call, from the state before it.
abbrev pub granted : AccessController → Call → String → Permission → Bool
granted s (defines name perms) user p =
    if role_is name (find user s.user_roles) then listed p perms else has_permission s user p
granted s (assigns who name) user p =
    if contains name s.roles && who == user
    then permits (find name s.roles) p
    else has_permission s user p
granted s (revokes who name) user p =
    if who == user && role_is name (find user s.user_roles) then false else has_permission s user p
granted s (removes who) user p = if who == user then false else has_permission s user p

define-granted :
    (s : AccessController) (name : String) (perms : List Permission) (p : Permission)
    (o : Option String)
    → role_permits (define_role s name perms) p o
      ≡ (if role_is name o then listed p perms else role_permits s p o)
unfolding define_role find
define-granted s name perms p none = refl
define-granted s name perms p (some role) =
    let r : Role = record { role_name = name; permissions = [] } in
    ground (
      arith,
      find-insert name role (add_permissions perms r) s.roles,
      contains-add_permissions p perms r,
    )

drop-granted :
    (s : AccessController) (who name user : String) (p : Permission)
    → has_permission (drop_user s who name) user p
      ≡ (if who == user then false else has_permission s user p)
unfolding has_permission
drop-granted s who name user p = ground (arith, find-erase who user s.user_roles)

revoke-granted :
    (s : AccessController) (who name user : String) (p : Permission) (o : Option String)
    → find who s.user_roles ≡ o
    → has_permission (revoke_found s who name o) user p ≡ granted s (revokes who name) user p
unfolding has_permission
revoke-granted s who name user p none e =
    ground (arith, string_key.beq_iff who user, ap (λ (k : String). find k s.user_roles))
revoke-granted s who name user p (some role) e = ground (
  arith,
  drop-granted s who name user p,
  string_key.beq_iff who user,
  string_key.beq_iff role name,
  string_key.beq_iff name role,
)

remove-granted :
    (s : AccessController) (who user : String) (p : Permission) (o : Option String)
    → find who s.user_roles ≡ o
    → has_permission (remove_found s who o) user p ≡ granted s (removes who) user p
unfolding has_permission
remove-granted s who user p none e =
    ground (arith, string_key.beq_iff who user, ap (λ (k : String). find k s.user_roles))
remove-granted s who user p (some role) e = drop-granted s who role user p

-- What each call does to what a user may do: a definition of a role changes it for those who hold
-- the role, to the permissions listed; an assignment of a defined role gives that user the role's
-- permissions and only those; a revocation of the role that is held, and a removal, leave that user
-- none; and nobody else's permissions change.
pub step-granted :
    (s : AccessController) (c : Call) (user : String) (p : Permission)
    → has_permission (step s c) user p ≡ granted s c user p
unfolding step has_permission define_role assign_role revoke_role remove_user
step-granted s (defines name perms) user p = define-granted s name perms p (find user s.user_roles)
step-granted s (assigns who name) user p = ground (arith, find-insert who user name s.user_roles)
step-granted s (revokes who name) user p =
    revoke-granted s who name user p (find who s.user_roles) refl
step-granted s (removes who) user p = remove-granted s who user p (find who s.user_roles) refl
