-- ===== src/Access.antt =====
-- p2p_banking_system/security/access_control.h and access_control.cpp. Every method holds the
-- controller's mutex. A `std::set` is a map to the unit type.
pub mod Grants
pub mod Members
mod Tests
use blackstone.Prelude.{
  ℕ, String, ◌+◌, ◌≡◌, ◌↔◌, Bool, true, false, ◌&&◌, Option, none, some, List, [], ◌∷◌, eqb, arith,
  if◌then◌else◌, ltb, map, refl, sym, ap, ◌∙◌, eqb_iff,
}
use blackstone.Map.{Key, ◌==◌, Map, find, contains, insert, erase, string_key}

pub data Permission : Type 0 where
  read write delete admin audit transfer create_account freeze_account view_logs : Permission
  manage_users manage_contracts : Permission

-- The order of the enumeration.
abbrev pub rank : Permission → ℕ
rank read = 0
rank write = 1
rank delete = 2
rank admin = 3
rank audit = 4
rank transfer = 5
rank create_account = 6
rank freeze_account = 7
rank view_logs = 8
rank manage_users = 9
rank manage_contracts = 10

abbrev pub of_rank : ℕ → Permission
of_rank n =
    if eqb n 0
    then read
    else if eqb n 1
    then write
    else if eqb n 2
    then delete
    else if eqb n 3
    then admin
    else if eqb n 4
    then audit
    else if eqb n 5
    then transfer
    else if eqb n 6
    then create_account
    else if eqb n 7
    then freeze_account
    else if eqb n 8
    then view_logs
    else if eqb n 9
    then manage_users
    else manage_contracts

of_rank-rank : (p : Permission) → of_rank (rank p) ≡ p
of_rank-rank read = refl
of_rank-rank write = refl
of_rank-rank delete = refl
of_rank-rank admin = refl
of_rank-rank audit = refl
of_rank-rank transfer = refl
of_rank-rank create_account = refl
of_rank-rank freeze_account = refl
of_rank-rank view_logs = refl
of_rank-rank manage_users = refl
of_rank-rank manage_contracts = refl

pub rank_iff : (a b : Permission) → (eqb (rank a) (rank b) ≡ true) ↔ (a ≡ b)
rank_iff a b = (
  λ h. sym (of_rank-rank a) ∙ ap of_rank ((eqb_iff (rank a) (rank b)).0 h) ∙ of_rank-rank b,
  λ e. (eqb_iff (rank a) (rank b)).1 (ap rank e),
)

instance abbrev pub permission_key : Key Permission
permission_key = record {
  beq = λ a b. eqb (rank a) (rank b);
  before = λ a b. ltb (rank a) (rank b);
  beq_iff = rank_iff;
}

abbrev pub Collection : Type 0 → Type 0
Collection K = Map K (Unit {0})

pub record Role : Type 0 where
  pub role_name : String
  pub permissions : Collection Permission

pub add_permission : Permission → Role → Role
add_permission perm r = record r { permissions = insert perm tt r.permissions }

pub remove_permission : Permission → Role → Role
remove_permission perm r = record r { permissions = erase perm r.permissions }

pub role_has_permission : Permission → Role → Bool
role_has_permission perm r = contains perm r.permissions

pub record AccessController : Type 0 where
  pub user_roles : Map String String
  pub roles : Map String Role
  pub role_members : Map String (Collection String)

pub add_permissions : List Permission → Role → Role
unfolding add_permission
add_permissions [] r = r
add_permissions (perm ∷ perms) r = add_permissions perms (add_permission perm r)

pub define_role : AccessController → String → List Permission → AccessController
unfolding add_permissions
define_role s name perms = record s {
  roles =
      insert name (add_permissions perms (record { role_name = name; permissions = [] })) s.roles;
}

-- `roleMembers[name]`, an empty set where there is none
abbrev pub members_of : Option (Collection String) → Collection String
members_of none = []
members_of (some c) = c

abbrev pub members : AccessController → String → Collection String
members s name = members_of (find name s.role_members)

pub assign_role : AccessController → String → String → AccessController
assign_role s user name =
    if contains name s.roles
    then record s {
      user_roles = insert user name s.user_roles;
      role_members = insert name (insert user tt (members s name)) s.role_members;
    }
    else s

-- Both writes that end a user's membership.
abbrev pub drop_user : AccessController → String → String → AccessController
drop_user s user name = record s {
  user_roles = erase user s.user_roles;
  role_members = insert name (erase user (members s name)) s.role_members;
}

abbrev pub revoke_found : AccessController → String → String → Option String → AccessController
revoke_found s user name none = s
revoke_found s user name (some role) = if role == name then drop_user s user name else s

pub revoke_role : AccessController → String → String → AccessController
revoke_role s user name = revoke_found s user name (find user s.user_roles)

abbrev pub remove_found : AccessController → String → Option String → AccessController
remove_found s user none = s
remove_found s user (some role) = drop_user s user role

pub remove_user : AccessController → String → AccessController
remove_user s user = remove_found s user (find user s.user_roles)

abbrev pub permits : Option Role → Permission → Bool
permits none perm = false
permits (some r) perm = contains perm r.permissions

abbrev pub role_permits : AccessController → Permission → Option String → Bool
role_permits s perm none = false
role_permits s perm (some role) = permits (find role s.roles) perm

pub has_permission : AccessController → String → Permission → Bool
has_permission s user perm = role_permits s perm (find user s.user_roles)

abbrev pub role_list : Option String → List String
role_list none = []
role_list (some role) = role ∷ []

pub get_user_roles : AccessController → String → List String
get_user_roles s user = role_list (find user s.user_roles)

abbrev pub key_of : String × Unit {0} → String
key_of e = e.0

pub get_users_with_role : AccessController → String → List String
get_users_with_role s name = map key_of (members s name)

pub new_controller : AccessController
unfolding define_role
new_controller =
    let s₀ : AccessController = record { user_roles = []; roles = []; role_members = [] } in
    let s₁ =
      define_role s₀ "admin"
        (read ∷ write ∷ delete ∷ admin ∷ audit ∷ manage_users ∷ manage_contracts ∷ []) in
    let s₂ = define_role s₁ "user" (read ∷ transfer ∷ []) in
    let s₃ = define_role s₂ "auditor" (read ∷ audit ∷ view_logs ∷ []) in
    define_role s₃ "operator" (read ∷ write ∷ freeze_account ∷ view_logs ∷ [])

pub data Call : Type 0 where
  defines : String → List Permission → Call
  assigns revokes : String → String → Call
  removes : String → Call

pub step : AccessController → Call → AccessController
step s (defines name perms) = define_role s name perms
step s (assigns user name) = assign_role s user name
step s (revokes user name) = revoke_role s user name
step s (removes user) = remove_user s user

pub run : AccessController → List Call → AccessController
run s [] = s
run s (c ∷ cs) = run (step s c) cs
