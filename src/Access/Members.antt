-- ===== src/Access/Members.antt =====
-- The membership lists beside the users' roles.
use blackstone.Prelude.{
  String, ◌≡◌, refl, Bool, true, Option, none, some, List, [], ◌∷◌, arith, if◌then◌else◌, ap,
}
use blackstone.Map.{
  ◌==◌, Map, find, contains, insert, erase, string_key, find-insert, find-erase, beq_refl,
  find-insert_self,
}
use blackstone.Access.{
  permission_key, AccessController, Collection, define_role, assign_role, revoke_role, revoke_found,
  remove_user, remove_found, drop_user, members, members_of, Call, defines, assigns, revokes,
  removes, step, run, new_controller,
}

-- Is the user in the list of the role?
abbrev pub is_member : AccessController → String → Option String → Bool
is_member s user none = true
is_member s user (some role) = contains user (members s role)

-- A user who holds a role is in that role's list.
abbrev pub is_filed : AccessController → String → Bool
is_filed s user = is_member s user (find user s.user_roles)

-- Membership of `user` in a role's list, after one list was replaced.
member-insert :
    (s : AccessController) (roles : Map String String) (name user role : String)
    (c : Collection String)
    → contains user (
        members (record s { user_roles = roles; role_members = insert name c s.role_members }) role)
      ≡ (if name == role then contains user c else contains user (members s role))
member-insert s roles name user role c = ground (arith, find-insert name role c s.role_members)

drop-is_filed :
    (s : AccessController) (who name user : String) (o : Option String)
    → find user s.user_roles ≡ o
    → is_member s user o ≡ true
    → is_filed (drop_user s who name) user ≡ true
drop-is_filed s who name user none e h = ground (arith, find-erase who user s.user_roles)
drop-is_filed s who name user (some role) e h = ground (
  arith,
  find-erase who user s.user_roles,
  find-erase who user (members s name),
  member-insert s (erase who s.user_roles) name user role (erase who (members s name)),
  ap (λ (k : String). contains user (members s k)),
  string_key.beq_iff name role,
)

assign-is_filed :
    (s : AccessController) (who name user : String) (o : Option String)
    → find user s.user_roles ≡ o
    → is_member s user o ≡ true
    → is_filed (assign_role s who name) user ≡ true
unfolding assign_role
assign-is_filed s who name user none e h = ground (
  arith,
  find-insert who user name s.user_roles,
  find-insert name name (insert who tt (members s name)) s.role_members,
  beq_refl name,
  find-insert who user tt (members s name),
)
assign-is_filed s who name user (some role) e h = ground (
  arith,
  find-insert who user name s.user_roles,
  find-insert name name (insert who tt (members s name)) s.role_members,
  find-insert name role (insert who tt (members s name)) s.role_members,
  beq_refl name,
  find-insert who user tt (members s name),
  ap (λ (k : String). contains user (members s k)),
  string_key.beq_iff name role,
)

revoke-is_filed :
    (s : AccessController) (who name user : String) (o : Option String)
    → is_filed s user ≡ true
    → is_filed (revoke_found s who name o) user ≡ true
revoke-is_filed s who name user none h = h
revoke-is_filed s who name user (some role) h =
    ground (arith, h, drop-is_filed s who name user (find user s.user_roles) refl h)

remove-is_filed :
    (s : AccessController) (who user : String) (o : Option String)
    → is_filed s user ≡ true
    → is_filed (remove_found s who o) user ≡ true
remove-is_filed s who user none h = h
remove-is_filed s who user (some role) h =
    drop-is_filed s who role user (find user s.user_roles) refl h

step-is_filed :
    (s : AccessController) (c : Call) (user : String)
    → is_filed s user ≡ true
    → is_filed (step s c) user ≡ true
unfolding step define_role revoke_role remove_user
step-is_filed s (defines name perms) user h = h
step-is_filed s (assigns who name) user h =
    assign-is_filed s who name user (find user s.user_roles) refl h
step-is_filed s (revokes who name) user h =
    revoke-is_filed s who name user (find who s.user_roles) h
step-is_filed s (removes who) user h = remove-is_filed s who user (find who s.user_roles) h

run_from-is_filed :
    (s : AccessController) (cs : List Call) (user : String)
    → is_filed s user ≡ true
    → is_filed (run s cs) user ≡ true
unfolding run
run_from-is_filed s [] user h = h
run_from-is_filed s (c ∷ cs) user h =
    run_from-is_filed (step s c) cs user (step-is_filed s c user h)

-- After any calls on a new controller, a user who holds a role is in that role's member list.
pub run-is_filed : (cs : List Call) (user : String) → is_filed (run new_controller cs) user ≡ true
unfolding new_controller define_role find
run-is_filed cs user = run_from-is_filed new_controller cs user refl

-- A user who is assigned a second role holds it, and still stands in the member list of the
-- first, if both roles are defined.
pub assign_twice :
    (s : AccessController) (user old new : String)
    → contains old s.roles ≡ true
    → contains new s.roles ≡ true
    → let s' = assign_role (assign_role s user old) user new in
      (find user s'.user_roles ≡ some new) × (contains user (members s' old) ≡ true)
unfolding assign_role
assign_twice s user old new h k =
    let first = insert user tt (members s old) in
    let lists = insert old first s.role_members in
    rw (h, k)
      (
        find-insert_self user new (insert user old s.user_roles),
        ground (
          arith,
          find-insert new old (insert user tt (members_of (find new lists))) lists,
          find-insert old old first s.role_members,
          find-insert user user tt (members s old),
          find-insert user user tt (members_of (find new lists)),
          beq_refl user,
          beq_refl old,
        ),
      )
