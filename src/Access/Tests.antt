-- ===== src/Access/Tests.antt =====
-- Runs of the access controller, and its theorems at inputs that meet their hypotheses.
use blackstone.Prelude.{◌≡◌, refl, true, false, some, List, [], ◌∷◌}
use blackstone.Map.{find, insert, erase, place, replace, string_key, contains}
use blackstone.Access.{
  read, transfer, delete, add_permission, add_permissions, define_role, assign_role, revoke_role,
  has_permission, get_users_with_role, members, Call, assigns, revokes, step, run, new_controller,
}
use blackstone.Access.Grants.{granted, step-granted}
use blackstone.Access.Members.{is_filed, run-is_filed, assign_twice}

abbrev calls : List Call
calls =
    assigns "ann" "user"
    ∷ assigns "bob" "admin"
    ∷ assigns "ann" "admin"
    ∷ revokes "bob" "admin"
    ∷ []

-- Ann is an administrator now, and is still listed as a user.
run-calls :
    let s = run new_controller calls in
    (has_permission s "ann" delete ≡ true)
    × (has_permission s "ann" transfer ≡ false)
    × (has_permission s "bob" read ≡ false)
    × (get_users_with_role s "user" ≡ "ann" ∷ [])
unfolding run step new_controller define_role add_permissions add_permission assign_role revoke_role
    has_permission get_users_with_role find insert erase place replace
run-calls = (refl, refl, refl, refl)

step-granted_example :
    has_permission (step new_controller (assigns "ann" "user")) "ann" transfer
    ≡ granted new_controller (assigns "ann" "user") "ann" transfer
step-granted_example = step-granted new_controller (assigns "ann" "user") "ann" transfer

run-is_filed_at : is_filed (run new_controller calls) "ann" ≡ true
run-is_filed_at = run-is_filed calls "ann"

assign_twice_at :
    let s = assign_role (assign_role new_controller "ann" "user") "ann" "admin" in
    (find "ann" s.user_roles ≡ some "admin") × (contains "ann" (members s "user") ≡ true)
unfolding new_controller define_role insert find place
assign_twice_at = assign_twice new_controller "ann" "user" "admin" refl refl
