-- ===== src/Users/Tests.antt =====
-- Runs of the user store, and the theorems about it at concrete inputs.

use sbom_graph.Prelude.{
  text_ne, ◌+◌, ◌<◌, ◌⊎◌, ◌≡◌, ◌↔◌, inl, refl, true, false, none, some, List, [], ◌∷◌, ◌++◌, arith,
  In, All, length,
}
use sbom_graph.Table.{first, select, update}
use sbom_graph.Password.{IsByte, hash_iterations, hash_password, verify_password}
use sbom_graph.Password.Tests.{toy_kdf, toy_salt}
use sbom_graph.Users.{
  LocalUser, UserTable, Draw, new_user, create_user, create_first_user, max_id, is_named,
  chosen_password,
}
use sbom_graph.Users.Manage.{
  authenticate, change_password, reset_password, set_active, set_admin, delete_user, update_user,
}
use sbom_graph.Users.Calls.{UserCall, create, bootstrap, reset, admin, remove, run, run_all}
use sbom_graph.Users.Invariant.{IsValid, run_all-IsValid}
use sbom_graph.Users.Isolation.{first-run_all}
use sbom_graph.Users.Login.{LogsIn, Credentials, authenticate_iff}
use sbom_graph.Users.Passwords.{LogsIn-reset_password, LogsIn-change_password}
use sbom_graph.Users.Bootstrap.{
  IsFirstAdmin, LogsIn-create_user, create_first_user_lem, create_first_user_count_fault,
}

abbrev draw : Draw
draw = record { now = 5; salt = toy_salt; temp = "temp" }

draw-IsByte : All IsByte draw.salt
draw-IsByte = (omega arith, (omega arith, tt))

abbrev history : List UserCall
history =
    bootstrap false false false draw "root" "secret"
    ∷ create false false draw "ann" none none none false true (some "root")
    ∷ []

abbrev sample : UserTable
sample = run_all toy_kdf history []

sample-IsValid : IsValid sample
sample-IsValid = run_all-IsValid toy_kdf history

program : Unit {0}
unfolding run run_all create_user create_first_user authenticate change_password reset_password
    set_active set_admin delete_user update_user first select update verify_password hash_password
program = tt

abbrev root : LocalUser
root = new_user toy_kdf draw 1 "root" (some "secret") none none true false (some "system")

root-In : In root sample
unfolding program
root-In = inl refl

run_all-IsValid_example : IsValid (run_all toy_kdf history [])
run_all-IsValid_example = run_all-IsValid toy_kdf history

abbrev more : List UserCall
more = reset false draw "ann" ∷ admin false 7 "ann" true ∷ remove false "ann" ∷ []

first-run_all_example :
    first (is_named "root") (run_all toy_kdf more sample) ≡ first (is_named "root") sample
first-run_all_example =
    first-run_all toy_kdf "root" more sample
      (text_ne "root" "ann" refl, (text_ne "root" "ann" refl, (text_ne "root" "ann" refl, tt)))
      sample-IsValid

authenticate_iff_example :
    ((authenticate toy_kdf false false 9 "root" "secret" sample).0 ≡ some root) ↔ (
      (u : LocalUser) × In u sample
      × Credentials toy_kdf "root" "secret" u
      × (root ≡ record u { last_login_at = some 9; updated_at = some 9 }))
authenticate_iff_example = authenticate_iff toy_kdf 9 "root" "secret" sample root sample-IsValid

LogsIn-reset_password_example :
    let (temp, after) = reset_password toy_kdf false draw "root" sample in
    (temp ≡ some "temp")
    × (LogsIn toy_kdf 9 "root" "secret" after
        ↔ (root.is_active ≡ true)
          × (toy_kdf.pbkdf2 "secret" toy_salt hash_iterations
              ≡ toy_kdf.pbkdf2 "temp" toy_salt hash_iterations))
unfolding new_user
LogsIn-reset_password_example =
    LogsIn-reset_password toy_kdf draw 9 "secret" sample root sample-IsValid root-In draw-IsByte

LogsIn-change_password_example :
    let (changed, after) =
      change_password toy_kdf false draw root.username "secret" "next" sample in
    (changed ≡ true)
    × (LogsIn toy_kdf 9 root.username "next" after
        ↔ (root.is_active ≡ true)
          × (toy_kdf.pbkdf2 "next" toy_salt hash_iterations
              ≡ toy_kdf.pbkdf2 "next" toy_salt hash_iterations))
LogsIn-change_password_example =
    LogsIn-change_password toy_kdf draw 9 "secret" "next" "next" sample root sample-IsValid root-In
      draw-IsByte (unfold program new_user in refl)

unused : first (is_named "eve") sample ≡ none
unfolding program
unused = refl

LogsIn-create_user_example :
    LogsIn toy_kdf 9 "eve" "secret"
      (create_user toy_kdf false false draw "eve" none none none false true none sample).1
    ↔ (toy_kdf.pbkdf2 "secret" toy_salt hash_iterations
        ≡ toy_kdf.pbkdf2 (chosen_password none "temp") toy_salt hash_iterations)
LogsIn-create_user_example =
    LogsIn-create_user toy_kdf draw "eve" none none none false true none sample 9 "secret"
      sample-IsValid draw-IsByte unused

abbrev no_users : UserTable
no_users = []

create_first_user_lem_example :
    ((0 < length no_users)
      × (create_first_user toy_kdf false false false draw "eve" "secret" no_users
          ≡ (none, no_users)))
    ⊎ ((no_users ≡ [])
        × ((u : LocalUser) × (create_first_user toy_kdf false false false draw "eve" "secret"
                no_users
              ≡ (some u, u ∷ []))
            × IsFirstAdmin "eve" 5 u
            × (LogsIn toy_kdf 9 "eve" "other" (u ∷ []) ↔ (
                toy_kdf.pbkdf2 "other" toy_salt hash_iterations
                ≡ toy_kdf.pbkdf2 "secret" toy_salt hash_iterations))))
create_first_user_lem_example =
    create_first_user_lem toy_kdf draw "eve" "secret" no_users 9 "other" draw-IsByte

create_first_user_count_fault_example :
    let u =
      new_user toy_kdf draw
        (max_id sample + 1)
        "eve"
        (some "secret")
        none
        none
        true
        false
        (some "system") in
    (create_first_user toy_kdf true false false draw "eve" "secret" sample
      ≡ (some u, sample ++ u ∷ []))
    × (u.is_admin ≡ true)
create_first_user_count_fault_example =
    create_first_user_count_fault toy_kdf draw "eve" "secret" sample unused
