-- ===== src/Users/Manage.antt =====
-- The methods of `UserStorageService` on the user of a given name: `authenticate`,
-- `change_password`, `reset_password`, `set_admin`, `set_active`, `delete_user`, `update_user`.
use sbom_graph.Prelude.{ℕ, Bool, true, false, not, Option, none, some, String, if◌then◌else◌}
use sbom_graph.Table.{first, select}
use sbom_graph.Password.{Kdf, hash_password, verify_password}
use sbom_graph.Users.{
  LocalUser, UserTable, Draw, is_named, is_named_active, has_user_id, commit_user, get_user_by_id,
}

module _ (k : Kdf) where
  -- The returned user is read again in a session of its own, after the commit of the login time.
  unfoldable pub authenticate :
      Bool → Bool → ℕ → String → String → UserTable → Option LocalUser × UserTable
  unfolding is_named_active commit_user get_user_by_id
  authenticate fault reread_fault now username password users =
      if fault then (none, users) else elim (first (is_named_active username) users) [
        | none ↦ (none, users)
        | some u ↦
            let after = commit_user now (λ r. record r { last_login_at = some now }) u users in
            if verify_password k password u.password_hash
            then (get_user_by_id reread_fault u.ident after, after)
            else (none, users)
      ]

  unfoldable pub change_password :
      Bool → Draw → String → String → String → UserTable → Bool × UserTable
  unfolding is_named commit_user
  change_password fault d username old_password new_password users =
      if fault then (false, users) else elim (first (is_named username) users) [
        | none ↦ (false, users)
        | some u ↦
            if verify_password k old_password u.password_hash
            then (
              true,
              commit_user d.now
                  (λ r. record r {
                    password_hash = hash_password k new_password d.salt;
                    must_change_password = false;
                  })
                  u users,
            )
            else (false, users)
      ]

  -- The result is the temporary password.
  unfoldable pub reset_password : Bool → Draw → String → UserTable → Option String × UserTable
  unfolding is_named commit_user
  reset_password fault d username users =
      if fault then (none, users) else elim (first (is_named username) users) [
        | none ↦ (none, users)
        | some u ↦ (
          some d.temp,
          commit_user d.now
              (λ r. record r {
                password_hash = hash_password k d.temp d.salt;
                must_change_password = true;
              })
              u users,
        )
      ]

unfoldable pub set_admin : Bool → ℕ → String → Bool → UserTable → Bool × UserTable
unfolding is_named commit_user
set_admin fault now username is_admin users =
    if fault then (false, users) else elim (first (is_named username) users) [
      | none ↦ (false, users)
      | some u ↦ (true, commit_user now (λ r. record r { is_admin = is_admin }) u users)
    ]

unfoldable pub set_active : Bool → ℕ → String → Bool → UserTable → Bool × UserTable
unfolding is_named commit_user
set_active fault now username is_active users =
    if fault then (false, users) else elim (first (is_named username) users) [
      | none ↦ (false, users)
      | some u ↦ (true, commit_user now (λ r. record r { is_active = is_active }) u users)
    ]

unfoldable pub delete_user : Bool → String → UserTable → Bool × UserTable
unfolding is_named has_user_id
delete_user fault username users =
    if fault then (false, users) else elim (first (is_named username) users) [
      | none ↦ (false, users)
      | some u ↦ (true, select (λ r. not (has_user_id u.ident r)) users)
    ]

-- A new value where one is given, else the old one.
unfoldable pub replaced : Option String → Option String → Option String
replaced none old = old
replaced (some value) old = some value

unfoldable pub update_user :
    Bool → ℕ → String → Option String → Option String → UserTable → Bool × UserTable
unfolding is_named commit_user replaced
update_user fault now username email display_name users =
    if fault then (false, users) else elim (first (is_named username) users) [
      | none ↦ (false, users)
      | some u ↦ (
        true,
        commit_user now
            (λ r. record r {
              email = replaced email r.email;
              display_name = replaced display_name r.display_name;
            })
            u users,
      )
    ]
