-- ===== src/Users/Passwords.antt =====
-- What `change_password`, `reset_password` and `set_active` do to logins.
use sbom_graph.Prelude.{
  ℕ, ◌≡◌, ◌↔◌, refl, sym, ◌∙◌, Bool, true, false, some, String, arith, All, All-In, In,
}
use sbom_graph.Table.{update}
use sbom_graph.Table.Keys.{In-update, All-key}
use sbom_graph.Password.{Bytes, IsByte, Kdf, hash_iterations, hash_password, verify_password}
use sbom_graph.Password.Laws.{verify_password_iff}
use sbom_graph.Users.{LocalUser, UserTable, Draw, has_user_id}
use sbom_graph.Users.Manage.{change_password, reset_password, set_active}
use sbom_graph.Users.Calls.{Steady}
use sbom_graph.Users.Invariant.{IsValid, update-IsValid}
use sbom_graph.Users.Login.{LogsIn, authenticate_iff, find_named}

module _ (k : Kdf) (later : ℕ) (password : String) (users : UserTable) (u : LocalUser)
    (valid : IsValid users) (listed : In u users) where
  -- Logins after the row of the user was assigned to.
  LogsIn-update :
      (f : LocalUser → LocalUser)
      → Steady f
      → LogsIn k later u.username password (update (has_user_id u.ident) f users)
        ↔ ((f u).is_active ≡ true) × (verify_password k password (f u).password_hash ≡ true)
  LogsIn-update f steady = (
    λ (r, e).
        let (x, m, (named, active, good), _) =
          (authenticate_iff k later u.username password after r after_valid).0 e in
        let same : x ≡ f u =
          All-In (λ y. y.username ≡ (f u).username → y ≡ f u) x after
            (All-key (λ y. y.username) after (f u) after_valid.names changed) m
            (named ∙ sym (steady.name u)) in
        (rw same at active, rw same at good),
    λ (active, good). (
      record (f u) { last_login_at = some later; updated_at = some later },
      (authenticate_iff k later u.username password after _ after_valid).1
          (f u, changed, (steady.name u, active, good), refl),
    ),
  )
    where
      after : UserTable
      after = update (has_user_id u.ident) f users

      after_valid : IsValid after
      after_valid = update-IsValid (has_user_id u.ident) f users steady valid

      changed : In (f u) after
      changed =
          In-update (has_user_id u.ident) f users u listed (unfold has_user_id in ground arith)

  -- The same, where the assignment stored the hash of a new password.
  LogsIn-new_password :
      (f : LocalUser → LocalUser) (new : String) (salt : Bytes)
      → Steady f
      → All IsByte salt
      → (f u).password_hash ≡ hash_password k new salt
      → (f u).is_active ≡ u.is_active
      → LogsIn k later u.username password (update (has_user_id u.ident) f users)
        ↔ (u.is_active ≡ true)
          × (k.pbkdf2 password salt hash_iterations ≡ k.pbkdf2 new salt hash_iterations)
  LogsIn-new_password f new salt steady bytes hashed kept =
      let passes = verify_password_iff k password new salt bytes in
      let login = LogsIn-update f steady in
      (
        λ h. let (active, good) = login.0 h in (sym kept ∙ active, passes.0 (rw hashed at good)),
        λ (active, same). login.1 (kept ∙ active, rw hashed (passes.1 same)),
      )

-- After a reset of the password of a user of the table, that user can log in with a password exactly
-- if the account is active and PBKDF2 does not tell the password from the temporary one that
-- `reset_password` returned.
pub LogsIn-reset_password :
    (k : Kdf) (d : Draw) (later : ℕ) (password : String) (users : UserTable) (u : LocalUser)
    → IsValid users
    → In u users
    → All IsByte d.salt
    → let (temp, after) = reset_password k false d u.username users in
      (temp ≡ some d.temp)
      × (LogsIn k later u.username password after
          ↔ (u.is_active ≡ true)
            × (k.pbkdf2 password d.salt hash_iterations ≡ k.pbkdf2 d.temp d.salt hash_iterations))
unfolding reset_password
LogsIn-reset_password k d later password users u valid listed bytes =
    rw (find_named users u valid listed) (
      refl,
      LogsIn-new_password k later password users u valid listed
          (λ r. record r {
            password_hash = hash_password k d.temp d.salt;
            must_change_password = true;
            updated_at = some d.now;
          })
          d.temp d.salt (record { ident = λ r. refl; name = λ r. refl }) bytes refl refl,
    )

-- A user who gives the right old password gets the new one: the change is reported, and afterwards a
-- login works exactly if the account is active and PBKDF2 does not tell the password from the new one.
pub LogsIn-change_password :
    (k : Kdf) (d : Draw) (later : ℕ) (old new password : String) (users : UserTable) (u : LocalUser)
    → IsValid users
    → In u users
    → All IsByte d.salt
    → verify_password k old u.password_hash ≡ true
    → let (changed, after) = change_password k false d u.username old new users in
      (changed ≡ true)
      × (LogsIn k later u.username password after
          ↔ (u.is_active ≡ true)
            × (k.pbkdf2 password d.salt hash_iterations ≡ k.pbkdf2 new d.salt hash_iterations))
unfolding change_password
LogsIn-change_password k d later old new password users u valid listed bytes right =
    rw (find_named users u valid listed, right)
      (
        refl,
        LogsIn-new_password k later password users u valid listed
            (λ r. record r {
              password_hash = hash_password k new d.salt;
              must_change_password = false;
              updated_at = some d.now;
            })
            new d.salt (record { ident = λ r. refl; name = λ r. refl }) bytes refl refl,
      )

-- `set_active` on a user of the table succeeds, and afterwards that user can log in with a password
-- exactly if the account was enabled and the password passes the stored hash.
pub LogsIn-set_active :
    (k : Kdf) (now later : ℕ) (is_active : Bool) (password : String) (users : UserTable)
    (u : LocalUser)
    → IsValid users
    → In u users
    → let (done, after) = set_active false now u.username is_active users in
      (done ≡ true)
      × (LogsIn k later u.username password after
          ↔ (is_active ≡ true) × (verify_password k password u.password_hash ≡ true))
unfolding set_active
LogsIn-set_active k now later is_active password users u valid listed =
    rw (find_named users u valid listed) (
      refl,
      LogsIn-update k later password users u valid listed
          (λ r. record r { is_active = is_active; updated_at = some now })
          (record { ident = λ r. refl; name = λ r. refl }),
    )
