-- ===== src/Users/Login.antt =====
-- Who can log in, and what password changes and account switches do to that.
use sbom_graph.Prelude.{
  ℕ, ◌≡◌, ◌↔◌, inl, inr, refl, true, false, some, String, arith, eq_iff, All-map, In, Option-cases,
  Bool-cases,
}
use sbom_graph.Table.{first, first_holds}
use sbom_graph.Table.Keys.{first-In, All-key, first-only, first-update}
use sbom_graph.Password.{Kdf, verify_password}
use sbom_graph.Users.{LocalUser, UserTable, is_named, is_named_active, has_user_id, commit_user}
use sbom_graph.Users.Manage.{authenticate}
use sbom_graph.Users.Invariant.{IsValid}

-- The login succeeds: it returns a user.
abbrev pub LogsIn : Kdf → ℕ → String → String → UserTable → Type 0
LogsIn k now username password users =
    (u : LocalUser) × ((authenticate k false false now username password users).0 ≡ some u)

-- An active user of that name, whose stored hash the password passes.
abbrev pub Credentials : Kdf → String → String → LocalUser → Type 0
Credentials k username password u =
    (u.username ≡ username)
    × (u.is_active ≡ true)
    × (verify_password k password u.password_hash ≡ true)

-- The query for a user of the table, by name.
pub find_named :
    (users : UserTable) (u : LocalUser)
    → IsValid users
    → In u users
    → first (is_named u.username) users ≡ some u
unfolding is_named
find_named users u v m =
    first-only (is_named u.username) users u m ((eq_iff u.username u.username).1 refl) (
      All-map (λ r. r.username ≡ u.username → r ≡ u) (λ r. is_named u.username r ≡ true → r ≡ u)
        users (λ r only h. only ((eq_iff r.username u.username).0 h))
        (All-key (λ r. r.username) users u v.names m))

find_active :
    (users : UserTable) (u : LocalUser)
    → IsValid users
    → In u users
    → u.is_active ≡ true
    → first (is_named_active u.username) users ≡ some u
unfolding is_named_active
find_active users u v m active =
    first-only (is_named_active u.username) users u m (ground (arith, eq_iff u.username u.username))
      (All-map (λ r. r.username ≡ u.username → r ≡ u)
        (λ r. is_named_active u.username r ≡ true → r ≡ u) users
        (λ r only h. ground (arith, only, eq_iff r.username u.username))
        (All-key (λ r. r.username) users u v.names m))

-- The row that the session reads again after the login has been committed.
reread :
    (now : ℕ) (users : UserTable) (u : LocalUser)
    → IsValid users
    → In u users
    → first
        (has_user_id u.ident)
        (commit_user now (λ r. record r { last_login_at = some now }) u users)
      ≡ some (record u { last_login_at = some now; updated_at = some now })
unfolding commit_user has_user_id
reread now users u v m = first-update (has_user_id u.ident) _ users u found (ground arith)
  where
    found : first (has_user_id u.ident) users ≡ some u
    found = first-only (has_user_id u.ident) users u m (ground arith) (
        All-map (λ r. r.ident ≡ u.ident → r ≡ u) (λ r. has_user_id u.ident r ≡ true → r ≡ u) users
          (λ r only h. ground (arith, only)) (All-key (λ r. r.ident) users u v.ids m))

-- With the database up, `authenticate` returns a user exactly when the table holds an active user of
-- that name whose stored hash the password passes; it then returns that user with the login time set.
pub authenticate_iff :
    (k : Kdf) (now : ℕ) (username password : String) (users : UserTable) (r : LocalUser)
    → IsValid users
    → ((authenticate k false false now username password users).0 ≡ some r) ↔ (
        (u : LocalUser) × In u users
        × Credentials k username password u
        × (r ≡ record u { last_login_at = some now; updated_at = some now }))
unfolding authenticate
authenticate_iff k now username password users r v = (
  λ h. elim (Option-cases (first (is_named_active username) users)) [
    | inl e ↦ cc (rw e at h)
    | inr (u, e) ↦ elim (Bool-cases (verify_password k password u.password_hash)) [
      | inl good ↦
          let m = first-In (is_named_active username) users u e in
          let named = first_holds (is_named_active username) users u e in
          (
            u,
            m,
            unfold is_named_active in
                (ground (arith, eq_iff u.username username), ground arith, good),
            cc (rw (e, good) at h, reread now users u v m),
          )
      | inr bad ↦ cc (rw (e, bad) at h)
    ]
  ],
  λ (u, m, (named, active, good), same).
      let e : first (is_named_active username) users ≡ some u =
        rw (← named) (find_active users u v m active) in
      rw (e, good) (cc (same, reread now users u v m)),
)
