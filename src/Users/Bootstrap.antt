-- ===== src/Users/Bootstrap.antt =====
-- `create_user` and `create_first_user`.
use sbom_graph.Prelude.{
  ℕ, ◌+◌, ◌≤◌, ◌<◌, ◌⊎◌, ◌≡◌, ◌↔◌, inl, inr, refl, ap, Bool, true, false, Option, none, some, [],
  ◌∷◌, ◌++◌, String, arith, length, All, All-map, In-append_right, All-In,
}
use sbom_graph.Table.{first, first-none, first-snoc}
use sbom_graph.Table.Keys.{All-key}
use sbom_graph.Password.{IsByte, Kdf, hash_iterations, hash_password, verify_password}
use sbom_graph.Password.Laws.{verify_password_iff}
use sbom_graph.Users.{
  LocalUser, UserTable, Draw, created, create_user, create_first_user, get_user_by_id, new_user,
  chosen_password, shown_name, shown_password, max_id, is_named, has_user_id,
}
use sbom_graph.Users.Invariant.{IsValid, run_all-IsValid, insert-IsValid, ident-le-max_id}
use sbom_graph.Users.Calls.{run_all}
use sbom_graph.Users.Login.{LogsIn, authenticate_iff}

-- The row under the new id is the one that is read again.
get_user_by_id-snoc :
    (users : UserTable) (u : LocalUser)
    → u.ident ≡ max_id users + 1
    → get_user_by_id false u.ident (users ++ u ∷ []) ≡ some u
unfolding get_user_by_id has_user_id
get_user_by_id-snoc users u fresh =
    first-snoc (has_user_id u.ident) users u
      (All-map (λ r. r.ident ≤ max_id users) (λ r. has_user_id u.ident r ≡ false) users
        (λ r below. ground arith) (ident-le-max_id users))
      (ground arith)

-- Where no user of the table has the name, `create_user` appends the new row and returns it, with the
-- temporary password if it made one.
create_user_fresh :
    (k : Kdf) (d : Draw) (username : String) (password email display_name : Option String)
    (is_admin must : Bool) (created_by : Option String) (users : UserTable)
    → first (is_named username) users ≡ none
    → let u =
        new_user k d
          (max_id users + 1)
          username
          password
          email
          display_name
          is_admin
          must
          created_by in
      create_user k false false d username password email display_name is_admin must created_by
        users
      ≡ (created (some u) (shown_password password d.temp), users ++ u ∷ [])
unfolding create_user
create_user_fresh k d username password email display_name is_admin must created_by users e =
    let u =
      new_user k d (max_id users + 1) username password email display_name is_admin must
        created_by in
    rw e (
      ap (λ r. (created r (shown_password password d.temp), users ++ u ∷ []))
        (get_user_by_id-snoc users u (unfold new_user in refl)))

-- A created user can log in with a password exactly if PBKDF2 does not tell it from the given
-- password, or from the temporary one where none was given.
pub LogsIn-create_user :
    (k : Kdf) (d : Draw) (username : String) (password email display_name : Option String)
    (is_admin must : Bool) (created_by : Option String) (users : UserTable) (later : ℕ)
    (entered : String)
    → IsValid users
    → All IsByte d.salt
    → first (is_named username) users ≡ none
    → LogsIn k later username entered
        (create_user k false false d username password email display_name is_admin must created_by
          users).1
      ↔ (k.pbkdf2 entered d.salt hash_iterations
          ≡ k.pbkdf2 (chosen_password password d.temp) d.salt hash_iterations)
LogsIn-create_user k d username password email display_name is_admin must created_by users later
      entered valid bytes e =
    rw (create_user_fresh k d username password email display_name is_admin must created_by users e)
      (
        λ (r, h).
            let (x, m, (named, active, good), _) =
              (authenticate_iff k later username entered grown r grown_valid).0 h in
            let same : x ≡ u =
              All-In (λ y. y.username ≡ u.username → y ≡ u) x grown
                (All-key (λ y. y.username) grown u grown_valid.names
                  (In-append_right u users (u ∷ []) (inl refl)))
                m (unfold new_user in named) in
            passes.0 (unfold new_user in rw same at good),
        λ same. (
          _,
          (authenticate_iff k later username entered grown _ grown_valid).1 (
            u,
            In-append_right u users (u ∷ []) (inl refl),
            unfold new_user in (refl, refl, passes.1 same),
            refl,
          ),
        ),
      )
  where
    u : LocalUser
    u =
        new_user k d (max_id users + 1) username password email display_name is_admin must
          created_by

    grown : UserTable
    grown = users ++ u ∷ []

    grown_valid : IsValid grown
    grown_valid =
        insert-IsValid u users (unfold new_user in refl)
          (unfold new_user in first-none (is_named username) users e) valid

    passes :
        (verify_password k entered (hash_password k (chosen_password password d.temp) d.salt)
          ≡ true)
        ↔ (k.pbkdf2 entered d.salt hash_iterations
            ≡ k.pbkdf2 (chosen_password password d.temp) d.salt hash_iterations)
    passes = verify_password_iff k entered (chosen_password password d.temp) d.salt bytes

-- The first user: an active administrator of that name, made by "system", who need not change the
-- password.
unfoldable pub IsFirstAdmin : String → ℕ → LocalUser → Type 0
IsFirstAdmin username now u =
    (u.ident ≡ 1)
    × (u.username ≡ username)
    × (u.display_name ≡ some username)
    × (u.email ≡ none)
    × (u.is_admin ≡ true)
    × (u.is_active ≡ true)
    × (u.must_change_password ≡ false)
    × (u.created_at ≡ now)
    × (u.updated_at ≡ none)
    × (u.last_login_at ≡ none)
    × (u.created_by ≡ some "system")

-- With the database up and a salt of bytes, `create_first_user` refuses when there is any user, and
-- leaves the table as it is. On the empty table it returns an active administrator of the given name,
-- with the id 1, made by "system", who need not change the password, who is then the only user, and
-- who can log in with a password exactly if PBKDF2 does not tell it from the given one.
pub create_first_user_lem :
    (k : Kdf) (d : Draw) (username password : String) (users : UserTable) (later : ℕ)
    (entered : String)
    → All IsByte d.salt
    → ((0 < length users)
        × (create_first_user k false false false d username password users ≡ (none, users)))
      ⊎ ((users ≡ [])
          × ((u : LocalUser) × (create_first_user k false false false d username password users
                ≡ (some u, u ∷ []))
              × IsFirstAdmin username d.now u
              × (LogsIn k later username entered (u ∷ []) ↔ (
                  k.pbkdf2 entered d.salt hash_iterations
                  ≡ k.pbkdf2 password d.salt hash_iterations))))
unfolding create_first_user IsFirstAdmin new_user chosen_password shown_name max_id run_all
create_first_user_lem k d username password [] later entered bytes =
    let fresh =
      create_user_fresh k d username (some password) none none true false (some "system") []
        (unfold first in refl) in
    let logs =
      LogsIn-create_user k d username (some password) none none true false (some "system") [] later
        entered (run_all-IsValid k []) bytes (unfold first in refl) in
    inr (
      refl,
      (
        new_user k d 1 username (some password) none none true false (some "system"),
        rw fresh refl,
        (refl, refl, refl, refl, refl, refl, refl, refl, refl, refl, refl),
        rw fresh at logs,
      ),
    )
create_first_user_lem k d username password (r ∷ users) later entered bytes =
    inl (omega arith, ground arith)

-- When the query that counts the users raises, `create_first_user` makes an administrator whatever
-- users there are, provided only that none has the name.
pub create_first_user_count_fault :
    (k : Kdf) (d : Draw) (username password : String) (users : UserTable)
    → first (is_named username) users ≡ none
    → let u =
        new_user k d
          (max_id users + 1)
          username
          (some password)
          none
          none
          true
          false
          (some "system") in
      (create_first_user k true false false d username password users ≡ (some u, users ++ u ∷ []))
      × (u.is_admin ≡ true)
unfolding create_first_user new_user
create_first_user_count_fault k d username password users e = (
  rw (create_user_fresh k d username (some password) none none true false (some "system") users e),
  refl,
)
