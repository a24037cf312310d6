-- ===== src/Users.antt =====
-- sbom-graph-api/src/sbom_graph_api/services/user_storage.py: `UserStorageService` over its table.
-- Each method takes a flag for each session that it opens, which tells whether the database raises
-- there, the time where it reads the clock, and the table; what os.urandom and `secrets` give (the
-- salt, the temporary password) are arguments.
pub mod Manage
pub mod Calls
pub mod Invariant
pub mod Isolation
pub mod Login
pub mod Passwords
pub mod Bootstrap
pub mod Tests
use sbom_graph.Prelude.{
  ℕ, ◌+◌, ◌≡◌, Bool, true, false, not, ◌&&◌, Option, none, some, List, [], ◌∷◌, ◌++◌, String, ◌==◌,
  max, ltb, eqb, if◌then◌else◌, length,
}
use sbom_graph.Table.{first, select, update}
use sbom_graph.Password.{Bytes, Kdf, hash_password, verify_password}

pub record LocalUser : Type 0 where
  pub ident : ℕ
  pub username : String
  pub password_hash : List ℕ
  pub email : Option String
  pub display_name : Option String
  pub is_admin : Bool
  pub is_active : Bool
  pub must_change_password : Bool
  pub created_at : ℕ
  pub updated_at : Option ℕ
  pub last_login_at : Option ℕ
  pub created_by : Option String

abbrev pub UserTable : Type 0
UserTable = List LocalUser

-- SQLite's next rowid: one more than the largest in the table.
unfoldable pub max_id : UserTable → ℕ
max_id [] = 0
max_id (u ∷ users) = max u.ident (max_id users)

unfoldable pub is_named : String → LocalUser → Bool
is_named username u = u.username == username

unfoldable pub is_named_active : String → LocalUser → Bool
is_named_active username u = u.username == username && u.is_active

unfoldable pub has_user_id : ℕ → LocalUser → Bool
has_user_id user_id u = eqb u.ident user_id

-- The commit of assignments to the row of a user object. Every UPDATE of the row sets `updated_at`,
-- by its `onupdate`.
unfoldable pub commit_user : ℕ → (LocalUser → LocalUser) → LocalUser → UserTable → UserTable
unfolding has_user_id
commit_user now assign u =
    update (has_user_id u.ident) (λ r. record (assign r) { updated_at = some now })

pub data CreateResult : Type 0 where
  created : Option LocalUser → Option String → CreateResult
  username_exists create_failed : CreateResult

unfoldable pub has_any_users : Bool → UserTable → Bool
has_any_users fault users = if fault then false else ltb 0 (length users)

unfoldable pub get_user_by_id : Bool → ℕ → UserTable → Option LocalUser
unfolding has_user_id
get_user_by_id fault user_id users = if fault then none else first (has_user_id user_id) users

unfoldable pub get_user_by_username : Bool → String → UserTable → Option LocalUser
unfolding is_named
get_user_by_username fault username users = if fault then none else first (is_named username) users

-- `order_by` stands for the database's `ORDER BY username`.
unfoldable pub list_users : (UserTable → UserTable) → Bool → UserTable → UserTable
list_users order_by fault users = if fault then [] else order_by users

-- `display_name or username`
unfoldable pub shown_name : Option String → String → String
shown_name none username = username
shown_name (some name) username = if name == "" then username else name

-- `password`, or the temporary one where it is None.
unfoldable pub chosen_password : Option String → String → String
chosen_password none temp = temp
chosen_password (some password) temp = password

-- The temporary password where one was generated.
unfoldable pub shown_password : Option String → String → Option String
shown_password none temp = some temp
shown_password (some password) temp = none

-- What the methods draw from outside: the time, the salt and the temporary password.
pub record Draw : Type 0 where
  pub now : ℕ
  pub salt : Bytes
  pub temp : String

module _ (k : Kdf) where
  unfoldable pub new_user :
      Draw
      → ℕ
      → String
      → Option String
      → Option String
      → Option String
      → Bool
      → Bool
      → Option String
      → LocalUser
  unfolding shown_name chosen_password
  new_user d i username password email display_name is_admin must_change_password created_by =
      record {
        ident = i;
        username = username;
        password_hash = hash_password k (chosen_password password d.temp) d.salt;
        email = email;
        display_name = some (shown_name display_name username);
        is_admin = is_admin;
        is_active = true;
        must_change_password = must_change_password;
        created_at = d.now;
        updated_at = none;
        last_login_at = none;
        created_by = created_by;
      }

  -- The returned user is read again in a session of its own.
  unfoldable pub create_user :
      Bool
      → Bool
      → Draw
      → String
      → Option String
      → Option String
      → Option String
      → Bool
      → Bool
      → Option String
      → UserTable
      → CreateResult × UserTable
  unfolding is_named max_id new_user get_user_by_id shown_password
  create_user fault reread_fault d username password email display_name is_admin
        must_change_password created_by users =
      if fault then (create_failed, users) else elim (first (is_named username) users) [
        | some existing ↦ (username_exists, users)
        | none ↦
            let i = max_id users + 1 in
            let grown =
              users
              ++ new_user d i username password email display_name is_admin must_change_password
                  created_by
                ∷ [] in
            (created (get_user_by_id reread_fault i grown) (shown_password password d.temp), grown)
      ]

  -- The user of a creation; both exceptions are caught.
  unfoldable pub user_of : CreateResult → Option LocalUser
  user_of (created user temp) = user
  user_of username_exists = none
  user_of create_failed = none

  unfoldable pub create_first_user :
      Bool → Bool → Bool → Draw → String → String → UserTable → Option LocalUser × UserTable
  unfolding has_any_users create_user user_of
  create_first_user count_fault fault reread_fault d username password users =
      if has_any_users count_fault users
      then (none, users)
      else let (result, grown) =
          create_user fault reread_fault d username (some password) none none true false
            (some "system") users in
        (user_of result, grown)
