-- ===== src/Users/Calls.antt =====
-- Sequences of calls of `UserStorageService`, in any order and with any database failures, and an
-- induction rule for what all calls preserve.
use sbom_graph.Prelude.{
  ℕ, ◌+◌, ◌≡◌, inl, inr, refl, Bool, true, false, not, Option, none, some, List, [], ◌∷◌, ◌++◌,
  String, All, In, arith, eq_iff, Option-cases, Bool-cases,
}
use sbom_graph.Table.{first, select, update, first-none, first_holds}
use sbom_graph.Table.Keys.{first-In}
use sbom_graph.Password.{Kdf, verify_password}
use sbom_graph.Users.{
  LocalUser, UserTable, Draw, max_id, is_named, is_named_active, has_user_id, new_user, create_user,
  create_first_user, has_any_users,
}
use sbom_graph.Users.Manage.{
  authenticate, change_password, reset_password, set_admin, set_active, delete_user, update_user,
}

-- The calls that write, with what each session does.
pub data UserCall : Type 0 where
  create :
      (fault reread_fault : Bool) (d : Draw) (username : String)
      (password email display_name : Option String) (is_admin must_change_password : Bool)
      (created_by : Option String)
      → UserCall
  bootstrap :
      (count_fault fault reread_fault : Bool) (d : Draw) (username password : String) → UserCall
  login : (fault reread_fault : Bool) (now : ℕ) (username password : String) → UserCall
  change : (fault : Bool) (d : Draw) (username old_password new_password : String) → UserCall
  reset : (fault : Bool) (d : Draw) (username : String) → UserCall
  admin active : (fault : Bool) (now : ℕ) (username : String) (value : Bool) → UserCall
  remove : (fault : Bool) (username : String) → UserCall
  profile :
      (fault : Bool) (now : ℕ) (username : String) (email display_name : Option String) → UserCall

module _ (k : Kdf) where
  unfoldable pub run : UserCall → UserTable → UserTable
  run (create fault reread_fault d username password email display_name is_admin must created_by)
        users =
      (create_user k fault reread_fault d username password email display_name is_admin must
        created_by users).1
  run (bootstrap count_fault fault reread_fault d username password) users =
      (create_first_user k count_fault fault reread_fault d username password users).1
  run (login fault reread_fault now username password) users =
      (authenticate k fault reread_fault now username password users).1
  run (change fault d username old_password new_password) users =
      (change_password k fault d username old_password new_password users).1
  run (reset fault d username) users = (reset_password k fault d username users).1
  run (admin fault now username value) users = (set_admin fault now username value users).1
  run (active fault now username value) users = (set_active fault now username value users).1
  run (remove fault username) users = (delete_user fault username users).1
  run (profile fault now username email display_name) users =
      (update_user fault now username email display_name users).1

  unfoldable pub run_all : List UserCall → UserTable → UserTable
  run_all [] users = users
  run_all (call ∷ calls) users = run_all calls (run call users)

-- An assignment that keeps the identity of a row.
pub record Steady (f : LocalUser → LocalUser) : Type 0 where
  pub ident : (u : LocalUser) → (f u).ident ≡ u.ident
  pub name : (u : LocalUser) → (f u).username ≡ u.username

-- What to show of a property of the table that the calls for the user `target` are to preserve.
pub record Rule (target : String) (P : UserTable → Type 0) : Type 0 where
  pub insert :
      (u : LocalUser) (users : UserTable)
      → u.ident ≡ max_id users + 1
      → u.username ≡ target
      → All (λ r. is_named target r ≡ false) users
      → P users
      → P (users ++ u ∷ [])
  pub change :
      (u : LocalUser) (f : LocalUser → LocalUser) (users : UserTable)
      → Steady f
      → In u users
      → u.username ≡ target
      → P users
      → P (update (has_user_id u.ident) f users)
  pub remove :
      (u : LocalUser) (users : UserTable)
      → In u users
      → u.username ≡ target
      → P users
      → P (select (λ r. not (has_user_id u.ident r)) users)

found_named :
    (username : String) (users : UserTable) (u : LocalUser)
    → first (is_named username) users ≡ some u
    → u.username ≡ username
unfolding is_named
found_named username users u e =
    (eq_iff u.username username).0 (first_holds (is_named username) users u e)

found_active :
    (username : String) (users : UserTable) (u : LocalUser)
    → first (is_named_active username) users ≡ some u
    → u.username ≡ username
unfolding is_named_active
found_active username users u e =
    ground (arith, first_holds (is_named_active username) users u e, eq_iff u.username username)

module _ (username : String) {P : UserTable → Type 0} (rule : Rule username P) (users : UserTable)
    (p : P users) where
  -- The commit on the row that a query by name found.
  commit_ind :
      (u : LocalUser) (f : LocalUser → LocalUser)
      → ((r : LocalUser) → (f r).ident ≡ r.ident)
      → ((r : LocalUser) → (f r).username ≡ r.username)
      → first (is_named username) users ≡ some u
      → P (update (has_user_id u.ident) f users)
  commit_ind u f ident name e =
      rule.change u f users (record { ident = ident; name = name })
        (first-In (is_named username) users u e) (found_named username users u e) p

  create_ind :
      (k : Kdf) (fault reread_fault : Bool) (d : Draw) (password email display_name : Option String)
      (is_admin must : Bool) (created_by : Option String)
      → P
          (create_user k fault reread_fault d username password email display_name is_admin must
            created_by users).1
  unfolding create_user
  create_ind k true reread_fault d password email display_name is_admin must created_by = p
  create_ind k false reread_fault d password email display_name is_admin must created_by =
      elim (Option-cases (first (is_named username) users)) [
        | inr (a, e) ↦ rw e p
        | inl e ↦ rw e (
            rule.insert
              (new_user k d (max_id users + 1) username password email display_name is_admin must
                created_by)
              users refl refl (first-none (is_named username) users e) p)
      ]

  bootstrap_ind :
      (k : Kdf) (count_fault fault reread_fault : Bool) (d : Draw) (password : String)
      → P (create_first_user k count_fault fault reread_fault d username password users).1
  unfolding create_first_user
  bootstrap_ind k count_fault fault reread_fault d password =
      elim (Bool-cases (has_any_users count_fault users)) [
        | inl e ↦ rw e p
        | inr e ↦
            rw e (
              create_ind k fault reread_fault d (some password) none none true false
                (some "system"))
      ]

  login_ind :
      (k : Kdf) (fault reread_fault : Bool) (now : ℕ) (password : String)
      → P (authenticate k fault reread_fault now username password users).1
  unfolding authenticate
  login_ind k true reread_fault now password = p
  login_ind k false reread_fault now password =
      elim (Option-cases (first (is_named_active username) users)) [
        | inl e ↦ rw e p
        | inr (u, e) ↦ elim (Bool-cases (verify_password k password u.password_hash)) [
          | inl good ↦
              rw (e, good)
                (rule.change u _ users (record { ident = λ r. refl; name = λ r. refl })
                  (first-In (is_named_active username) users u e) (found_active username users u e)
                  p)
          | inr bad ↦ rw (e, bad) p
        ]
      ]

  change_ind :
      (k : Kdf) (fault : Bool) (d : Draw) (old_password new_password : String)
      → P (change_password k fault d username old_password new_password users).1
  unfolding change_password
  change_ind k true d old_password new_password = p
  change_ind k false d old_password new_password =
      elim (Option-cases (first (is_named username) users)) [
        | inl e ↦ rw e p
        | inr (u, e) ↦ elim (Bool-cases (verify_password k old_password u.password_hash)) [
          | inl good ↦ rw (e, good) (commit_ind u _ (λ r. refl) (λ r. refl) e)
          | inr bad ↦ rw (e, bad) p
        ]
      ]

  reset_ind : (k : Kdf) (fault : Bool) (d : Draw) → P (reset_password k fault d username users).1
  unfolding reset_password
  reset_ind k true d = p
  reset_ind k false d = elim (Option-cases (first (is_named username) users)) [
    | inl e ↦ rw e p
    | inr (u, e) ↦ rw e (commit_ind u _ (λ r. refl) (λ r. refl) e)
  ]

  admin_ind :
      (fault : Bool) (now : ℕ) (value : Bool) → P (set_admin fault now username value users).1
  unfolding set_admin
  admin_ind true now value = p
  admin_ind false now value = elim (Option-cases (first (is_named username) users)) [
    | inl e ↦ rw e p
    | inr (u, e) ↦ rw e (commit_ind u _ (λ r. refl) (λ r. refl) e)
  ]

  active_ind :
      (fault : Bool) (now : ℕ) (value : Bool) → P (set_active fault now username value users).1
  unfolding set_active
  active_ind true now value = p
  active_ind false now value = elim (Option-cases (first (is_named username) users)) [
    | inl e ↦ rw e p
    | inr (u, e) ↦ rw e (commit_ind u _ (λ r. refl) (λ r. refl) e)
  ]

  remove_ind : (fault : Bool) → P (delete_user fault username users).1
  unfolding delete_user
  remove_ind true = p
  remove_ind false = elim (Option-cases (first (is_named username) users)) [
    | inl e ↦ rw e p
    | inr (u, e) ↦ rw e (
        rule.remove u users (first-In (is_named username) users u e)
          (found_named username users u e) p)
  ]

  profile_ind :
      (fault : Bool) (now : ℕ) (email display_name : Option String)
      → P (update_user fault now username email display_name users).1
  unfolding update_user
  profile_ind true now email display_name = p
  profile_ind false now email display_name = elim (Option-cases (first (is_named username) users)) [
    | inl e ↦ rw e p
    | inr (u, e) ↦ rw e (commit_ind u _ (λ r. refl) (λ r. refl) e)
  ]

-- The user that a call names.
abbrev pub target : UserCall → String
target (create _ _ _ username _ _ _ _ _ _) = username
target (bootstrap _ _ _ _ username _) = username
target (login _ _ _ username _) = username
target (change _ _ username _ _) = username
target (reset _ _ username) = username
target (admin _ _ username _) = username
target (active _ _ username _) = username
target (remove _ username) = username
target (profile _ _ username _ _) = username

pub run_ind :
    {P : UserTable → Type 0} (k : Kdf) (call : UserCall) (users : UserTable)
    → Rule (target call) P
    → P users
    → P (run k call users)
unfolding run
run_ind k (create fault reread_fault d u password email display_name is_admin must by) users rule
      p =
    create_ind u rule users p k fault reread_fault d password email display_name is_admin must by
run_ind k (bootstrap count_fault fault reread_fault d u password) users rule p =
    bootstrap_ind u rule users p k count_fault fault reread_fault d password
run_ind k (login fault reread_fault now u password) users rule p =
    login_ind u rule users p k fault reread_fault now password
run_ind k (change fault d u old_password new_password) users rule p =
    change_ind u rule users p k fault d old_password new_password
run_ind k (reset fault d u) users rule p = reset_ind u rule users p k fault d
run_ind k (admin fault now u value) users rule p = admin_ind u rule users p fault now value
run_ind k (active fault now u value) users rule p = active_ind u rule users p fault now value
run_ind k (remove fault u) users rule p = remove_ind u rule users p fault
run_ind k (profile fault now u email display_name) users rule p =
    profile_ind u rule users p fault now email display_name

pub run_all_ind :
    (P : UserTable → Type 0) (k : Kdf) (calls : List UserCall) (users : UserTable)
    → All (λ call. Rule (target call) P) calls
    → P users
    → P (run_all k calls users)
unfolding run_all
run_all_ind P k [] users rules p = p
run_all_ind P k (call ∷ calls) users rules p =
    run_all_ind P k calls (run k call users) rules.1 (run_ind k call users rules.0 p)
