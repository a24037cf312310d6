-- ===== src/Users/Isolation.antt =====
-- A call of `UserStorageService` touches only the user that it names.
use sbom_graph.Prelude.{
  ◌≡◌, ◌≢◌, refl, ◌∙◌, true, false, not, Option, List, String, arith, eq_iff, All, All-map, All-of,
  In,
}
use sbom_graph.Table.{first}
use sbom_graph.Table.Keys.{All-key, first-update_miss, first-select, first-snoc_miss}
use sbom_graph.Password.{Kdf}
use sbom_graph.Users.{LocalUser, UserTable, is_named, has_user_id}
use sbom_graph.Users.Calls.{UserCall, run_all, target, Rule, run_all_ind}
use sbom_graph.Users.Invariant.{IsValid, IsValid-Rule}

-- The table is valid, and the row under the name `v` is `row`.
record Holds (v : String) (row : Option LocalUser) (users : UserTable) : Type 0 where
  valid : IsValid users
  at : first (is_named v) users ≡ row

-- The rows under the id of another user's row are not called `v`.
not_named :
    (v : String) (users : UserTable) (u : LocalUser)
    → v ≢ u.username
    → IsValid users
    → In u users
    → All (λ r. has_user_id u.ident r ≡ true → is_named v r ≡ false) users
unfolding has_user_id is_named
not_named v users u other valid m =
    All-map (λ r. r.ident ≡ u.ident → r ≡ u)
      (λ r. has_user_id u.ident r ≡ true → is_named v r ≡ false) users
      (λ r same hit. ground (arith, same, eq_iff r.username v))
      (All-key (λ r. r.ident) users u valid.ids m)

Holds-Rule : (v : String) (row : Option LocalUser) (t : String) → v ≢ t → Rule t (Holds v row)
Holds-Rule v row t other = record {
  insert = λ u users fresh named unused h. record {
    valid = (IsValid-Rule t).insert u users fresh named unused h.valid;
    at =
        first-snoc_miss (is_named v) users u
          (unfold is_named in ground (arith, named, eq_iff u.username v))
        ∙ h.at;
  };
  change = λ u f users steady m named h. record {
    valid = (IsValid-Rule t).change u f users steady m named h.valid;
    at =
        first-update_miss (is_named v) (has_user_id u.ident) f users
          (not_named v users u (rw named other) h.valid m)
          (All-of _ users (λ r. unfold is_named in rw (steady.name r)))
        ∙ h.at;
  };
  remove = λ u users m named h. record {
    valid = (IsValid-Rule t).remove u users m named h.valid;
    at =
        first-select (is_named v) (λ r. not (has_user_id u.ident r)) users
          (All-map (λ r. has_user_id u.ident r ≡ true → is_named v r ≡ false)
            (λ r. is_named v r ≡ true → not (has_user_id u.ident r) ≡ true) users
            (λ r miss hit. ground (arith, miss)) (not_named v users u (rw named other) h.valid m))
        ∙ h.at;
  };
}

-- Calls that name other users, failing or not, leave a user's row as it is: the password hash, the
-- flags and the profile included.
pub first-run_all :
    (k : Kdf) (v : String) (calls : List UserCall) (users : UserTable)
    → All (λ call. v ≢ target call) calls
    → IsValid users
    → first (is_named v) (run_all k calls users) ≡ first (is_named v) users
first-run_all k v calls users others valid =
    (run_all_ind (Holds v row) k calls users
      (All-map (λ call. v ≢ target call) (λ call. Rule (target call) (Holds v row)) calls
        (λ call other. Holds-Rule v row (target call) other) others)
      (record { valid = valid; at = refl })).at
  where
    row : Option LocalUser
    row = first (is_named v) users
