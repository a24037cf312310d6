-- ===== src/Users/Invariant.antt =====
-- The user table keeps distinct ids and distinct names under every call of `UserStorageService`.
use sbom_graph.Prelude.{
  ◌+◌, ◌≤◌, ◌≡◌, ◌≢◌, Bool, false, not, List, [], ◌∷◌, ◌++◌, String, arith, eq_iff, max, All,
  All-map, All-of, Pairwise, Pairwise-snoc,
}
use sbom_graph.Table.{update, Pairwise-select, Pairwise-update}
use sbom_graph.Password.{Kdf}
use sbom_graph.Users.{LocalUser, UserTable, max_id, is_named, has_user_id}
use sbom_graph.Users.Calls.{UserCall, run_all, target, Rule, Steady, run_all_ind}

abbrev pub DistinctUserIds : LocalUser → LocalUser → Type 0
DistinctUserIds a b = a.ident ≢ b.ident

abbrev pub DistinctUsernames : LocalUser → LocalUser → Type 0
DistinctUsernames a b = a.username ≢ b.username

pub record IsValid (users : UserTable) : Type 0 where
  pub ids : Pairwise DistinctUserIds users
  pub names : Pairwise DistinctUsernames users

pub ident-le-max_id : (users : UserTable) → All (λ u. u.ident ≤ max_id users) users
unfolding max_id
ident-le-max_id [] = tt
ident-le-max_id (u ∷ users) = (
  omega arith,
  All-map (λ r. r.ident ≤ max_id users) (λ r. r.ident ≤ max u.ident (max_id users)) users
      (λ r h. omega arith) (ident-le-max_id users),
)

pub insert-IsValid :
    (u : LocalUser) (users : UserTable)
    → u.ident ≡ max_id users + 1
    → All (λ r. is_named u.username r ≡ false) users
    → IsValid users
    → IsValid (users ++ u ∷ [])
unfolding is_named
insert-IsValid u users fresh unused v = record {
  ids = Pairwise-snoc DistinctUserIds users u v.ids (
      All-map (λ r. r.ident ≤ max_id users) (λ r. DistinctUserIds r u) users (λ r h. omega arith)
        (ident-le-max_id users));
  names = Pairwise-snoc DistinctUsernames users u v.names (
      All-map (λ r. is_named u.username r ≡ false) (λ r. DistinctUsernames r u) users
        (λ r h e. ground (arith, eq_iff r.username u.username)) unused);
}

pub update-IsValid :
    (test : LocalUser → Bool) (f : LocalUser → LocalUser) (users : UserTable)
    → Steady f
    → IsValid users
    → IsValid (update test f users)
update-IsValid test f users steady v = record {
  ids =
      Pairwise-update DistinctUserIds test f users (λ a b h. rw (steady.ident a) h)
        (λ a b h. rw (steady.ident b) h) v.ids;
  names =
      Pairwise-update DistinctUsernames test f users (λ a b h. rw (steady.name a) h)
        (λ a b h. rw (steady.name b) h) v.names;
}

pub IsValid-Rule : (target : String) → Rule target IsValid
IsValid-Rule target = record {
  insert = λ u users fresh named unused v. insert-IsValid u users fresh (rw named unused) v;
  change = λ u f users steady _ _ v. update-IsValid (has_user_id u.ident) f users steady v;
  remove = λ u users _ _ v. record {
    ids = Pairwise-select DistinctUserIds (λ r. not (has_user_id u.ident r)) users v.ids;
    names = Pairwise-select DistinctUsernames (λ r. not (has_user_id u.ident r)) users v.names;
  };
}

-- After any sequence of calls from the empty table, database failures included, no two users share an
-- id or a name.
pub run_all-IsValid : (k : Kdf) (calls : List UserCall) → IsValid (run_all k calls [])
run_all-IsValid k calls =
    run_all_ind IsValid k calls []
      (All-of (λ call. Rule (target call) IsValid) calls (λ call. IsValid-Rule (target call)))
      (record { ids = tt; names = tt })
