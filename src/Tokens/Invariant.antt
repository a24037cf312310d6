-- ===== src/Tokens/Invariant.antt =====
-- The invariant of the token table, and its preservation by every call of `TokenStorageService`.
use sbom_graph.Prelude.{
  ℕ, ◌+◌, ◌<◌, ◌≡◌, ◌≢◌, ◌⊎◌, Bool, true, false, List, [], ◌∷◌, ◌++◌, arith, eq_iff, All, Pairwise,
  All-map, All-append, Pairwise-snoc,
}
use sbom_graph.Table.{select, update, All-select, All-update, Pairwise-select, Pairwise-update}
use sbom_graph.Tokens.Calls.{Call, perform, perform_all, Mild, Rule, perform_ind, perform_all_ind}
use sbom_graph.Tokens.{StoredToken, TokenDb, empty_db, Crypto, is_active_named, has_hash}

abbrev pub DistinctIds : StoredToken → StoredToken → Type 0
DistinctIds a b = a.ident ≢ b.ident

abbrev pub DistinctHashes : StoredToken → StoredToken → Type 0
DistinctHashes a b = a.token_hash ≢ b.token_hash

-- Two rows of one user and one name are not both active.
abbrev pub DistinctNames : StoredToken → StoredToken → Type 0
DistinctNames a b =
    a.username ≡ b.username
    → a.token_name ≡ b.token_name
    → (a.is_revoked ≡ true) ⊎ (b.is_revoked ≡ true)

abbrev pub IsBelow : ℕ → StoredToken → Type 0
IsBelow n t = t.ident < n

pub record IsValid (db : TokenDb) : Type 0 where
  pub bounded : All (IsBelow db.next_id) db.rows
  pub ids : Pairwise DistinctIds db.rows
  pub hashes : Pairwise DistinctHashes db.rows
  pub names : Pairwise DistinctNames db.rows

update-IsValid :
    (test : StoredToken → Bool) (change : StoredToken → StoredToken) (db : TokenDb)
    → Mild change
    → IsValid db
    → IsValid (record db { rows = update test change db.rows })
update-IsValid test change db m v = record {
  bounded =
      All-update (IsBelow db.next_id) test change db.rows (λ t h _. rw (m.ident t) h) v.bounded;
  ids =
      Pairwise-update DistinctIds test change db.rows (λ a b h. rw (m.ident a) h)
        (λ a b h. rw (m.ident b) h) v.ids;
  hashes =
      Pairwise-update DistinctHashes test change db.rows (λ a b h. rw (m.hash a) h)
        (λ a b h. rw (m.hash b) h) v.hashes;
  names =
      Pairwise-update DistinctNames test change db.rows
        (λ a b h p q. ground (arith, h, m.user a, m.name a, m.revoked a))
        (λ a b h p q. ground (arith, h, m.user b, m.name b, m.revoked b)) v.names;
}

select-IsValid :
    (test : StoredToken → Bool) (db : TokenDb)
    → IsValid db
    → IsValid (record db { rows = select test db.rows })
select-IsValid test db v = record {
  bounded = All-select (IsBelow db.next_id) test db.rows v.bounded;
  ids = Pairwise-select DistinctIds test db.rows v.ids;
  hashes = Pairwise-select DistinctHashes test db.rows v.hashes;
  names = Pairwise-select DistinctNames test db.rows v.names;
}

-- A row under the next id, whose hash and active name no row of the table has.
insert-IsValid :
    (t : StoredToken) (db : TokenDb)
    → t.ident ≡ db.next_id
    → All (λ a. is_active_named t.username t.token_name a ≡ false) db.rows
    → All (λ a. has_hash t.token_hash a ≡ false) db.rows
    → IsValid db
    → IsValid (record { rows = db.rows ++ t ∷ []; next_id = db.next_id + 1 })
unfolding is_active_named has_hash
insert-IsValid t db fresh names hashes v = record {
  bounded =
      All-append (IsBelow (db.next_id + 1)) db.rows (t ∷ [])
        (All-map (IsBelow db.next_id) (IsBelow (db.next_id + 1)) db.rows (λ a h. omega arith)
          v.bounded)
        (omega arith, tt);
  ids =
      Pairwise-snoc DistinctIds db.rows t v.ids (
        All-map (IsBelow db.next_id) (λ a. DistinctIds a t) db.rows (λ a h. omega arith) v.bounded);
  hashes = Pairwise-snoc DistinctHashes db.rows t v.hashes (
      All-map (λ a. has_hash t.token_hash a ≡ false) (λ a. DistinctHashes a t) db.rows
        (λ a h e. ground (arith, eq_iff a.token_hash t.token_hash)) hashes);
  names = Pairwise-snoc DistinctNames db.rows t v.names (
      All-map (λ a. is_active_named t.username t.token_name a ≡ false) (λ a. DistinctNames a t)
        db.rows
        (λ a h p q. ground (arith, eq_iff a.username t.username, eq_iff a.token_name t.token_name))
        names);
}

IsValid-Rule : Rule IsValid
IsValid-Rule = record { insert = insert-IsValid; change = update-IsValid; remove = select-IsValid }

pub perform-IsValid :
    (c : Crypto) (call : Call) (db : TokenDb) → IsValid db → IsValid (perform c call db)
perform-IsValid c call db v = perform_ind IsValid-Rule db v c call

-- After any sequence of calls from the empty table, database failures included, the ids are distinct
-- and below the counter, no two rows share a token hash, and no two unrevoked rows share both user
-- and token name.
pub perform_all-IsValid : (c : Crypto) (calls : List Call) → IsValid (perform_all c calls empty_db)
perform_all-IsValid c calls =
    perform_all_ind IsValid-Rule c calls empty_db
      (record { bounded = tt; ids = tt; hashes = tt; names = tt })
