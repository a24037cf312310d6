-- ===== src/Tokens/Calls.antt =====
-- Sequences of calls of `TokenStorageService`, in any order and with any database failures, and an
-- induction rule for what all calls preserve.
use sbom_graph.Prelude.{
  ℕ, ◌+◌, ◌≡◌, inl, inr, refl, Bool, true, false, not, Option, some, List, [], ◌∷◌, ◌++◌, String,
  All, Option-cases,
}
use sbom_graph.Table.{first, select, update, first-none}
use sbom_graph.Tokens.{
  StoredToken, TokenDb, Crypto, store_token, get_token, revoke_token, delete_token, cleanup_expired,
  is_active_named, has_hash, has_id, is_owned, is_owned_active, is_dead,
}

-- The calls that write, each with whether the database raises.
pub data Call : Type 0 where
  store :
      (fault : Bool) (now nonce : ℕ) (username token token_name : String) (expires_at : Option ℕ)
      (description : Option String)
      → Call
  get : (fault : Bool) (now token_id : ℕ) (username : String) → Call
  revoke delete : (fault : Bool) (token_id : ℕ) (username : String) → Call
  cleanup : (fault : Bool) (now : ℕ) → Call

module _ (c : Crypto) where
  unfoldable pub perform : Call → TokenDb → TokenDb
  perform (store fault now nonce username token token_name expires_at description) db =
      (store_token c fault now nonce username token token_name expires_at description db).1
  perform (get fault now token_id username) db = (get_token c fault now token_id username db).1
  perform (revoke fault token_id username) db = (revoke_token fault token_id username db).1
  perform (delete fault token_id username) db = (delete_token fault token_id username db).1
  perform (cleanup fault now) db = (cleanup_expired fault now db).1

  unfoldable pub perform_all : List Call → TokenDb → TokenDb
  perform_all [] db = db
  perform_all (call ∷ calls) db = perform_all calls (perform call db)

-- A change of a row that keeps its identity, and does not lift a revocation.
pub record Mild (change : StoredToken → StoredToken) : Type 0 where
  pub ident : (t : StoredToken) → (change t).ident ≡ t.ident
  pub hash : (t : StoredToken) → (change t).token_hash ≡ t.token_hash
  pub user : (t : StoredToken) → (change t).username ≡ t.username
  pub name : (t : StoredToken) → (change t).token_name ≡ t.token_name
  pub revoked : (t : StoredToken) → t.is_revoked ≡ true → (change t).is_revoked ≡ true

-- What to show of a property of the database that all calls are to preserve.
pub record Rule (P : TokenDb → Type 0) : Type 0 where
  pub insert :
      (t : StoredToken) (db : TokenDb)
      → t.ident ≡ db.next_id
      → All (λ a. is_active_named t.username t.token_name a ≡ false) db.rows
      → All (λ a. has_hash t.token_hash a ≡ false) db.rows
      → P db
      → P (record { rows = db.rows ++ t ∷ []; next_id = db.next_id + 1 })
  pub change :
      (test : StoredToken → Bool) (f : StoredToken → StoredToken) (db : TokenDb)
      → Mild f
      → P db
      → P (record db { rows = update test f db.rows })
  pub remove :
      (test : StoredToken → Bool) (db : TokenDb)
      → P db
      → P (record db { rows = select test db.rows })

touch-Mild : (now : ℕ) → Mild (λ r. record r { last_used_at = some now })
touch-Mild now = record {
  ident = λ t. refl;
  hash = λ t. refl;
  user = λ t. refl;
  name = λ t. refl;
  revoked = λ t h. h;
}

revoke-Mild : Mild (λ r. record r { is_revoked = true })
revoke-Mild = record {
  ident = λ t. refl;
  hash = λ t. refl;
  user = λ t. refl;
  name = λ t. refl;
  revoked = λ t h. refl;
}

module _ {P : TokenDb → Type 0} (rule : Rule P) (db : TokenDb) (p : P db) where
  store_ind :
      (c : Crypto) (fault : Bool) (now nonce : ℕ) (username token token_name : String)
      (expires_at : Option ℕ) (description : Option String)
      → P (store_token c fault now nonce username token token_name expires_at description db).1
  unfolding store_token
  store_ind c true now nonce username token token_name expires_at description = p
  store_ind c false now nonce username token token_name expires_at description =
      elim (Option-cases (first (is_active_named username token_name) db.rows)) [
        | inr (a, e) ↦ rw e p
        | inl fresh ↦ elim (Option-cases (first (has_hash (c.sha256 token)) db.rows)) [
          | inr (a, e) ↦ rw (fresh, e) p
          | inl unseen ↦
              rw (fresh, unseen)
                (rule.insert _ db refl
                  (first-none (is_active_named username token_name) db.rows fresh)
                  (first-none (has_hash (c.sha256 token)) db.rows unseen) p)
        ]
      ]

  get_ind :
      (c : Crypto) (fault : Bool) (now token_id : ℕ) (username : String)
      → P (get_token c fault now token_id username db).1
  unfolding get_token
  get_ind c true now token_id username = p
  get_ind c false now token_id username =
      elim (Option-cases (first (is_owned_active token_id username) db.rows)) [
        | inl e ↦ rw e p
        | inr (t, e) ↦ rw e (rule.change (has_id t.ident) _ db (touch-Mild now) p)
      ]

  revoke_ind :
      (fault : Bool) (token_id : ℕ) (username : String)
      → P (revoke_token fault token_id username db).1
  unfolding revoke_token
  revoke_ind true token_id username = p
  revoke_ind false token_id username =
      elim (Option-cases (first (is_owned token_id username) db.rows)) [
        | inl e ↦ rw e p
        | inr (t, e) ↦ rw e (rule.change (has_id t.ident) _ db revoke-Mild p)
      ]

  delete_ind :
      (fault : Bool) (token_id : ℕ) (username : String)
      → P (delete_token fault token_id username db).1
  unfolding delete_token
  delete_ind true token_id username = p
  delete_ind false token_id username =
      elim (Option-cases (first (is_owned token_id username) db.rows)) [
        | inl e ↦ rw e p
        | inr (t, e) ↦ rw e (rule.remove (λ r. not (has_id t.ident r)) db p)
      ]

  cleanup_ind : (fault : Bool) (now : ℕ) → P (cleanup_expired fault now db).1
  unfolding cleanup_expired
  cleanup_ind true now = p
  cleanup_ind false now = rule.remove (λ r. not (is_dead now r)) db p

  pub perform_ind : (c : Crypto) (call : Call) → P (perform c call db)
  unfolding perform
  perform_ind c (store fault now nonce username token token_name expires_at description) =
      store_ind c fault now nonce username token token_name expires_at description
  perform_ind c (get fault now token_id username) = get_ind c fault now token_id username
  perform_ind c (revoke fault token_id username) = revoke_ind fault token_id username
  perform_ind c (delete fault token_id username) = delete_ind fault token_id username
  perform_ind c (cleanup fault now) = cleanup_ind fault now

pub perform_all_ind :
    {P : TokenDb → Type 0} (rule : Rule P) (c : Crypto) (calls : List Call) (db : TokenDb)
    → P db
    → P (perform_all c calls db)
unfolding perform_all
perform_all_ind rule c [] db p = p
perform_all_ind rule c (call ∷ calls) db p =
    perform_all_ind rule c calls (perform c call db) (perform_ind rule db p c call)
