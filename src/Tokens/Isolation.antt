-- ===== src/Tokens/Isolation.antt =====
-- Which rows a call of `TokenStorageService` can change.
use sbom_graph.Prelude.{
  ℕ, ◌≡◌, ◌≢◌, inl, inr, refl, Bool, true, false, not, Option, some, List, [], ◌∷◌, ◌∙◌, String,
  ◌==◌, arith, eq_iff, All, All-map, All-of, Option-cases,
}
use sbom_graph.Table.{first, select, update, first_holds}
use sbom_graph.Table.Keys.{first-In, All-key, select-update, select-select, select-snoc_false}
use sbom_graph.Tokens.{
  StoredToken, TokenDb, Crypto, store_token, get_token, revoke_token, delete_token, is_active_named,
  has_hash, has_id, is_owned, is_owned_active,
}
use sbom_graph.Tokens.Invariant.{IsValid, perform-IsValid}
use sbom_graph.Tokens.Calls.{Call, store, get, revoke, delete, cleanup, perform, perform_all}

-- The call is made in the name of a user other than `v`; `cleanup` is made in nobody's.
abbrev pub IsByOther : String → Call → Type 0
IsByOther v (store _ _ _ username _ _ _ _) = v ≢ username
IsByOther v (get _ _ _ username) = v ≢ username
IsByOther v (revoke _ _ username) = v ≢ username
IsByOther v (delete _ _ username) = v ≢ username
IsByOther v (cleanup _ _) = ⊥

unfoldable pub belongs : String → StoredToken → Bool
belongs username t = t.username == username

-- The rows of one user, in insertion order.
unfoldable pub rows_of : String → TokenDb → List StoredToken
unfolding belongs
rows_of username db = select (belongs username) db.rows

-- The rows under the id of a row that the owner's query finds are the owner's.
hit_is_owned :
    (db : TokenDb) (token_id : ℕ) (u v : String) (test : StoredToken → Bool) (t : StoredToken)
    → v ≢ u
    → IsValid db
    → ((r : StoredToken) → test r ≡ true → r.username ≡ u)
    → first test db.rows ≡ some t
    → All (λ r. has_id t.ident r ≡ true → belongs v r ≡ false) db.rows
unfolding has_id belongs
hit_is_owned db token_id u v test t other valid owned e =
    All-map (λ r. r.ident ≡ t.ident → r ≡ t) (λ r. has_id t.ident r ≡ true → belongs v r ≡ false)
      db.rows
      (λ r same hit.
        ground (arith, same, owned t (first_holds test db.rows t e), eq_iff r.username v))
      (All-key (λ r. r.ident) db.rows t valid.ids (first-In test db.rows t e))

module _ (v u : String) (other : v ≢ u) (db : TokenDb) (valid : IsValid db) where
  -- The change of a row that the query of another user found.
  update_foreign :
      (test : StoredToken → Bool) (t : StoredToken) (change : StoredToken → StoredToken)
      → ((r : StoredToken) → test r ≡ true → r.username ≡ u)
      → ((r : StoredToken) → (change r).username ≡ r.username)
      → first test db.rows ≡ some t
      → select (belongs v) (update (has_id t.ident) change db.rows) ≡ rows_of v db
  unfolding rows_of
  update_foreign test t change owned same e =
      select-update (belongs v) (has_id t.ident) change db.rows
        (hit_is_owned db t.ident u v test t other valid owned e)
        (All-of (λ r. belongs v (change r) ≡ belongs v r) db.rows (λ r. rw (same r)))

  delete_foreign :
      (test : StoredToken → Bool) (t : StoredToken)
      → ((r : StoredToken) → test r ≡ true → r.username ≡ u)
      → first test db.rows ≡ some t
      → select (belongs v) (select (λ r. not (has_id t.ident r)) db.rows) ≡ rows_of v db
  unfolding rows_of
  delete_foreign test t owned e =
      select-select (belongs v) (λ r. not (has_id t.ident r)) db.rows
        (All-map (λ r. has_id t.ident r ≡ true → belongs v r ≡ false)
          (λ r. belongs v r ≡ true → not (has_id t.ident r) ≡ true) db.rows
          (λ r h k. ground (arith, h)) (hit_is_owned db t.ident u v test t other valid owned e))

  store_foreign :
      (c : Crypto) (fault : Bool) (now nonce : ℕ) (token token_name : String)
      (expires_at : Option ℕ) (description : Option String)
      → rows_of v (store_token c fault now nonce u token token_name expires_at description db).1
        ≡ rows_of v db
  unfolding rows_of store_token
  store_foreign c true now nonce token token_name expires_at description = refl
  store_foreign c false now nonce token token_name expires_at description =
      elim (Option-cases (first (is_active_named u token_name) db.rows)) [
        | inr (a, e) ↦ rw e
        | inl fresh ↦ elim (Option-cases (first (has_hash (c.sha256 token)) db.rows)) [
          | inr (a, e) ↦ rw (fresh, e)
          | inl unseen ↦
              rw (fresh, unseen)
                (select-snoc_false (belongs v) db.rows _ (ground (arith, eq_iff u v)))
        ]
      ]

  get_foreign :
      (c : Crypto) (fault : Bool) (now token_id : ℕ)
      → rows_of v (get_token c fault now token_id u db).1 ≡ rows_of v db
  unfolding get_token
  get_foreign c true now token_id = refl
  get_foreign c false now token_id =
      elim (Option-cases (first (is_owned_active token_id u) db.rows)) [
        | inl e ↦ rw e
        | inr (t, e) ↦ rw e (
            unfold rows_of in
            update_foreign (is_owned_active token_id u) t
              (λ r. record r { last_used_at = some now })
              (λ r h. unfold is_owned_active in ground (arith, eq_iff r.username u)) (λ r. refl) e)
      ]

  revoke_foreign :
      (fault : Bool) (token_id : ℕ) → rows_of v (revoke_token fault token_id u db).1 ≡ rows_of v db
  unfolding revoke_token
  revoke_foreign true token_id = refl
  revoke_foreign false token_id = elim (Option-cases (first (is_owned token_id u) db.rows)) [
    | inl e ↦ rw e
    | inr (t, e) ↦ rw e (
        unfold rows_of in
        update_foreign (is_owned token_id u) t (λ r. record r { is_revoked = true })
          (λ r h. unfold is_owned in ground (arith, eq_iff r.username u)) (λ r. refl) e)
  ]

  delete_foreign_token :
      (fault : Bool) (token_id : ℕ) → rows_of v (delete_token fault token_id u db).1 ≡ rows_of v db
  unfolding delete_token
  delete_foreign_token true token_id = refl
  delete_foreign_token false token_id = elim (Option-cases (first (is_owned token_id u) db.rows)) [
    | inl e ↦ rw e
    | inr (t, e) ↦ rw e (
        unfold rows_of in
        delete_foreign (is_owned token_id u) t
          (λ r h. unfold is_owned in ground (arith, eq_iff r.username u)) e)
  ]

pub perform_foreign :
    (c : Crypto) (v : String) (call : Call) (db : TokenDb)
    → IsByOther v call
    → IsValid db
    → rows_of v (perform c call db) ≡ rows_of v db
unfolding perform
perform_foreign c v (store fault now nonce u token name expires_at description) db other valid =
    store_foreign v u other db valid c fault now nonce token name expires_at description
perform_foreign c v (get fault now token_id u) db other valid =
    get_foreign v u other db valid c fault now token_id
perform_foreign c v (revoke fault token_id u) db other valid =
    revoke_foreign v u other db valid fault token_id
perform_foreign c v (delete fault token_id u) db other valid =
    delete_foreign_token v u other db valid fault token_id
perform_foreign c v (cleanup fault now) db other valid = elim other [ ]

-- Calls in the names of other users, failing or not, leave the rows of a user as they are; no
-- `cleanup_expired` is among them.
pub rows_of-perform_all :
    (c : Crypto) (v : String) (calls : List Call) (db : TokenDb)
    → All (IsByOther v) calls
    → IsValid db
    → rows_of v (perform_all c calls db) ≡ rows_of v db
unfolding perform_all
rows_of-perform_all c v [] db others valid = refl
rows_of-perform_all c v (call ∷ calls) db others valid =
    rows_of-perform_all c v calls (perform c call db) others.1 (perform-IsValid c call db valid)
    ∙ perform_foreign c v call db others.0 valid
