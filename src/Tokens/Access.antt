-- ===== src/Tokens/Access.antt =====
-- What `get_token` and `list_tokens` return for a stored token.
use sbom_graph.Prelude.{
  ℕ, ◌≡◌, ◌⊎◌, inl, inr, refl, ◌∙◌, sym, ap, false, Option, none, some, List, [], ◌∷◌, ◌++◌, String,
  arith, str_eq_self, eqb_self, All, All-map, All-of, Option-cases,
}
use sbom_graph.Table.{first, select, first-snoc}
use sbom_graph.Table.Keys.{first-select}
use sbom_graph.Tokens.{
  StoredToken, TokenDb, Crypto, TokenDetails, stored, store_token, get_token, is_active_named,
  has_hash, is_owned_active,
}
use sbom_graph.Tokens.Invariant.{IsValid, IsBelow, perform-IsValid}
use sbom_graph.Tokens.Calls.{Call, store, perform, perform_all}
use sbom_graph.Tokens.Isolation.{IsByOther, rows_of, belongs, rows_of-perform_all}

-- What `get_token` shows of a row.
abbrev pub details : Crypto → ℕ → StoredToken → TokenDetails
details c now t = record {
  ident = t.ident;
  username = t.username;
  token_name = t.token_name;
  token = c.decrypt t.encrypted_token;
  created_at = t.created_at;
  expires_at = t.expires_at;
  last_used_at = some now;
  description = t.description;
}

shown : Crypto → ℕ → Option StoredToken → Option TokenDetails
shown c now none = none
shown c now (some t) = some (details c now t)

-- `get_token` reads only the rows of its user.
get_token-rows_of :
    (c : Crypto) (now i : ℕ) (u : String) (db : TokenDb)
    → (get_token c false now i u db).0 ≡ shown c now (first (is_owned_active i u) (rows_of u db))
unfolding get_token shown rows_of
get_token-rows_of c now i u db = rw narrow (go (Option-cases (first (is_owned_active i u) db.rows)))
  where
    narrow :
        first (is_owned_active i u) (select (belongs u) db.rows)
        ≡ first (is_owned_active i u) db.rows
    narrow =
        first-select (is_owned_active i u) (belongs u) db.rows
          (All-of _ db.rows (λ r h. unfold belongs is_owned_active in ground arith))

    go :
        (first (is_owned_active i u) db.rows ≡ none)
          ⊎ ((t : StoredToken) × (first (is_owned_active i u) db.rows ≡ some t))
        → (get_token c false now i u db).0 ≡ shown c now (first (is_owned_active i u) db.rows)
    go (inl e) = rw e
    go (inr (t, e)) = rw e

get_token_found :
    (c : Crypto) (now i : ℕ) (u : String) (db : TokenDb) (t : StoredToken)
    → first (is_owned_active i u) db.rows ≡ some t
    → (get_token c false now i u db).0 ≡ some (details c now t)
unfolding get_token
get_token_found c now i u db t e = rw e

-- The row that a successful `store_token` appends.
abbrev pub new_row :
    Crypto → ℕ → ℕ → ℕ → String → String → String → Option ℕ → Option String → StoredToken
new_row c i now nonce username token token_name expires_at description = record {
  ident = i;
  username = username;
  token_name = token_name;
  token_hash = c.sha256 token;
  encrypted_token = c.encrypt nonce token;
  created_at = now;
  expires_at = expires_at;
  last_used_at = none;
  is_revoked = false;
  description = description;
}

-- A successful `store_token` appends its row under the id that it returns.
store_token_stored :
    (c : Crypto) (now nonce i : ℕ) (u token name : String) (expires_at : Option ℕ)
    (description : Option String) (db : TokenDb)
    → (store_token c false now nonce u token name expires_at description db).0 ≡ stored i
    → (i ≡ db.next_id)
      × ((store_token c false now nonce u token name expires_at description db).1.rows
          ≡ db.rows ++ new_row c i now nonce u token name expires_at description ∷ [])
unfolding store_token
store_token_stored c now nonce i u token name expires_at description db h =
    elim (Option-cases (first (is_active_named u name) db.rows)) [
      | inr (a, e) ↦ cc (rw e at h)
      | inl fresh ↦ elim (Option-cases (first (has_hash (c.sha256 token)) db.rows)) [
        | inr (a, e) ↦ cc (rw (fresh, e) at h)
        | inl unseen ↦
            let same : i ≡ db.next_id = ground (arith, rw (fresh, unseen) at h) in
            rw (fresh, unseen) (same, rw same)
      ]
    ]

-- What `store_token` stored under an id, `get_token` of that id and user returns, the decrypted token
-- and the metadata included, after any calls in the names of other users.
pub get_token-store_token :
    (c : Crypto) (now nonce i : ℕ) (u token name : String) (expires_at : Option ℕ)
    (description : Option String) (db : TokenDb)
    → IsValid db
    → (store_token c false now nonce u token name expires_at description db).0 ≡ stored i
    → (calls : List Call) (later : ℕ) → All (IsByOther u) calls
    → (get_token c false later i u (
        perform_all c calls
          (store_token c false now nonce u token name expires_at description db).1)).0
      ≡ some (record {
        ident = i;
        username = u;
        token_name = name;
        token = some token;
        created_at = now;
        expires_at = expires_at;
        last_used_at = some later;
        description = description;
      })
get_token-store_token c now nonce i u token name expires_at description db v ok calls later others =
    get_token-rows_of c later i u (perform_all c calls after)
    ∙ ap (λ rows. shown c later (first (is_owned_active i u) rows))
        (rows_of-perform_all c u calls after others kept)
    ∙ sym (get_token-rows_of c later i u after)
    ∙ found
  where
    after : TokenDb
    after = (store_token c false now nonce u token name expires_at description db).1

    kept : IsValid after
    kept =
        unfold perform in
        perform-IsValid c (store false now nonce u token name expires_at description) db v

    fresh : All (λ t. is_owned_active i u t ≡ false) db.rows
    fresh =
        All-map (IsBelow db.next_id) (λ t. is_owned_active i u t ≡ false) db.rows
          (λ t below.
            unfold is_owned_active in
            ground (
              arith,
              (store_token_stored c now nonce i u token name expires_at description db ok).0,
            ))
          v.bounded

    found :
        (get_token c false later i u after).0
        ≡ some (record {
          ident = i;
          username = u;
          token_name = name;
          token = some token;
          created_at = now;
          expires_at = expires_at;
          last_used_at = some later;
          description = description;
        })
    found =
        get_token_found c later i u after
          (new_row c i now nonce u token name expires_at description)
          (rw (store_token_stored c now nonce i u token name expires_at description db ok).1 (
            first-snoc (is_owned_active i u) db.rows _ fresh
              (unfold is_owned_active in simp (str_eq_self, eqb_self))))
        ∙ rw c.decrypt-encrypt refl
