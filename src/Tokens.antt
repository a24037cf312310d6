-- ===== src/Tokens.antt =====
-- sbom-graph-api/src/sbom_graph_api/services/token_storage.py: `TokenStorageService` over its
-- table. Each method takes a flag that tells whether the database raises inside its `try`, the
-- current time where it reads the clock, and the database; it returns its result and the database.
-- The hash and the cipher are the third-party code behind `_hash_token`, `_encrypt_token` and
-- `_decrypt_token`, taken as a parameter.
pub mod Invariant
pub mod Calls
pub mod Isolation
pub mod Revocation
pub mod Validity
pub mod Access
pub mod Listing
pub mod Tests
use sbom_graph.Prelude.{
  ℕ, ◌+◌, ◌≡◌, Bool, true, false, not, ◌&&◌, ◌||◌, Option, none, some, List, [], ◌∷◌, ◌++◌, String,
  ◌==◌, ltb, leb, eqb, if◌then◌else◌, length, map,
}
use sbom_graph.Table.{first, select, update}

pub record StoredToken : Type 0 where
  pub ident : ℕ
  pub username : String
  pub token_name : String
  pub token_hash : String
  pub encrypted_token : String
  pub created_at : ℕ
  pub expires_at : Option ℕ
  pub last_used_at : Option ℕ
  pub is_revoked : Bool
  pub description : Option String

-- The table and the counter of `sqlite_autoincrement`, which never gives an id twice.
pub record TokenDb : Type 0 where
  pub rows : List StoredToken
  pub next_id : ℕ

abbrev pub empty_db : TokenDb
empty_db = record { rows = []; next_id = 1 }

-- hashlib's SHA-256 in hexadecimal, and Fernet under the configured key, whose `encrypt` draws a
-- nonce and whose `decrypt` is `none` where it raises `InvalidToken`.
pub record Crypto : Type 0 where
  pub sha256 : String → String
  pub encrypt : ℕ → String → String
  pub decrypt : String → Option String
  pub decrypt-encrypt : (nonce : ℕ) (token : String) → decrypt (encrypt nonce token) ≡ some token

pub data StoreResult : Type 0 where
  stored : ℕ → StoreResult
  name_exists hash_exists database_error : StoreResult

-- What a caller of `get_token` and of `list_tokens` sees.
pub record TokenDetails : Type 0 where
  pub ident : ℕ
  pub username : String
  pub token_name : String
  pub token : Option String
  pub created_at : ℕ
  pub expires_at : Option ℕ
  pub last_used_at : Option ℕ
  pub description : Option String

pub record TokenSummary : Type 0 where
  pub ident : ℕ
  pub token_name : String
  pub created_at : ℕ
  pub expires_at : Option ℕ
  pub last_used_at : Option ℕ
  pub description : Option String
  pub is_expired : Bool
  pub is_revoked : Bool

-- The filters of the queries.
unfoldable pub is_active_named : String → String → StoredToken → Bool
is_active_named username token_name t =
    t.username == username && (t.token_name == token_name && not t.is_revoked)

unfoldable pub is_owned : ℕ → String → StoredToken → Bool
is_owned token_id username t = eqb t.ident token_id && t.username == username

unfoldable pub is_owned_active : ℕ → String → StoredToken → Bool
is_owned_active token_id username t =
    eqb t.ident token_id && (t.username == username && not t.is_revoked)

unfoldable pub has_hash : String → StoredToken → Bool
has_hash token_hash t = t.token_hash == token_hash

unfoldable pub has_id : ℕ → StoredToken → Bool
has_id token_id t = eqb t.ident token_id

-- `expires is not None and expires < now`
unfoldable pub is_past : ℕ → Option ℕ → Bool
is_past now none = false
is_past now (some expires) = ltb expires now

-- The rows that `cleanup_expired` deletes.
unfoldable pub is_dead : ℕ → StoredToken → Bool
unfolding is_past
is_dead now t = t.is_revoked || is_past now t.expires_at

module _ (c : Crypto) where
  unfoldable pub store_token :
      Bool
      → ℕ
      → ℕ
      → String
      → String
      → String
      → Option ℕ
      → Option String
      → TokenDb
      → StoreResult × TokenDb
  unfolding is_active_named has_hash
  store_token fault now nonce username token token_name expires_at description db =
      if fault
      then (database_error, db)
      else elim (first (is_active_named username token_name) db.rows) [
        | some existing ↦ (name_exists, db)
        | none ↦ elim (first (has_hash (c.sha256 token)) db.rows) [
          -- the commit raises IntegrityError: `token_hash` is unique
          | some other ↦ (hash_exists, db)
          | none ↦ (
            stored db.next_id,
            record {
              rows =
                  db.rows
                  ++ record {
                    ident = db.next_id;
                    username = username;
                    token_name = token_name;
                    token_hash = c.sha256 token;
                    encrypted_token = c.encrypt nonce token;
                    created_at = now;
                    expires_at = expires_at;
                    last_used_at = none;
                    is_revoked = false;
                    description = description;
                  }
                    ∷ [];
              next_id = db.next_id + 1;
            },
          )
        ]
      ]

  unfoldable pub get_token : Bool → ℕ → ℕ → String → TokenDb → Option TokenDetails × TokenDb
  unfolding is_owned_active has_id
  get_token fault now token_id username db =
      if fault then (none, db) else elim (first (is_owned_active token_id username) db.rows) [
        | none ↦ (none, db)
        | some t ↦ (
          some (record {
            ident = t.ident;
            username = t.username;
            token_name = t.token_name;
            token = c.decrypt t.encrypted_token;
            created_at = t.created_at;
            expires_at = t.expires_at;
            last_used_at = some now;
            description = t.description;
          }),
          record db {
            rows = update (has_id t.ident) (λ r. record r { last_used_at = some now }) db.rows;
          },
        )
      ]

  unfoldable pub is_token_valid : Bool → ℕ → String → TokenDb → Bool
  unfolding has_hash is_past
  is_token_valid fault now token db =
      if fault then false else elim (first (has_hash (c.sha256 token)) db.rows) [
        | none ↦ true
        | some t ↦ if t.is_revoked then false else if is_past now t.expires_at then false else true
      ]

unfoldable pub revoke_token : Bool → ℕ → String → TokenDb → Bool × TokenDb
unfolding is_owned has_id
revoke_token fault token_id username db =
    if fault then (false, db) else elim (first (is_owned token_id username) db.rows) [
      | none ↦ (false, db)
      | some t ↦ (
        true,
        record db { rows = update (has_id t.ident) (λ r. record r { is_revoked = true }) db.rows },
      )
    ]

unfoldable pub delete_token : Bool → ℕ → String → TokenDb → Bool × TokenDb
unfolding is_owned has_id
delete_token fault token_id username db =
    if fault then (false, db) else elim (first (is_owned token_id username) db.rows) [
      | none ↦ (false, db)
      | some t ↦ (true, record db { rows = select (λ r. not (has_id t.ident r)) db.rows })
    ]

-- The count of deleted rows is what the bulk `delete` returns.
unfoldable pub cleanup_expired : Bool → ℕ → TokenDb → ℕ × TokenDb
unfolding is_dead
cleanup_expired fault now db = if fault then (0, db) else (
  length (select (is_dead now) db.rows),
  record db { rows = select (λ r. not (is_dead now r)) db.rows },
)

-- The filters of `list_tokens`.
unfoldable pub is_listed : String → Bool → StoredToken → Bool
is_listed username include_revoked t =
    t.username == username && (include_revoked || not t.is_revoked)

unfoldable pub summary : ℕ → StoredToken → TokenSummary
unfolding is_past
summary now t = record {
  ident = t.ident;
  token_name = t.token_name;
  created_at = t.created_at;
  expires_at = t.expires_at;
  last_used_at = t.last_used_at;
  description = t.description;
  is_expired = is_past now t.expires_at;
  is_revoked = t.is_revoked;
}

-- `order_by` stands for the database's `ORDER BY created_at DESC`.
unfoldable pub list_tokens :
    (List StoredToken → List StoredToken) → Bool → ℕ → String → Bool → TokenDb → List TokenSummary
unfolding is_listed summary
list_tokens order_by fault now username include_revoked db =
    if fault
    then []
    else map (summary now) (order_by (select (is_listed username include_revoked) db.rows))
