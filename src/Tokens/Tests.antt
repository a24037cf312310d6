-- ===== src/Tokens/Tests.antt =====
-- Runs of the token store on small tables, and the theorems about it at concrete inputs.
use sbom_graph.Prelude.{
  text_ne, ◌≡◌, ◌↔◌, inl, refl, true, false, none, some, List, [], ◌∷◌, All, In, length,
}
use sbom_graph.Table.{first, select, update}
use sbom_graph.Tokens.{
  StoredToken, TokenDb, empty_db, Crypto, stored, name_exists, hash_exists, store_token, get_token,
  revoke_token, delete_token, cleanup_expired, is_token_valid, list_tokens,
}
use sbom_graph.Tokens.Calls.{Call, store, get, revoke, delete, perform, perform_all}
use sbom_graph.Tokens.Invariant.{IsValid, perform-IsValid, perform_all-IsValid}
use sbom_graph.Tokens.Isolation.{rows_of, rows_of-perform_all}
use sbom_graph.Tokens.Revocation.{get_token-revoke_token}
use sbom_graph.Tokens.Validity.{
  Clears, is_token_valid_iff, is_token_valid-revoked, is_token_valid-cleanup_expired,
}
use sbom_graph.Tokens.Access.{get_token-store_token}

-- A stand-in that keeps the token in clear.
abbrev clear_crypto : Crypto
clear_crypto = record {
  sha256 = λ t. t;
  encrypt = λ nonce t. t;
  decrypt = λ t. some t;
  decrypt-encrypt = λ nonce t. refl;
}

abbrev history : List Call
history =
    store false 5 0 "ann" "jwt-a" "ci" none none
    ∷ store false 6 1 "bob" "jwt-b" "ci" (some 9) none
    ∷ store false 7 2 "ann" "jwt-c" "laptop" none none
    ∷ []

abbrev sample : TokenDb
sample = perform_all clear_crypto history empty_db

sample-IsValid : IsValid sample
sample-IsValid = perform_all-IsValid clear_crypto history

program : Unit {0}
unfolding perform perform_all store_token get_token revoke_token delete_token cleanup_expired
    is_token_valid list_tokens first select update rows_of
program = tt

sample_size : length sample.rows ≡ 3
unfolding program
sample_size = refl

-- The name is taken, the token is taken, and another user may use the name.
store_token_errors :
    ((store_token clear_crypto false 8 3 "ann" "jwt-d" "ci" none none sample).0 ≡ name_exists)
    × ((store_token clear_crypto false 8 3 "ann" "jwt-b" "new" none none sample).0 ≡ hash_exists)
    × ((store_token clear_crypto false 8 3 "eve" "jwt-d" "ci" none none sample).0 ≡ stored 4)
unfolding program
store_token_errors = (refl, refl, refl)

perform_all-IsValid_example : IsValid (perform_all clear_crypto history empty_db)
perform_all-IsValid_example = perform_all-IsValid clear_crypto history

abbrev others : List Call
others = revoke false 1 "bob" ∷ delete false 3 "eve" ∷ get false 8 2 "bob" ∷ []

rows_of-perform_all_example :
    rows_of "ann" (perform_all clear_crypto others sample) ≡ rows_of "ann" sample
rows_of-perform_all_example =
    rows_of-perform_all clear_crypto "ann" others sample
      (text_ne "ann" "bob" refl, (text_ne "ann" "eve" refl, (text_ne "ann" "bob" refl, tt)))
      sample-IsValid

get_token-revoke_token_example :
    (get_token clear_crypto false 12 1 "ann"
      (perform_all clear_crypto history (revoke_token false 1 "ann" sample).1)).0
    ≡ none
get_token-revoke_token_example =
    get_token-revoke_token clear_crypto 1 "ann" sample sample-IsValid (unfold program in refl)
      history false 12 "ann"

abbrev revoked : TokenDb
revoked = perform clear_crypto (revoke false 1 "ann") sample

revoked-IsValid : IsValid revoked
revoked-IsValid = perform-IsValid clear_crypto (revoke false 1 "ann") sample sample-IsValid

is_token_valid_iff_example :
    (is_token_valid clear_crypto false 10 "jwt-b" sample ≡ true)
    ↔ All (Clears clear_crypto 10 "jwt-b") sample.rows
is_token_valid_iff_example = is_token_valid_iff clear_crypto 10 "jwt-b" sample sample-IsValid

abbrev revoked_row : StoredToken
revoked_row = record {
  ident = 1;
  username = "ann";
  token_name = "ci";
  token_hash = "jwt-a";
  encrypted_token = "jwt-a";
  created_at = 5;
  expires_at = none;
  last_used_at = none;
  is_revoked = true;
  description = none;
}

revoked_row-In : In revoked_row revoked.rows
unfolding program
revoked_row-In = inl refl

is_token_valid-revoked_example : is_token_valid clear_crypto false 10 "jwt-a" revoked ≡ false
is_token_valid-revoked_example =
    is_token_valid-revoked clear_crypto false 10 "jwt-a" revoked revoked_row revoked-IsValid
      revoked_row-In refl refl

is_token_valid-cleanup_expired_example :
    is_token_valid clear_crypto false 10 "jwt-a" (cleanup_expired false 10 revoked).1 ≡ true
is_token_valid-cleanup_expired_example =
    is_token_valid-cleanup_expired clear_crypto 10 "jwt-a" revoked revoked-IsValid

get_token-store_token_example :
    (get_token clear_crypto false 20 4 "eve" (
      perform_all clear_crypto history
        (store_token clear_crypto false 8 3 "eve" "jwt-d" "ci" none none sample).1)).0
    ≡ some (record {
      ident = 4;
      username = "eve";
      token_name = "ci";
      token = some "jwt-d";
      created_at = 8;
      expires_at = none;
      last_used_at = some 20;
      description = none;
    })
get_token-store_token_example =
    get_token-store_token clear_crypto 8 3 4 "eve" "jwt-d" "ci" none none sample sample-IsValid
      (unfold program in refl) history 20
      (text_ne "eve" "ann" refl, (text_ne "eve" "bob" refl, (text_ne "eve" "ann" refl, tt)))
