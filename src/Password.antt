-- ===== src/Password.antt =====
-- The password hashes of sbom-graph-api/src/sbom_graph_api/services/user_storage.py:
-- `_hash_password` and `_verify_password`. Texts are lists of code
-- points, byte strings lists of numbers. PBKDF2 is hashlib's, taken as a parameter.
pub mod Hex
pub mod Laws
pub mod Tests
use sbom_graph.Prelude.{
  ℕ, ◌+◌, ◌-◌, ◌*◌, ◌/◌, ◌%◌, ◌<◌, ◌≡◌, Bool, true, false, ◌&&◌, ◌||◌, Option, none, some, List, [],
  ◌∷◌, ◌++◌, String, eqb, leb, ltb, if◌then◌else◌, All, map,
}

abbrev pub Bytes : Type 0
Bytes = List ℕ

abbrev pub IsByte : ℕ → Type 0
IsByte b = b < 256

-- `hashlib.pbkdf2_hmac("sha256", password.encode("utf-8"), salt, iterations)`, which returns bytes.
pub record Kdf : Type 0 where
  pub pbkdf2 : String → Bytes → ℕ → Bytes
  pub pbkdf2_bytes :
      (password : String) (salt : Bytes) (n : ℕ) → All IsByte (pbkdf2 password salt n)

abbrev pub hash_iterations : ℕ
hash_iterations = 600000

-- `bytes.hex()`
unfoldable pub hex_digit : ℕ → ℕ
hex_digit n = if ltb n 10 then n + 48 else n + 87

unfoldable pub hex : Bytes → List ℕ
unfolding hex_digit
hex [] = []
hex (b ∷ bs) = hex_digit (b / 16) ∷ hex_digit (b % 16) ∷ hex bs

-- The value of a hexadecimal digit of either case.
unfoldable pub digit_value : ℕ → Option ℕ
digit_value c =
    if leb b'0' c && leb c b'9'
    then some (c - 48)
    else if leb b'a' c && leb c b'f'
    then some (c - 87)
    else if leb b'A' c && leb c b'F'
    then some (c - 55)
    else none

-- ASCII whitespace, which `bytes.fromhex` skips before each pair of digits.
unfoldable pub is_space : ℕ → Bool
is_space c = eqb c 32 || (leb 9 c && leb c 13)

unfoldable pub pair_value : Option ℕ → Option ℕ → Option ℕ
pair_value (some h) (some l) = some (h * 16 + l)
pair_value _ _ = none

unfoldable pub prepend : Option ℕ → Option Bytes → Option Bytes
prepend (some b) (some bs) = some (b ∷ bs)
prepend _ _ = none

-- `bytes.fromhex`; `none` is its ValueError.
unfoldable pub from_hex : List ℕ → Option Bytes
unfolding digit_value is_space pair_value prepend
from_hex [] = some []
from_hex (c ∷ []) = if is_space c then some [] else none
from_hex (c ∷ d ∷ cs) =
    let skipped = from_hex (d ∷ cs) in
    let rest = from_hex cs in
    if is_space c then skipped else prepend (pair_value (digit_value c) (digit_value d)) rest

-- Equality of texts, as `secrets.compare_digest` decides it.
unfoldable pub text_eq : List ℕ → List ℕ → Bool
text_eq [] [] = true
text_eq (a ∷ s) (b ∷ t) = eqb a b && text_eq s t
text_eq _ _ = false

-- `text.split(":")`: the parts between the colons, at least one.
unfoldable pub split_first : ℕ → List (List ℕ) → List (List ℕ)
split_first c [] = (c ∷ []) ∷ []
split_first c (part ∷ parts) = (c ∷ part) ∷ parts

unfoldable pub split_colon : List ℕ → List (List ℕ)
unfolding split_first
split_colon [] = [] ∷ []
split_colon (c ∷ cs) =
    let parts = split_colon cs in if eqb c b':' then [] ∷ parts else split_first c parts

module _ (k : Kdf) where
  unfoldable pub hash_password : String → Bytes → List ℕ
  unfolding hex
  hash_password password salt = hex salt ++ b':' ∷ hex (k.pbkdf2 password salt hash_iterations)

  verify_salt : String → List ℕ → Option Bytes → Bool
  unfolding hash_password text_eq
  verify_salt password stored_hash none = false
  verify_salt password stored_hash (some salt) = text_eq (hash_password password salt) stored_hash

  verify_parts : String → List ℕ → List (List ℕ) → Bool
  unfolding verify_salt from_hex
  verify_parts password stored_hash (salt_hex ∷ rest ∷ []) =
      verify_salt password stored_hash (from_hex salt_hex)
  verify_parts password stored_hash _ = false

  unfoldable pub verify_password : String → List ℕ → Bool
  unfolding verify_parts split_colon
  verify_password password stored_hash = verify_parts password stored_hash (split_colon stored_hash)
