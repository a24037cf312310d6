-- ===== src/Password/Tests.antt =====
-- Password hashes under a stand-in for PBKDF2, and the theorem about them at a concrete input.
use sbom_graph.Prelude.{String, All, if◌then◌else◌, [], ◌∷◌, ◌≡◌, ◌↔◌, refl, true, false, arith}
use sbom_graph.Password.{Bytes, IsByte, Kdf, hash_iterations, hash_password, verify_password}
use sbom_graph.Password.Laws.{verify_password_iff}
use text.Mathlib.Text.{◌==◌}

pub toy_bytes : (password : String) → All IsByte ((if password == "secret" then 1 else 2) ∷ [])
toy_bytes password = ground arith

-- It tells "secret" from all other passwords.
abbrev pub toy_kdf : Kdf
toy_kdf = record {
  pbkdf2 = λ password salt n. (if password == "secret" then 1 else 2) ∷ [];
  pbkdf2_bytes = λ password salt n. toy_bytes password;
}

abbrev pub toy_salt : Bytes
toy_salt = 10 ∷ 255 ∷ []

verify_password_runs :
    (verify_password toy_kdf "secret" (hash_password toy_kdf "secret" toy_salt) ≡ true)
    × (verify_password toy_kdf "other" (hash_password toy_kdf "secret" toy_salt) ≡ false)
    × (verify_password toy_kdf "secret" (b'0' ∷ b'a' ∷ []) ≡ false)
unfolding verify_password hash_password
verify_password_runs = (refl, refl, refl)

verify_password_iff_example :
    (verify_password toy_kdf "other" (hash_password toy_kdf "secret" toy_salt) ≡ true) ↔ (
      toy_kdf.pbkdf2 "other" toy_salt hash_iterations
      ≡ toy_kdf.pbkdf2 "secret" toy_salt hash_iterations)
verify_password_iff_example =
    verify_password_iff toy_kdf "other" "secret" toy_salt (omega arith, (omega arith, tt))
