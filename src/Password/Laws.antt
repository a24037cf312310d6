-- ===== src/Password/Laws.antt =====
-- `_verify_password` accepts exactly the passwords that PBKDF2 does not tell from the stored one.
use sbom_graph.Prelude.{ℕ, ◌≡◌, ◌≢◌, ◌↔◌, refl, true, List, [], ◌∷◌, ◌++◌, String, arith, All}
use sbom_graph.Password.{
  Bytes, IsByte, Kdf, hash_iterations, hex, text_eq, split_colon, hash_password, verify_salt,
  verify_parts, verify_password,
}
use sbom_graph.Password.Hex.{from_hex-hex, hex-no_colon, hex-injective}

pub text_eq_iff : (s t : List ℕ) → (text_eq s t ≡ true) ↔ (s ≡ t)
unfolding text_eq
text_eq_iff [] [] = (λ h. refl, λ h. refl)
text_eq_iff [] (b ∷ t) = (λ h. cc, λ h. cc)
text_eq_iff (a ∷ s) [] = (λ h. cc, λ h. cc)
text_eq_iff (a ∷ s) (b ∷ t) =
    (λ h. ground (arith, text_eq_iff s t), λ h. ground (arith, text_eq_iff s t))

split_no_colon : (s : List ℕ) → All (λ c. c ≢ b':') s → split_colon s ≡ s ∷ []
unfolding split_colon
split_no_colon [] h = refl
split_no_colon (c ∷ s) h = ground (arith, h.0, split_no_colon s h.1)

split-append :
    (s t : List ℕ)
    → All (λ c. c ≢ b':') s
    → All (λ c. c ≢ b':') t
    → split_colon (s ++ b':' ∷ t) ≡ s ∷ t ∷ []
unfolding split_colon
split-append [] t h k = ground (arith, split_no_colon t k)
split-append (c ∷ s) t h k = ground (arith, h.0, split-append s t h.1 k)

append-injective : (s t u : List ℕ) → s ++ t ≡ s ++ u → t ≡ u
append-injective [] t u h = h
append-injective (c ∷ s) t u h = append-injective s t u (cc h)

module _ (k : Kdf) where
  -- A password passes against a stored hash exactly when PBKDF2 derives the same bytes from it, under
  -- the stored salt, as from the password that was stored.
  pub verify_password_iff :
      (password stored : String) (salt : Bytes)
      → All IsByte salt
      → (verify_password k password (hash_password k stored salt) ≡ true)
        ↔ (k.pbkdf2 password salt hash_iterations ≡ k.pbkdf2 stored salt hash_iterations)
  unfolding verify_password verify_parts verify_salt hash_password
  verify_password_iff password stored salt bytes =
      rw (split, from_hex-hex salt bytes)
        (
          λ h.
              hex-injective _ _ (k.pbkdf2_bytes password salt hash_iterations)
                (k.pbkdf2_bytes stored salt hash_iterations)
                (cc (append-injective (hex salt) _ _ ((text_eq_iff _ _).0 h))),
          λ h.
              rw h
                ((text_eq_iff (hash_password k stored salt) (hash_password k stored salt)).1 refl),
        )
    where
      split :
          split_colon (hex salt ++ b':' ∷ hex (k.pbkdf2 stored salt hash_iterations))
          ≡ hex salt ∷ hex (k.pbkdf2 stored salt hash_iterations) ∷ []
      split =
          split-append _ _ (hex-no_colon salt bytes)
            (hex-no_colon _ (k.pbkdf2_bytes stored salt hash_iterations))
