-- ===== src/Password/Hex.antt =====
-- `from_hex` reads back what `hex` writes.
use sbom_graph.Prelude.{
  ℕ, ◌+◌, ◌*◌, ◌/◌, ◌%◌, ◌<◌, ◌≡◌, ◌≢◌, refl, sym, ap, ◌∙◌, false, some, [], ◌∷◌, arith, All,
}
use sbom_graph.Password.{Bytes, IsByte, hex_digit, hex, digit_value, is_space, from_hex}

hex_digit_value : (n : ℕ) → n < 16 → digit_value (hex_digit n) ≡ some n
unfolding hex_digit digit_value
hex_digit_value n h = ground arith

hex_digit_not_space : (n : ℕ) → n < 16 → is_space (hex_digit n) ≡ false
unfolding hex_digit is_space
hex_digit_not_space n h = ground arith

pub from_hex-hex : (bs : Bytes) → All IsByte bs → from_hex (hex bs) ≡ some bs
unfolding from_hex hex
from_hex-hex [] h = refl
from_hex-hex (b ∷ bs) h =
    let high : b / 16 < 16 = omega arith in
    let low : b % 16 < 16 = omega arith in
    let whole : b / 16 * 16 + b % 16 ≡ b = omega arith in
    rw
      (
        hex_digit_not_space (b / 16) high,
        hex_digit_value (b / 16) high,
        hex_digit_value (b % 16) low,
        from_hex-hex bs h.1,
      )
      (ap (λ (n : ℕ). some (n ∷ bs)) whole)

-- No digit is a colon.
pub hex-no_colon : (bs : Bytes) → All IsByte bs → All (λ c. c ≢ b':') (hex bs)
unfolding hex hex_digit
hex-no_colon [] h = tt
hex-no_colon (b ∷ bs) h = (ground arith, (ground arith, hex-no_colon bs h.1))

pub hex-injective : (a b : Bytes) → All IsByte a → All IsByte b → hex a ≡ hex b → a ≡ b
hex-injective a b ha hb e =
    let same : some a ≡ some b = sym (from_hex-hex a ha) ∙ ap from_hex e ∙ from_hex-hex b hb in
    cc same
