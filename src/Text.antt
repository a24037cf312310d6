-- ===== src/Text.antt =====
-- Python texts as lists of code points, with the methods of `str` that the validation calls.
use Prim.Native.Char.{code}
use sbom_graph.Prelude.{
  ℕ, ◌≡◌, ◌≢◌, ◌↔◌, inl, inr, refl, sym, ◌∙◌, Bool, true, false, ◌&&◌, ◌||◌, Option, List, [], ◌∷◌,
  ◌++◌, String, arith, if◌then◌else◌, leb, eqb, In, Bool-cases,
}

abbrev pub Text : Type 0
Text = List ℕ

abbrev pub codes : String → Text
codes String.[] = []
codes (String.◌∷◌ c s) = code c ∷ codes s

-- `s == t`
unfoldable pub eq_text : Text → Text → Bool
eq_text [] [] = true
eq_text [] (d ∷ t) = false
eq_text (c ∷ s) [] = false
eq_text (c ∷ s) (d ∷ t) = eqb c d && eq_text s t

-- `s in texts`
unfoldable pub member_text : Text → List Text → Bool
unfolding eq_text
member_text s [] = false
member_text s (t ∷ ts) = eq_text s t || member_text s ts

-- `c in s`, of one character.
unfoldable pub has_char : ℕ → Text → Bool
has_char c [] = false
has_char c (d ∷ s) = eqb c d || has_char c s

-- `s.startswith(t)`
unfoldable pub starts_with : Text → Text → Bool
starts_with s [] = true
starts_with [] (d ∷ t) = false
starts_with (c ∷ s) (d ∷ t) = eqb c d && starts_with s t

-- `t in s`
unfoldable pub has_text : Text → Text → Bool
unfolding starts_with
has_text t [] = starts_with [] t
has_text t (c ∷ s) = starts_with (c ∷ s) t || has_text t s

-- `c.isspace()`
unfoldable pub is_space : ℕ → Bool
is_space c =
    leb 9 c && leb c 13
    || leb 28 c && leb c 32
    || eqb c 133
    || eqb c 160
    || eqb c 5760
    || leb 8192 c && leb c 8202
    || eqb c 8232
    || eqb c 8233
    || eqb c 8239
    || eqb c 8287
    || eqb c 12288

unfoldable pub lstrip : Text → Text
unfolding is_space
lstrip [] = []
lstrip (c ∷ s) = let rest = lstrip s in if is_space c then rest else c ∷ s

unfoldable pub rstrip : Text → Text
unfolding is_space
rstrip [] = []
rstrip (c ∷ s) = elim (rstrip s) [
  | [] ↦ if is_space c then [] else c ∷ []
  | d ∷ rest ↦ c ∷ d ∷ rest
]

-- `s.strip()`
unfoldable pub strip : Text → Text
unfolding lstrip rstrip
strip s = rstrip (lstrip s)

-- `s.split(c)`, for one character: the segments between its occurrences.
unfoldable pub split : ℕ → Text → List Text
split c [] = [] ∷ []
split c (d ∷ s) =
    let rest = split c s in
    if eqb c d
    then [] ∷ rest
    else elim rest [ [] ↦ (d ∷ []) ∷ [] | segment ∷ segments ↦ (d ∷ segment) ∷ segments ]

-- What `str.lower` and the decimal digits of Unicode are: `digit c` is the value of `c`, if `c` is one.
pub record Unicode : Type 0 where
  pub lower : Text → Text
  pub digit : ℕ → Option ℕ

pub eq_text_iff : (s t : Text) → (eq_text s t ≡ true) ↔ (s ≡ t)
unfolding eq_text
eq_text_iff [] [] = (λ h. refl, λ e. refl)
eq_text_iff [] (d ∷ t) = (λ h. cc, λ e. cc)
eq_text_iff (c ∷ s) [] = (λ h. cc, λ e. cc)
eq_text_iff (c ∷ s) (d ∷ t) =
    let (to, from) = eq_text_iff s t in
    (
      λ h.
          let heads : c ≡ d = ground arith in
          let rest : eq_text s t ≡ true = ground arith in let tails = to rest in cc,
      λ e.
          let heads : c ≡ d = cc in
          let tails : s ≡ t = cc in let rest = from tails in ground (arith, heads, rest),
    )

pub member_text_iff : (s : Text) (ts : List Text) → (member_text s ts ≡ true) ↔ In s ts
unfolding member_text
member_text_iff s [] = (λ h. cc, λ m. elim m [ ])
member_text_iff s (t ∷ ts) = (
  λ h. elim (Bool-cases (eq_text s t)) [
    | inl e ↦ inl ((eq_text_iff s t).0 e)
    | inr e ↦ inr ((member_text_iff s ts).0 (ground arith))
  ],
  λ m. elim m [
    | inl e ↦ ground (arith, (eq_text_iff s t).1 e)
    | inr n ↦ ground (arith, (member_text_iff s ts).1 n)
  ],
)

not_empty : (c : ℕ) (front : Text) → [] ≢ front ++ c ∷ []
not_empty c [] e = cc
not_empty c (d ∷ front) e = cc

-- What `rstrip` leaves does not end with a space.
pub rstrip_last : (c : ℕ) (front s : Text) → rstrip s ≡ front ++ c ∷ [] → is_space c ≡ false
unfolding rstrip
rstrip_last c front [] e = absurd (not_empty c front e)
rstrip_last c front (d ∷ s) e = last_cases front e (λ f h. rstrip_last c f s h) (rstrip s) refl
  where
    last_cases :
        (front : Text)
        → rstrip (d ∷ s) ≡ front ++ c ∷ []
        → ((f : Text) → rstrip s ≡ f ++ c ∷ [] → is_space c ≡ false)
        → (kept : Text) → rstrip s ≡ kept
        → is_space c ≡ false
    last_cases [] e ih [] k = elim (Bool-cases (is_space d)) [
      | inl space ↦ absurd (not_empty c [] (rw (rstrip, k, space) at e))
      | inr other ↦
          let one = rw (rstrip, k, other) at e in let same : d ≡ c = cc in rw (sym same) other
    ]
    last_cases (f ∷ front) e ih [] k = elim (Bool-cases (is_space d)) [
      | inl space ↦ absurd (not_empty c (f ∷ front) (rw (rstrip, k, space) at e))
      | inr other ↦
          let one = rw (rstrip, k, other) at e in
          let rest : [] ≡ front ++ c ∷ [] = cc in absurd (not_empty c front rest)
    ]
    last_cases [] e ih (x ∷ kept) k =
        let two = rw (rstrip, k) at e in let rest : x ∷ kept ≡ [] = cc in cc
    last_cases (f ∷ front) e ih (x ∷ kept) k =
        let two = rw (rstrip, k) at e in
        let rest : x ∷ kept ≡ front ++ c ∷ [] = cc in ih front (k ∙ rest)

pub strip_last : (c : ℕ) (front s : Text) → strip s ≡ front ++ c ∷ [] → is_space c ≡ false
unfolding strip
strip_last c front s e = rstrip_last c front (lstrip s) e
