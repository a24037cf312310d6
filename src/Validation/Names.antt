-- ===== src/Validation/Names.antt =====
-- Which texts the validators accept.
use sbom_graph.Prelude.{
  ℕ, ◌≤◌, ◌≡◌, ◌≢◌, ◌↔◌, inl, inr, refl, sym, ap, ◌∙◌, subst, Bool, true, false, Option, none, some,
  [], ◌∷◌, ◌++◌, arith, ltb, eqb, eqb_iff, length, All, Bool-cases,
}
use sbom_graph.Text.{Text, strip, strip_last, is_space}
use sbom_graph.Validation.{
  is_lower, is_alnum, eq_nil, at_end, star_end, name_match, name_char, version_char, schema_char,
  username_char, search_char, validate_text, validate_project_name, validate_version_name,
  validate_defect_id, validate_project_group, validate_schema_name, validate_username,
  validate_search_term,
}

-- A text that does not end with a newline.
unfoldable pub NoNewline : Text → Type 0
NoNewline s = (front : Text) → s ≢ front ++ 10 ∷ []

pub tail-NoNewline : (c : ℕ) (s : Text) → NoNewline (c ∷ s) → NoNewline s
unfolding NoNewline
tail-NoNewline c s h front e = h (c ∷ front) (ap (λ t. c ∷ t) e)

pub strip-NoNewline : (t : Text) → NoNewline (strip t)
unfolding NoNewline is_space
strip-NoNewline t front e = let h = strip_last 10 front t e in cc

-- There `$` matches at the end only.
pub at_end_nil : (s : Text) → NoNewline s → at_end s ≡ true → s ≡ []
unfolding at_end eq_nil NoNewline
at_end_nil [] h e = refl
at_end_nil (c ∷ []) h e =
    absurd (h [] (ap (λ d. d ∷ []) (let k : eqb c 10 ≡ true = ground arith in (eqb_iff c 10).0 k)))
at_end_nil (c ∷ d ∷ s) h e = ground arith

star_end-All :
    (p : ℕ → Bool) (s : Text) → NoNewline s → star_end p s ≡ true → All (λ c. p c ≡ true) s
unfolding star_end
star_end-All p [] h e = tt
star_end-All p (c ∷ s) h e = elim (Bool-cases (p c)) [
  | inl k ↦ (k, star_end-All p s (tail-NoNewline c s h) (rw k at e))
  | inr k ↦ let n = at_end_nil (c ∷ s) h (rw k at e) in cc
]

All-star_end : (p : ℕ → Bool) (s : Text) → All (λ c. p c ≡ true) s → star_end p s ≡ true
unfolding star_end
All-star_end p [] h = refl
All-star_end p (c ∷ s) h = rw h.0 (All-star_end p s h.1)

-- A text of one `p` and then any number of `q`.
unfoldable pub IsName : (ℕ → Bool) → (ℕ → Bool) → Text → Type 0
IsName p q r = (c : ℕ) × (s : Text) × (r ≡ c ∷ s) × (p c ≡ true) × All (λ d. q d ≡ true) s

pub name_match_iff :
    (p q : ℕ → Bool) (s : Text) → NoNewline s → (name_match p q s ≡ true) ↔ IsName p q s
unfolding name_match IsName
name_match_iff p q [] h = (λ e. cc, λ k. let (c, s, e, first, rest) = k in cc)
name_match_iff p q (c ∷ s) h = (
  λ e.
      let one : p c ≡ true = ground arith in
      let two : star_end q s ≡ true = ground arith in
      (c, s, refl, one, star_end-All q s (tail-NoNewline c s h) two),
  λ k.
      let (d, t, e, first, rest) = k in
      let heads : c ≡ d = cc in
      let tails : s ≡ t = cc in
      let one : p c ≡ true = rw heads first in
      let two = All-star_end q s (subst (λ x. All (λ d. q d ≡ true) x) (sym tails) rest) in
      ground (arith, one, two),
)

pub some_text : {a b : Text} → some a ≡ some b → a ≡ b
some_text e = cc

-- What a validator accepts, where its pattern means `Spec`.
pub validate_text_iff :
    (max_length : ℕ) (pattern : Text → Bool) (Spec : Text → Type 0)
    → ((s : Text) → NoNewline s → (pattern s ≡ true) ↔ Spec s)
    → ¬ Spec []
    → (value : Option Text) (r : Text)
    → (validate_text max_length pattern value ≡ some r)
      ↔ ((t : Text) × (value ≡ some t) × (r ≡ strip t) × (length r ≤ max_length) × Spec r)
unfolding validate_text
validate_text_iff n pattern Spec same empty none r = (λ e. cc, λ h. let f = h.1 in cc)
validate_text_iff n pattern Spec same empty (some []) r = (
  λ e. cc,
  λ h.
      let (t, e, f, bound, spec) = h in
      absurd (empty (subst Spec (f ∙ ap strip (sym (some_text e))) spec)),
)
validate_text_iff n pattern Spec same empty (some (c ∷ s)) r = (
  λ e. elim (Bool-cases (ltb n (length (strip (c ∷ s))))) [
    | inl long ↦ let f = rw long at e in cc
    | inr short ↦ elim (Bool-cases (pattern (strip (c ∷ s)))) [
      | inr k ↦ let f = rw (short, k) at e in cc
      | inl k ↦
          let f : strip (c ∷ s) ≡ r = some_text (rw (short, k) at e) in
          let bound : length (strip (c ∷ s)) ≤ n = ground arith in
          (
            c ∷ s,
            refl,
            sym f,
            subst (λ x. length x ≤ n) f bound,
            subst Spec f ((same (strip (c ∷ s)) (strip-NoNewline (c ∷ s))).0 k),
          )
    ]
  ],
  λ h.
      let (t, e, f, bound, spec) = h in
      let g : r ≡ strip (c ∷ s) = f ∙ ap strip (sym (some_text e)) in
      let bound : length (strip (c ∷ s)) ≤ n = subst (λ x. length x ≤ n) g bound in
      let short : ltb n (length (strip (c ∷ s))) ≡ false = ground arith in
      let k = (same (strip (c ∷ s)) (strip-NoNewline (c ∷ s))).1 (subst Spec g spec) in
      rw (short, k) (ap (λ x. some x) (sym g)),
)

-- `f` accepts a text exactly when it is, stripped, of at most `max_length` characters, the first
-- of them a `p` and all others a `q`, and then returns it stripped.
unfoldable pub Accepts : (Option Text → Option Text) → ℕ → (ℕ → Bool) → (ℕ → Bool) → Type 0
Accepts f max_length p q =
    (value : Option Text) (r : Text)
    → (f value ≡ some r)
      ↔ ((t : Text) × (value ≡ some t) × (r ≡ strip t) × (length r ≤ max_length) × IsName p q r)

IsName-cons : (p q : ℕ → Bool) → ¬ IsName p q []
unfolding IsName
IsName-cons p q (c, s, e, first, rest) = cc

validate_name_iff :
    (n : ℕ) (p q : ℕ → Bool) → Accepts (λ v. validate_text n (name_match p q) v) n p q
unfolding Accepts
validate_name_iff n p q value r =
    validate_text_iff n (name_match p q) (IsName p q) (λ s h. name_match_iff p q s h)
      (IsName-cons p q) value r

pub Accepts-IsName :
    (f : Option Text → Option Text) (n : ℕ) (p q : ℕ → Bool)
    → Accepts f n p q
    → (value : Option Text) (r : Text) → f value ≡ some r
    → IsName p q r
unfolding Accepts
Accepts-IsName f n p q h value r e = let (t, same, stripped, bound, name) = (h value r).0 e in name

-- The validators of names accept exactly the texts that have, without spaces at both ends, a first
-- character and other characters of their classes and no more than their length, although a `$` in
-- Python also matches before a newline at the end; and they return the text without those spaces.
pub validate_names_iff :
    Accepts validate_project_name 256 is_alnum name_char
    × Accepts validate_project_group 256 is_alnum name_char
    × Accepts validate_version_name 128 is_alnum version_char
    × Accepts validate_defect_id 128 is_alnum name_char
    × Accepts validate_schema_name 128 is_lower schema_char
    × Accepts validate_username 255 is_alnum username_char
    × ((max_len : ℕ) → Accepts (λ v. validate_search_term v max_len) max_len is_alnum search_char)
unfolding validate_project_name validate_project_group validate_version_name validate_defect_id
    validate_schema_name validate_username validate_search_term
validate_names_iff = (
  validate_name_iff 256 is_alnum name_char,
  validate_name_iff 256 is_alnum name_char,
  validate_name_iff 128 is_alnum version_char,
  validate_name_iff 128 is_alnum name_char,
  validate_name_iff 128 is_lower schema_char,
  validate_name_iff 255 is_alnum username_char,
  λ max_len. validate_name_iff max_len is_alnum search_char,
)
