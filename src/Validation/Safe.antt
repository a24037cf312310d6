-- ===== src/Validation/Safe.antt =====
-- What the validators of names, identifiers and package URLs keep out.
use sbom_graph.Prelude.{
  ℕ, ◌≡◌, refl, sym, subst, Bool, true, false, ◌||◌, Option, some, List, [], ◌∷◌, arith, leb, eqb,
  Bool-cases, inl, inr, All, All-map, All-In, In,
}
use sbom_graph.Text.{Text, codes, has_char, eq_text, eq_text_iff}
use sbom_graph.Validation.{
  is_lower, is_upper, is_alnum, is_hex, name_match, purl_type_char, purl_path_char, purl_tail,
  purl_pattern, validate_purl, name_char, version_char, schema_char, username_char, uuid_match,
  validate_text, validate_project_name, validate_version_name, validate_defect_id,
  validate_project_group, validate_schema_name, validate_username, validate_annotation_id,
  validate_record_id,
}
use sbom_graph.Validation.Names.{
  NoNewline, tail-NoNewline, name_match_iff, validate_text_iff, IsName, Accepts, Accepts-IsName,
  validate_names_iff,
}
use sbom_graph.Validation.Runs.{IsRuns, IsRuns-All, IsRuns-first, uuid_runs, validate_uuid_iff}

-- The controls and the space, quotes, `#`, `%`, `&`, `/`, `;`, `<`, `>`, `?`, the backslash, and what is not ASCII.
unfoldable pub is_unsafe : ℕ → Bool
is_unsafe c =
    leb c 32
    || eqb c b'"'
    || eqb c 39
    || eqb c b'#'
    || eqb c b'%'
    || eqb c b'&'
    || eqb c b'/'
    || eqb c b';'
    || eqb c b'<'
    || eqb c b'>'
    || eqb c b'?'
    || eqb c 92
    || leb 127 c

abbrev IsSafe : ℕ → Type 0
IsSafe c = is_unsafe c ≡ false

alnum-IsSafe : (c : ℕ) → is_alnum c ≡ true → IsSafe c
unfolding is_alnum is_unsafe
alnum-IsSafe c h = ground arith

name-IsSafe : (c : ℕ) → name_char c ≡ true → IsSafe c
unfolding name_char is_unsafe
name-IsSafe c h = ground arith

lower_alnum : (c : ℕ) → is_lower c ≡ true → is_alnum c ≡ true
unfolding is_alnum
lower_alnum c h = rw h refl

hex_alnum : (c : ℕ) → is_hex c ≡ true → is_alnum c ≡ true
unfolding is_hex is_alnum
hex_alnum c h = ground arith

username-IsSafe : (c : ℕ) → username_char c ≡ true → IsSafe c
unfolding username_char is_unsafe
username-IsSafe c h = ground arith

version-IsSafe : (c : ℕ) → version_char c ≡ true → IsSafe c
unfolding version_char is_unsafe
version-IsSafe c h = ground arith

schema-IsSafe : (c : ℕ) → schema_char c ≡ true → IsSafe c
unfolding schema_char is_unsafe
schema-IsSafe c h = ground arith

hex-IsSafe : (c : ℕ) → is_hex c ≡ true → IsSafe c
unfolding is_hex is_unsafe
hex-IsSafe c h = ground arith

-- The fewer of a package URL, which may have `%`, `&`, `'`, `/` and `;`.
unfoldable pub is_unsafe_in_purl : ℕ → Bool
is_unsafe_in_purl c =
    leb c 32
    || eqb c b'"'
    || eqb c b'#'
    || eqb c b'<'
    || eqb c b'>'
    || eqb c b'?'
    || eqb c 92
    || leb 127 c

type-IsSafe : (c : ℕ) → purl_type_char c ≡ true → is_unsafe_in_purl c ≡ false
unfolding purl_type_char version_char name_char is_unsafe_in_purl
type-IsSafe c h = ground arith

letter-IsSafe : (c : ℕ) → (is_lower c || is_upper c) ≡ true → is_unsafe_in_purl c ≡ false
unfolding is_lower is_upper is_unsafe_in_purl
letter-IsSafe c h = ground arith

path-IsSafe : (c : ℕ) → purl_path_char c ≡ true → is_unsafe_in_purl c ≡ false
unfolding purl_path_char name_char has_char is_unsafe_in_purl
path-IsSafe c h = ground arith

-- None of the unsafe characters, and the first a letter or digit.
unfoldable pub IsPlain : (ℕ → Bool) → Text → Type 0
IsPlain unsafe r =
    All (λ c. unsafe c ≡ false) r × ((c : ℕ) × (s : Text) × (r ≡ c ∷ s) × (is_alnum c ≡ true))

unfoldable Keeps : (Option Text → Option Text) × (ℕ → Bool) → Type 0
Keeps (f, unsafe) = (value : Option Text) (r : Text) → f value ≡ some r → IsPlain unsafe r

purl_tail-All :
    (s : Text) → NoNewline s → purl_tail s ≡ true → All (λ c. is_unsafe_in_purl c ≡ false) s
unfolding purl_tail IsName
purl_tail-All [] h e = tt
purl_tail-All (c ∷ s) h e = elim (Bool-cases (purl_type_char c)) [
  | inl k ↦ (type-IsSafe c k, purl_tail-All s (tail-NoNewline c s h) (rw k at e))
  | inr k ↦
      let g = rw k at e in
      let slash : eqb c b'/' ≡ true = ground arith in
      let matched : name_match purl_path_char purl_path_char s ≡ true = ground arith in
      let (d, t, same, first, rest) =
        (name_match_iff purl_path_char purl_path_char s (tail-NoNewline c s h)).0 matched in
      (
        unfold is_unsafe_in_purl in ground (arith, slash),
        subst (λ x. All (λ c. is_unsafe_in_purl c ≡ false) x) (sym same)
            (
              path-IsSafe d first,
              All-map (λ c. purl_path_char c ≡ true) (λ c. is_unsafe_in_purl c ≡ false) t
                  (λ c p. path-IsSafe c p) rest,
            ),
      )
]

purl_pattern-IsPlain :
    (s : Text) → NoNewline s → purl_pattern s ≡ true → IsPlain is_unsafe_in_purl s
unfolding purl_pattern IsPlain is_unsafe_in_purl is_alnum
purl_pattern-IsPlain (a ∷ b ∷ c ∷ d ∷ k ∷ s) h e =
    let scheme : eq_text (a ∷ b ∷ c ∷ d ∷ []) (codes "pkg:") ≡ true = ground arith in
    let letter : (is_lower k || is_upper k) ≡ true = ground arith in
    let tail : purl_tail s ≡ true = ground arith in
    let same = (eq_text_iff (a ∷ b ∷ c ∷ d ∷ []) (codes "pkg:")).0 scheme in
    let one : a ≡ b'p' = cc in
    let two : b ≡ b'k' = cc in
    let three : c ≡ b'g' = cc in
    let four : d ≡ b':' = cc in
    let rest =
      tail-NoNewline k s
        (tail-NoNewline d _ (tail-NoNewline c _ (tail-NoNewline b _ (tail-NoNewline a _ h)))) in
    (
      rw (one, two, three, four)
          (refl, (refl, (refl, (refl, (letter-IsSafe k letter, purl_tail-All s rest tail))))),
      (a, b ∷ c ∷ d ∷ k ∷ s, refl, rw one refl),
    )
purl_pattern-IsPlain [] h e = absurd cc
purl_pattern-IsPlain (a ∷ []) h e = absurd cc
purl_pattern-IsPlain (a ∷ b ∷ []) h e = absurd cc
purl_pattern-IsPlain (a ∷ b ∷ c ∷ []) h e = absurd cc
purl_pattern-IsPlain (a ∷ b ∷ c ∷ d ∷ []) h e = absurd cc

purl-Keeps : Keeps (validate_purl, is_unsafe_in_purl)
unfolding Keeps validate_purl purl_pattern
purl-Keeps value r e =
    let (t, given, stripped, bound, (matched, plain)) =
      (validate_text_iff 1024 purl_pattern
          (λ s. (purl_pattern s ≡ true) × IsPlain is_unsafe_in_purl s)
          (λ s h. (λ k. (k, purl_pattern-IsPlain s h k), λ k. k.0)) (λ k. let m = k.0 in cc) value
          r).0
        e in
    plain

name-Keeps :
    (f : Option Text → Option Text) (n : ℕ) (p q : ℕ → Bool)
    → Accepts f n p q
    → ((c : ℕ) → p c ≡ true → is_alnum c ≡ true)
    → ((c : ℕ) → q c ≡ true → is_unsafe c ≡ false)
    → Keeps (f, is_unsafe)
unfolding Keeps IsPlain IsName
name-Keeps f n p q h first rest value r e =
    let (c, s, same, k, all) = Accepts-IsName f n p q h value r e in
    (
      subst (λ t. All (λ d. is_unsafe d ≡ false) t) (sym same)
          (
            alnum-IsSafe c (first c k),
            All-map (λ d. q d ≡ true) (λ d. is_unsafe d ≡ false) s rest all,
          ),
      (c, s, same, first c k),
    )

uuid-Keeps : Keeps (λ value. validate_text 64 uuid_match value, is_unsafe)
unfolding Keeps IsPlain IsRuns is_unsafe is_hex is_alnum
uuid-Keeps value r e =
    let (t, given, stripped, bound, runs) = (validate_uuid_iff value r).0 e in
    (
      IsRuns-All is_hex (λ c. is_unsafe c ≡ false) hex-IsSafe refl uuid_runs r runs,
      let (c, s, same, k) = IsRuns-first is_hex 7 4 (4 ∷ 4 ∷ 12 ∷ []) r runs in
          (c, s, same, hex_alnum c k),
    )

-- The validators of names, of identifiers and of package URLs, each with the characters that it keeps
-- out.
abbrev pub identifier_validators : List ((Option Text → Option Text) × (ℕ → Bool))
identifier_validators =
    (validate_project_name, is_unsafe)
    ∷ (validate_project_group, is_unsafe)
    ∷ (validate_version_name, is_unsafe)
    ∷ (validate_defect_id, is_unsafe)
    ∷ (validate_schema_name, is_unsafe)
    ∷ (validate_username, is_unsafe)
    ∷ (validate_annotation_id, is_unsafe)
    ∷ (validate_record_id, is_unsafe)
    ∷ (validate_purl, is_unsafe_in_purl)
    ∷ []

-- What the validators of project names, project groups, versions, defects, schemas, usernames,
-- annotation ids, record ids and package URLs accept begins with an ASCII letter or digit, and has no
-- control character, space, double quote, `#`, `<`, `>`, `?` or backslash, and nothing that is not
-- ASCII; but for the package URLs it has no single quote, `%`, `&`, `/` or `;` either.
pub identifier_validators-IsPlain :
    (f : Option Text → Option Text) (unsafe : ℕ → Bool)
    → In (f, unsafe) identifier_validators
    → (value : Option Text) (r : Text) → f value ≡ some r
    → IsPlain unsafe r
unfolding Keeps validate_annotation_id validate_record_id
identifier_validators-IsPlain f unsafe m =
    let (project, group, version, defect, schema, user, search) = validate_names_iff in
    let dots : (c : ℕ) → name_char c ≡ true → is_unsafe c ≡ false = λ c h. name-IsSafe c h in
    All-In Keeps (f, unsafe) identifier_validators
      (
        name-Keeps validate_project_name 256 is_alnum name_char project (λ c h. h) dots,
        (
          name-Keeps validate_project_group 256 is_alnum name_char group (λ c h. h) dots,
          (
            name-Keeps validate_version_name 128 is_alnum version_char version (λ c h. h)
                version-IsSafe,
            (
              name-Keeps validate_defect_id 128 is_alnum name_char defect (λ c h. h) dots,
              (
                name-Keeps validate_schema_name 128 is_lower schema_char schema lower_alnum
                    schema-IsSafe,
                (
                  name-Keeps validate_username 255 is_alnum username_char user (λ c h. h)
                      username-IsSafe,
                  (uuid-Keeps, (uuid-Keeps, (purl-Keeps, tt))),
                ),
              ),
            ),
          ),
        ),
      )
      m
