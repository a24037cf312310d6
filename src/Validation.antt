-- ===== src/Validation.antt =====
-- The validation of request parameters: sbom-graph-api/src/sbom_graph_api/utils/validation.py.
-- This file has the validators that test a text against a pattern; the children have the others and
-- the theorems. A pattern is the function that tells whether its `match` succeeds. In a pattern `$`
-- also matches before a newline that ends the text, as in Python.
pub mod Names
pub mod Runs
pub mod Safe
pub mod Parameters
pub mod Redirects
pub mod Headers
pub mod Tests
use sbom_graph.Prelude.{
  ℕ, zero, suc, Bool, true, false, ◌&&◌, ◌||◌, Option, none, some, List, [], ◌∷◌, if◌then◌else◌,
  leb, ltb, eqb, length, map,
}
use sbom_graph.Text.{Text, codes, eq_text, has_char, starts_with, is_space, strip, Unicode}

abbrev pub max_url_length : ℕ
max_url_length = 2048

abbrev pub max_username_length : ℕ
max_username_length = 255

abbrev pub max_defect_id_match_length : ℕ
max_defect_id_match_length = 200

-- `[a-z]`, `[A-Z]`, `[0-9]` and `[a-zA-Z0-9]`
unfoldable pub is_lower : ℕ → Bool
is_lower c = leb b'a' c && leb c b'z'

unfoldable pub is_upper : ℕ → Bool
is_upper c = leb b'A' c && leb c b'Z'

unfoldable pub is_numeral : ℕ → Bool
is_numeral c = leb b'0' c && leb c b'9'

unfoldable pub is_alnum : ℕ → Bool
unfolding is_lower is_upper is_numeral
is_alnum c = is_lower c || is_upper c || is_numeral c

unfoldable pub eq_nil : Text → Bool
eq_nil [] = true
eq_nil (c ∷ s) = false

-- `$`: the end, or a newline that ends the text.
unfoldable pub at_end : Text → Bool
unfolding eq_nil
at_end [] = true
at_end (c ∷ s) = eqb c 10 && eq_nil s

-- `[p]*$`
unfoldable pub star_end : (ℕ → Bool) → Text → Bool
unfolding at_end
star_end p [] = true
star_end p (c ∷ s) = let rest = star_end p s in if p c then rest else at_end (c ∷ s)

-- `^[p][q]*$`
unfoldable pub name_match : (ℕ → Bool) → (ℕ → Bool) → Text → Bool
unfolding star_end
name_match p q [] = false
name_match p q (c ∷ s) = p c && star_end q s

-- `[a-zA-Z0-9._-]`
unfoldable pub name_char : ℕ → Bool
unfolding is_alnum
name_char c = is_alnum c || eqb c b'.' || eqb c b'_' || eqb c b'-'

unfoldable pub version_char : ℕ → Bool
unfolding name_char
version_char c = name_char c || eqb c b'+'

unfoldable pub schema_char : ℕ → Bool
unfolding is_lower is_numeral
schema_char c = is_lower c || is_numeral c || eqb c b'-'

unfoldable pub username_char : ℕ → Bool
unfolding name_char
username_char c = name_char c || eqb c b'@'

unfoldable pub search_char : ℕ → Bool
unfolding name_char is_space
search_char c = name_char c || is_space c

-- The class has a backslash, written twice, beside the hyphen.
unfoldable pub match_filter_char : ℕ → Bool
unfolding name_char
match_filter_char c = name_char c || eqb c b'*' || eqb c b':' || eqb c 92

unfoldable pub purl_type_char : ℕ → Bool
unfolding version_char
purl_type_char c = version_char c

-- `[a-zA-Z0-9._~:@!$&'()*+,;=%/-]`
unfoldable pub purl_path_char : ℕ → Bool
unfolding name_char has_char
purl_path_char c = name_char c || has_char c (codes "~:@!$&'()*+,;=%/")

-- `[a-zA-Z0-9._+-]*/[...]+$`, after the first letter of the type.
unfoldable pub purl_tail : Text → Bool
unfolding purl_type_char purl_path_char name_match
purl_tail [] = false
purl_tail (c ∷ s) =
    let rest = purl_tail s in
    if purl_type_char c then rest else eqb c b'/' && name_match purl_path_char purl_path_char s

unfoldable pub purl_pattern : Text → Bool
unfolding is_lower is_upper purl_tail
purl_pattern (a ∷ b ∷ c ∷ d ∷ e ∷ s) =
    eq_text (a ∷ b ∷ c ∷ d ∷ []) (codes "pkg:") && (is_lower e || is_upper e) && purl_tail s
purl_pattern _ = false

-- `[0-9a-f]`, in either case.
unfoldable pub is_hex : ℕ → Bool
unfolding is_numeral
is_hex c = is_numeral c || leb b'a' c && leb c b'f' || leb b'A' c && leb c b'F'

-- `[p]{n}`: what follows it.
unfoldable pub after_run : (ℕ → Bool) → ℕ → Text → Option Text
after_run p zero s = some s
after_run p (suc n) [] = none
after_run p (suc n) (c ∷ s) = let rest = after_run p n s in if p c then rest else none

-- Runs of the given lengths with a hyphen between them, and `$`.
unfoldable pub runs_match : (ℕ → Bool) → List ℕ → Text → Bool
unfolding after_run at_end
runs_match p [] s = false
runs_match p (n ∷ []) s = elim (after_run p n s) [ none ↦ false | some rest ↦ at_end rest ]
runs_match p (n ∷ m ∷ ns) s = elim (after_run p n s) [
  | none ↦ false
  | some [] ↦ false
  | some (c ∷ rest) ↦ if eqb c b'-' then runs_match p (m ∷ ns) rest else false
]

unfoldable pub uuid_match : Text → Bool
unfolding runs_match is_hex
uuid_match s = runs_match is_hex (8 ∷ 4 ∷ 4 ∷ 4 ∷ 12 ∷ []) s

unfoldable pub is_some : {A : Type 0} → Option A → Bool
is_some none = false
is_some (some a) = true

-- `if not value: return None`, strip, length, pattern: the steps that the validators share.
unfoldable pub validate_text : ℕ → (Text → Bool) → Option Text → Option Text
unfolding strip
validate_text max_length pattern none = none
validate_text max_length pattern (some []) = none
validate_text max_length pattern (some (c ∷ s)) =
    let value = strip (c ∷ s) in
    if ltb max_length (length value) then none else if pattern value then some value else none

unfoldable pub validate_project_name : Option Text → Option Text
unfolding validate_text name_match name_char
validate_project_name value = validate_text 256 (name_match is_alnum name_char) value

unfoldable pub validate_version_name : Option Text → Option Text
unfolding validate_text name_match version_char
validate_version_name value = validate_text 128 (name_match is_alnum version_char) value

unfoldable pub validate_defect_id : Option Text → Option Text
unfolding validate_text name_match name_char
validate_defect_id value = validate_text 128 (name_match is_alnum name_char) value

unfoldable pub validate_project_group : Option Text → Option Text
unfolding validate_text name_match name_char
validate_project_group value = validate_text 256 (name_match is_alnum name_char) value

unfoldable pub validate_schema_name : Option Text → Option Text
unfolding validate_text name_match schema_char
validate_schema_name value = validate_text 128 (name_match is_lower schema_char) value

unfoldable pub validate_username : Option Text → Option Text
unfolding validate_text name_match username_char
validate_username value =
    validate_text max_username_length (name_match is_alnum username_char) value

unfoldable pub validate_search_term : Option Text → ℕ → Option Text
unfolding validate_text name_match search_char
validate_search_term value max_len = validate_text max_len (name_match is_alnum search_char) value

-- Both tests `not raw` and `raw == "*"` come before the pattern; the first is part of the pattern.
unfoldable pub validate_defect_id_match_filter : Option Text → Option Text
unfolding validate_text name_match match_filter_char eq_text
validate_defect_id_match_filter value =
    validate_text max_defect_id_match_length
      (λ raw.
        if eq_text raw (codes "*")
        then false
        else name_match match_filter_char match_filter_char raw)
      value

unfoldable pub validate_purl : Option Text → Option Text
unfolding validate_text purl_pattern
validate_purl value = validate_text 1024 purl_pattern value

unfoldable pub validate_annotation_id : Option Text → Option Text
unfolding validate_text uuid_match
validate_annotation_id value = validate_text 64 uuid_match value

unfoldable pub validate_record_id : Option Text → Option Text
unfolding validate_text uuid_match
validate_record_id value = validate_text 64 uuid_match value

-- `[0-9]` here is any decimal digit of Unicode.
unfoldable pub validate_date_param : Unicode → Option Text → Option Text
unfolding strip runs_match
validate_date_param u none = none
validate_date_param u (some []) = none
validate_date_param u (some (c ∷ s)) =
    let val = strip (c ∷ s) in
    if runs_match (λ d. is_some (u.digit d)) (4 ∷ 2 ∷ 2 ∷ []) val then some val else none

unfoldable pub defect_id_match_uses_glob : Text → Bool
unfolding strip has_char
defect_id_match_uses_glob match = has_char b'*' (strip match)

unfoldable pub defect_id_match_prefix_for_starts_with : Unicode → Text → Text
unfolding strip
defect_id_match_prefix_for_starts_with u match = u.lower (strip match)
