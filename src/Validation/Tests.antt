-- ===== src/Validation/Tests.antt =====
-- Requests as they come in, for the ASCII part of Unicode, and the theorems about their validation.
use sbom_graph.Prelude.{
  ℕ, ◌+◌, ◌-◌, ◌<◌, ◌≡◌, ◌⊎◌, inl, inr, refl, sym, subst, true, false, ◌&&◌, Option, none, some, [],
  ◌∷◌, ◌++◌, map, arith, leb, if◌then◌else◌, In, length,
}
use sbom_graph.Text.{Text, codes, strip, Unicode}
use sbom_graph.Validation.{
  validate_project_name, validate_username, validate_defect_id_match_filter, validate_purl,
  validate_annotation_id, validate_date_param,
}
use sbom_graph.Validation.Safe.{is_unsafe, IsPlain, identifier_validators-IsPlain}
use sbom_graph.Validation.Parameters.{
  pos, negsuc, text, int_of, validate_int_param, validate_page, validate_css_dimension,
  validate_boolean, validate_format,
}
use sbom_graph.Validation.Redirects.{ParsedUrl, get_safe_redirect_url}
use sbom_graph.Validation.Redirects.Local.{IsLocal, get_safe_redirect_url-IsLocal}
use sbom_graph.Validation.Headers.{UrlParams, build_url_params, sanitize_content_disposition}
use sbom_graph.Validation.Headers.Clean.{count_char, sanitize_content_disposition_lem}

-- The letters and digits of ASCII.
abbrev pub lower_char : ℕ → ℕ
lower_char c = if leb 65 c && leb c 90 then c + 32 else c

abbrev pub ascii : Unicode
ascii = record {
  lower = map lower_char;
  digit = λ c. if leb 48 c && leb c 57 then some (c - 48) else none;
}

program : Unit {0}
unfolding strip validate_project_name validate_username validate_defect_id_match_filter
    validate_purl validate_annotation_id validate_date_param int_of validate_int_param validate_page
    validate_css_dimension validate_boolean validate_format get_safe_redirect_url build_url_params
    sanitize_content_disposition
program = tt

-- The newline at the end is stripped, the one inside is not accepted, nor is a path.
name_run :
    (validate_project_name (some (codes " acme-api.2" ++ 10 ∷ [])) ≡ some (codes "acme-api.2"))
    × (validate_project_name (some (codes "acme" ++ 10 ∷ codes "x")) ≡ none)
    × (validate_project_name (some (codes "../etc")) ≡ none)
    × (validate_username (some (codes "ann@acme.org")) ≡ some (codes "ann@acme.org"))
unfolding program
name_run = (refl, refl, refl, refl)

-- A package URL with qualifiers is refused, and a backslash passes the filter of defects.
purl_run :
    (validate_purl (some (codes "pkg:npm/%40a/b@1.0")) ≡ some (codes "pkg:npm/%40a/b@1.0"))
    × (validate_purl (some (codes "pkg:npm/b@1.0?os=linux")) ≡ none)
    × (validate_defect_id_match_filter (some (codes "CVE-*" ++ 92 ∷ []))
        ≡ some (codes "CVE-*" ++ 92 ∷ []))
unfolding program
purl_run = (refl, refl, refl)

-- An identifier of version 1 passes as well.
uuid_run :
    validate_annotation_id (some (codes "2C5EA4C0-4067-11e9-8bad-9b1deb4d3b7d"))
    ≡ some (codes "2C5EA4C0-4067-11e9-8bad-9b1deb4d3b7d")
unfolding program
uuid_run = refl

int_run :
    (int_of ascii (text (codes " -1_0 ")) ≡ some (negsuc 9))
    × (int_of ascii (text (codes "1__0")) ≡ none)
    × (validate_page ascii (text (codes "0")) (pos 1) ≡ pos 1)
    × (validate_page ascii (text (codes "+7")) (pos 1) ≡ pos 7)
unfolding program
int_run = (refl, refl, refl, refl)

css_run :
    (validate_css_dimension ascii (codes " 50EM ") (codes "800px") ≡ codes "50em")
    × (validate_css_dimension ascii (codes "10001px") (codes "800px") ≡ codes "800px")
    × (validate_css_dimension ascii (codes "Auto") (codes "800px") ≡ codes "auto")
    × (validate_boolean ascii (some (codes "TRUE")) false ≡ true)
    × (validate_format ascii (some (codes "Excel")) (codes "html") ≡ codes "excel")
unfolding program
css_run = (refl, refl, refl, refl, refl)

header_run :
    sanitize_content_disposition (codes "a" ++ 13 ∷ 10 ∷ b'"' ∷ codes "b")
    ≡ codes "inline; filename=" ++ b'"' ∷ (codes "a'b" ++ b'"' ∷ [])
unfolding program
header_run = refl

identifier_validators-IsPlain_example : IsPlain is_unsafe (codes "acme-api.2")
identifier_validators-IsPlain_example =
    identifier_validators-IsPlain validate_project_name is_unsafe (inl refl)
      (some (codes " acme-api.2" ++ 10 ∷ [])) (codes "acme-api.2") name_run.0

sanitize_content_disposition_lem_example :
    (count_char 13 (sanitize_content_disposition (codes "a" ++ 13 ∷ b'"' ∷ [])) ≡ 0)
    × (count_char 10 (sanitize_content_disposition (codes "a" ++ 13 ∷ b'"' ∷ [])) ≡ 0)
    × (count_char 0 (sanitize_content_disposition (codes "a" ++ 13 ∷ b'"' ∷ [])) ≡ 0)
    × (count_char 34 (sanitize_content_disposition (codes "a" ++ 13 ∷ b'"' ∷ [])) ≡ 2)
    × (length (sanitize_content_disposition (codes "a" ++ 13 ∷ b'"' ∷ []))
          + (count_char 13 (codes "a" ++ 13 ∷ b'"' ∷ [])
              + (count_char 10 (codes "a" ++ 13 ∷ b'"' ∷ [])
                  + count_char 0 (codes "a" ++ 13 ∷ b'"' ∷ [])))
        ≡ length (codes "a" ++ 13 ∷ b'"' ∷ []) + 19)
sanitize_content_disposition_lem_example =
    sanitize_content_disposition_lem (codes "a" ++ 13 ∷ b'"' ∷ [])

-- An escaping that moves every character out of ASCII.
abbrev escape : Text → Text
escape s = map (λ c. c + 200) s

abbrev unescape : Text → Text
unescape s = map (λ c. c - 200) s

abbrev filters : UrlParams
filters = record {
  format = some (codes "json");
  limit = none;
  max_depth = some (codes "3");
  internal_only = true;
  longest_only = true;
  latest_only = false;
  vex_filter = some (codes "all");
  defect_id_match = some (codes "CVE&x=1");
  name = some [];
}

-- A parser of paths.
abbrev parse_path : Text → Option ParsedUrl
parse_path t = some (record { scheme = []; netloc = []; path = t; query = [] })

parse_chars :
    (t : Text) (p : ParsedUrl)
    → parse_path t ≡ some p
    → (c : ℕ) → In c p.path ⊎ In c p.query
    → In c t
parse_chars t p e c m =
    let same : record { scheme = []; netloc = []; path = t; query = [] } ≡ p = cc in
    elim (subst (λ q. In c q.path ⊎ In c q.query) (sym same) m) [ inl k ↦ k | inr k ↦ elim k [ ] ]

lower_keeps : (c : ℕ) (t : Text) → c < 65 → In c t → In c (ascii.lower t)
lower_keeps c [] h m = elim m [ ]
lower_keeps c (d ∷ t) h (inl e) = inl (ground (arith, h, e))
lower_keeps c (d ∷ t) h (inr m) = inr (lower_keeps c t h m)

redirect_run :
    (get_safe_redirect_url ascii parse_path (codes "/reports") (codes "/")
      ≡ some (codes "/reports"))
    × (get_safe_redirect_url ascii parse_path (codes "//evil.org") (codes "/") ≡ some (codes "/"))
    × (get_safe_redirect_url ascii parse_path (codes "/a/../b") (codes "/") ≡ some (codes "/"))
unfolding program
redirect_run = (refl, refl, refl)

get_safe_redirect_url-IsLocal_example : (codes "/reports" ≡ codes "/") ⊎ IsLocal (codes "/reports")
get_safe_redirect_url-IsLocal_example =
    get_safe_redirect_url-IsLocal ascii parse_path parse_chars lower_keeps (codes "/reports")
      (codes "/") (codes "/reports") redirect_run.0
