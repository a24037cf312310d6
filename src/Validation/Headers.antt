-- ===== src/Validation/Headers.antt =====
-- `sanitize_content_disposition`, and the query strings of `build_url_params`. The escaping of
-- `urlencode` is a parameter.
pub mod Clean
pub mod Query
use sbom_graph.Prelude.{
  ℕ, Bool, true, false, ◌||◌, Option, none, some, List, [], ◌∷◌, ◌++◌, if◌then◌else◌, eqb, map,
}
use sbom_graph.Text.{Text, codes, eq_text}
use sbom_graph.Validation.{eq_nil}

-- `s.replace(c, "")`, of one character.
unfoldable pub remove_char : ℕ → Text → Text
remove_char c [] = []
remove_char c (d ∷ s) = let rest = remove_char c s in if eqb d c then rest else d ∷ rest

unfoldable pub replace_char : ℕ → ℕ → Text → Text
replace_char c by [] = []
replace_char c by (d ∷ s) = let rest = replace_char c by s in (if eqb d c then by else d) ∷ rest

unfoldable pub sanitized : Text → Text
unfolding remove_char replace_char
sanitized filename = replace_char b'"' 39 (remove_char 0 (remove_char 10 (remove_char 13 filename)))

unfoldable pub sanitize_content_disposition : Text → Text
unfolding sanitized
sanitize_content_disposition filename =
    codes "inline; filename=" ++ b'"' ∷ (sanitized filename ++ b'"' ∷ [])

-- What a page passes on: the parameters of `build_url_params`, numbers already printed.
pub record UrlParams : Type 0 where
  pub format : Option Text
  pub limit : Option Text
  pub max_depth : Option Text
  pub internal_only : Bool
  pub longest_only : Bool
  pub latest_only : Bool
  pub vex_filter : Option Text
  pub defect_id_match : Option Text
  pub name : Option Text

-- `if value: params[key] = value`
unfoldable pub with_text : Text → Option Text → List (Text × Text)
with_text key none = []
with_text key (some []) = []
with_text key (some (c ∷ s)) = (key, c ∷ s) ∷ []

-- `if value is not None: params[key] = value`
unfoldable pub with_given : Text → Option Text → List (Text × Text)
with_given key none = []
with_given key (some s) = (key, s) ∷ []

unfoldable pub with_flag : Text → Bool → Text → List (Text × Text)
with_flag key flag value = if flag then (key, value) ∷ [] else []

-- The filter, unless it is `all`.
unfoldable pub with_filter : Option Text → List (Text × Text)
unfolding with_text eq_text
with_filter none = []
with_filter (some s) =
    if eq_text s (codes "all") then [] else with_text (codes "vex_filter") (some s)

unfoldable pub url_params : UrlParams → List (Text × Text)
unfolding with_text with_given with_flag with_filter
url_params p =
    with_text (codes "format") p.format
    ++ (with_given (codes "limit") p.limit
        ++ (with_given (codes "max_depth") p.max_depth
            ++ (with_flag (codes "internal_only") p.internal_only (codes "true")
                ++ (with_flag (codes "longest_only") (if p.longest_only then false else true)
                      (codes "false")
                    ++ (with_flag (codes "latest_only") p.latest_only (codes "true")
                        ++ (with_filter p.vex_filter
                            ++ (with_text (codes "defect_id_match") p.defect_id_match
                                ++ with_text (codes "name") p.name)))))))

module _ (quote_plus : Text → Text) where
  unfoldable pub pair_text : Text × Text → Text
  pair_text (key, value) = quote_plus key ++ b'=' ∷ quote_plus value

  -- `urlencode(params)`: the pairs with `&` between them.
  unfoldable pub urlencode : List (Text × Text) → Text
  unfolding pair_text
  urlencode [] = []
  urlencode (pair ∷ []) = pair_text pair
  urlencode (pair ∷ next ∷ pairs) = pair_text pair ++ b'&' ∷ urlencode (next ∷ pairs)

  unfoldable pub build_url_params : UrlParams → Text
  unfolding url_params urlencode
  build_url_params p = urlencode (url_params p)

  unfoldable pub build_url_with_params : Text → UrlParams → Text
  unfolding build_url_params eq_nil
  build_url_with_params base_url p =
      if eq_nil (build_url_params p) then base_url else base_url ++ b'?' ∷ build_url_params p
