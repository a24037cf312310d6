-- ===== src/Validation/Redirects.antt =====
-- Where the login may send a browser: `is_safe_redirect_url` and `get_safe_redirect_url`, and
-- `validate_url`. `urlparse` is a parameter, and so is the address that `url_for` gives.
pub mod Local
use sbom_graph.Prelude.{
  ℕ, Bool, true, false, ◌&&◌, ◌||◌, not, Option, none, some, List, [], ◌∷◌, ◌++◌, if◌then◌else◌,
  ltb, eqb, length,
}
use sbom_graph.Text.{
  Text, codes, eq_text, member_text, has_char, has_text, starts_with, strip, split, Unicode,
}
use sbom_graph.Validation.{max_url_length, eq_nil}

pub record ParsedUrl : Type 0 where
  pub scheme : Text
  pub netloc : Text
  pub path : Text
  pub query : Text

abbrev pub dangerous_patterns : List Text
dangerous_patterns =
    codes "@" ∷ (13 ∷ []) ∷ (10 ∷ []) ∷ (9 ∷ []) ∷ codes "%00" ∷ codes "%0a" ∷ codes "%0d" ∷ []

-- `any(pattern in s for pattern in patterns)`
unfoldable pub any_in : List Text → Text → Bool
unfolding has_text
any_in [] s = false
any_in (pattern ∷ patterns) s = has_text pattern s || any_in patterns s

module _ (u : Unicode) (urlparse : Text → Option ParsedUrl) where
  -- The tests of a parsed address.
  unfoldable pub is_safe_parsed : Text → ParsedUrl → Bool
  unfolding eq_nil starts_with has_char member_text split any_in
  is_safe_parsed url parsed =
      if not (eq_nil parsed.scheme) || not (eq_nil parsed.netloc)
      then false
      else if not (starts_with parsed.path (codes "/"))
          || starts_with parsed.path (codes "//")
          || starts_with parsed.path (b'/' ∷ 92 ∷ [])
      then false
      else if has_char 92 url
      then false
      else if member_text (codes "..") (split b'/' parsed.path)
      then false
      else not (any_in dangerous_patterns (u.lower url))

  -- `none` is the ValueError that `urlparse` raises for some addresses.
  unfoldable pub is_safe_redirect_url : Option Text → Option Bool
  unfolding strip is_safe_parsed
  is_safe_redirect_url none = some false
  is_safe_redirect_url (some []) = some false
  is_safe_redirect_url (some (c ∷ s)) = elim (urlparse (strip (c ∷ s))) [
    | none ↦ none
    | some parsed ↦ some (is_safe_parsed (strip (c ∷ s)) parsed)
  ]

  -- `parsed.path or "/"`
  unfoldable pub safe_path : ParsedUrl → Text
  safe_path parsed = elim parsed.path [ [] ↦ b'/' ∷ [] | c ∷ s ↦ c ∷ s ]

  -- `urlunparse(("", "", path, "", query, ""))`, for a path that does not begin with two slashes.
  unfoldable pub urlunparse : Text → Text → Text
  urlunparse path [] = path
  urlunparse path (c ∷ query) = path ++ b'?' ∷ c ∷ query

  unfoldable pub get_safe_redirect_url : Text → Text → Option Text
  unfolding is_safe_redirect_url safe_path urlunparse strip
  get_safe_redirect_url raw_next_url default_url = elim (is_safe_redirect_url (some raw_next_url)) [
    | none ↦ none
    | some false ↦ some default_url
    | some true ↦ elim (urlparse (strip raw_next_url)) [
      | none ↦ none
      | some parsed ↦ some (urlunparse (safe_path parsed) parsed.query)
    ]
  ]

  -- `^https?://`, in either case; the long s is another case of `s`.
  unfoldable pub url_scheme_match : Text → Bool
  url_scheme_match (h ∷ t ∷ t' ∷ p ∷ s) =
      (eqb h b'h' || eqb h b'H')
      && (eqb t b't' || eqb t b'T')
      && (eqb t' b't' || eqb t' b'T')
      && (eqb p b'p' || eqb p b'P')
      && after_scheme s
    where
      after_scheme : Text → Bool
      after_scheme [] = false
      after_scheme (c ∷ rest) =
          if eqb c b's' || eqb c b'S' || eqb c 383
          then starts_with rest (codes "://")
          else starts_with (c ∷ rest) (codes "://")
  url_scheme_match _ = false

  -- `none` is the exception, `some none` the refusal.
  unfoldable pub validate_url : Option Text → Option (Option Text)
  unfolding strip url_scheme_match eq_nil
  validate_url none = some none
  validate_url (some []) = some none
  validate_url (some (c ∷ s)) =
      let value = strip (c ∷ s) in
      if ltb max_url_length (length value)
      then some none
      else if url_scheme_match value
      then elim (urlparse value) [
        | none ↦ none
        | some parsed ↦ if eq_nil parsed.netloc then some none else some (some value)
      ]
      else some none
