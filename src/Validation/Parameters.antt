-- ===== src/Validation/Parameters.antt =====
-- The validators of numbers and of choices from a list. `float` is a parameter.
pub mod Bounds
use sbom_graph.Prelude.{
  ℕ, zero, suc, ◌+◌, ◌*◌, Bool, true, false, ◌&&◌, ◌||◌, not, Option, none, some, List, [], ◌∷◌,
  if◌then◌else◌, leb, ltb, eqb, length, map,
}
use sbom_graph.Text.{Text, codes, eq_text, member_text, strip, Unicode}
use sbom_graph.Validation.{at_end, eq_nil, is_some}

abbrev pub max_depth_allowed : ℕ
max_depth_allowed = 100

abbrev pub max_limit : ℕ
max_limit = 100000

abbrev pub max_page_size : ℕ
max_page_size = 1000

abbrev pub max_result_window : ℕ
max_result_window = 1000000

abbrev pub max_dimension_value : ℕ
max_dimension_value = 10000

pub data ℤ : Type 0 where
  pos : ℕ → ℤ
  -- `negsuc n` is `-(n + 1)`.
  negsuc : ℕ → ℤ

-- `a < b`
unfoldable pub ltb_int : ℤ → ℤ → Bool
ltb_int (pos a) (pos b) = ltb a b
ltb_int (pos a) (negsuc b) = false
ltb_int (negsuc a) (pos b) = true
ltb_int (negsuc a) (negsuc b) = ltb b a

-- What comes in: nothing, a number, or a text.
pub data Input : Type 0 where
  absent : Input
  number : ℤ → Input
  text : Text → Input

module _ (u : Unicode) where
  -- Decimal digits with single underscores between them: their number and their value, if `s` is
  -- that. The flag says that a digit must come next.
  unfoldable pub int_digits : Bool → ℕ → ℕ → Text → Option (ℕ × ℕ)
  int_digits true count acc [] = none
  int_digits false count acc [] = some (count, acc)
  int_digits true count acc (c ∷ s) = elim (u.digit c) [
    | none ↦ none
    | some d ↦ int_digits false (suc count) (acc * 10 + d) s
  ]
  int_digits false count acc (c ∷ s) = elim (u.digit c) [
    | none ↦ if eqb c b'_' then int_digits true count acc s else none
    | some d ↦ int_digits false (suc count) (acc * 10 + d) s
  ]

  -- Python refuses to convert more digits than 4300.
  unfoldable pub int_value : Text → Option ℕ
  unfolding int_digits
  int_value s = elim (int_digits true 0 0 s) [
    | none ↦ none
    | some (count, value) ↦ if ltb 4300 count then none else some value
  ]

  unfoldable pub negated : ℕ → ℤ
  negated zero = pos 0
  negated (suc n) = negsuc n

  unfoldable pub positive : Text → Option ℤ
  unfolding int_value
  positive s = elim (int_value s) [ none ↦ none | some n ↦ some (pos n) ]

  unfoldable pub negative : Text → Option ℤ
  unfolding int_value negated
  negative s = elim (int_value s) [ none ↦ none | some n ↦ some (negated n) ]

  -- A sign, or none, and digits.
  unfoldable pub signed : Text → Option ℤ
  unfolding positive negative
  signed [] = none
  signed (c ∷ s) =
      if eqb c b'+' then positive s else if eqb c b'-' then negative s else positive (c ∷ s)

  -- `int(value)`; `none` is an exception.
  unfoldable pub int_of : Input → Option ℤ
  unfolding strip signed
  int_of absent = none
  int_of (number n) = some n
  int_of (text s) = signed (strip s)

  unfoldable pub validate_int_param : Input → ℤ → ℤ → ℤ → ℤ
  unfolding int_of ltb_int
  validate_int_param absent default min_val max_val = default
  validate_int_param (number n) default min_val max_val =
      if ltb_int n min_val || ltb_int max_val n then default else n
  validate_int_param (text s) default min_val max_val = elim (int_of (text s)) [
    | none ↦ default
    | some n ↦ if ltb_int n min_val || ltb_int max_val n then default else n
  ]

  unfoldable pub validate_max_depth : Input → Option ℤ → Option ℤ
  unfolding int_of ltb_int
  validate_max_depth absent default = default
  validate_max_depth (number n) default =
      if ltb_int n (pos 1) || ltb_int (pos max_depth_allowed) n then default else some n
  validate_max_depth (text s) default = elim (int_of (text s)) [
    | none ↦ default
    | some n ↦ if ltb_int n (pos 1) || ltb_int (pos max_depth_allowed) n then default else some n
  ]

  unfoldable pub validate_limit : Input → ℤ → ℤ
  unfolding validate_int_param
  validate_limit value default = validate_int_param value default (pos 1) (pos max_limit)

  unfoldable pub validate_page : Input → ℤ → ℤ
  unfolding validate_int_param
  validate_page value default = validate_int_param value default (pos 1) (pos max_result_window)

  unfoldable pub validate_page_size : Input → ℤ → ℤ
  unfolding validate_int_param
  validate_page_size value default = validate_int_param value default (pos 1) (pos max_page_size)

-- Python's floats as far as they are tested: `float(s)`, NaN and infinity, and `a < b`.
pub record FloatTests (F : Type 0) : Type 0 where
  pub float_of : Text → Option F
  pub is_nan : F → Bool
  pub is_inf : F → Bool
  pub lt : F → F → Bool

unfoldable pub validate_float_param : {F : Type 0} → FloatTests F → Option Text → F → F → F → F
validate_float_param fl none default min_val max_val = default
validate_float_param fl (some s) default min_val max_val = elim (fl.float_of s) [
  | none ↦ default
  | some x ↦
      if fl.is_nan x || fl.is_inf x
      then default
      else if fl.lt x min_val || fl.lt max_val x
      then default
      else x
]

-- `if not value: return default`, strip, lower, look up: the steps that the choices share.
unfoldable pub choose : Unicode → List Text → Option Text → Text → Text
unfolding strip member_text
choose u allowed none default = default
choose u allowed (some []) default = default
choose u allowed (some (c ∷ s)) default =
    let value = u.lower (strip (c ∷ s)) in if member_text value allowed then value else default

abbrev pub allowed_formats : List Text
allowed_formats = codes "html" ∷ codes "excel" ∷ codes "json" ∷ []

abbrev pub allowed_vex_filters : List Text
allowed_vex_filters = codes "all" ∷ codes "hide_not_affected" ∷ codes "under_investigation" ∷ []

abbrev pub allowed_layouts : List Text
allowed_layouts =
    codes "spring" ∷ codes "radial" ∷ codes "shell" ∷ codes "bfs" ∷ codes "circular" ∷ []

abbrev pub allowed_sbom_formats : List Text
allowed_sbom_formats = codes "cyclonedx" ∷ codes "spdx" ∷ []

abbrev pub allowed_sort_orders : List Text
allowed_sort_orders = codes "asc" ∷ codes "desc" ∷ []

module _ (u : Unicode) where
  unfoldable pub validate_format : Option Text → Text → Text
  unfolding choose
  validate_format value default = choose u allowed_formats value default

  unfoldable pub validate_vex_filter : Option Text → Text → Text
  unfolding choose
  validate_vex_filter value default = choose u allowed_vex_filters value default

  unfoldable pub validate_layout : Option Text → Text → Text
  unfolding choose
  validate_layout value default = choose u allowed_layouts value default

  unfoldable pub validate_sort_param : Option Text → List Text → Text → Text
  unfolding choose
  validate_sort_param value allowed default = choose u allowed value default

  unfoldable pub validate_sort_order : Option Text → Text → Text
  unfolding choose
  validate_sort_order value default = choose u allowed_sort_orders value default

  unfoldable pub validate_sbom_format : Option Text → Option Text
  unfolding strip member_text
  validate_sbom_format none = none
  validate_sbom_format (some []) = none
  validate_sbom_format (some (c ∷ s)) =
      let val = u.lower (strip (c ∷ s)) in
      if member_text val allowed_sbom_formats then some val else none

  unfoldable pub validate_boolean : Option Text → Bool → Bool
  unfolding strip eq_text
  validate_boolean none default = default
  validate_boolean (some []) default = default
  validate_boolean (some (c ∷ s)) default = eq_text (u.lower (strip (c ∷ s))) (codes "true")

  -- `(\d+)`: its digits and what follows.
  unfoldable pub digit_run : Text → Text × Text
  unfolding is_some
  digit_run [] = ([], [])
  digit_run (c ∷ s) =
      let rest = digit_run s in if is_some (u.digit c) then (c ∷ rest.0, rest.1) else ([], c ∷ s)

  -- The letters of these words have no other case than the ASCII one.
  unfoldable pub fold_case : ℕ → ℕ
  fold_case c = if leb b'A' c && leb c b'Z' then c + 32 else c

  abbrev pub css_units : List Text
  css_units =
      []
      ∷ codes "px"
      ∷ codes "%"
      ∷ codes "em"
      ∷ codes "rem"
      ∷ codes "vh"
      ∷ codes "vw"
      ∷ codes "pt"
      ∷ []

  -- The text without a newline that ends it, for `$`.
  unfoldable pub without_newline : Text → Text
  without_newline [] = []
  without_newline (c ∷ []) = if eqb c 10 then [] else c ∷ []
  without_newline (c ∷ d ∷ s) = c ∷ without_newline (d ∷ s)

  unfoldable pub validate_css_dimension : Text → Text → Text
  unfolding strip digit_run fold_case without_newline member_text eq_text int_value
  validate_css_dimension [] default = default
  validate_css_dimension (c ∷ s) default =
      let value = u.lower (strip (c ∷ s)) in
      let word = map fold_case (without_newline value) in
      let (digits, unit) = digit_run word in
      elim digits [
        | [] ↦ if eq_text word (codes "auto") then value else default
        | d ∷ more ↦
            if member_text unit css_units
            then elim (int_value u (d ∷ more)) [
              | none ↦ default
              | some n ↦ if ltb max_dimension_value n then default else value
            ]
            else default
      ]
