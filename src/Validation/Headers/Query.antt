-- ===== src/Validation/Headers/Query.antt =====
-- The query strings of `build_url_params` as the routes read them: `request.args.get(key)`, with the
-- validators and defaults of the report routes.
use sbom_graph.Prelude.{
  ◌≡◌, ◌≢◌, Bool, true, false, Option, none, some, List, [], ◌∷◌, ◌++◌, if◌then◌else◌,
}
use sbom_graph.Text.{Text, codes, eq_text, Unicode}
use sbom_graph.Validation.Parameters.{validate_boolean}
use sbom_graph.Validation.Headers.{UrlParams, with_given}

-- `request.args.get(key)`: the first value of the key.
unfoldable pub get_arg : Text → List (Text × Text) → Option Text
unfolding eq_text
get_arg key [] = none
get_arg key ((k, value) ∷ pairs) = if eq_text key k then some value else get_arg key pairs

-- `value or ""`
unfoldable pub or_empty : Option Text → Text
or_empty none = []
or_empty (some s) = s

-- `value or "all"`
unfoldable pub or_all : Option Text → Text
or_all none = codes "all"
or_all (some []) = codes "all"
or_all (some (c ∷ s)) = c ∷ s

-- A list of keys with the values that some of them have.
unfoldable pairs_of : List (Text × Option Text) → List (Text × Text)
unfolding with_given
pairs_of [] = []
pairs_of ((k, value) ∷ entries) = with_given k value ++ pairs_of entries

unfoldable value_at : Text → List (Text × Option Text) → Option Text
unfolding eq_text
value_at key [] = none
value_at key ((k, value) ∷ entries) = if eq_text key k then value else value_at key entries

unfoldable is_fresh : Text → List (Text × Option Text) → Bool
unfolding eq_text
is_fresh key [] = true
is_fresh key ((k, value) ∷ entries) =
    let rest = is_fresh key entries in if eq_text key k then false else rest

-- The key stands at most once.
unfoldable is_once : Text → List (Text × Option Text) → Bool
unfolding eq_text is_fresh
is_once key [] = true
is_once key ((k, value) ∷ entries) =
    let rest = is_once key entries in if eq_text key k then is_fresh key entries else rest

-- The text, unless it is empty.
unfoldable nonempty : Option Text → Option Text
nonempty none = none
nonempty (some []) = none
nonempty (some (c ∷ s)) = some (c ∷ s)

unfoldable filter_of : Option Text → Option Text
unfolding nonempty eq_text
filter_of none = none
filter_of (some s) = if eq_text s (codes "all") then none else nonempty (some s)

unfoldable entries_of : UrlParams → List (Text × Option Text)
unfolding nonempty filter_of
entries_of p =
    (codes "format", nonempty p.format)
    ∷ (codes "limit", p.limit)
    ∷ (codes "max_depth", p.max_depth)
    ∷ (codes "internal_only", if p.internal_only then some (codes "true") else none)
    ∷ (codes "longest_only", if p.longest_only then none else some (codes "false"))
    ∷ (codes "latest_only", if p.latest_only then some (codes "true") else none)
    ∷ (codes "vex_filter", filter_of p.vex_filter)
    ∷ (codes "defect_id_match", nonempty p.defect_id_match)
    ∷ (codes "name", nonempty p.name)
    ∷ []

-- What a route reads of the query: the texts with their defaults, the numbers as they were printed,
-- and the flags by `validate_boolean` with the defaults of the routes.
unfoldable pub ReadsAs : Unicode → UrlParams → List (Text × Text) → Type 0
unfolding get_arg or_empty or_all
ReadsAs u p query =
    (or_empty (get_arg (codes "format") query) ≡ or_empty p.format)
    × (get_arg (codes "format") query ≢ some [])
    × (get_arg (codes "limit") query ≡ p.limit)
    × (get_arg (codes "max_depth") query ≡ p.max_depth)
    × (validate_boolean u (get_arg (codes "internal_only") query) false ≡ p.internal_only)
    × (validate_boolean u (get_arg (codes "longest_only") query) true ≡ p.longest_only)
    × (validate_boolean u (get_arg (codes "latest_only") query) false ≡ p.latest_only)
    × (or_all (get_arg (codes "vex_filter") query) ≡ or_all p.vex_filter)
    × (get_arg (codes "vex_filter") query ≢ some (codes "all"))
    × (get_arg (codes "vex_filter") query ≢ some [])
    × (or_empty (get_arg (codes "defect_id_match") query) ≡ or_empty p.defect_id_match)
    × (get_arg (codes "defect_id_match") query ≢ some [])
    × (or_empty (get_arg (codes "name") query) ≡ or_empty p.name)
    × (get_arg (codes "name") query ≢ some [])
