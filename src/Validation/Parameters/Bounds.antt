-- ===== src/Validation/Parameters/Bounds.antt =====
-- The numbers and choices that the validators let through.
use sbom_graph.Prelude.{
  ℕ, ◌≡◌, ◌⊎◌, inl, inr, refl, sym, subst, false, ◌||◌, Option, none, some, List, [], ◌∷◌,
  if◌then◌else◌, In, Bool-cases, Option-cases,
}
use sbom_graph.Text.{Text, strip, member_text, member_text_iff, Unicode}
use sbom_graph.Validation.Parameters.{
  ℤ, pos, ltb_int, Input, absent, number, text, int_of, validate_int_param, validate_max_depth,
  validate_limit, validate_page, validate_page_size, FloatTests, validate_float_param, choose,
  allowed_formats, allowed_vex_filters, allowed_layouts, allowed_sort_orders, validate_format,
  validate_vex_filter, validate_layout, validate_sort_param, validate_sort_order,
}

-- `low ≤ n ≤ high`
unfoldable pub InRange : ℤ → ℤ → ℤ → Type 0
InRange low high n = (ltb_int n low ≡ false) × (ltb_int high n ≡ false)

test-InRange :
    (low high default n : ℤ)
    → (InRange low high n × ((if ltb_int n low || ltb_int high n then default else n) ≡ n))
      ⊎ ((¬ InRange low high n)
          × ((if ltb_int n low || ltb_int high n then default else n) ≡ default))
unfolding InRange
test-InRange low high default n = elim (Bool-cases (ltb_int n low)) [
  | inl e ↦ inr (λ h. let k = h.0 in cc, rw e refl)
  | inr e ↦ elim (Bool-cases (ltb_int high n)) [
    | inl f ↦ inr (λ h. let k = h.1 in cc, rw (e, f) refl)
    | inr f ↦ inl ((e, f), rw (e, f) refl)
  ]
]

-- The result is the number that is read where it is in the range, and the default where not.
unfoldable pub Reads : Option ℤ → ℤ → ℤ → ℤ → ℤ → Type 0
Reads read default low high result =
    ((n : ℤ) × (read ≡ some n) × InRange low high n × (result ≡ n))
    ⊎ ((¬ ((n : ℤ) × (read ≡ some n) × InRange low high n)) × (result ≡ default))

test-Reads :
    (read : Option ℤ) (default low high : ℤ)
    → Reads read default low high (elim read [
      | none ↦ default
      | some n ↦ if ltb_int n low || ltb_int high n then default else n
    ])
unfolding Reads
test-Reads none default low high = inr (λ h. let e = h.1 in cc, refl)
test-Reads (some n) default low high = elim (test-InRange low high default n) [
  | inl h ↦ inl (n, refl, h.0, h.1)
  | inr h ↦ inr (
    λ k.
        let (m, e, range) = k in
        let f : n ≡ m = cc in h.0 (subst (λ x. InRange low high x) (sym f) range),
    h.1,
  )
]

-- `validate_int_param` gives the number that `int` reads if it is within the two bounds, and the
-- default if there is none, if `int` raises, or if the number is out of bounds.
pub validate_int_param-Reads :
    (u : Unicode) (value : Input) (default low high : ℤ)
    → Reads (int_of u value) default low high (validate_int_param u value default low high)
unfolding validate_int_param int_of
validate_int_param-Reads u absent default low high = test-Reads none default low high
validate_int_param-Reads u (number n) default low high = test-Reads (some n) default low high
validate_int_param-Reads u (text s) default low high =
    test-Reads (int_of u (text s)) default low high

Reads-InRange :
    (read : Option ℤ) (default low high result : ℤ)
    → InRange low high default
    → Reads read default low high result
    → InRange low high result
unfolding Reads
Reads-InRange read default low high result h (inl (n, e, range, same)) =
    subst (λ x. InRange low high x) (sym same) range
Reads-InRange read default low high result h (inr (k, same)) =
    subst (λ x. InRange low high x) (sym same) h

-- A float parameter is the default, or is finite and within the two bounds.
pub validate_float_param_cases :
    {F : Type 0}
    → (fl : FloatTests F) (value : Option Text) (default low high : F)
    → (validate_float_param fl value default low high ≡ default)
      ⊎ ((s : Text) × (x : F) × (value ≡ some s)
          × (fl.float_of s ≡ some x)
          × (validate_float_param fl value default low high ≡ x)
          × (fl.is_nan x ≡ false)
          × (fl.is_inf x ≡ false)
          × (fl.lt x low ≡ false)
          × (fl.lt high x ≡ false))
unfolding validate_float_param
validate_float_param_cases fl none default low high = inl refl
validate_float_param_cases fl (some s) default low high = elim (Option-cases (fl.float_of s)) [
  | inl e ↦ inl (rw (validate_float_param, e) refl)
  | inr (x, e) ↦ elim (Bool-cases (fl.is_nan x)) [
    | inl a ↦ inl (rw (validate_float_param, e, a) refl)
    | inr a ↦ elim (Bool-cases (fl.is_inf x)) [
      | inl b ↦ inl (rw (validate_float_param, e, a, b) refl)
      | inr b ↦ elim (Bool-cases (fl.lt x low)) [
        | inl c ↦ inl (rw (validate_float_param, e, a, b, c) refl)
        | inr c ↦ elim (Bool-cases (fl.lt high x)) [
          | inl d ↦ inl (rw (validate_float_param, e, a, b, c, d) refl)
          | inr d ↦ inr (s, x, refl, e, rw (validate_float_param, e, a, b, c, d) refl, a, b, c, d)
        ]
      ]
    ]
  ]
]

default_page : InRange (pos 1) (pos 1000000) (pos 1)
unfolding InRange ltb_int
default_page = (refl, refl)

default_size : InRange (pos 1) (pos 1000) (pos 100)
unfolding InRange ltb_int
default_size = (refl, refl)

default_limit : InRange (pos 1) (pos 100000) (pos 10000)
unfolding InRange ltb_int
default_limit = (refl, refl)

depth_cases :
    (read : Option ℤ) (result : Option ℤ)
    → (result ≡ elim read [
      | none ↦ none
      | some n ↦ if ltb_int n (pos 1) || ltb_int (pos 100) n then none else some n
    ])
    → (result ≡ none) ⊎ ((n : ℤ) × (result ≡ some n) × InRange (pos 1) (pos 100) n)
unfolding InRange
depth_cases none result e = inl e
depth_cases (some n) result e = elim (Bool-cases (ltb_int n (pos 1))) [
  | inl a ↦ inl (rw a at e)
  | inr a ↦ elim (Bool-cases (ltb_int (pos 100) n)) [
    | inl b ↦ inl (rw (a, b) at e)
    | inr b ↦ inr (n, (rw (a, b) at e), (a, b))
  ]
]

validate_max_depth_cases :
    (u : Unicode) (value : Input)
    → (validate_max_depth u value none ≡ none)
      ⊎ ((n : ℤ) × (validate_max_depth u value none ≡ some n) × InRange (pos 1) (pos 100) n)
unfolding validate_max_depth InRange int_of
validate_max_depth_cases u absent = inl refl
validate_max_depth_cases u (number n) = depth_cases (some n) _ refl
validate_max_depth_cases u (text s) = depth_cases (int_of u (text s)) _ refl

-- With their defaults, `validate_page` gives a page from 1 to 1000000, `validate_page_size` a size
-- from 1 to 1000, `validate_limit` a limit from 1 to 100000, and `validate_max_depth` no depth or one
-- from 1 to 100, whatever comes in.
pub paging-InRange :
    (u : Unicode) (value : Input)
    → InRange (pos 1) (pos 1000000) (validate_page u value (pos 1))
      × InRange (pos 1) (pos 1000) (validate_page_size u value (pos 100))
      × InRange (pos 1) (pos 100000) (validate_limit u value (pos 10000))
      × ((validate_max_depth u value none ≡ none)
          ⊎ ((n : ℤ) × (validate_max_depth u value none ≡ some n) × InRange (pos 1) (pos 100) n))
unfolding validate_page validate_page_size validate_limit
paging-InRange u value = (
  Reads-InRange (int_of u value) _ _ _ _ default_page
      (validate_int_param-Reads u value (pos 1) (pos 1) (pos 1000000)),
  Reads-InRange (int_of u value) _ _ _ _ default_size
      (validate_int_param-Reads u value (pos 100) (pos 1) (pos 1000)),
  Reads-InRange (int_of u value) _ _ _ _ default_limit
      (validate_int_param-Reads u value (pos 10000) (pos 1) (pos 100000)),
  validate_max_depth_cases u value,
)

-- What `choose` gives is the default or one of the allowed words, and the word that is given,
-- stripped and in lower case, when that is allowed.
unfoldable pub Chooses : Unicode → List Text → (Option Text → Text → Text) → Type 0
Chooses u allowed f =
    ((value : Option Text) (default : Text)
      → (f value default ≡ default) ⊎ In (f value default) allowed)
    × ((c : ℕ) (s default : Text)
        → ((f (some (c ∷ s)) default ≡ u.lower (strip (c ∷ s)))
            × In (u.lower (strip (c ∷ s))) allowed)
          ⊎ ((f (some (c ∷ s)) default ≡ default) × (¬ In (u.lower (strip (c ∷ s))) allowed)))

choose-Chooses : (u : Unicode) (allowed : List Text) → Chooses u allowed (choose u allowed)
unfolding Chooses choose
choose-Chooses u allowed = (both, exact)
  where
    exact :
        (c : ℕ) (s default : Text)
        → ((choose u allowed (some (c ∷ s)) default ≡ u.lower (strip (c ∷ s)))
            × In (u.lower (strip (c ∷ s))) allowed)
          ⊎ ((choose u allowed (some (c ∷ s)) default ≡ default)
              × (¬ In (u.lower (strip (c ∷ s))) allowed))
    exact c s default = elim (Bool-cases (member_text (u.lower (strip (c ∷ s))) allowed)) [
      | inl e ↦ inl (rw e refl, (member_text_iff (u.lower (strip (c ∷ s))) allowed).0 e)
      | inr e ↦
          inr
            (rw e refl, λ m. let k = (member_text_iff (u.lower (strip (c ∷ s))) allowed).1 m in cc)
    ]

    both :
        (value : Option Text) (default : Text)
        → (choose u allowed value default ≡ default) ⊎ In (choose u allowed value default) allowed
    both none default = inl refl
    both (some []) default = inl refl
    both (some (c ∷ s)) default = elim (exact c s default) [
      | inl h ↦ inr (subst (λ x. In x allowed) (sym h.0) h.1)
      | inr h ↦ inl h.0
    ]

-- The validators of formats, filters, layouts and orders give the default or a word of their list;
-- for a text that is not empty they give it, stripped and in lower case, exactly when that is in
-- the list.
pub validate_choices :
    (u : Unicode)
    → Chooses u allowed_formats (validate_format u)
      × Chooses u allowed_vex_filters (validate_vex_filter u)
      × Chooses u allowed_layouts (validate_layout u)
      × Chooses u allowed_sort_orders (validate_sort_order u)
      × ((allowed : List Text)
          → Chooses u allowed (λ value default. validate_sort_param u value allowed default))
unfolding validate_format validate_vex_filter validate_layout validate_sort_order
    validate_sort_param
validate_choices u = (
  choose-Chooses u allowed_formats,
  choose-Chooses u allowed_vex_filters,
  choose-Chooses u allowed_layouts,
  choose-Chooses u allowed_sort_orders,
  λ allowed. choose-Chooses u allowed,
)
