-- ===== src/Dict.antt =====
-- Python dictionaries with text keys, as association lists in insertion order, and sets of texts as
-- lists.
use sbom_graph.Prelude.{
  ◌≡◌, inl, inr, refl, sym, subst, Option, none, some, List, [], ◌∷◌, ◌++◌, String, ◌==◌,
  if◌then◌else◌, str_eq_self, not_same, eq_iff, ◌≢◌, ap, ◌∙◌, true, false, In, In-append_left,
  In-append_right, Bool-cases, Pairwise, All,
}
use sbom_graph.Members.{member, member_iff}

abbrev pub Dict : Type 0 → Type 0
Dict A = List (String × A)

-- `d[key] = value`
unfoldable pub put : {A : Type 0} → String → A → Dict A → Dict A
put key value [] = (key, value) ∷ []
put key value ((k, v) ∷ d) =
    let rest = put key value d in if k == key then (key, value) ∷ d else (k, v) ∷ rest

-- `d.update(items)` and the dictionary comprehensions.
unfoldable pub put_all : {A : Type 0} → List (String × A) → Dict A → Dict A
unfolding put
put_all [] d = d
put_all ((k, v) ∷ more) d = put_all more (put k v d)

-- `d.get(key)`
unfoldable pub lookup : {A : Type 0} → String → Dict A → Option A
lookup key [] = none
lookup key ((k, v) ∷ d) = let rest = lookup key d in if k == key then some v else rest

unfoldable pub key_list : {A : Type 0} → Dict A → List String
key_list [] = []
key_list ((k, v) ∷ d) = k ∷ key_list d

unfoldable pub values : {A : Type 0} → Dict A → List A
values [] = []
values ((k, v) ∷ d) = v ∷ values d

-- `s.update(xs)`
unfoldable pub union : List String → List String → List String
unfolding member
union s [] = s
union s (x ∷ xs) = union (if member x s then s else s ++ x ∷ []) xs

-- `s.difference(t)`
unfoldable pub difference : List String → List String → List String
unfolding member
difference [] t = []
difference (x ∷ s) t = let rest = difference s t in if member x t then rest else x ∷ rest

pub In-union_left : (x : String) (s xs : List String) → In x s → In x (union s xs)
unfolding union
In-union_left x s [] m = m
In-union_left x s (y ∷ xs) m =
    In-union_left x (if member y s then s else s ++ y ∷ []) xs (elim (Bool-cases (member y s)) [
      | inl e ↦ rw e m
      | inr e ↦ rw e (In-append_left x s (y ∷ []) m)
    ])

pub In-union_right : (x : String) (s xs : List String) → In x xs → In x (union s xs)
unfolding union
In-union_right x s [] m = elim m [ ]
In-union_right x s (y ∷ xs) (inr m) = In-union_right x (if member y s then s else s ++ y ∷ []) xs m
In-union_right x s (y ∷ xs) (inl same) =
    In-union_left x (if member y s then s else s ++ y ∷ []) xs (elim (Bool-cases (member y s)) [
      | inl e ↦ rw e (subst (λ z. In z s) (sym same) ((member_iff y s).0 e))
      | inr e ↦ rw e (In-append_right x s (y ∷ []) (inl same))
    ])

pub In-difference : (x : String) (s t : List String) → In x s → ¬ In x t → In x (difference s t)
unfolding difference
In-difference x [] t m absent = elim m [ ]
In-difference x (y ∷ s) t (inl same) absent = elim (Bool-cases (member y t)) [
  | inl e ↦ absurd (absent (subst (λ z. In z t) (sym same) ((member_iff y t).0 e)))
  | inr e ↦ rw e (inl same)
]
In-difference x (y ∷ s) t (inr m) absent = elim (Bool-cases (member y t)) [
  | inl e ↦ rw e (In-difference x s t m absent)
  | inr e ↦ rw e (inr (In-difference x s t m absent))
]

module _ {A : Type 0} where
  same_value : {v w : A} → some v ≡ some w → v ≡ w
  same_value e = cc

  pub lookup_here : (k : String) (v : A) (d : Dict A) → lookup k (put k v d) ≡ some v
  unfolding put lookup
  lookup_here k v [] = rw (str_eq_self k) refl
  lookup_here k v ((j, w) ∷ d) = elim (Bool-cases (j == k)) [
    | inl e ↦ rw (e, str_eq_self k) refl
    | inr e ↦ rw (e) (rw e (lookup_here k v d))
  ]

  -- What is looked up is a value.
  pub In-values : (k : String) (v : A) (d : Dict A) → lookup k d ≡ some v → In v (values d)
  unfolding lookup values
  In-values k v [] e = cc
  In-values k v ((j, w) ∷ d) e = elim (Bool-cases (j == k)) [
    | inl s ↦ inl (sym (same_value (rw s at e)))
    | inr s ↦ inr (In-values k v d (rw s at e))
  ]

  pub lookup_other : (k j : String) (v : A) (d : Dict A) → j ≢ k → lookup j (put k v d) ≡ lookup j d
  unfolding put lookup
  lookup_other k j v [] ne = rw (not_same k j (λ e. ne (sym e))) refl
  lookup_other k j v ((i, w) ∷ d) ne = elim (Bool-cases (i == k)) [
    | inl e ↦
        let other : (i == j) ≡ false = not_same i j (λ same. ne (sym same ∙ (eq_iff i k).0 e)) in
        rw (e, not_same k j (λ same. ne (sym same)), other) refl
    | inr e ↦ rw e (ap (λ o. if i == j then some w else o) (lookup_other k j v d ne))
  ]

  -- A key has a value.
  pub key-lookup : (k : String) (d : Dict A) → In k (key_list d) → (v : A) × (lookup k d ≡ some v)
  unfolding key_list lookup
  key-lookup k [] m = elim m [ ]
  key-lookup k ((j, w) ∷ d) m = elim (Bool-cases (j == k)) [
    | inl e ↦ rw e (w, refl)
    | inr e ↦ rw e (elim m [
      | inl same ↦ absurd (let h : (j == k) ≡ true = (eq_iff j k).1 (sym same) in cc)
      | inr later ↦ key-lookup k d later
    ])
  ]

  pub lookup-key : (k : String) (v : A) (d : Dict A) → lookup k d ≡ some v → In k (key_list d)
  unfolding key_list lookup
  lookup-key k v [] e = cc
  lookup-key k v ((j, w) ∷ d) e = elim (Bool-cases (j == k)) [
    | inl f ↦ inl (sym ((eq_iff j k).0 f))
    | inr f ↦ inr (lookup-key k v d (rw f at e))
  ]

-- The keys of a dictionary are distinct.
unfoldable pub Distinct : {A : Type 0} → Dict A → Type 0
Distinct d = Pairwise (λ (j k : String). j ≢ k) (key_list d)

module _ {A : Type 0} where
  All-put :
      (other key : String) (value : A) (d : Dict A)
      → All (λ k. other ≢ k) (key_list d)
      → other ≢ key
      → All (λ k. other ≢ k) (key_list (put key value d))
  unfolding put key_list
  All-put other key value [] h ne = (ne, tt)
  All-put other key value ((k, v) ∷ d) h ne = elim (Bool-cases (k == key)) [
    | inl e ↦ rw e (ne, h.1)
    | inr e ↦ rw e (h.0, All-put other key value d h.1 ne)
  ]

  pub put-Distinct :
      (key : String) (value : A) (d : Dict A) → Distinct d → Distinct (put key value d)
  unfolding put key_list Distinct
  put-Distinct key value [] h = (tt, tt)
  put-Distinct key value ((k, v) ∷ d) h = elim (Bool-cases (k == key)) [
    | inl e ↦ rw e (subst (λ y. All (λ j. y ≢ j) (key_list d)) ((eq_iff k key).0 e) h.0, h.1)
    | inr e ↦ rw e (
      All-put k key value d h.0 (λ same. let f : (k == key) ≡ true = (eq_iff k key).1 same in cc),
      put-Distinct key value d h.1,
    )
  ]

pub key_list-put :
    {A : Type 0} {B : Type 0} (key : String) (v : A) (w : B) (d : Dict A) (e : Dict B)
    → key_list d ≡ key_list e
    → key_list (put key v d) ≡ key_list (put key w e)
unfolding put key_list
key_list-put key v w [] [] h = refl
key_list-put key v w [] ((j, b) ∷ e) h = cc
key_list-put key v w ((k, a) ∷ d) [] h = cc
key_list-put key v w ((k, a) ∷ d) ((j, b) ∷ e) h =
    let heads : k ≡ j = cc in
    let tails : key_list d ≡ key_list e = cc in
    elim (Bool-cases (k == key)) [
      | inl f ↦
          let g : (j == key) ≡ true = ap (λ x. x == key) (sym heads) ∙ f in
          rw (f, g) (ap (λ ks. key ∷ ks) tails)
      | inr f ↦
          let g : (j == key) ≡ false = ap (λ x. x == key) (sym heads) ∙ f in
          rw (f, g)
            (ap (λ x. x ∷ key_list (put key v d)) heads
              ∙ ap (λ ks. j ∷ ks) (key_list-put key v w d e tails))
    ]
