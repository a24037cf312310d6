-- ===== src/Prelude/Lists.antt =====
-- Lists measured by native numbers, and predicates over lists by recursion.
use Prim.Native.Nat.{ℕ, suc, ◌+◌}
use mathlib.Core.Path.{◌≡◌, refl, ap}
use mathlib.Core.Logic.{◌⊎◌, inl, inr}
use mathlib.Core.List.{List, [], ◌∷◌, ◌++◌, map}
use native.Mathlib.Omega.{arith}

module _ {ℓ} {A : Type ℓ} where
  abbrev pub length : List A → ℕ
  length [] = 0
  length (x ∷ xs) = suc (length xs)

  abbrev pub All {κ} : (A → Type κ) → List A → Type κ
  All P [] = Unit
  All P (x ∷ xs) = P x × All P xs

  -- Each element stands in the relation to every later one.
  abbrev pub Pairwise {κ} : (A → A → Type κ) → List A → Type κ
  Pairwise R [] = Unit
  Pairwise R (x ∷ xs) = All (R x) xs × Pairwise R xs

  pub length-append : (xs ys : List A) → length (xs ++ ys) ≡ length xs + length ys
  length-append [] ys = omega arith
  length-append (x ∷ xs) ys = omega (arith, length-append xs ys)

module _ {ℓ κ} {A : Type ℓ} (P : A → Type κ) where
  pub All-append : (xs ys : List A) → All P xs → All P ys → All P (xs ++ ys)
  All-append [] ys h k = k
  All-append (x ∷ xs) ys h k = (h.0, All-append xs ys h.1 k)

  pub All-append_left : (xs ys : List A) → All P (xs ++ ys) → All P xs
  All-append_left [] ys h = tt
  All-append_left (x ∷ xs) ys h = (h.0, All-append_left xs ys h.1)

  pub All-append_right : (xs ys : List A) → All P (xs ++ ys) → All P ys
  All-append_right [] ys h = h
  All-append_right (x ∷ xs) ys h = All-append_right xs ys h.1

  pub All-map {μ} : (Q : A → Type μ) (xs : List A) → ((x : A) → P x → Q x) → All P xs → All Q xs
  All-map Q [] f h = tt
  All-map Q (x ∷ xs) f h = (f x h.0, All-map Q xs f h.1)

  pub All-of : (xs : List A) → ((x : A) → P x) → All P xs
  All-of [] f = tt
  All-of (x ∷ xs) f = (f x, All-of xs f)

module _ {ℓ κ} {A : Type ℓ} (R : A → A → Type κ) where
  -- One more element at the end.
  pub Pairwise-snoc :
      (xs : List A) (y : A) → Pairwise R xs → All (λ x. R x y) xs → Pairwise R (xs ++ y ∷ [])
  Pairwise-snoc [] y h k = (tt, tt)
  Pairwise-snoc (x ∷ xs) y h k =
      (All-append (R x) xs (y ∷ []) h.0 (k.0, tt), Pairwise-snoc xs y h.1 k.1)

-- Membership, with the position kept.
module _ {A : Type 0} where
  abbrev pub In : A → List A → Type 0
  In a [] = ⊥
  In a (x ∷ xs) = (a ≡ x) ⊎ In a xs

  pub In-append_left : (a : A) (xs ys : List A) → In a xs → In a (xs ++ ys)
  In-append_left a [] ys h = elim h [ ]
  In-append_left a (x ∷ xs) ys (inl e) = inl e
  In-append_left a (x ∷ xs) ys (inr h) = inr (In-append_left a xs ys h)

  pub In-append_right : (a : A) (xs ys : List A) → In a ys → In a (xs ++ ys)
  In-append_right a [] ys h = h
  In-append_right a (x ∷ xs) ys h = inr (In-append_right a xs ys h)

  pub In-append_cases : (a : A) (xs ys : List A) → In a (xs ++ ys) → In a xs ⊎ In a ys
  In-append_cases a [] ys h = inr h
  In-append_cases a (x ∷ xs) ys (inl e) = inl (inl e)
  In-append_cases a (x ∷ xs) ys (inr h) = elim (In-append_cases a xs ys h) [
    | inl l ↦ inl (inr l)
    | inr r ↦ inr r
  ]

  pub All-In {κ} : (P : A → Type κ) (a : A) (xs : List A) → All P xs → In a xs → P a
  All-In P a [] h m = elim m [ ]
  All-In P a (x ∷ xs) h (inl e) = rw e h.0
  All-In P a (x ∷ xs) h (inr m) = All-In P a xs h.1 m

  pub All_of_In {κ} : (P : A → Type κ) (xs : List A) → ((a : A) → In a xs → P a) → All P xs
  All_of_In P [] f = tt
  All_of_In P (x ∷ xs) f = (f x (inl refl), All_of_In P xs (λ a m. f a (inr m)))

-- Membership in a mapped list.
module _ {A B : Type 0} (f : A → B) where
  pub In-map : (a : A) (xs : List A) → In a xs → In (f a) (map f xs)
  In-map a [] m = elim m [ ]
  In-map a (x ∷ xs) (inl e) = inl (ap f e)
  In-map a (x ∷ xs) (inr m) = inr (In-map a xs m)

  pub In-of_In-map : (b : B) (xs : List A) → In b (map f xs) → (a : A) × In a xs × (b ≡ f a)
  In-of_In-map b [] m = elim m [ ]
  In-of_In-map b (x ∷ xs) (inl e) = (x, inl refl, e)
  In-of_In-map b (x ∷ xs) (inr m) = let (a, n, e) = In-of_In-map b xs m in (a, inr n, e)

module _ {ℓ κ μ} {A : Type ℓ} {B : Type κ} (f : A → B) (R : B → B → Type μ) where
  All-of_map : (a : A) (xs : List A) → All (R (f a)) (map f xs) → All (λ y. R (f a) (f y)) xs
  All-of_map a [] h = tt
  All-of_map a (x ∷ xs) h = (h.0, All-of_map a xs h.1)

  pub Pairwise-of_map : (xs : List A) → Pairwise R (map f xs) → Pairwise (λ x y. R (f x) (f y)) xs
  Pairwise-of_map [] h = tt
  Pairwise-of_map (x ∷ xs) h = (All-of_map x xs h.0, Pairwise-of_map xs h.1)
