-- ===== src/Members.antt =====
-- Python sets of texts, as lists without order.
use sbom_graph.Prelude.{
  ◌≡◌, ◌↔◌, ◌⊎◌, inl, inr, Bool, true, false, ◌||◌, List, [], ◌∷◌, String, ◌==◌, eq_iff, arith, In,
  Bool-cases,
}

-- `x in xs`
unfoldable pub member : String → List String → Bool
member x [] = false
member x (y ∷ ys) = x == y || member x ys

pub member_iff : (x : String) (xs : List String) → (member x xs ≡ true) ↔ In x xs
unfolding member
member_iff x [] = (λ h. cc, λ m. elim m [ ])
member_iff x (y ∷ ys) = (
  λ h. elim (Bool-cases (x == y)) [
    | inl e ↦ inl ((eq_iff x y).0 e)
    | inr e ↦ inr ((member_iff x ys).0 (ground arith))
  ],
  λ m. elim m [
    | inl e ↦ ground (arith, (eq_iff x y).1 e)
    | inr n ↦ ground (arith, (member_iff x ys).1 n)
  ],
)

pub In-cases : (x : String) (xs : List String) → In x xs ⊎ (¬ In x xs)
In-cases x xs = elim (Bool-cases (member x xs)) [
  | inl e ↦ inl ((member_iff x xs).0 e)
  | inr e ↦ inr (λ m. let h = (member_iff x xs).1 m in cc)
]

pub not-member : (x : String) (xs : List String) → ¬ In x xs → member x xs ≡ false
not-member x xs absent = elim (Bool-cases (member x xs)) [
  | inl e ↦ absurd (absent ((member_iff x xs).0 e))
  | inr e ↦ e
]
