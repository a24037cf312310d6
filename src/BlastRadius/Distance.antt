-- ===== src/BlastRadius/Distance.antt =====
-- Distances in the graph of dependants, the specification of the search.
use native.Mathlib.Decide.{dec_lt}
use sbom_graph.Prelude.{subst, ℕ, zero, suc, ◌<◌, ◌≤◌, ◌≡◌, ◌≢◌, List, String, arith, In}
use sbom_graph.BlastRadius.{Row}

-- A DEPENDENCY_VERSION edge: the version `parent` depends on the one with URL `child`.
pub record Edge : Type 0 where
  pub child : String
  pub parent : Row

module _ (edges : List Edge) (root : String) where
  -- One step to a dependant whose URL is not empty.
  abbrev pub Step : String → String → Type 0
  Step p q = (q ≢ "") × (e : Edge) × In e edges × (e.child ≡ p) × (e.parent.purl ≡ q)

  abbrev pub Walk : ℕ → String → Type 0
  Walk zero q = q ≡ root
  Walk (suc n) q = (p : String) × Walk n p × Step p q

  abbrev pub Within : ℕ → String → Type 0
  Within n q = (m : ℕ) × (m < n) × Walk m q

  -- The shortest walk to `q` has `n` steps.
  abbrev pub AtDistance : ℕ → String → Type 0
  AtDistance n q = Walk n q × (¬ Within n q)

  -- The vertex before the last on a shortest walk is at the distance before.
  pub AtDistance-pred :
      (n : ℕ) (q : String) → AtDistance (suc n) q → (p : String) × AtDistance n p × Step p q
  AtDistance-pred n q ((p, w, s), far) =
      (p, (w, λ (m, lt, v). far (suc m, omega arith, (p, v, s))), s)

  pub Within-zero : (q : String) → ¬ Within zero q
  Within-zero q (m, lt, w) = omega arith

  pub Within-suc : (n : ℕ) (q : String) → Within n q → Within (suc n) q
  Within-suc n q (m, lt, w) = (m, omega arith, w)

  pub Within-one : (q : String) → Within 1 q → q ≡ root
  Within-one q (zero, lt, w) = w
  Within-one q (suc m, lt, w) = absurd (omega arith)

  -- What is reached in fewer than `suc n` steps and not in fewer than `n`.
  pub AtDistance-of_Within : (n : ℕ) (q : String) → Within (suc n) q → ¬ Within n q → AtDistance n q
  AtDistance-of_Within n q (m, lt, w) far = elim (dec_lt m n) [
    | yes h ↦ absurd (far (m, h, w))
    | no h ↦ let same : m ≡ n = omega arith in (subst (λ k. Walk k q) same w, far)
  ]

  -- A vertex at a greater distance is reached through vertices at each smaller one.
  pub AtDistance-below :
      (n d : ℕ) (q : String) → n ≤ d → AtDistance d q → (p : String) × AtDistance n p
  AtDistance-below n zero q h at =
      let same : zero ≡ n = omega arith in (q, subst (λ k. AtDistance k q) same at)
  AtDistance-below n (suc d) q h at = elim (dec_lt d n) [
    | yes lt ↦ let same : suc d ≡ n = omega arith in (q, subst (λ k. AtDistance k q) same at)
    | no le ↦ let (p, near, _) = AtDistance-pred d q at in AtDistance-below n d p (omega arith) near
  ]
