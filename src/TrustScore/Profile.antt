-- ===== src/TrustScore/Profile.antt =====
-- The vulnerability profile against the weights of its findings.
use sbom_graph.Prelude.{
  ℕ, ◌+◌, ◌-◌, ◌*◌, ◌≤◌, ◌≡◌, inl, inr, refl, ap, List, [], ◌∷◌, ◌++◌, String, ◌==◌, arith, eqb,
  eqb_iff, length, length-append, Bool-cases, All, if◌then◌else◌,
}
use sbom_graph.Json.{text, Fields, get_or, ok}
use sbom_graph.TrustScore.{
  Severities, count_one, score, severity_of, count_severities, compute_vulnerability_profile,
}

-- What a finding costs, in halves: 3.0 for a critical one, 1.5 for a high one, and 0.5 for any other.
unfoldable pub weight : String → ℕ
weight severity = if severity == "critical" then 6 else if severity == "high" then 3 else 1

module _ (lower : String → String) where
  -- The finding has a text for its severity, or none at all, which counts as the empty text.
  unfoldable pub HasSeverity : Fields → Type 0
  HasSeverity finding = (s : String) × (get_or "severity" (text "") finding ≡ text s)

  unfoldable pub weight_of : Fields → ℕ
  unfolding weight
  weight_of finding = elim (get_or "severity" (text "") finding) [
    | text s ↦ weight (lower s)
    | _ ↦ 0
  ]

  unfoldable pub total_weight : List Fields → ℕ
  unfolding weight_of
  total_weight [] = 0
  total_weight (finding ∷ findings) = weight_of finding + total_weight findings

  -- The counters of `n` findings that cost `w` together.
  unfoldable Weighs : ℕ → ℕ → Severities → Type 0
  Weighs n w t =
      (t.critical_count + t.high_count ≤ n)
      × (w ≡ t.critical_count * 6 + t.high_count * 3 + (n - t.critical_count - t.high_count))

  count_one-Weighs :
      (n w : ℕ) (sev : String) (t : Severities)
      → Weighs n w t
      → Weighs (n + 1) (weight sev + w) (count_one sev t)
  unfolding Weighs weight count_one
  count_one-Weighs n w sev t (bound, same) = elim (Bool-cases (sev == "critical")) [
    | inl e ↦ rw e (omega arith, omega arith)
    | inr e ↦ rw e (elim (Bool-cases (sev == "high")) [
      | inl f ↦ rw f (omega arith, omega arith)
      | inr f ↦ rw f (omega arith, omega arith)
    ])
  ]

  severity_of-text :
      (finding : Fields) (s : String)
      → get_or "severity" (text "") finding ≡ text s
      → severity_of lower finding ≡ ok (lower s)
  unfolding severity_of
  severity_of-text finding s e = rw (severity_of, e) refl

  weight_of-text :
      (finding : Fields) (s : String)
      → get_or "severity" (text "") finding ≡ text s
      → weight_of finding ≡ weight (lower s)
  unfolding weight_of weight
  weight_of-text finding s e = rw (weight_of, e) refl

  count_severities-Weighs :
      (findings : List Fields)
      → All HasSeverity findings
      → (t : Severities) × (count_severities lower findings ≡ ok t)
        × Weighs (length findings) (total_weight findings) t
  unfolding HasSeverity count_severities total_weight Weighs
  count_severities-Weighs [] h =
      (record { critical_count = 0; high_count = 0 }, refl, (omega arith, omega arith))
  count_severities-Weighs (finding ∷ findings) ((s, e), h) =
      let (t, counted, (bound, same)) = count_severities-Weighs findings h in
      let (more, weighs) =
        count_one-Weighs (length findings) (total_weight findings) (lower s) t (bound, same) in
      (
        count_one (lower s) t,
        rw (severity_of-text finding s e, counted) refl,
        rw (weight_of-text finding s e) (omega (arith, more), omega (arith, weighs)),
      )

  -- Where every finding of both sources has a severity that is a text, or none, the vulnerability
  -- profile is computed, and is 20 halves less 6 for each critical finding, 3 for each high one and
  -- 1 for each other one, in whichever source and place it stands, and not below 0.
  pub compute_vulnerability_profile_lem :
      (osv ossindex : List Fields)
      → All HasSeverity (osv ++ ossindex)
      → compute_vulnerability_profile lower osv ossindex ≡ ok (20 - total_weight (osv ++ ossindex))
  unfolding compute_vulnerability_profile Weighs score
  compute_vulnerability_profile_lem osv ossindex h =
      let (t, counted, (bound, same)) = count_severities-Weighs (osv ++ ossindex) h in
      let size = length-append osv ossindex in
      let value : score (length osv + length ossindex) t ≡ 20 - total_weight (osv ++ ossindex) =
        omega (arith, size, bound, same) in
      elim (Bool-cases (eqb (length osv + length ossindex) 0)) [
        | inl z ↦
            let none = (eqb_iff (length osv + length ossindex) 0).0 z in
            let full : 20 ≡ 20 - total_weight (osv ++ ossindex) =
              omega (arith, size, bound, same, none) in
            rw (compute_vulnerability_profile, z) (ap ok full)
        | inr z ↦ rw (compute_vulnerability_profile, z, counted) (ap ok value)
      ]
