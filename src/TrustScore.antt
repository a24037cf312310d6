-- ===== src/TrustScore.antt =====
-- The vulnerability profile of TrustScoreCalculator of
-- sbom-graph-enrichment/src/sbom_graph_enrichment/certifiers/trust_score.py. Scores are counted in
-- halves, which the source's floating-point numbers hold exactly: 20 halves are its 10.0. A finding
-- is its `data`, None for a list is the empty list, and `str.lower` is a parameter.
pub mod Profile
pub mod Tests
use sbom_graph.Prelude.{
  ℕ, ◌+◌, ◌-◌, ◌*◌, min, Bool, true, false, List, [], ◌∷◌, ◌++◌, String, ◌==◌, eqb, if◌then◌else◌,
  length,
}
use sbom_graph.Json.{Json, text, Fields, Error, raises, Result, ok, err, ◌>>=◌, get_or}

-- No error of its own is raised.
pub data NoFault : Type 0 where

-- The counters of the loop.
pub record Severities : Type 0 where
  pub critical_count : ℕ
  pub high_count : ℕ

unfoldable pub count_one : String → Severities → Severities
count_one sev s =
    if sev == "critical"
    then record s { critical_count = s.critical_count + 1 }
    else if sev == "high"
    then record s { high_count = s.high_count + 1 }
    else s

-- The penalty in halves, and the score that is left of the 20 halves.
unfoldable pub score : ℕ → Severities → ℕ
score total s =
    let other_count = total - s.critical_count - s.high_count in
    let penalty = s.critical_count * 6 + s.high_count * 3 + other_count in min 20 (20 - penalty)

module _ (lower : String → String) where
  unfoldable pub severity_of : Fields → Result NoFault String
  unfolding get_or
  severity_of data_of = elim (get_or "severity" (text "") data_of) [
    | text s ↦ ok (lower s)
    | _ ↦ err raises
  ]

  unfoldable pub count_severities : List Fields → Result NoFault Severities
  unfolding severity_of count_one
  count_severities [] = ok (record { critical_count = 0; high_count = 0 })
  count_severities (finding ∷ findings) =
      severity_of finding >>= λ sev. count_severities findings >>= λ s. ok (count_one sev s)

  unfoldable pub compute_vulnerability_profile : List Fields → List Fields → Result NoFault ℕ
  unfolding count_severities score
  compute_vulnerability_profile osv ossindex =
      let total = length osv + length ossindex in
      if eqb total 0
      then ok 20
      else (count_severities (osv ++ ossindex) >>= λ s. ok (score total s))
