-- ===== src/TrustScore/Tests.antt =====
-- The vulnerability profile of small lists of findings, and the theorems about it on them.
use sbom_graph.Prelude.{◌-◌, ◌≡◌, refl, List, [], ◌∷◌, ◌++◌, String}
use sbom_graph.Json.{text, Fields, blank, entry, ok, get_or}
use sbom_graph.TrustScore.{compute_vulnerability_profile}
use sbom_graph.TrustScore.Profile.{HasSeverity, total_weight, compute_vulnerability_profile_lem}

abbrev finding : String → Fields
finding severity = entry "severity" (text severity) blank

abbrev lower : String → String
lower s = s

abbrev one_high : List Fields
one_high = finding "high" ∷ []

-- 8.5, and with a critical finding 5.5.
profile_run : compute_vulnerability_profile lower one_high [] ≡ ok 17
unfolding compute_vulnerability_profile
profile_run = refl

profile_critical_run :
    compute_vulnerability_profile lower (finding "critical" ∷ one_high) [] ≡ ok 11
unfolding compute_vulnerability_profile
profile_critical_run = refl

compute_vulnerability_profile_lem_example :
    compute_vulnerability_profile lower
      (finding "critical" ∷ one_high)
      (finding "medium" ∷ blank ∷ [])
    ≡ ok
        (20 - total_weight lower ((finding "critical" ∷ one_high) ++ finding "medium" ∷ blank ∷ []))
unfolding HasSeverity get_or
compute_vulnerability_profile_lem_example =
    compute_vulnerability_profile_lem lower (finding "critical" ∷ one_high)
      (finding "medium" ∷ blank ∷ [])
      (("critical", refl), (("high", refl), (("medium", refl), (("", refl), tt))))
