-- ===== src/PatchPlan/Tests.antt =====
-- A vulnerable library with two contacts that have no address, and an application that needs it.
use sbom_graph.Prelude.{
  ◌≡◌, refl, Option, none, some, List, [], ◌∷◌, map, String, ◌==◌, if◌then◌else◌,
}
use sbom_graph.PatchPlan.{
  ContactRow, DefectRow, VersionRow, Contact, PatchPlanResult, compute_patch_plan,
}
use sbom_graph.PatchPlan.Contacts.{IsPlan, emails, compute_patch_plan-IsPlan}

abbrev contact_rows : String → List ContactRow
contact_rows purl =
    if purl == "lib"
    then record { email = none; team = some "core"; slack_channel = none }
      ∷ record { email = none; team = some "web"; slack_channel = none }
      ∷ []
    else record { email = some "app@acme.org"; team = none; slack_channel = none } ∷ []

abbrev version : String → VersionRow
version purl = record {
  project_name = some purl;
  version = some "1";
  purl = some purl;
  project_group = none;
}

-- The library and the application need each other.
abbrev dependants : List String → List VersionRow
dependants purls = elim purls [
  | [] ↦ []
  | purl ∷ more ↦ version "app" ∷ version "lib" ∷ version "app" ∷ []
]

abbrev defect : Option DefectRow
defect = some (record {
  id = some "CVE-1";
  defect_id = none;
  severity = none;
  aliases = none;
  description = none;
})

abbrev plan : PatchPlanResult
plan = compute_patch_plan contact_rows dependants defect (version "lib" ∷ []) 3

program : Unit {0}
unfolding compute_patch_plan sbom_graph.Members.member
program = tt

-- The second contact without an address is left out.
plan_run :
    (plan.total_affected ≡ 2)
    × (map (λ (c : Contact). c.team) plan.contacts ≡ "core" ∷ "" ∷ [])
    × (emails plan.contacts ≡ "" ∷ "app@acme.org" ∷ [])
unfolding program
plan_run = (refl, refl, refl)

compute_patch_plan-IsPlan_example :
    IsPlan (compute_patch_plan contact_rows dependants defect (version "lib" ∷ []) 3)
compute_patch_plan-IsPlan_example =
    compute_patch_plan-IsPlan contact_rows dependants defect (version "lib" ∷ []) 3
