-- ===== src/Cyclonedx/Tests.antt =====
-- A small CycloneDX document, and the theorems about the processor on it.
use sbom_graph.Prelude.{◌≡◌, ◌↔◌, refl, none, some, List, [], ◌∷◌, String, length, In}
use sbom_graph.Json.{Json, text, array, object, nil, cons, blank, entry, raises, Result, ok, err}
use sbom_graph.Dict.{Dict, lookup}
use sbom_graph.Cyclonedx.{Fault, validate_cyclonedx_structure}
use sbom_graph.Cyclonedx.Parts.{Version, parse_defect_from_cyclone_dx}
use sbom_graph.Cyclonedx.Linking.{Parsed, mentioned, parse_dependency, parse_cyclone_dx_json}
use sbom_graph.Cyclonedx.Persisting.{
  Repository, create_dependency, persist_dependencies, process_cyclone_dx_json,
}
use sbom_graph.Cyclonedx.Validity.{IsSbom, validate_cyclonedx_structure_iff}
use sbom_graph.Cyclonedx.Linked.{IsLinked, parse_cyclone_dx_json-IsLinked}
use sbom_graph.Cyclonedx.References.{Grounded}
use sbom_graph.Cyclonedx.Order.{process_cyclone_dx_json-Grounded}
use sbom_graph.Cyclonedx.Edges.{Child, persist_dependencies_iff}

abbrev component : String → Json
component ref = object (entry "bom-ref" (text ref) (entry "name" (text ref) blank))

abbrev dependency : Json
dependency =
    object (entry "ref" (text "app") (entry "dependsOn" (array (cons (text "a") nil)) blank))

abbrev vulnerability : Json
vulnerability = object (
    entry "id" (text "CVE-1")
      (entry "affects" (array (cons (object (entry "ref" (text "a") blank)) nil)) blank))

abbrev document : Json
document = object (
    entry "metadata" (object (entry "component" (component "app") blank)) (
      entry "components" (array (cons (component "a") (cons (component "b") nil))) (
        entry "dependencies" (array (cons dependency nil))
          (entry "vulnerabilities" (array (cons vulnerability nil)) blank))))

abbrev lower : String → String
lower s = s

abbrev repository : String → Repository
repository url = record { vcs_type = none; namespace = none; name = some url }

abbrev parsed_of : Result Fault Parsed → Parsed
parsed_of (ok p) = p
parsed_of (err e) = record { projects = []; dependency_versions = []; defects = [] }

program : Unit {0}
unfolding process_cyclone_dx_json sbom_graph.Members.member mentioned
program = tt

abbrev parsed : Parsed
parsed = parsed_of (parse_cyclone_dx_json lower "1" "app" none document)

-- Three versions, two dependencies (the unlinked "b" included), a defect and its association.
run_length : length (process_cyclone_dx_json repository lower "1" "app" none document).calls ≡ 7
unfolding program
run_length = refl

parsed_run : parse_cyclone_dx_json lower "1" "app" none document ≡ ok parsed
unfolding program
parsed_run = refl

-- An entry of the dependencies without `dependsOn` ends the processing by a KeyError.
parse_dependency_run : parse_dependency (object (entry "ref" (text "a") blank)) ≡ err raises
unfolding parse_dependency
parse_dependency_run = refl

-- A vulnerability whose `source` is a text ends it by an AttributeError.
parse_defect_run :
    parse_defect_from_cyclone_dx
      (object (entry "id" (text "CVE-1") (entry "source" (text "NVD") blank)))
    ≡ err raises
unfolding parse_defect_from_cyclone_dx
parse_defect_run = refl

validate_cyclonedx_structure_iff_example :
    (validate_cyclonedx_structure document ≡ ok tt) ↔ IsSbom document
validate_cyclonedx_structure_iff_example = validate_cyclonedx_structure_iff document

parse_cyclone_dx_json-IsLinked_example : IsLinked "1" parsed
parse_cyclone_dx_json-IsLinked_example =
    parse_cyclone_dx_json-IsLinked lower "1" "app" none document parsed parsed_run

process_cyclone_dx_json-Grounded_example :
    Grounded [] (process_cyclone_dx_json repository lower "1" "app" none document).calls
process_cyclone_dx_json-Grounded_example =
    process_cyclone_dx_json-Grounded repository lower "1" "app" none document

abbrev some_version : Version
some_version = record {
  version = text "1";
  project = record {
    application_id = none;
    public_app_id = none;
    name = text "a";
    group = text "";
    type = none;
    purl = text "";
    repo = none;
    licenses = [];
  };
  scan_id = text "";
  sbom_format = "cyclonedx";
}

abbrev dependencies : Dict (List String)
dependencies = ("app", "a" ∷ []) ∷ []

abbrev projects : Dict Version
projects = ("app", some_version) ∷ ("a", some_version) ∷ []

persist_dependencies_iff_example :
    In (create_dependency some_version some_version) (persist_dependencies dependencies projects)
    ↔ ((ref : String) × (refs : List String) × In (ref, refs) dependencies
        × (lookup ref projects ≡ some some_version)
        × Child projects refs some_version)
persist_dependencies_iff_example =
    persist_dependencies_iff projects dependencies some_version some_version
