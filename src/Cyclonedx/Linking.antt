-- ===== src/Cyclonedx/Linking.antt =====
-- The first half of `process_cyclone_dx_json` of
-- sbom-graph-model/src/sbom_graph_model/cyclonedx/processor.py: from the document to the
-- dictionaries of projects, dependencies and defects, libraries that nothing links included. The
-- order of a Python set is that in which its elements came.
use sbom_graph.Prelude.{Option, none, some, List, [], ◌∷◌, ◌++◌, String, if◌then◌else◌}
use sbom_graph.Json.{
  Json, array, nil, Fields, Result, ok, ◌>>=◌, ◌>>◌, traverse, get, get_or, has_key, as_dict, index,
  iterate, as_key,
}
use sbom_graph.Dict.{Dict, put, put_all, lookup, key_list, union, difference}
use sbom_graph.Cyclonedx.{Fault, validate_cyclonedx_structure, entries}
use sbom_graph.Cyclonedx.Parts.{
  Version, Defect, get_property_value, parse_defect_from_cyclone_dx,
  parse_application_from_cyclone_dx, parse_component_from_cyclone_dx,
}

-- The dictionaries that the second half persists.
pub record Parsed : Type 0 where
  pub projects : Dict Version
  pub dependency_versions : Dict (List String)
  pub defects : Dict Defect

-- What is read of the document, before the root.
pub record Sections : Type 0 where
  pub metadata : Fields
  pub scan_id : Json
  pub components : List (String × Version)
  pub dependencies : List (String × List String)
  pub vulnerabilities : List (Option Defect)

-- `set(value)`
unfoldable pub text_set : Json → Result Fault (List String)
unfolding traverse as_key iterate union
text_set value = iterate value >>= λ js. traverse as_key js >>= λ xs. ok (union [] xs)

-- An item of the dependencies' dictionary.
unfoldable pub parse_dependency : Json → Result Fault (String × List String)
unfolding index as_key text_set
parse_dependency project_deps = index "ref" project_deps >>= λ r. as_key r >>= λ ref.
    index "dependsOn" project_deps >>= λ d. text_set d >>= λ depends_on. ok (ref, depends_on)

-- The defects' dictionary, from the vulnerabilities that have an id.
unfoldable pub collect_defects : List (Option Defect) → Dict Defect
collect_defects [] = []
collect_defects (none ∷ ds) = collect_defects ds
collect_defects (some d ∷ ds) = (d.id, d) ∷ collect_defects ds

-- All references in the dependencies, parents and children.
unfoldable pub mentioned : Dict (List String) → List String
mentioned [] = []
mentioned ((ref, deps) ∷ d) = ref ∷ deps ++ mentioned d

-- The libraries that the dependencies do not mention become dependencies of the root.
unfoldable pub link_unlinked : String → List String → Dict (List String) → Dict (List String)
unfolding difference mentioned union lookup put
link_unlinked bom_ref refs dependency_versions =
    elim (difference refs (mentioned dependency_versions)) [
      | [] ↦ dependency_versions
      | ref ∷ more ↦ elim (lookup bom_ref dependency_versions) [
        | none ↦ put bom_ref (ref ∷ more) dependency_versions
        | some deps ↦ put bom_ref (union deps (ref ∷ more)) dependency_versions
      ]
    ]

-- The dictionaries, with the unlinked libraries linked to the root and the root among the projects.
unfoldable pub assemble : Sections → String → Version → Parsed
unfolding collect_defects put_all key_list link_unlinked put
assemble sections bom_ref version = record {
  projects = put bom_ref version (put_all sections.components []);
  dependency_versions =
      link_unlinked bom_ref (key_list (put_all sections.components []))
        (put_all sections.dependencies []);
  defects = put_all (collect_defects sections.vulnerabilities) [];
}

module _ (lower : String → String) where
  -- An item of the projects' dictionary.
  unfoldable pub parse_project : Json → Json → Result Fault (String × Version)
  unfolding index as_key as_dict parse_component_from_cyclone_dx
  parse_project scan_id comp = index "bom-ref" comp >>= λ r. as_key r >>= λ ref.
      as_dict comp >>= λ fs. ok (ref, parse_component_from_cyclone_dx lower fs scan_id)

  -- The values of a section, none if it is absent.
  unfoldable pub section : String → Fields → List Json
  unfolding has_key entries get
  section name fs = if has_key name fs then entries (get name fs) else []

  -- From the validation to the items of the three sections.
  unfoldable pub read_sections : Json → Result Fault Sections
  unfolding validate_cyclonedx_structure as_dict index get_property_value get_or traverse
      parse_project section parse_dependency parse_defect_from_cyclone_dx
  read_sections json_data = do
    validate_cyclonedx_structure json_data
    fs ← as_dict json_data
    m ← index "metadata" json_data
    metadata ← as_dict m
    scan_id ← get_property_value (get_or "properties" (array nil) metadata) "Scan ID"
    ps ← traverse (parse_project scan_id) (section "components" fs)
    ds ← traverse parse_dependency (section "dependencies" fs)
    vs ← traverse parse_defect_from_cyclone_dx (section "vulnerabilities" fs)
    ok (record {
      metadata = metadata;
      scan_id = scan_id;
      components = ps;
      dependencies = ds;
      vulnerabilities = vs;
    })

  -- Everything before the calls of the database.
  unfoldable pub parse_cyclone_dx_json :
      String → String → Option String → Json → Result Fault Parsed
  unfolding read_sections parse_application_from_cyclone_dx as_key assemble
  parse_cyclone_dx_json app_id public_app_id gitlab_project_url json_data =
      read_sections json_data >>= λ sections.
      parse_application_from_cyclone_dx lower app_id public_app_id sections.scan_id
        sections.metadata gitlab_project_url
      >>= λ (root_ref, version).
          as_key root_ref >>= λ bom_ref. ok (assemble sections bom_ref version)
