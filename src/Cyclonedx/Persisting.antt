-- ===== src/Cyclonedx/Persisting.antt =====
-- The second half of `process_cyclone_dx_json` of
-- sbom-graph-model/src/sbom_graph_model/cyclonedx/processor.py: the calls of the graph database that
-- it makes, in order, with an exception that may end them. `parse_repo_url` is a parameter.
use sbom_graph.Prelude.{Option, none, some, List, [], ◌∷◌, ◌++◌, String, if◌then◌else◌}
use sbom_graph.Json.{
  Json, text, array, object, nil, Fields, blank, raises, Result, ok, err, ◌>>=◌, get, get_or,
  has_key, truthy, or_else, as_dict, iterate, as_key,
}
use sbom_graph.Dict.{Dict, put, lookup, values}
use sbom_graph.Cyclonedx.{Fault}
use sbom_graph.Cyclonedx.Parts.{License, Version, Defect, extract_vcs_url_from_component}
use sbom_graph.Cyclonedx.Linking.{Parsed, parse_cyclone_dx_json}

-- What `parse_repo_url` returns.
pub record Repository : Type 0 where
  pub vcs_type : Option String
  pub namespace : Option String
  pub name : Option String

-- The calls of `Persistence`. A version is given by its project's name and group and its own name
-- in the calls `..._by_name`.
pub data Call : Type 0 where
  create_project_version : Version → Call
  create_license : License → Call
  create_version_license_by_name : Json → Json → Json → Json → Call
  create_source_repository : String → Repository → Call
  link_version_to_source_by_name : Json → Json → Json → String → Call
  create_dependency : Version → Version → Call
  create_defect : Defect → Call
  create_version_defect : Defect → Version → Call

-- The calls made, and how it ended.
pub record Run (A : Type 0) : Type 0 where
  pub calls : List Call
  pub outcome : Result Fault A

-- The calls for the licenses of a version.
unfoldable pub persist_licenses : Version → List License → List Call
unfolding truthy or_else
persist_licenses version [] = []
persist_licenses version (lic ∷ licenses) =
    let rest = persist_licenses version licenses in
    if truthy lic.spdx_id
    then create_license lic
      ∷ create_version_license_by_name (or_else version.project.name (text ""))
          version.project.group (or_else version.version (text "")) lic.spdx_id
      ∷ rest
    else rest

unfoldable pub persist_projects : List Version → List Call
unfolding persist_licenses
persist_projects [] = []
persist_projects (version ∷ versions) =
    create_project_version version ∷ persist_licenses version version.project.licenses
    ++ persist_projects versions

-- `components_by_ref` before the root: the items of the components' loop.
unfoldable pub components_by_ref : List Json → Dict Fields → Result Fault (Dict Fields)
unfolding has_key get as_key put
components_by_ref [] d = ok d
components_by_ref (object fs ∷ comps) d =
    if has_key "bom-ref" fs
    then (as_key (get "bom-ref" fs) >>= λ ref. components_by_ref comps (put ref fs d))
    else components_by_ref comps d
components_by_ref (_ ∷ comps) d = components_by_ref comps d

-- `components_by_ref.get(ref, {})`
unfoldable pub component_of : String → Dict Fields → Fields
unfolding lookup
component_of ref d = elim (lookup ref d) [ none ↦ blank | some fs ↦ fs ]

-- `vcs_url or repo_url`, as the text that `parse_repo_url` takes; `none` when it is falsy.
unfoldable pub chosen_url : Json → Option String → Result Fault (Option String)
unfolding truthy
chosen_url vcs_url repo =
    if truthy vcs_url
    then elim vcs_url [ text url ↦ ok (some url) | _ ↦ err raises ]
    else elim repo [ none ↦ ok none | some url ↦ ok (if truthy (text url) then some url else none) ]

-- The version that an entry of an `affects` list refers to.
unfoldable pub find_affected : Dict Version → Json → Result Fault (Option Version)
unfolding truthy lookup
find_affected projects (text ref) = ok (if truthy (text ref) then lookup ref projects else none)
find_affected projects (array js) = if truthy (array js) then err raises else ok none
find_affected projects (object fs) = if truthy (object fs) then err raises else ok none
find_affected projects _ = ok none

unfoldable pub add_found : Option Version → List Version → List Version
add_found none rest = rest
add_found (some version) rest = version ∷ rest

unfoldable pub get_affects_list : Dict Version → List Json → Result Fault (List Version)
unfolding as_dict get find_affected add_found
get_affects_list projects [] = ok []
get_affects_list projects (entry ∷ affects) = as_dict entry >>= λ fs.
    find_affected projects (get "ref" fs) >>= λ found.
    get_affects_list projects affects >>= λ rest. ok (add_found found rest)

-- One round of the loop that fills `version_defects`, whose keys are the defects of `defects`.
unfoldable pub associate :
    Dict Defect
    → Dict Version
    → Json
    → Dict (Defect × List Version)
    → Result Fault (Dict (Defect × List Version))
unfolding as_dict get get_or truthy as_key lookup iterate get_affects_list put
associate defects projects vuln d = as_dict vuln >>= λ fs.
    if truthy (get "id" fs)
    then (as_key (get "id" fs) >>= λ id. elim (lookup id defects) [
      | none ↦ ok d
      | some defect ↦ iterate (get_or "affects" (array nil) fs) >>= λ entries.
          get_affects_list projects entries >>= λ affected. ok (put id (defect, affected) d)
    ])
    else ok d

unfoldable pub version_defects :
    Dict Defect
    → Dict Version
    → List Json
    → Dict (Defect × List Version)
    → Result Fault (Dict (Defect × List Version))
unfolding associate
version_defects defects projects [] d = ok d
version_defects defects projects (vuln ∷ vulns) d =
    associate defects projects vuln d >>= λ e. version_defects defects projects vulns e

unfoldable pub create_defects : List Defect → List Call
create_defects [] = []
create_defects (defect ∷ defects) = create_defect defect ∷ create_defects defects

unfoldable pub create_version_defects : Defect → List Version → List Call
create_version_defects defect [] = []
create_version_defects defect (version ∷ versions) =
    create_version_defect defect version ∷ create_version_defects defect versions

unfoldable pub create_all_version_defects : List (Defect × List Version) → List Call
unfolding create_version_defects
create_all_version_defects [] = []
create_all_version_defects ((defect, versions) ∷ more) =
    create_version_defects defect versions ++ create_all_version_defects more

unfoldable pub persist_defects : List Json → Dict Defect → Dict Version → Run (Unit {0})
unfolding version_defects create_defects create_all_version_defects values
persist_defects vulns defects projects = elim (version_defects defects projects vulns []) [
  | err e ↦ record { calls = []; outcome = err e }
  | ok d ↦ record {
    calls = create_defects (values defects) ++ create_all_version_defects (values d);
    outcome = ok tt;
  }
]

-- The inner loop over the dependencies of one parent.
unfoldable pub persist_children : Dict Version → Version → List String → List Call
unfolding lookup
persist_children projects parent [] = []
persist_children projects parent (dep_ref ∷ dep_refs) =
    let rest = persist_children projects parent dep_refs in
    elim (lookup dep_ref projects) [
      | none ↦ rest
      | some child ↦ create_dependency parent child ∷ rest
    ]

unfoldable pub persist_dependencies : Dict (List String) → Dict Version → List Call
unfolding lookup persist_children
persist_dependencies [] projects = []
persist_dependencies ((ref, dependency_refs) ∷ dependency_versions) projects =
    let rest = persist_dependencies dependency_versions projects in
    elim (lookup ref projects) [
      | none ↦ rest
      | some parent ↦ persist_children projects parent dependency_refs ++ rest
    ]

-- All of `components_by_ref`, with the root.
unfoldable pub source_components : Fields → Result Fault (Dict Fields)
unfolding as_dict get_or iterate components_by_ref
source_components json_data = do
  comps ← iterate (get_or "components" (array nil) json_data)
  d ← components_by_ref comps []
  metadata ← as_dict (get_or "metadata" (object blank) json_data)
  components_by_ref (get_or "component" (object blank) metadata ∷ []) d

module _ (parse_repo_url : String → Repository) where
  -- The loop over the projects.
  unfoldable pub persist_repos : Dict Fields → Dict Version → Run (Unit {0})
  unfolding component_of extract_vcs_url_from_component chosen_url or_else
  persist_repos comps [] = record { calls = []; outcome = ok tt }
  persist_repos comps ((ref, version) ∷ projects) =
      let rest = persist_repos comps projects in
      elim (chosen_url (extract_vcs_url_from_component (component_of ref comps))
        version.project.repo) [
          | err e ↦ record { calls = []; outcome = err e }
          | ok none ↦ rest
          | ok (some url) ↦ record {
            calls =
                create_source_repository url (parse_repo_url url)
                ∷ link_version_to_source_by_name (or_else version.project.name (text ""))
                    version.project.group (or_else version.version (text "")) url
                ∷ rest.calls;
            outcome = rest.outcome;
          }
        ]

  unfoldable pub persist_source_repos : Fields → Dict Version → Run (Unit {0})
  unfolding source_components persist_repos
  persist_source_repos json_data projects = elim (source_components json_data) [
    | err e ↦ record { calls = []; outcome = err e }
    | ok d ↦ persist_repos d projects
  ]

  -- The four stages one after the other; an exception ends them with the calls made so far.
  unfoldable pub persist : Fields → Parsed → Run Parsed
  unfolding persist_projects persist_source_repos persist_dependencies persist_defects values
      iterate get_or
  persist json_data parsed =
      let repos = persist_source_repos json_data parsed.projects in
      elim repos.outcome [
        | err e ↦ record {
          calls = persist_projects (values parsed.projects) ++ repos.calls;
          outcome = err e;
        }
        | ok u ↦ elim (iterate (get_or "vulnerabilities" (array nil) json_data)) [
          | err e ↦ record {
            calls =
                persist_projects (values parsed.projects)
                ++ (repos.calls ++ persist_dependencies parsed.dependency_versions parsed.projects);
            outcome = err e;
          }
          | ok vulns ↦
              let last = persist_defects vulns parsed.defects parsed.projects in
              record {
                calls =
                    persist_projects (values parsed.projects)
                    ++ (repos.calls
                        ++ (persist_dependencies parsed.dependency_versions parsed.projects
                            ++ last.calls));
                outcome = last.outcome >>= λ done. ok parsed;
              }
        ]
      ]

  unfoldable pub persist_document : Json → Parsed → Run Parsed
  unfolding persist
  persist_document (object fs) parsed = persist fs parsed
  persist_document _ parsed = record { calls = []; outcome = err raises }

  unfoldable pub process_cyclone_dx_json :
      (String → String) → String → String → Option String → Json → Run Parsed
  unfolding parse_cyclone_dx_json persist_document
  process_cyclone_dx_json lower app_id public_app_id gitlab_project_url json_data =
      elim (parse_cyclone_dx_json lower app_id public_app_id gitlab_project_url json_data) [
        | err e ↦ record { calls = []; outcome = err e }
        | ok parsed ↦ persist_document json_data parsed
      ]
