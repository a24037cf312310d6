-- ===== src/Cyclonedx/Order.antt =====
-- `process_cyclone_dx_json` links nothing before it is created.
use sbom_graph.Prelude.{inl, inr, refl, ap, subst, Option, List, [], ◌∷◌, ◌++◌, String, In}
use mathlib.Core.List.{append-nil}
use sbom_graph.Json.{
  null, boolean, number, array, object, nil, get_or, iterate, Json, text, Fields, Ok, Result-cases,
}
use sbom_graph.Dict.{Dict, values}
use sbom_graph.Cyclonedx.{Fault}
use sbom_graph.Cyclonedx.Parts.{Version, Defect}
use sbom_graph.Cyclonedx.Persisting.{
  Repository, Call, create_defect, persist_projects, persist_dependencies, version_defects,
  create_defects, create_version_defects, create_all_version_defects, persist_defects,
  source_components, persist_source_repos, persist, persist_document, process_cyclone_dx_json,
}
use sbom_graph.Cyclonedx.Linking.{Parsed, parse_cyclone_dx_json}
use sbom_graph.Cyclonedx.References.{
  Needs, Grounded, Within, Grounded-append, AllCreated, persist_projects-Grounded,
  persist_projects-In, persist_repos-Grounded, persist_dependencies-Grounded,
}
use sbom_graph.Cyclonedx.Associations.{Known, KnownHere, version_defects-Ok}

create_defects-Grounded :
    (defects : List Defect) (seen : List Call) → Grounded seen (create_defects defects)
unfolding create_defects Grounded Needs
create_defects-Grounded [] seen = tt
create_defects-Grounded (defect ∷ defects) seen = (tt, create_defects-Grounded defects _)

create_defects-In :
    (defects : List Defect) (d : Defect)
    → In d defects
    → In (create_defect d) (create_defects defects)
unfolding create_defects
create_defects-In [] d m = elim m [ ]
create_defects-In (defect ∷ defects) d (inl same) = inl (ap (λ x. create_defect x) same)
create_defects-In (defect ∷ defects) d (inr m) = inr (create_defects-In defects d m)

create_version_defects-Grounded :
    (defect : Defect) (versions : List Version) (seen : List Call)
    → In (create_defect defect) seen
    → AllCreated versions seen
    → Grounded seen (create_version_defects defect versions)
unfolding create_version_defects Grounded Needs AllCreated
create_version_defects-Grounded defect [] seen m made = tt
create_version_defects-Grounded defect (version ∷ versions) seen m made = (
  (m, made version (inl refl)),
  create_version_defects-Grounded defect versions _ (inr m) (λ v n. inr (made v (inr n))),
)

create_all_version_defects-Grounded :
    (pairs : List (Defect × List Version)) (seen : List Call)
    → ((p : Defect × List Version) → In p pairs → In (create_defect p.0) seen × AllCreated p.1 seen)
    → Grounded seen (create_all_version_defects pairs)
unfolding create_all_version_defects Grounded AllCreated Within
create_all_version_defects-Grounded [] seen made = tt
create_all_version_defects-Grounded ((defect, versions) ∷ more) seen made =
    let h = made (defect, versions) (inl refl) in
    Grounded-append seen (create_version_defects defect versions) (create_all_version_defects more)
      (create_version_defects-Grounded defect versions seen h.0 h.1)
      (λ seen' w w'.
        create_all_version_defects-Grounded more seen'
          (λ p m. let k = made p (inr m) in (w _ k.0, λ v n. w _ (k.1 v n))))

persist_defects-Grounded :
    (vulns : List Json) (defects : Dict Defect) (projects : Dict Version) (seen : List Call)
    → AllCreated (values projects) seen
    → Grounded seen (persist_defects vulns defects projects).calls
unfolding persist_defects Grounded AllCreated Within Known Ok
persist_defects-Grounded vulns defects projects seen made =
    elim (Result-cases (version_defects defects projects vulns [])) [
      | inr (e, f) ↦ rw (Grounded, f) tt
      | inl (d, f) ↦
          let known =
            subst (λ r. Ok (KnownHere defects projects) r) f
              (version_defects-Ok defects projects vulns [] (λ p m. elim m [ ])) in
          rw (Grounded, f)
            (Grounded-append seen (create_defects (values defects))
              (create_all_version_defects (values d))
              (create_defects-Grounded (values defects) seen)
              (λ seen' w w'. create_all_version_defects-Grounded (values d) seen' (λ p m.
                let k = known p m in
                (
                  w' _ (create_defects-In (values defects) p.0 k.0),
                  λ v n. w _ (made v (k.1 v n)),
                ))))
    ]

module _ (parse_repo_url : String → Repository) where
  persist_source_repos-Grounded :
      (json_data : Fields) (projects : Dict Version) (seen : List Call)
      → AllCreated (values projects) seen
      → Grounded seen (persist_source_repos parse_repo_url json_data projects).calls
  unfolding persist_source_repos Grounded
  persist_source_repos-Grounded json_data projects seen made =
      elim (Result-cases (source_components json_data)) [
        | inr (e, f) ↦ rw (Grounded, f) tt
        | inl (d, f) ↦ rw (Grounded, f) (persist_repos-Grounded parse_repo_url d projects seen made)
      ]

  -- The stages in order are grounded, with or without the later ones.
  stages-Grounded :
      (json_data : Fields) (parsed : Parsed) (rest : List Call)
      → ((seen : List Call) → AllCreated (values parsed.projects) seen → Grounded seen rest)
      → Grounded [] (
          persist_projects (values parsed.projects)
          ++ ((persist_source_repos parse_repo_url json_data parsed.projects).calls ++ rest))
  unfolding AllCreated Within
  stages-Grounded json_data parsed rest after =
      Grounded-append [] (persist_projects (values parsed.projects)) _
        (persist_projects-Grounded (values parsed.projects) [])
        (λ seen w w'.
          let made : AllCreated (values parsed.projects) seen =
            λ v m. w' _ (persist_projects-In (values parsed.projects) v m) in
          Grounded-append seen (persist_source_repos parse_repo_url json_data parsed.projects).calls
            rest (persist_source_repos-Grounded json_data parsed.projects seen made)
            (λ seen' u u'. after seen' (λ v m. u _ (made v m))))

  persist-Grounded :
      (json_data : Fields) (parsed : Parsed)
      → Grounded [] (persist parse_repo_url json_data parsed).calls
  unfolding persist Grounded AllCreated Within
  persist-Grounded json_data parsed =
      elim (Result-cases (persist_source_repos parse_repo_url json_data parsed.projects).outcome) [
        | inr (e, f) ↦
            rw (persist, f)
              (subst (λ xs. Grounded [] (persist_projects (values parsed.projects) ++ xs))
                (append-nil (persist_source_repos parse_repo_url json_data parsed.projects).calls)
                (stages-Grounded json_data parsed [] (λ seen made. tt)))
        | inl (u, f) ↦
            elim (Result-cases
              (iterate {I = Fault} (get_or "vulnerabilities" (array nil) json_data))) [
                | inr (e, g) ↦
                    rw (persist, f, g)
                      (stages-Grounded json_data parsed _ (λ seen made.
                        persist_dependencies-Grounded parsed.dependency_versions parsed.projects
                          seen made))
                | inl (vulns, g) ↦
                    rw (persist, f, g)
                      (stages-Grounded json_data parsed _ (λ seen made.
                        Grounded-append seen
                          (persist_dependencies parsed.dependency_versions parsed.projects) _
                          (persist_dependencies-Grounded parsed.dependency_versions parsed.projects
                            seen made)
                          (λ seen' w w'.
                            persist_defects-Grounded vulns parsed.defects parsed.projects seen'
                              (λ v m. w _ (made v m)))))
              ]
      ]

  persist_document-Grounded :
      (json_data : Json) (parsed : Parsed)
      → Grounded [] (persist_document parse_repo_url json_data parsed).calls
  unfolding persist_document Grounded
  persist_document-Grounded (object fs) parsed = persist-Grounded fs parsed
  persist_document-Grounded null parsed = tt
  persist_document-Grounded (boolean b) parsed = tt
  persist_document-Grounded (number literal nonzero) parsed = tt
  persist_document-Grounded (text s) parsed = tt
  persist_document-Grounded (array js) parsed = tt

  -- In the calls that `process_cyclone_dx_json` makes for any document, also when an exception ends
  -- them, nothing is linked before it is created: before a dependency both of its versions, before
  -- an association its defect and its version, before a license link a version of that name, group
  -- and project and the license, before a source link such a version and the repository.
  pub process_cyclone_dx_json-Grounded :
      (lower : String → String) (app_id public_app_id : String) (url : Option String)
      (json_data : Json)
      → Grounded []
          (process_cyclone_dx_json parse_repo_url lower app_id public_app_id url json_data).calls
  unfolding process_cyclone_dx_json Grounded
  process_cyclone_dx_json-Grounded lower app_id public_app_id url json_data =
      elim (Result-cases (parse_cyclone_dx_json lower app_id public_app_id url json_data)) [
        | inr (e, f) ↦ rw (process_cyclone_dx_json, f) tt
        | inl (parsed, f) ↦
            rw (process_cyclone_dx_json, f) (persist_document-Grounded json_data parsed)
      ]
