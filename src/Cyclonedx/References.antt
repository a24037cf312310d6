-- ===== src/Cyclonedx/References.antt =====
-- The order of the calls of the database: nothing is linked before it is created.
use sbom_graph.Prelude.{
  ◌≡◌, inl, inr, refl, ap, none, some, List, [], ◌∷◌, ◌++◌, String, Bool-cases, Option-cases, In,
  In-append_right,
}
use sbom_graph.Json.{Json, text, truthy, or_else, Fields, Result-cases}
use sbom_graph.Dict.{Dict, lookup, values, In-values}
use sbom_graph.Cyclonedx.Parts.{License, Version, extract_vcs_url_from_component}
use sbom_graph.Cyclonedx.Persisting.{
  Repository, Call, create_project_version, create_license, create_version_license_by_name,
  create_source_repository, link_version_to_source_by_name, create_dependency, create_defect,
  create_version_defect, persist_licenses, persist_projects, component_of, chosen_url,
  persist_repos, persist_children, persist_dependencies,
}

-- A version of that name, group and project was created by one of the calls `seen`.
pub record Created (seen : List Call) (name group version : Json) : Type 0 where
  pub created : Version
  pub made : In (create_project_version created) seen
  pub same_name : name ≡ or_else created.project.name (text "")
  pub same_group : group ≡ created.project.group
  pub same_version : version ≡ or_else created.version (text "")

-- What the calls before must have created for a call to link what exists.
unfoldable pub Needs : List Call → Call → Type 0
Needs seen (create_dependency parent child) =
    In (create_project_version parent) seen × In (create_project_version child) seen
Needs seen (create_version_defect defect version) =
    In (create_defect defect) seen × In (create_project_version version) seen
Needs seen (create_version_license_by_name name group version spdx_id) =
    Created seen name group version
    × (lic : License) × In (create_license lic) seen
    × (lic.spdx_id ≡ spdx_id)
Needs seen (link_version_to_source_by_name name group version url) =
    Created seen name group version × (r : Repository) × In (create_source_repository url r) seen
Needs seen _ = Unit

-- Every call finds what it needs among `seen` and the calls before it.
unfoldable pub Grounded : List Call → List Call → Type 0
unfolding Needs
Grounded seen [] = Unit
Grounded seen (c ∷ calls) = Needs seen c × Grounded (c ∷ seen) calls

unfoldable pub Within : List Call → List Call → Type 0
Within xs ys = (c : Call) → In c xs → In c ys

Within-cons : (c : Call) (xs ys : List Call) → Within xs ys → Within (c ∷ xs) (c ∷ ys)
unfolding Within
Within-cons c xs ys w d m = elim m [ inl same ↦ inl same | inr n ↦ inr (w d n) ]

Created-Within :
    {n g v : Json} (xs ys : List Call) → Within xs ys → Created xs n g v → Created ys n g v
unfolding Within
Created-Within xs ys w h = record {
  created = h.created;
  made = w _ h.made;
  same_name = h.same_name;
  same_group = h.same_group;
  same_version = h.same_version;
}

pub Grounded-append :
    (seen xs ys : List Call)
    → Grounded seen xs
    → ((seen' : List Call) → Within seen seen' → Within xs seen' → Grounded seen' ys)
    → Grounded seen (xs ++ ys)
unfolding Grounded Within
Grounded-append seen [] ys h f = f seen (λ c m. m) (λ c m. elim m [ ])
Grounded-append seen (x ∷ xs) ys h f = (
  h.0,
  Grounded-append (x ∷ seen) xs ys h.1 (λ seen' w w'.
      f seen' (λ c m. w c (inr m)) (λ c m. elim m [ inl same ↦ w c (inl same) | inr n ↦ w' c n ])),
)

module _ (version : Version) where
  persist_licenses-Grounded :
      (licenses : List License) (seen : List Call)
      → In (create_project_version version) seen
      → Grounded seen (persist_licenses version licenses)
  unfolding persist_licenses Grounded Needs
  persist_licenses-Grounded [] seen m = tt
  persist_licenses-Grounded (lic ∷ licenses) seen m = elim (Bool-cases (truthy lic.spdx_id)) [
    | inr e ↦ rw e (persist_licenses-Grounded licenses seen m)
    | inl e ↦
        rw (Grounded, e)
          (
            tt,
            (
              (
                record {
                  created = version;
                  made = inr m;
                  same_name = refl;
                  same_group = refl;
                  same_version = refl;
                },
                lic,
                inl refl,
                refl,
              ),
              persist_licenses-Grounded licenses _ (inr (inr m)),
            ),
          )
  ]

pub persist_projects-Grounded :
    (versions : List Version) (seen : List Call) → Grounded seen (persist_projects versions)
unfolding persist_projects Grounded Needs
persist_projects-Grounded [] seen = tt
persist_projects-Grounded (version ∷ versions) seen = (
  tt,
  Grounded-append _ (persist_licenses version version.project.licenses) (persist_projects versions)
      (persist_licenses-Grounded version version.project.licenses _ (inl refl))
      (λ seen' w w'. persist_projects-Grounded versions seen'),
)

pub persist_projects-In :
    (versions : List Version) (v : Version)
    → In v versions
    → In (create_project_version v) (persist_projects versions)
unfolding persist_projects
persist_projects-In [] v m = elim m [ ]
persist_projects-In (version ∷ versions) v (inl same) =
    inl (ap (λ x. create_project_version x) same)
persist_projects-In (version ∷ versions) v (inr m) = inr (
    In-append_right _ (persist_licenses version version.project.licenses) _
      (persist_projects-In versions v m))

-- All versions of the list were created.
unfoldable pub AllCreated : List Version → List Call → Type 0
AllCreated versions seen = (v : Version) → In v versions → In (create_project_version v) seen

module _ (parse_repo_url : String → Repository) where
  pub persist_repos-Grounded :
      (comps : Dict Fields) (projects : Dict Version) (seen : List Call)
      → AllCreated (values projects) seen
      → Grounded seen (persist_repos parse_repo_url comps projects).calls
  unfolding persist_repos Grounded Needs AllCreated values
  persist_repos-Grounded comps [] seen made = tt
  persist_repos-Grounded comps ((ref, version) ∷ projects) seen made =
      elim (Result-cases (
        chosen_url (extract_vcs_url_from_component (component_of ref comps))
          version.project.repo)) [
            | inr (e, f) ↦ rw (Grounded, f) tt
            | inl (none, f) ↦
                rw (Grounded, f)
                  (persist_repos-Grounded comps projects seen (λ v m. made v (inr m)))
            | inl (some url, f) ↦
                rw (Grounded, f)
                  (
                    tt,
                    (
                      (
                        record {
                          created = version;
                          made = inr (made version (inl refl));
                          same_name = refl;
                          same_group = refl;
                          same_version = refl;
                        },
                        parse_repo_url url,
                        inl refl,
                      ),
                      persist_repos-Grounded comps projects _ (λ v m. inr (inr (made v (inr m)))),
                    ),
                  )
          ]

persist_children-Grounded :
    (projects : Dict Version) (parent : Version) (refs : List String) (seen : List Call)
    → AllCreated (values projects) seen
    → In (create_project_version parent) seen
    → Grounded seen (persist_children projects parent refs)
unfolding persist_children Grounded Needs AllCreated
persist_children-Grounded projects parent [] seen made m = tt
persist_children-Grounded projects parent (ref ∷ refs) seen made m =
    elim (Option-cases (lookup ref projects)) [
      | inl e ↦ rw (Grounded, e) (persist_children-Grounded projects parent refs seen made m)
      | inr (child, e) ↦
          rw (Grounded, e)
            (
              (m, made child (In-values ref child projects e)),
              persist_children-Grounded projects parent refs _ (λ v n. inr (made v n)) (inr m),
            )
    ]

pub persist_dependencies-Grounded :
    (dependencies : Dict (List String)) (projects : Dict Version) (seen : List Call)
    → AllCreated (values projects) seen
    → Grounded seen (persist_dependencies dependencies projects)
unfolding persist_dependencies Grounded AllCreated Within
persist_dependencies-Grounded [] projects seen made = tt
persist_dependencies-Grounded ((ref, refs) ∷ dependencies) projects seen made =
    elim (Option-cases (lookup ref projects)) [
      | inl e ↦ rw (Grounded, e) (persist_dependencies-Grounded dependencies projects seen made)
      | inr (parent, e) ↦
          rw (Grounded, e)
            (Grounded-append seen (persist_children projects parent refs) _
              (persist_children-Grounded projects parent refs seen made
                (made parent (In-values ref parent projects e)))
              (λ seen' w w'.
                persist_dependencies-Grounded dependencies projects seen' (λ v m. w _ (made v m))))
    ]
