-- ===== src/Cyclonedx/Parts.antt =====
-- The parts of a CycloneDX document, as the static methods of
-- sbom-graph-model/src/sbom_graph_model/cyclonedx/processor.py read them into the objects of
-- sbom-graph-model/src/sbom_graph_model/model.py; of these, the fields that the processor sets.
use sbom_graph.Prelude.{
  Bool, false, not, Option, none, some, List, [], ◌∷◌, String, ◌==◌, if◌then◌else◌,
}
use sbom_graph.Json.{
  Json, null, text, array, object, nil, cons, Fields, blank, raises, Result, ok, err, ◌>>=◌, items,
  get, get_or, truthy, or_else, is_text, as_dict, index, iterate, as_key,
}
use sbom_graph.Cyclonedx.{Fault}

pub data ProjectType : Type 0 where
  application : ProjectType
  library : ProjectType

pub record License : Type 0 where
  pub spdx_id : Json
  pub name : Json
  pub url : Json
  pub risk_category : String

pub record Project : Type 0 where
  pub application_id : Option String
  pub public_app_id : Option String
  pub name : Json
  pub group : Json
  pub type : Option ProjectType
  pub purl : Json
  pub repo : Option String
  pub licenses : List License

-- A version holds its project, so that the pair of the two is the version alone.
pub record Version : Type 0 where
  pub version : Json
  pub project : Project
  pub scan_id : Json
  pub sbom_format : String

pub record Defect : Type 0 where
  pub id : String
  pub source_name : Json
  pub source_url : Json
  pub severity : Json
  pub cwes : Json
  pub cvss : Json
  pub cvss_string : Json

-- The loop of `_get_property_value`.
unfoldable pub find_property : String → List Json → Result Fault Json
unfolding index is_text
find_property name [] = ok (text "")
find_property name (prop ∷ properties) = index "name" prop >>= λ n.
    if is_text name n then index "value" prop else find_property name properties

unfoldable pub get_property_value : Json → String → Result Fault Json
unfolding iterate find_property
get_property_value properties property_name =
    iterate properties >>= λ props. find_property property_name props

-- One round of the loop over the license entries; `none` is `continue`.
unfoldable pub parse_license : Json → Option License
unfolding get get_or truthy
parse_license (object fs) = elim (get "license" fs) [
  | object lic ↦
      let spdx_id = get "id" lic in
      let name = get_or "name" (text "") lic in
      if truthy spdx_id
      then some (record {
        spdx_id = spdx_id;
        name = spdx_id;
        url = get "url" lic;
        risk_category = "unknown";
      })
      else if truthy name
      then some
          (record { spdx_id = name; name = name; url = get "url" lic; risk_category = "unknown" })
      else none
  | _ ↦ none
]
parse_license _ = none

unfoldable pub parse_licenses : List Json → List License
unfolding parse_license
parse_licenses [] = []
parse_licenses (entry ∷ entries) = elim (parse_license entry) [
  | none ↦ parse_licenses entries
  | some lic ↦ lic ∷ parse_licenses entries
]

unfoldable pub parse_licenses_from_component : Fields → List License
unfolding parse_licenses items get_or
parse_licenses_from_component component = elim (get_or "licenses" (array nil) component) [
  | array js ↦ parse_licenses (items js)
  | _ ↦ []
]

-- The loop over the external references; `null` is None.
unfoldable pub find_vcs_url : List Json → Json
unfolding get get_or truthy is_text
find_vcs_url [] = null
find_vcs_url (object ref ∷ refs) =
    let rest = find_vcs_url refs in
    let url = get_or "url" (text "") ref in
    if is_text "vcs" (get "type" ref) then (if truthy url then url else rest) else rest
find_vcs_url (_ ∷ refs) = find_vcs_url refs

unfoldable pub extract_vcs_url_from_component : Fields → Json
unfolding find_vcs_url items get_or
extract_vcs_url_from_component component =
    elim (get_or "externalReferences" (array nil) component) [
      | array js ↦ find_vcs_url (items js)
      | _ ↦ null
    ]

-- `ratings[0] if ratings and isinstance(ratings[0], dict) else {}`, after `len(ratings)`.
unfoldable pub first_rating : Json → Result Fault Fields
first_rating (array nil) = ok blank
first_rating (array (cons (object rating) js)) = ok rating
first_rating (array (cons _ js)) = ok blank
first_rating (text s) = ok blank
first_rating (object blank) = ok blank
first_rating _ = err raises

unfoldable pub parse_defect_from_cyclone_dx : Json → Result Fault (Option Defect)
unfolding as_dict get get_or truthy or_else as_key first_rating
parse_defect_from_cyclone_dx vulnerability = as_dict vulnerability >>= λ fs.
    if not (truthy (get "id" fs))
    then ok none
    else as_dict (or_else (get "source" fs) (object blank)) >>= λ source.
        first_rating (or_else (get "ratings" fs) (array nil)) >>= λ rating.
        as_key (get "id" fs) >>= λ id. ok (
          some (record {
            id = id;
            source_name = get_or "name" (text "") source;
            source_url = get_or "url" (text "") source;
            severity = get "severity" rating;
            cwes = get_or "cwes" (array nil) fs;
            cvss = get "score" rating;
            cvss_string = get "vector" rating;
          }))

module _ (lower : String → String) where
  -- `str(raw_type).lower() == 'application'`, which only a text can meet.
  unfoldable pub is_application : Json → Bool
  is_application (text s) = lower s == "application"
  is_application _ = false

  unfoldable pub type_of : Json → Option ProjectType
  unfolding is_application
  type_of null = none
  type_of raw_type = some (if is_application raw_type then application else library)

  -- The pair of the root's reference and its version.
  unfoldable pub parse_application_from_cyclone_dx :
      String → String → Json → Fields → Option String → Result Fault (Json × Version)
  unfolding index as_dict get get_or type_of parse_licenses_from_component
  parse_application_from_cyclone_dx app_id public_app_id scan_id metadata gitlab_project_url =
      index "component" (object metadata) >>= λ c. as_dict c >>= λ component. ok (
        get "bom-ref" component,
        record {
          version = get_or "version" (text "UNKNOWN") component;
          project = record {
            application_id = some app_id;
            public_app_id = some public_app_id;
            name = get "name" component;
            group = get "group" component;
            type = type_of (get "type" component);
            purl = get "purl" component;
            repo = gitlab_project_url;
            licenses = parse_licenses_from_component component;
          };
          scan_id = scan_id;
          sbom_format = "cyclonedx";
        },
      )

  unfoldable pub parse_component_from_cyclone_dx : Fields → Json → Version
  unfolding get type_of parse_licenses_from_component
  parse_component_from_cyclone_dx component scan_id = record {
    version = get "version" component;
    project = record {
      application_id = none;
      public_app_id = none;
      name = get "name" component;
      group = get "group" component;
      type = type_of (get "type" component);
      purl = get "purl" component;
      repo = none;
      licenses = parse_licenses_from_component component;
    };
    scan_id = scan_id;
    sbom_format = "cyclonedx";
  }
