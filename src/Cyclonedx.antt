-- ===== src/Cyclonedx.antt =====
-- The CycloneDX processor of sbom-graph-model/src/sbom_graph_model/cyclonedx/processor.py: here the
-- validation of a document. `CycloneDXValidationError` has a constructor for each place that raises
-- it.
pub mod Parts
pub mod Linking
pub mod Persisting
pub mod Validity
pub mod Linked
pub mod References
pub mod Associations
pub mod Order
pub mod Edges
pub mod Tests
use sbom_graph.Prelude.{
  ℕ, ◌+◌, Bool, true, false, ◌&&◌, List, [], ◌∷◌, String, leb, if◌then◌else◌, length,
}
use sbom_graph.Json.{
  Json, array, object, Fields, Error, invalid, Result, ok, err, ◌>>=◌, ◌>>◌, guard, items, get,
  has_key,
}

pub data Fault : Type 0 where
  document_not_object : Fault
  metadata_missing : Fault
  metadata_not_object : Fault
  component_missing : Fault
  component_not_object : Fault
  root_ref_missing : Fault
  root_name_missing : Fault
  section_not_list : String → Fault
  section_too_long : String → ℕ → Fault
  entry_not_object : ℕ → Fault
  entry_ref_missing : ℕ → Fault

abbrev pub max_sbom_entries : ℕ
max_sbom_entries = 100000

-- `isinstance(value, dict)`, with the dictionary.
unfoldable pub require_object : Fault → Json → Result Fault Fields
require_object fault (object fs) = ok fs
require_object fault _ = err (invalid fault)

-- `if key not in obj: raise`, then `obj[key]`.
unfoldable pub require_key : Fault → String → Fields → Result Fault Json
unfolding has_key get
require_key fault key fs = if has_key key fs then ok (get key fs) else err (invalid fault)

-- The checks of a section that is present.
unfoldable pub check_list : String → Json → Result Fault (Unit {0})
unfolding items
check_list section (array js) =
    guard (leb (length (items js)) max_sbom_entries)
      (invalid (section_too_long section (length (items js))))
check_list section _ = err (invalid (section_not_list section))

unfoldable pub check_section : Fields → String → Result Fault (Unit {0})
unfolding check_list
check_section fs section = if has_key section fs then check_list section (get section fs) else ok tt

-- The loop over `enumerate(json_data["components"])`, from the position `i`.
unfoldable pub check_components : ℕ → List Json → Result Fault (Unit {0})
unfolding require_object require_key
check_components i [] = ok tt
check_components i (comp ∷ comps) = do
  fs ← require_object (entry_not_object i) comp
  ref ← require_key (entry_ref_missing i) "bom-ref" fs
  check_components (i + 1) comps

-- The entries of a section that is a list.
unfoldable pub entries : Json → List Json
unfolding items
entries (array js) = items js
entries _ = []

unfoldable pub validate_cyclonedx_structure : Json → Result Fault (Unit {0})
unfolding check_section check_components entries
validate_cyclonedx_structure json_data = do
  fs ← require_object document_not_object json_data
  metadata ← require_key metadata_missing "metadata" fs
  ms ← require_object metadata_not_object metadata
  component ← require_key component_missing "component" ms
  cs ← require_object component_not_object component
  ref ← require_key root_ref_missing "bom-ref" cs
  name ← require_key root_name_missing "name" cs
  check_section fs "components"
  check_section fs "dependencies"
  check_section fs "vulnerabilities"
  (if has_key "components" fs then check_components 0 (entries (get "components" fs)) else ok tt)
