-- ===== src/PatchPlan.antt =====
-- The plan of patches for a vulnerability: FalkorDBService.compute_patch_plan of
-- sbom-graph-api/src/sbom_graph_api/services/falkordb_service.py. The answers of the database are
-- parameters: the row of the defect, the rows of the versions that have it, the rows of the packages
-- that depend on given ones, and the contacts of a package.
pub mod Scans
pub mod Contacts
pub mod Tests
use sbom_graph.Prelude.{
  ℕ, zero, suc, ◌+◌, Bool, true, false, Option, none, some, List, [], ◌∷◌, ◌++◌, String, ◌==◌,
  if◌then◌else◌, leb, length, map,
}
use sbom_graph.Members.{member}
use sbom_graph.BlastRadius.{max_transitive_nodes, or_empty}

pub record Contact : Type 0 where
  pub email : String
  pub team : String
  pub slack_channel : String

pub record ContactRow : Type 0 where
  pub email : Option String
  pub team : Option String
  pub slack_channel : Option String

pub record DefectRow : Type 0 where
  pub id : Option String
  pub defect_id : Option String
  pub severity : Option String
  pub aliases : Option (List String)
  pub description : Option String

pub record DefectInfo : Type 0 where
  pub id : Option String
  pub severity : Option String
  pub aliases : List String
  pub description : Option String

pub record VersionRow : Type 0 where
  pub project_name : Option String
  pub version : Option String
  pub purl : Option String
  pub project_group : Option String

pub record AffectedPackage : Type 0 where
  pub project_name : String
  pub version : String
  pub purl : String
  pub project_group : String
  pub contacts : List Contact

pub record PatchFrontier : Type 0 where
  pub level : ℕ
  pub packages : List AffectedPackage

pub record PatchPlanResult : Type 0 where
  pub defect : Option DefectInfo
  pub frontiers : List PatchFrontier
  pub total_affected : ℕ
  pub contacts : List Contact

unfoldable pub contact_of_row : ContactRow → Contact
unfolding or_empty
contact_of_row row = record {
  email = or_empty row.email;
  team = or_empty row.team;
  slack_channel = or_empty row.slack_channel;
}

-- `defect_row[0] or defect_row[1]`
unfoldable pub first_id : DefectRow → Option String
first_id row = elim row.id [
  | none ↦ row.defect_id
  | some s ↦ if s == "" then row.defect_id else some s
]

unfoldable pub defect_info : DefectRow → DefectInfo
unfolding first_id
defect_info row = record {
  id = first_id row;
  severity = row.severity;
  aliases = elim row.aliases [ none ↦ [] | some aliases ↦ aliases ];
  description = row.description;
}

-- `s.add(x)`
unfoldable pub add_to : String → List String → List String
unfolding member
add_to x s = if member x s then s else s ++ x ∷ []

-- What a loop over the rows of a level builds up.
pub record PatchScan : Type 0 where
  pub visited_purls : List String
  pub next_purls : List String
  pub gathered : List Contact
  pub packages : List AffectedPackage

unfoldable pub package_of_row : VersionRow → List Contact → AffectedPackage
unfolding or_empty
package_of_row row contacts = record {
  project_name = or_empty row.project_name;
  version = or_empty row.version;
  purl = or_empty row.purl;
  project_group = or_empty row.project_group;
  contacts = contacts;
}

unfoldable pub count_packages : List PatchFrontier → ℕ
count_packages [] = 0
count_packages (f ∷ fs) = length f.packages + count_packages fs

-- The first contact of each address.
unfoldable pub unique_contacts : List String → List Contact → List Contact
unfolding member
unique_contacts seen [] = []
unique_contacts seen (c ∷ cs) =
    if member c.email seen
    then unique_contacts seen cs
    else c ∷ unique_contacts (seen ++ c.email ∷ []) cs

-- A frontier, unless it is empty.
unfoldable pub frontier_of : ℕ → List AffectedPackage → List PatchFrontier
frontier_of level [] = []
frontier_of level (p ∷ ps) = record { level = level; packages = p ∷ ps } ∷ []

module _ (contact_rows : String → List ContactRow) where
  unfoldable pub get_contacts_for_purl : String → List Contact
  unfolding contact_of_row
  get_contacts_for_purl purl = map contact_of_row (contact_rows purl)

  -- A version that has the defect itself.
  unfoldable pub add_affected : VersionRow → PatchScan → PatchScan
  unfolding package_of_row add_to get_contacts_for_purl
  add_affected row s =
      let purl = or_empty row.purl in
      if purl == ""
      then record s { packages = s.packages ++ package_of_row row [] ∷ [] }
      else record {
        visited_purls = add_to purl s.visited_purls;
        next_purls = add_to purl s.next_purls;
        gathered = s.gathered ++ get_contacts_for_purl purl;
        packages = s.packages ++ package_of_row row (get_contacts_for_purl purl) ∷ [];
      }

  unfoldable pub add_all_affected : List VersionRow → PatchScan → PatchScan
  unfolding add_affected
  add_all_affected [] s = s
  add_all_affected (row ∷ rows) s = add_all_affected rows (add_affected row s)

  -- A package that depends on one of the level before.
  unfoldable pub add_dependant : VersionRow → PatchScan → PatchScan
  unfolding package_of_row add_to get_contacts_for_purl member
  add_dependant row s =
      let purl = or_empty row.purl in
      if purl == "" then s else if member purl s.visited_purls then s else record {
        visited_purls = add_to purl s.visited_purls;
        next_purls = add_to purl s.next_purls;
        gathered = s.gathered ++ get_contacts_for_purl purl;
        packages = s.packages ++ package_of_row row (get_contacts_for_purl purl) ∷ [];
      }

  unfoldable pub add_dependants : List VersionRow → PatchScan → PatchScan
  unfolding add_dependant
  add_dependants [] s = s
  add_dependants (row ∷ rows) s = add_dependants rows (add_dependant row s)

  module _ (dependants : List String → List VersionRow) where
    -- The levels that are left: their frontiers, and the contacts on them.
    unfoldable pub patch_levels :
        ℕ → ℕ → List String → List String → List PatchFrontier × List Contact
    unfolding add_dependants frontier_of
    patch_levels zero level visited current = ([], [])
    patch_levels (suc remaining) level visited [] = ([], [])
    patch_levels (suc remaining) level visited (purl ∷ current) =
        let scan =
          add_dependants (dependants (purl ∷ current))
            (record { visited_purls = visited; next_purls = []; gathered = []; packages = [] }) in
        let rest = patch_levels remaining (level + 1) scan.visited_purls scan.next_purls in
        if leb max_transitive_nodes (length scan.visited_purls)
        then (frontier_of level scan.packages, scan.gathered)
        else (frontier_of level scan.packages ++ rest.0, scan.gathered ++ rest.1)

    unfoldable pub compute_patch_plan : Option DefectRow → List VersionRow → ℕ → PatchPlanResult
    unfolding defect_info add_all_affected patch_levels frontier_of unique_contacts count_packages
    compute_patch_plan none affected max_depth = record {
      defect = none;
      frontiers = [];
      total_affected = 0;
      contacts = [];
    }
    compute_patch_plan (some row) affected max_depth =
        let scan =
          add_all_affected affected
            (record { visited_purls = []; next_purls = []; gathered = []; packages = [] }) in
        let found = patch_levels max_depth 1 scan.visited_purls scan.next_purls in
        let frontiers = frontier_of 0 scan.packages ++ found.0 in
        record {
          defect = some (defect_info row);
          frontiers = frontiers;
          total_affected = count_packages frontiers;
          contacts = unique_contacts [] (scan.gathered ++ found.1);
        }
