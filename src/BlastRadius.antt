-- ===== src/BlastRadius.antt =====
-- `FalkorDBService.compute_blast_radius` of
-- sbom-graph-api/src/sbom_graph_api/services/falkordb_service.py: the search outward from a package
-- through its dependants, one query a level. The query is the database's, taken as a parameter; a
-- Python set is a list.
pub mod Rows
pub mod Distance
pub mod Levels
pub mod Frontiers
pub mod Exactness
pub mod Tests
use sbom_graph.Prelude.{
  ℕ, zero, suc, ◌+◌, Bool, true, false, ◌||◌, Option, none, some, List, [], ◌∷◌, ◌++◌, String, ◌==◌,
  leb, if◌then◌else◌, length,
}
use sbom_graph.Members.{member}

-- A row of the query's result; its WHERE clause asks for a package URL that is not null.
pub record Row : Type 0 where
  pub project_name : Option String
  pub version : Option String
  pub purl : String
  pub project_group : Option String

pub record Package : Type 0 where
  pub project_name : String
  pub version : String
  pub purl : String
  pub project_group : String

pub record Frontier : Type 0 where
  pub depth : ℕ
  pub packages : List Package

pub record Radius : Type 0 where
  pub root : String
  pub frontiers : List Frontier
  pub total_affected : ℕ

abbrev pub max_transitive_nodes : ℕ
max_transitive_nodes = 50000

-- `value or ""`
unfoldable pub or_empty : Option String → String
or_empty none = ""
or_empty (some value) = value

unfoldable pub package_of : Row → Package
unfolding or_empty
package_of row = record {
  project_name = or_empty row.project_name;
  version = or_empty row.version;
  purl = row.purl;
  project_group = or_empty row.project_group;
}

-- The sets and the list that the loop over the rows of a level builds.
pub record Scan : Type 0 where
  pub visited : List String
  pub next_frontier : List String
  pub level_packages : List Package

unfoldable pub visit_row : Row → Scan → Scan
unfolding package_of
visit_row row s = if row.purl == "" || member row.purl s.visited then s else record {
  visited = row.purl ∷ s.visited;
  next_frontier = s.next_frontier ++ row.purl ∷ [];
  level_packages = s.level_packages ++ package_of row ∷ [];
}

unfoldable pub visit_rows : List Row → Scan → Scan
unfolding visit_row
visit_rows [] s = s
visit_rows (row ∷ rows) s = visit_rows rows (visit_row row s)

-- `if level_packages: frontiers.append(...)`, before the frontiers that come after.
unfoldable pub add_level : ℕ → List Package → List Frontier → List Frontier
add_level depth [] rest = rest
add_level depth (p ∷ packages) rest = record { depth = depth; packages = p ∷ packages } ∷ rest

unfoldable pub total : List Frontier → ℕ
total [] = 0
total (f ∷ frontiers) = length f.packages + total frontiers

module _ (query : List String → List Row) where
  -- The loop over the depths, by the number of depths that are left.
  unfoldable pub levels : ℕ → ℕ → List String → List String → List Frontier
  unfolding visit_rows add_level
  levels zero depth visited current = []
  levels (suc left) depth visited [] = []
  levels (suc left) depth visited (p ∷ current) =
      let s =
        visit_rows (query (p ∷ current))
          (record { visited = visited; next_frontier = []; level_packages = [] }) in
      let rest = levels left (suc depth) s.visited s.next_frontier in
      add_level depth s.level_packages
        (if leb max_transitive_nodes (length s.visited) then [] else rest)

  unfoldable pub compute_blast_radius : String → ℕ → Radius
  unfolding levels total
  compute_blast_radius purl max_depth =
      let frontiers = levels max_depth 1 (purl ∷ []) (purl ∷ []) in
      record { root = purl; frontiers = frontiers; total_affected = total frontiers }
