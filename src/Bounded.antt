-- ===== src/Bounded.antt =====
-- `bound_nodes_edges` of sbom-graph-api/src/sbom_graph_api/visualizations/_bounded.py: the cap on
-- the nodes and edges of a drawn graph. A node and an edge are dictionaries of which the code reads
-- the keys below; `none` is a missing key.
pub mod Nodes
pub mod Edges
pub mod Capped
pub mod Tests
use sbom_graph.Prelude.{
  ℕ, ◌+◌, Bool, true, false, ◌&&◌, not, Option, none, some, List, [], ◌∷◌, ◌++◌, String, ◌==◌, leb,
  if◌then◌else◌, length,
}
use sbom_graph.Members.{member}

-- The keys that the code reads, of nodes `N` and edges `E`.
pub record Keys (N E : Type 0) : Type 0 where
  pub id : N → Option String
  pub source : E → Option String
  pub target : E → Option String

-- The variables of the loop over the nodes.
pub record Kept (N : Type 0) : Type 0 where
  pub kept_ids : List String
  pub kept_nodes : List N
  pub truncated : Bool
  pub dropped : ℕ

-- The variables of the loop over the edges.
pub record KeptEdges (E : Type 0) : Type 0 where
  pub kept_edges : List E
  pub truncated : Bool
  pub dropped : ℕ

pub record Result (N E : Type 0) : Type 0 where
  pub nodes : List N
  pub edges : List E
  pub truncated : Bool
  pub dropped : ℕ

-- `e.get("source", "")`
unfoldable pub or_blank : Option String → String
or_blank none = ""
or_blank (some s) = s

unfoldable pub is_id : String → Option String → Bool
is_id root none = false
is_id root (some i) = i == root

module _ {N E : Type 0} (keys : Keys N E) where
  abbrev nothing_kept : Kept N
  nothing_kept = record { kept_ids = []; kept_nodes = []; truncated = false; dropped = 0 }

  -- The first loop, which keeps the root and stops.
  unfoldable pub seed : String → List N → Kept N
  unfolding is_id
  seed root [] = nothing_kept
  seed root (n ∷ nodes) =
      if is_id root (keys.id n)
      then record { kept_ids = root ∷ []; kept_nodes = n ∷ []; truncated = false; dropped = 0 }
      else seed root nodes

  unfoldable pub start : Option String → List N → Kept N
  unfolding seed
  start none nodes = nothing_kept
  start (some root) nodes = seed root nodes

  -- One round of the second loop; `none` is the KeyError of `n["id"]`.
  unfoldable pub keep_node : ℕ → Option String → N → Kept N → Option (Kept N)
  keep_node max_nodes none n s =
      if leb max_nodes (length s.kept_ids)
      then some (record s { truncated = true; dropped = s.dropped + 1 })
      else none
  keep_node max_nodes (some i) n s =
      if member i s.kept_ids
      then some s
      else if leb max_nodes (length s.kept_ids)
      then some (record s { truncated = true; dropped = s.dropped + 1 })
      else some (record s { kept_ids = s.kept_ids ++ i ∷ []; kept_nodes = s.kept_nodes ++ n ∷ [] })

  unfoldable pub keep_nodes : ℕ → List N → Kept N → Option (Kept N)
  unfolding keep_node
  keep_nodes max_nodes [] s = some s
  keep_nodes max_nodes (n ∷ nodes) s = elim (keep_node max_nodes (keys.id n) n s) [
    | none ↦ none
    | some s' ↦ keep_nodes max_nodes nodes s'
  ]

  -- One round of the third loop.
  unfoldable pub keep_edge : ℕ → List String → E → KeptEdges E → KeptEdges E
  unfolding or_blank
  keep_edge max_edges kept_ids e s =
      if not
        (member (or_blank (keys.source e)) kept_ids && member (or_blank (keys.target e)) kept_ids)
      then record s { truncated = true; dropped = s.dropped + 1 }
      else if leb max_edges (length s.kept_edges)
      then record s { truncated = true; dropped = s.dropped + 1 }
      else record s { kept_edges = s.kept_edges ++ e ∷ [] }

  unfoldable pub keep_edges : ℕ → List String → List E → KeptEdges E → KeptEdges E
  unfolding keep_edge
  keep_edges max_edges kept_ids [] s = s
  keep_edges max_edges kept_ids (e ∷ edges) s =
      keep_edges max_edges kept_ids edges (keep_edge max_edges kept_ids e s)

  unfoldable pub bound_nodes_edges : List N → List E → ℕ → ℕ → Option String → Option (Result N E)
  unfolding start keep_nodes keep_edges
  bound_nodes_edges nodes edges max_nodes max_edges root_id =
      elim (keep_nodes max_nodes nodes (start root_id nodes)) [
        | none ↦ none
        | some s ↦
            let k =
              keep_edges max_edges s.kept_ids edges
                (record { kept_edges = []; truncated = s.truncated; dropped = s.dropped }) in
            some (record {
              nodes = s.kept_nodes;
              edges = k.kept_edges;
              truncated = k.truncated;
              dropped = k.dropped;
            })
      ]
