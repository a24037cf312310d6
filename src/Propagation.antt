-- ===== src/Propagation.antt =====
-- The order in which trust scores are propagated: `_reverse_topological_sort` of
-- sbom-graph-enrichment/src/sbom_graph_enrichment/tasks.py. The degrees that the source computes
-- and never reads are left out. A degree below 0 is not told from 0, as in the source, which only
-- asks whether it is at most 0.
pub mod Edges
pub mod Release
pub mod Rounds
pub mod Ends
pub mod Order
pub mod Scores
pub mod Worst
pub mod Paths
pub mod Task
pub mod Written
pub mod Tests
use sbom_graph.Prelude.{
  ℕ, zero, suc, ◌+◌, ◌-◌, Bool, true, false, Option, none, some, List, [], ◌∷◌, ◌++◌, String, ◌==◌,
  leb, if◌then◌else◌, length,
}
use sbom_graph.Members.{member}
use sbom_graph.Dict.{Dict, lookup}

-- `children.get(node, [])`
unfoldable pub children_of : Dict (List String) → String → List String
unfolding lookup
children_of children node = elim (lookup node children) [ none ↦ [] | some deps ↦ deps ]

-- One more `parent` for each of its dependencies that is `node`.
unfoldable pub repeat_for : String → String → List String → List String
repeat_for node parent [] = []
repeat_for node parent (dep ∷ deps) =
    let rest = repeat_for node parent deps in if dep == node then parent ∷ rest else rest

-- The parents that the loop appends for `node`.
unfoldable pub parents : List String → String → Dict (List String) → List String
unfolding member repeat_for
parents nodes node [] = []
parents nodes node ((parent, deps) ∷ children) =
    let rest = parents nodes node children in
    if member parent nodes then repeat_for node parent deps ++ rest else rest

-- `reverse_children.get(node, [])`
unfoldable pub reverse_children : List String → Dict (List String) → String → List String
unfolding member parents
reverse_children nodes children node = if member node nodes then parents nodes node children else []

-- How many of the dependencies are nodes.
unfoldable pub count_in : List String → List String → ℕ
unfolding member
count_in nodes [] = 0
count_in nodes (dep ∷ deps) =
    let rest = count_in nodes deps in if member dep nodes then rest + 1 else rest

unfoldable pub out_degree : List String → Dict (List String) → String → ℕ
unfolding count_in children_of
out_degree nodes children node = count_in nodes (children_of children node)

-- The variables of the main loop.
pub record Kahn : Type 0 where
  pub degree : String → ℕ
  pub queue : List String
  pub visited : List String
  pub result : List String

unfoldable pub set_degree : String → ℕ → (String → ℕ) → String → ℕ
set_degree node d degree other = if other == node then d else degree other

-- One round of the inner loop.
unfoldable pub release_one : String → Kahn → Kahn
unfolding member set_degree
release_one parent s = if member parent s.visited then s else record s {
  degree = set_degree parent (s.degree parent - 1) s.degree;
  queue = if leb (s.degree parent - 1) 0 then s.queue ++ parent ∷ [] else s.queue;
}

unfoldable pub release : List String → Kahn → Kahn
unfolding release_one
release [] s = s
release (parent ∷ ps) s = release ps (release_one parent s)

-- The nodes that are ready at the start.
unfoldable pub ready : (String → ℕ) → List String → List String
ready degree [] = []
ready degree (node ∷ nodes) =
    let rest = ready degree nodes in if leb (degree node) 0 then node ∷ rest else rest

-- The last loop: the nodes on cycles and above them.
unfoldable pub leftover : List String → List String → List String
unfolding member
leftover visited [] = []
leftover visited (node ∷ nodes) =
    let rest = leftover visited nodes in if member node visited then rest else node ∷ rest

-- All dependencies, which with the nodes bound the rounds.
unfoldable pub edge_count : Dict (List String) → ℕ
edge_count [] = 0
edge_count ((parent, deps) ∷ children) = length deps + edge_count children

module _ (nodes : List String) (children : Dict (List String)) where
  -- One round of the main loop, after `node` has left the queue.
  unfoldable pub visit : String → List String → Kahn → Kahn
  unfolding member release reverse_children
  visit node rest s =
      if member node s.visited
      then record s { queue = rest }
      else release (reverse_children nodes children node) (record s {
        queue = rest;
        visited = s.visited ++ node ∷ [];
        result = s.result ++ node ∷ [];
      })

  -- The main loop; `none` is running out of fuel.
  unfoldable pub drain : ℕ → Kahn → Option Kahn
  unfolding visit
  drain zero s = elim s.queue [ [] ↦ some s | node ∷ rest ↦ none ]
  drain (suc fuel) s = elim s.queue [ [] ↦ some s | node ∷ rest ↦ drain fuel (visit node rest s) ]

  unfoldable pub start : Kahn
  unfolding out_degree ready
  start = record {
    degree = out_degree nodes children;
    queue = ready (out_degree nodes children) nodes;
    visited = [];
    result = [];
  }

  unfoldable pub reverse_topological_sort : Option (List String)
  unfolding drain start leftover edge_count
  reverse_topological_sort = elim (drain (length nodes + edge_count children) start) [
    | none ↦ none
    | some s ↦ some (s.result ++ leftover s.visited nodes)
  ]
