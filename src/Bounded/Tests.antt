-- ===== src/Bounded/Tests.antt =====
-- A graph of three nodes that is capped at two, and the theorems about the cap on it.
use sbom_graph.Prelude.{◌≡◌, true, refl, none, some, List, [], ◌∷◌, map, String, In}
use sbom_graph.Bounded.{Keys, Result, bound_nodes_edges}
use sbom_graph.Bounded.Capped.{bound_nodes_edges_complete}

record Link : Type 0 where
  from : String
  to : String

abbrev keys : Keys String Link
keys = record { id = λ n. some n; source = λ e. some e.from; target = λ e. some e.to }

abbrev nodes : List String
nodes = "a" ∷ "b" ∷ "c" ∷ []

abbrev edges : List Link
edges = record { from = "a"; to = "b" } ∷ record { from = "c"; to = "a" } ∷ []

abbrev capped : Result String Link
capped = record {
  nodes = "c" ∷ "a" ∷ [];
  edges = record { from = "c"; to = "a" } ∷ [];
  truncated = true;
  dropped = 2;
}

program : Unit {0}
unfolding bound_nodes_edges sbom_graph.Members.member
program = tt

bound_nodes_edges_complete_example :
    (r : Result String Link) × (bound_nodes_edges keys nodes edges 5 5 none ≡ some r)
    × (r.dropped ≡ 0
        → (r.edges ≡ edges) × ((n : String) → In n nodes → In (some n) (map (λ x. some x) r.nodes)))
bound_nodes_edges_complete_example =
    bound_nodes_edges_complete keys nodes edges 5 5 none (λ n m. (n, refl))
