-- ===== src/Propagation/Tests.antt =====
-- Scores that are natural numbers, and an application that needs a library of lower score.
use sbom_graph.Prelude.{
  ℕ, ◌+◌, ◌-◌, ◌*◌, ◌/◌, ◌<◌, ◌≡◌, ◌≢◌, ◌↔◌, inl, inr, refl, sym, ◌∙◌, subst, true, none, some,
  List, [], ◌∷◌, String, ◌==◌, arith, ltb, if◌then◌else◌, In, Pairwise, text_ne,
}
use sbom_graph.Dict.{Dict, key_list, lookup}
use sbom_graph.Propagation.{children_of, reverse_topological_sort}
use sbom_graph.Propagation.Rounds.{IsEdge, IsOrdered}
use sbom_graph.Propagation.Order.{
  reverse_topological_sort_total, reverse_topological_sort-IsOrdered,
}
use sbom_graph.Propagation.Scores.{Floats}
use sbom_graph.Propagation.Worst.{IsOrder, IsWorst}
use sbom_graph.Propagation.Task.{
  EdgeRow, ScoreRow, ScoreUpdate, written, read_edges, read_scores, propagate_effective_scores,
}
use sbom_graph.Propagation.Written.{propagate_effective_scores-IsWorst}

abbrev nodes : List String
nodes = "app" ∷ "lib" ∷ []

abbrev children : Dict (List String)
children = ("app", "lib" ∷ "other" ∷ []) ∷ []

-- Two packages that need each other.
abbrev cyclic : Dict (List String)
cyclic = ("app", "lib" ∷ []) ∷ ("lib", "app" ∷ []) ∷ []

abbrev rank : String → ℕ
rank node = if node == "app" then 1 else 0

abbrev numbers : Floats ℕ
numbers = record {
  zero_float = 0;
  one_float = 1;
  five_float = 5;
  add = λ a b. a + b;
  sub = λ a b. a - b;
  mul = λ a b. a * b;
  div = λ a b. a / b;
  lt = ltb;
  round_two = λ a. a;
}

abbrev score_rows : List (ScoreRow ℕ)
score_rows =
    record { purl = some "app"; direct_score = some 8 }
    ∷ record { purl = none; direct_score = some 1 }
    ∷ record { purl = some "lib"; direct_score = some 3 }
    ∷ record { purl = some "other"; direct_score = none }
    ∷ []

abbrev edge_rows : List EdgeRow
edge_rows =
    record { parent_purl = some "app"; child_purl = some "lib" }
    ∷ record { parent_purl = some ""; child_purl = some "lib" }
    ∷ record { parent_purl = some "app"; child_purl = some "other" }
    ∷ []

program : Unit {0}
unfolding key_list reverse_topological_sort sbom_graph.Members.member propagate_effective_scores
program = tt

sort_run : reverse_topological_sort nodes children ≡ some ("lib" ∷ "app" ∷ [])
unfolding program
sort_run = refl

cyclic_run : reverse_topological_sort nodes cyclic ≡ some ("app" ∷ "lib" ∷ [])
unfolding program
cyclic_run = refl

read_run : read_edges edge_rows [] ≡ children
unfolding program
read_run = refl

propagate_run :
    propagate_effective_scores numbers true 0 1 4 score_rows edge_rows
    ≡ some (
        written
          (record {
            purl = "lib";
            effective_score = 3;
            inherited_score = 0;
            min_path_score = 3;
            dep_count = 0;
          }
            ∷ record {
              purl = "app";
              effective_score = 3;
              inherited_score = 3;
              min_path_score = 3;
              dep_count = 1;
            }
            ∷ [])
          2)
unfolding program
propagate_run = refl

nodes_distinct : Pairwise (λ (x y : String). x ≢ y) nodes
nodes_distinct = ((text_ne "app" "lib" refl, tt), (tt, tt))

falls : (p d : String) → In p nodes → IsEdge nodes children p d → rank d < rank p
unfolding IsEdge children_of program
falls p d (inr (inr h)) k = elim h [ ]
falls p d (inl e) (m, inr (inr h)) = elim h [ ]
falls p d (inr (inl e)) (m, k) = elim (subst (λ y. In d (children_of children y)) e m) [ ]
falls p d (inl e) (m, inl f) = elim (subst (λ y. In d (children_of children y)) e m) [
  | inl g ↦ absurd (text_ne "app" "lib" refl (sym f ∙ g))
  | inr (inl g) ↦ absurd (text_ne "app" "other" refl (sym f ∙ g))
  | inr (inr h) ↦ elim h [ ]
]
falls p d (inl e) (m, inr (inl f)) = rw (e, f) (omega arith)

numbers-IsOrder : IsOrder numbers
numbers-IsOrder = record {
  irrefl = λ a. ground arith;
  asym = λ a b h. ground arith;
  trans = λ a b c h k. ground arith;
}

reverse_topological_sort_total_example :
    (result : List String) × (reverse_topological_sort nodes cyclic ≡ some result)
    × Pairwise (λ (x y : String). x ≢ y) result
    × ((x : String) → In x result ↔ In x nodes)
unfolding key_list
reverse_topological_sort_total_example =
    reverse_topological_sort_total nodes cyclic nodes_distinct nodes_distinct

reverse_topological_sort-IsOrdered_example :
    (result : List String) × (reverse_topological_sort nodes children ≡ some result)
    × IsOrdered nodes children result
unfolding key_list
reverse_topological_sort-IsOrdered_example =
    reverse_topological_sort-IsOrdered nodes children (tt, tt) nodes_distinct rank falls

-- Behind a package without a score the lower score of `c` is not seen.
unscored_run :
    propagate_effective_scores numbers true 0 1 0
      (record { purl = some "a"; direct_score = some 9 }
        ∷ record { purl = some "c"; direct_score = some 2 }
        ∷ [])
      (record { parent_purl = some "a"; child_purl = some "b" }
        ∷ record { parent_purl = some "b"; child_purl = some "c" }
        ∷ [])
    ≡ some (
        written
          (record {
            purl = "a";
            effective_score = 9;
            inherited_score = 0;
            min_path_score = 9;
            dep_count = 0;
          }
            ∷ record {
              purl = "c";
              effective_score = 2;
              inherited_score = 0;
              min_path_score = 2;
              dep_count = 0;
            }
            ∷ [])
          0)
unfolding program
unscored_run = refl

propagate_effective_scores-IsWorst_example :
    (updates : List (ScoreUpdate ℕ)) × (alerts : ℕ) × (propagate_effective_scores numbers true 0 1 4
        score_rows edge_rows
      ≡ some (written updates alerts))
    × ((p : String) (v : ℕ)
        → lookup p (read_scores numbers score_rows []) ≡ some v
        → (u : ScoreUpdate ℕ) × In u updates
          × (u.purl ≡ p)
          × IsWorst numbers numbers-IsOrder
              (read_scores numbers score_rows [])
              (read_edges edge_rows [])
              0
              1
              p
              u.min_path_score)
unfolding program
propagate_effective_scores-IsWorst_example =
    propagate_effective_scores-IsWorst numbers numbers-IsOrder 0 1 4 score_rows edge_rows
      (λ q v e. refl) rank falls
