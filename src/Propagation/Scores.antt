-- ===== src/Propagation/Scores.antt =====
-- `_propagate` of sbom-graph-enrichment/src/sbom_graph_enrichment/tasks.py. Python's floats are a
-- parameter, the type `F` with its operations.
use sbom_graph.Prelude.{ℕ, ◌+◌, Bool, Option, none, some, List, [], ◌∷◌, String, if◌then◌else◌}
use sbom_graph.Members.{member}
use sbom_graph.Dict.{Dict, put, lookup, key_list}
use sbom_graph.Propagation.{children_of, reverse_topological_sort}

pub record Floats (F : Type 0) : Type 0 where
  pub zero_float : F
  pub one_float : F
  pub five_float : F
  pub add : F → F → F
  pub sub : F → F → F
  pub mul : F → F → F
  pub div : F → F → F
  -- `a < b`
  pub lt : F → F → Bool
  -- `round(x, 2)`
  pub round_two : F → F

-- The four dictionaries that are returned.
pub record Scores (F : Type 0) : Type 0 where
  pub effective : Dict F
  pub inherited : Dict F
  pub min_path : Dict F
  pub dep_counts : Dict ℕ

-- The variables of the loop over the scored dependencies of a package.
pub record Sums (F : Type 0) : Type 0 where
  pub weighted_sum : F
  pub weight_total : F
  pub local_min : F
  pub total_dep_count : ℕ

-- `d.get(key, default)`
unfoldable pub lookup_or : {A : Type 0} → String → A → Dict A → A
unfolding lookup
lookup_or key default d = elim (lookup key d) [ none ↦ default | some v ↦ v ]

-- The dependencies that are in `direct_scores`.
unfoldable pub scored_deps : List String → List String → List String
unfolding member
scored_deps scored [] = []
scored_deps scored (dep ∷ deps) =
    let rest = scored_deps scored deps in if member dep scored then dep ∷ rest else rest

module _ {F : Type 0} (fl : Floats F) where
  -- `min(a, b)`
  unfoldable pub min_float : F → F → F
  min_float a b = if fl.lt b a then b else a

  module _ (direct_scores : Dict F) (children : Dict (List String)) (alpha decay : F) where
    unfoldable pub add_dep : String → Scores F → Sums F → Sums F
    unfolding lookup_or min_float
    add_dep dep s sums =
        let dep_eff = lookup_or dep (lookup_or dep fl.five_float direct_scores) s.effective in
        let dep_min = lookup_or dep (lookup_or dep fl.five_float direct_scores) s.min_path in
        record {
          weighted_sum = fl.add sums.weighted_sum (fl.mul decay dep_eff);
          weight_total = fl.add sums.weight_total decay;
          local_min = min_float sums.local_min dep_min;
          total_dep_count = sums.total_dep_count + (1 + lookup_or dep 0 s.dep_counts);
        }

    unfoldable pub add_deps : List String → Scores F → Sums F → Sums F
    unfolding add_dep
    add_deps [] s sums = sums
    add_deps (dep ∷ deps) s sums = add_deps deps s (add_dep dep s sums)

    unfoldable pub store : String → F → F → F → ℕ → Scores F → Scores F
    unfolding put
    store purl eff inh low count s = record {
      effective = put purl eff s.effective;
      inherited = put purl inh s.inherited;
      min_path = put purl low s.min_path;
      dep_counts = put purl count s.dep_counts;
    }

    -- One package, from the scores of those before it.
    unfoldable pub score_purl : String → Scores F → Scores F
    unfolding lookup_or children_of scored_deps add_deps store
    score_purl purl s =
        let ds = lookup_or purl fl.five_float direct_scores in
        elim (scored_deps (key_list direct_scores) (children_of children purl)) [
          | [] ↦ store purl ds fl.zero_float ds 0 s
          | dep ∷ deps ↦
              let sums = add_deps (dep ∷ deps) s (record {
                weighted_sum = fl.zero_float;
                weight_total = fl.zero_float;
                local_min = ds;
                total_dep_count = 0;
              }) in
              let inh =
                if fl.lt fl.zero_float sums.weight_total
                then fl.div sums.weighted_sum sums.weight_total
                else fl.zero_float in
              let eff = fl.add (fl.mul alpha ds) (fl.mul (fl.sub fl.one_float alpha) inh) in
              store purl (fl.round_two eff) (fl.round_two inh) (fl.round_two sums.local_min)
                sums.total_dep_count s
        ]

    unfoldable pub score_all : List String → Scores F → Scores F
    unfolding score_purl
    score_all [] s = s
    score_all (purl ∷ purls) s = score_all purls (score_purl purl s)

    unfoldable pub propagate : Option (Scores F)
    unfolding reverse_topological_sort score_all
    propagate = elim (reverse_topological_sort (key_list direct_scores) children) [
      | none ↦ none
      | some order ↦ some (
          score_all order
            (record { effective = []; inherited = []; min_path = []; dep_counts = [] }))
    ]
