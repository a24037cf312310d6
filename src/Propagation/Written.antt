-- ===== src/Propagation/Written.antt =====
-- What the task writes.
use sbom_graph.Prelude.{
  ℕ, true, some, List, [], ◌∷◌, String, ◌<◌, ◌≡◌, inl, inr, refl, sym, subst, In, Bool-cases,
  Option-cases, map, In-map,
}
use sbom_graph.Dict.{Dict, lookup, key_list, lookup-key, Distinct, put-Distinct, key_list-put}
use sbom_graph.Propagation.{children_of}
use sbom_graph.Propagation.Scores.{
  Floats, Scores, lookup_or, scored_deps, store, score_purl, score_all, propagate,
}
use sbom_graph.Propagation.Rounds.{IsEdge}
use sbom_graph.Propagation.Order.{reverse_topological_sort_total}
use sbom_graph.Propagation.Worst.{IsOrder, IsWorst, some_eq}
use sbom_graph.Propagation.Paths.{propagate-IsWorst}
use sbom_graph.Propagation.Task.{
  is_set, text_of, EdgeRow, ScoreRow, ScoreUpdate, written, append_child, read_edges, read_scores,
  update_of, propagate_effective_scores,
}

read_edges-Distinct :
    (rows : List EdgeRow) (d : Dict (List String)) → Distinct d → Distinct (read_edges rows d)
unfolding read_edges append_child Distinct
read_edges-Distinct [] d h = h
read_edges-Distinct (row ∷ rows) d h =
    read_edges-Distinct rows _ (elim (Bool-cases (is_set row.parent_purl)) [
      | inr e ↦ rw e h
      | inl e ↦ elim (Bool-cases (is_set row.child_purl)) [
        | inr f ↦ rw (e, f) h
        | inl f ↦ rw (e, f) (put-Distinct (text_of row.parent_purl) _ d h)
      ]
    ])

module _ {F : Type 0} (fl : Floats F) where
  read_scores-Distinct :
      (rows : List (ScoreRow F)) (d : Dict F) → Distinct d → Distinct (read_scores fl rows d)
  unfolding read_scores
  read_scores-Distinct [] d h = h
  read_scores-Distinct (row ∷ rows) d h =
      read_scores-Distinct rows _ (elim (Option-cases row.direct_score) [
        | inl e ↦ rw e h
        | inr (ds, e) ↦ elim (Bool-cases (is_set row.purl)) [
          | inr f ↦ rw (e, f) h
          | inl f ↦ rw (e, f) (put-Distinct (text_of row.purl) ds d h)
        ]
      ])

  module _ (direct_scores : Dict F) (children : Dict (List String)) (alpha decay : F) where
    -- The dictionaries have the same keys.
    score_purl_keys :
        (p : String) (s : Scores F) (deps : List String)
        → scored_deps (key_list direct_scores) (children_of children p) ≡ deps
        → key_list s.effective ≡ key_list s.min_path
        → key_list (score_purl fl direct_scores children alpha decay p s).effective
          ≡ key_list (score_purl fl direct_scores children alpha decay p s).min_path
    unfolding score_purl store
    score_purl_keys p s [] e h = rw (score_purl, e) (key_list-put p _ _ s.effective s.min_path h)
    score_purl_keys p s (dep ∷ deps) e h =
        rw (score_purl, e) (key_list-put p _ _ s.effective s.min_path h)

    score_all_keys :
        (xs : List String) (s : Scores F)
        → key_list s.effective ≡ key_list s.min_path
        → key_list (score_all fl direct_scores children alpha decay xs s).effective
          ≡ key_list (score_all fl direct_scores children alpha decay xs s).min_path
    unfolding score_all
    score_all_keys [] s h = h
    score_all_keys (x ∷ xs) s h =
        score_all_keys xs (score_purl fl direct_scores children alpha decay x s)
          (score_purl_keys x s _ refl h)

    propagate_keys :
        (s : Scores F)
        → propagate fl direct_scores children alpha decay ≡ some s
        → Distinct direct_scores
        → Distinct children
        → key_list s.effective ≡ key_list s.min_path
    unfolding propagate Distinct
    propagate_keys s e distinct keys =
        let (xs, run, once, same_nodes) =
          reverse_topological_sort_total (key_list direct_scores) children keys distinct in
        let same : score_all fl direct_scores children alpha decay xs
              (record { effective = []; inherited = []; min_path = []; dep_counts = [] })
            ≡ s =
          some_eq (rw (propagate, run) at e) in
        subst (λ t. key_list t.effective ≡ key_list t.min_path) same (score_all_keys xs _ refl)

  module _ (order : IsOrder fl) (alpha decay threshold : F) (score_rows : List (ScoreRow F))
      (edge_rows : List EdgeRow) where
    abbrev direct : Dict F
    direct = read_scores fl score_rows []

    abbrev dependencies : Dict (List String)
    dependencies = read_edges edge_rows []

    -- Where scores are totally ordered and stored rounded and the dependencies between packages with
    -- a score have no cycle (some rank falls along each), `propagate_effective_scores`, when it is not
    -- switched off, ends, and writes
    -- for each package with a direct score an update whose minimal path score is the lowest direct
    -- score among the package and all that it depends on, directly or not, through packages with scores.
    pub propagate_effective_scores-IsWorst :
        ((q : String) (v : F) → lookup q direct ≡ some v → fl.round_two v ≡ v)
        → (rank : String → ℕ)
        → ((p d : String)
            → In p (key_list direct)
            → IsEdge (key_list direct) dependencies p d
            → rank d < rank p)
        → (updates : List (ScoreUpdate F)) × (alerts : ℕ) × (propagate_effective_scores fl true
              alpha decay threshold score_rows edge_rows
            ≡ some (written updates alerts))
          × ((p : String) (v : F)
              → lookup p direct ≡ some v
              → (u : ScoreUpdate F) × In u updates
                × (u.purl ≡ p)
                × IsWorst fl order direct dependencies alpha decay p u.min_path_score)
    unfolding propagate_effective_scores update_of lookup_or Distinct key_list
    propagate_effective_scores-IsWorst rounded rank falls =
        let distinct = read_scores-Distinct score_rows [] tt in
        let keys = read_edges-Distinct edge_rows [] tt in
        let (s, run, worst) =
          propagate-IsWorst fl order direct dependencies alpha decay distinct keys rounded rank
            falls in
        rw (propagate_effective_scores, run)
          (
            map (update_of fl direct s) (key_list s.effective),
            _,
            refl,
            λ p v e.
                let (low, found, is_worst) = worst p v e in
                let there =
                  subst (λ ks. In p ks)
                    (sym (propagate_keys direct dependencies alpha decay s run distinct keys))
                    (lookup-key p low s.min_path found) in
                (
                  update_of fl direct s p,
                  In-map (update_of fl direct s) p (key_list s.effective) there,
                  refl,
                  rw (update_of, lookup_or, found) is_worst,
                ),
          )
